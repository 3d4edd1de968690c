-- ===== src/State/Print.antt =====
-- `State::print` of src/state.cpp, and that what it writes is one JSON object.
use runw.Common.{◌≡◌, refl, Bool, true, false, List, [], ◌∷◌, ◌++◌, Text, codes, if◌then◌else◌}
use runw.State.{State}
use runw.State.Status.{StatusCode, unknown, creating, created, running, stopped, status_string}
use runw.State.Escape.{quote, json_escape, escape_byte, all_plain, json_escape-all_plain}
use runw.State.Decimal.{print_int}
use runw.State.Document.{Member, str, int, bool, emit, emit_more, emit_value}

abbrev pub oci_version : Text
oci_version = codes "1.0.2"

-- `std::boolalpha`.
abbrev pub print_bool : Bool → Text
print_bool true = codes "true"
print_bool false = codes "false"

-- The tests `Status == Created || Status == Running` and so on.
abbrev pub has_pid : StatusCode → Bool
has_pid created = true
has_pid running = true
has_pid _ = false

abbrev pub has_created : StatusCode → Bool
has_created created = true
has_created running = true
has_created stopped = true
has_created _ = false

abbrev pub has_started : StatusCode → Bool
has_started running = true
has_started stopped = true
has_started _ = false

abbrev pub is_stopped : StatusCode → Bool
is_stopped stopped = true
is_stopped _ = false

-- What each `if` writes, and then the rest.
unfoldable pub print_pid : StatusCode → State → Text → Text
print_pid status s rest = if has_pid status then codes ",\"pid\":" ++ print_int s.pid rest else rest

unfoldable pub print_created : StatusCode → State → Text → Text
print_created status s rest =
    if has_created status
    then codes ",\"created\":\"" ++ (s.created_timestamp ++ quote ∷ rest)
    else rest

unfoldable pub print_started : StatusCode → State → Text → Text
print_started status s rest =
    if has_started status
    then codes ",\"started\":\"" ++ (s.started_timestamp ++ quote ∷ rest)
    else rest

unfoldable pub print_finished : StatusCode → State → Text → Text
print_finished status s rest =
    if is_stopped status
    then codes ",\"exitCode\":"
      ++ print_int s.exit_code (codes ",\"finished\":\"" ++ (s.finished_timestamp ++ quote ∷ rest))
    else rest

unfoldable pub print_tail : StatusCode → State → Text
unfolding print_pid print_created print_started print_finished
print_tail status s =
    print_pid status s
      (print_created status s (print_started status s (print_finished status s (codes "}\n"))))

unfoldable pub print : State → Text
unfolding print_tail
print s =
    codes "{\"ociVersion\":\""
    ++ (oci_version
        ++ (codes "\",\"id\":\""
            ++ (json_escape s.container_id
                ++ (codes "\",\"status\":\""
                    ++ (status_string s.status
                        ++ (codes "\",\"bundle\":\""
                            ++ (json_escape s.bundle_path
                                ++ (codes "\",\"systemd-cgroup\":"
                                    ++ (print_bool s.systemd_cgroup
                                        ++ print_tail s.status s)))))))))

-- The members of the object.
abbrev pub tail_members : StatusCode → State → List Member
tail_members created s = (codes "pid", int s.pid) ∷ (codes "created", str s.created_timestamp) ∷ []
tail_members running s =
    (codes "pid", int s.pid)
    ∷ (codes "created", str s.created_timestamp)
    ∷ (codes "started", str s.started_timestamp)
    ∷ []
tail_members stopped s =
    (codes "created", str s.created_timestamp)
    ∷ (codes "started", str s.started_timestamp)
    ∷ (codes "exitCode", int s.exit_code)
    ∷ (codes "finished", str s.finished_timestamp)
    ∷ []
tail_members _ s = []

abbrev pub first_member : Member
first_member = (codes "ociVersion", str oci_version)

abbrev pub more_members : State → List Member
more_members s =
    (codes "id", str s.container_id)
    ∷ (codes "status", str (status_string s.status))
    ∷ (codes "bundle", str s.bundle_path)
    ∷ (codes "systemd-cgroup", bool s.systemd_cgroup)
    ∷ tail_members s.status s

-- The time stamps are not escaped when they are printed.
pub record PlainTimes (s : State) : Type 0 where
  pub created : all_plain s.created_timestamp ≡ true
  pub started : all_plain s.started_timestamp ≡ true
  pub finished : all_plain s.finished_timestamp ≡ true

print_tail-emit_more :
    (status : StatusCode) (s : State)
    → PlainTimes s
    → print_tail status s ≡ emit_more (tail_members status s)
unfolding print emit json_escape escape_byte
print_tail-emit_more unknown s p = refl
print_tail-emit_more creating s p = refl
print_tail-emit_more created s p = rw (json_escape-all_plain _ p.created)
print_tail-emit_more running s p =
    rw (json_escape-all_plain _ p.created) (rw (json_escape-all_plain _ p.started))
print_tail-emit_more stopped s p =
    rw (json_escape-all_plain _ p.created)
      (rw (json_escape-all_plain _ p.started) (rw (json_escape-all_plain _ p.finished)))

json_escape-status_string : (c : StatusCode) → json_escape (status_string c) ≡ status_string c
unfolding json_escape escape_byte status_string
json_escape-status_string unknown = refl
json_escape-status_string creating = refl
json_escape-status_string created = refl
json_escape-status_string running = refl
json_escape-status_string stopped = refl

emit_value-bool : (b : Bool) (rest : Text) → emit_value (bool b) rest ≡ print_bool b ++ rest
unfolding emit_value
emit_value-bool true rest = refl
emit_value-bool false rest = refl

emit_head :
    (s : State) (rest : List Member)
    → emit (
        first_member
        ∷ (codes "id", str s.container_id)
        ∷ (codes "status", str (status_string s.status))
        ∷ (codes "bundle", str s.bundle_path)
        ∷ (codes "systemd-cgroup", bool s.systemd_cgroup)
        ∷ rest)
      ≡ codes "{\"ociVersion\":\""
        ++ (oci_version
            ++ (codes "\",\"id\":\""
                ++ (json_escape s.container_id
                    ++ (codes "\",\"status\":\""
                        ++ (json_escape (status_string s.status)
                            ++ (codes "\",\"bundle\":\""
                                ++ (json_escape s.bundle_path
                                    ++ (codes "\",\"systemd-cgroup\":"
                                        ++ emit_value
                                            (bool s.systemd_cgroup)
                                            (emit_more rest)))))))))
unfolding emit json_escape escape_byte
emit_head s rest = refl

-- What `print` writes is the layout of one JSON object with the members of the status.
pub print-emit : (s : State) → PlainTimes s → print s ≡ emit (first_member ∷ more_members s)
unfolding print
print-emit s p =
    rw (print_tail-emit_more s.status s p, emit_head, json_escape-status_string, emit_value-bool)
