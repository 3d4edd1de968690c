-- ===== src/State/RoundTrip.antt =====
-- A state that is printed and loaded again.
use runw.Common.{
  ◌≡◌, ◌≢◌, refl, ◌≤ℤ◌, ℤ, to_int32, int_min, int_max, Bool, true, some, List, ◌∷◌, ◌&&◌, Text,
  codes, text_eq, arith, if◌then◌else◌,
}
use runw.FilePath.{join}
use runw.Json.{Simdjson, IsLawful, ok}
use runw.Bundle.Load
use runw.State.{State}
use runw.State.Status.{
  StatusCode, unknown, creating, created, running, stopped, status_string,
  parse_status-status_string,
}
use runw.State.Escape.{all_escapable, all_plain, all_escapable-all_plain}
use runw.State.Decimal.{fits_int64}
use runw.State.Document.{Member, read_document, read_document-emit, members_fit, all_ascii}
use runw.State.Print.{
  oci_version, has_pid, has_created, has_started, is_stopped, print, PlainTimes, print-emit,
  first_member, more_members,
}
use runw.State.Load.{Files, text_at, bool_at, int_at, with_config, load_members, load}
use runw.State.Denotes.{Denotes, ReadsJson, text_of, int_of, bool_of}

-- What can be printed: a known status, texts that JSON holds without an escape of its own, times as
-- `strftime` writes them, and integers of their types.
abbrev pub text_fits : Text → Bool
text_fits v = all_escapable v && all_ascii v

abbrev pub time_fits : Text → Bool
time_fits v = all_plain v && all_ascii v

pub record Printable (s : State) : Type 0 where
  pub known : s.status ≢ unknown
  pub id : text_fits s.container_id ≡ true
  pub bundle : text_fits s.bundle_path ≡ true
  pub created_time : time_fits s.created_timestamp ≡ true
  pub started_time : time_fits s.started_timestamp ≡ true
  pub finished_time : time_fits s.finished_timestamp ≡ true
  pub pid_range : (int_min 32 ≤ℤ s.pid) × (s.pid ≤ℤ int_max 32)
  pub exit_range : (int_min 32 ≤ℤ s.exit_code) × (s.exit_code ≤ℤ int_max 32)

to_int32_self : (z : ℤ) → int_min 32 ≤ℤ z → z ≤ℤ int_max 32 → to_int32 z ≡ z
to_int32_self z lo hi = ground arith

fits_int64_of_32 : (z : ℤ) → int_min 32 ≤ℤ z → z ≤ℤ int_max 32 → fits_int64 z ≡ true
fits_int64_of_32 z lo hi = ground arith

-- The state that a load of the printed text of `s` into `t` gives, the bundle apart.
abbrev pub merged : State → State → State
merged s t = record t {
  container_id = s.container_id;
  bundle_path = s.bundle_path;
  created_timestamp = if has_created s.status then s.created_timestamp else t.created_timestamp;
  started_timestamp = if has_started s.status then s.started_timestamp else t.started_timestamp;
  finished_timestamp = if is_stopped s.status then s.finished_timestamp else t.finished_timestamp;
  status = s.status;
  exit_code = if is_stopped s.status then s.exit_code else t.exit_code;
  pid = if has_pid s.status then s.pid else t.pid;
  systemd_cgroup = s.systemd_cgroup;
}

abbrev members : State → List Member
members s = first_member ∷ more_members s

module _ (S : Simdjson) (L : IsLawful S) (e : S.Element) (o : List (Text × S.Element))
    (obj : S.get_object e ≡ ok o) where
  -- What every state file has, as `load` reads it.
  record Head (s : State) : Type 0 where
    version : text_at S e (codes "ociVersion") ≡ ok oci_version
    status : text_at S e (codes "status") ≡ ok (status_string s.status)
    id : text_at S e (codes "id") ≡ ok s.container_id
    bundle : text_at S e (codes "bundle") ≡ ok s.bundle_path
    systemd : bool_at S e (codes "systemd-cgroup") ≡ ok s.systemd_cgroup

  members-Head : (s : State) → Denotes S (members s) o → Head s
  unfolding text_eq
  members-Head s d = record {
    version = text_of S L e o obj (members s) d _ _ refl;
    status = text_of S L e o obj (members s) d _ _ refl;
    id = text_of S L e o obj (members s) d _ _ refl;
    bundle = text_of S L e o obj (members s) d _ _ refl;
    systemd = bool_of S L e o obj (members s) d _ _ refl;
  }

  load_members_lem :
      (c : StatusCode) (s t : State)
      → Denotes S (members (record s { status = c })) o
      → Printable (record s { status = c })
      → load_members S e t ≡ (merged (record s { status = c }) t, true)
  unfolding load_members text_eq
  load_members_lem unknown s t d p = absurd (p.known refl)
  load_members_lem creating s t d p =
      let h = members-Head (record s { status = creating }) d in
      simp (h.version, h.status, h.id, h.bundle, h.systemd, parse_status-status_string)
  load_members_lem created s t d p =
      let h = members-Head (record s { status = created }) d in
      let ms = members (record s { status = created }) in
      let pid : int_at S e (codes "pid") ≡ ok s.pid = int_of S L e o obj ms d _ _ refl in
      let time : text_at S e (codes "created") ≡ ok s.created_timestamp =
        text_of S L e o obj ms d _ _ refl in
      simp (
        h.version,
        h.status,
        h.id,
        h.bundle,
        h.systemd,
        parse_status-status_string,
        pid,
        time,
        to_int32_self _ p.pid_range.0 p.pid_range.1,
      )
  load_members_lem running s t d p =
      let h = members-Head (record s { status = running }) d in
      let ms = members (record s { status = running }) in
      let pid : int_at S e (codes "pid") ≡ ok s.pid = int_of S L e o obj ms d _ _ refl in
      let time : text_at S e (codes "created") ≡ ok s.created_timestamp =
        text_of S L e o obj ms d _ _ refl in
      let start : text_at S e (codes "started") ≡ ok s.started_timestamp =
        text_of S L e o obj ms d _ _ refl in
      simp (
        h.version,
        h.status,
        h.id,
        h.bundle,
        h.systemd,
        parse_status-status_string,
        pid,
        time,
        start,
        to_int32_self _ p.pid_range.0 p.pid_range.1,
      )
  load_members_lem stopped s t d p =
      let h = members-Head (record s { status = stopped }) d in
      let ms = members (record s { status = stopped }) in
      let time : text_at S e (codes "created") ≡ ok s.created_timestamp =
        text_of S L e o obj ms d _ _ refl in
      let start : text_at S e (codes "started") ≡ ok s.started_timestamp =
        text_of S L e o obj ms d _ _ refl in
      let exit : int_at S e (codes "exitCode") ≡ ok s.exit_code =
        int_of S L e o obj ms d _ _ refl in
      let finish : text_at S e (codes "finished") ≡ ok s.finished_timestamp =
        text_of S L e o obj ms d _ _ refl in
      simp (
        h.version,
        h.status,
        h.id,
        h.bundle,
        h.systemd,
        parse_status-status_string,
        time,
        start,
        exit,
        finish,
        to_int32_self _ p.exit_range.0 p.exit_range.1,
      )

members_fit_lem :
    (c : StatusCode) (s : State)
    → Printable (record s { status = c })
    → members_fit (members (record s { status = c })) ≡ true
unfolding all_escapable all_ascii status_string
members_fit_lem unknown s p = absurd (p.known refl)
members_fit_lem c s p = ground (
  arith,
  fits_int64_of_32 s.pid,
  fits_int64_of_32 s.exit_code,
  all_escapable-all_plain s.created_timestamp,
  all_escapable-all_plain s.started_timestamp,
  all_escapable-all_plain s.finished_timestamp,
)

Printable-PlainTimes : (s : State) → Printable s → PlainTimes s
Printable-PlainTimes s p = ground arith

-- Loading a file that `print` wrote succeeds exactly as far as the bundle's configuration loads, and
-- takes from the file the id, the bundle, the status, the cgroup flag, and each further member that
-- the status has; what the status does not have stays as it was. This holds for every parser that
-- reads JSON, and for a state whose texts are printable ASCII and whose integers fit their types.
pub load-print :
    (S : Simdjson)
    → IsLawful S
    → ReadsJson S
    → (files : Files) (path config_name : Text) (s t : State) → Printable s
    → files path ≡ some (print s)
    → load S files path config_name t
      ≡ with_config (merged s t) (Load.load S (files (join s.bundle_path config_name)) t.config)
unfolding load
load-print S L json files path config_name s t p file =
    let text : read_document (print s) ≡ some (members s) =
      rw (print-emit s (Printable-PlainTimes s p))
        (read_document-emit first_member (more_members s) (members_fit_lem s.status s p)) in
    let (e, o, parsed, obj, d) =
      json.reads (print s) (members s) text (members_fit_lem s.status s p) in
    simp (file, parsed, load_members_lem S L e o obj s.status s t d p)
