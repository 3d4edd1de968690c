-- ===== src/State/Load.antt =====
-- `State::load` and `State::loadBundle` of src/state.cpp.
use runw.Common.{ℤ, to_int32, Bool, true, false, Option, none, some, Text, codes, text_eq}
use runw.FilePath.{join}
use runw.Json.{Simdjson, Result, err, other, ◌>>=◌}
use runw.Loader.{Step, assign, when, then_do, with_value}
use runw.Bundle.{Bundle}
use runw.Bundle.Load
use runw.State.{State}
use runw.State.Status.{StatusCode, unknown, parse_status}
use runw.State.Print.{oci_version, has_pid, has_created, has_started, is_stopped}

-- The regular files that can be read, by path.
abbrev pub Files : Type 0
Files = Text → Option Text

abbrev pub with_config : State → Bundle × Bool → State × Bool
with_config s (b, done) = (record s { config = b }, done)

abbrev pub is_known : StatusCode → Bool
is_known unknown = false
is_known _ = true

module _ (S : Simdjson) where
  open S use {Element, get_string, get_bool, get_int64, at, parse}

  abbrev pub text_at : Element → Text → Result Text
  text_at e k = at e k >>= get_string

  abbrev pub bool_at : Element → Text → Result Bool
  bool_at e k = at e k >>= get_bool

  abbrev pub int_at : Element → Text → Result ℤ
  int_at e k = at e k >>= get_int64

  -- `Parser.load(Path)`; a file that cannot be read is an error.
  abbrev pub parse_file : Option Text → Result Element
  parse_file none = err (other 0)
  parse_file (some text) = parse text

  unfoldable pub load_version : Element → Step State
  load_version e = with_value (text_at e (codes "ociVersion")) λ v s. (s, text_eq v oci_version)

  -- The status is stored before it is verified.
  unfoldable pub load_status : Element → Step State
  load_status e =
      with_value (text_at e (codes "status"))
        λ v s. (record s { status = parse_status v }, is_known (parse_status v))

  unfoldable pub load_identity : Element → Step State
  load_identity e =
      then_do (with_value (text_at e (codes "id")) λ v. assign λ s. record s { container_id = v }) (
        then_do
          (with_value (text_at e (codes "bundle")) λ v. assign λ s. record s { bundle_path = v })
          (with_value (bool_at e (codes "systemd-cgroup"))
            λ v. assign λ s. record s { systemd_cgroup = v }))

  unfoldable pub load_pid : Element → Step State
  load_pid e s =
      when (has_pid s.status)
        (with_value (int_at e (codes "pid")) λ v. assign λ s'. record s' { pid = to_int32 v }) s

  unfoldable pub load_created : Element → Step State
  load_created e s =
      when (has_created s.status)
        (with_value (text_at e (codes "created"))
          λ v. assign λ s'. record s' { created_timestamp = v })
        s

  unfoldable pub load_started : Element → Step State
  load_started e s =
      when (has_started s.status)
        (with_value (text_at e (codes "started"))
          λ v. assign λ s'. record s' { started_timestamp = v })
        s

  unfoldable pub load_finished : Element → Step State
  load_finished e s =
      when (is_stopped s.status)
        (then_do
          (with_value (int_at e (codes "exitCode"))
            λ v. assign λ s'. record s' { exit_code = to_int32 v })
          (with_value (text_at e (codes "finished"))
            λ v. assign λ s'. record s' { finished_timestamp = v }))
        s

  unfoldable pub load_bundle : Files → Text → Step State
  load_bundle files config_name s =
      with_config s (Load.load S (files (join s.bundle_path config_name)) s.config)

  unfoldable pub load_members : Element → Step State
  unfolding load_version load_status load_identity load_pid load_created load_started load_finished
  load_members e = then_do (load_version e) (
      then_do (load_status e) (
        then_do (load_identity e) (
          then_do (load_pid e)
            (then_do (load_created e) (then_do (load_started e) (load_finished e))))))

  unfoldable pub load : Files → Text → Text → Step State
  unfolding load_members load_bundle
  load files path config_name =
      with_value (parse_file (files path))
        λ e. then_do (load_members e) (load_bundle files config_name)
