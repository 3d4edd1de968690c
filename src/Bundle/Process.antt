-- ===== src/Bundle/Process.antt =====
-- `loadProcess` of src/bundle.cpp: the "process" object of the configuration.
use runw.Common.{ℤ, ◌==◌, false, List, [], ◌∷◌, ◌++◌, Text, codes, text_eq, if◌then◌else◌}
use runw.Json.{Simdjson, Result, ok, err, no_such_field, ◌>>=◌}
use runw.Loader.{Step, skip, assign, when, then_do, with_value, each, first, get_int, get_uint}
use runw.Bundle.{Bundle}

abbrev pub push_arg : Text → Bundle → Bundle
push_arg v b = record b { args = b.args ++ v ∷ [] }

abbrev pub push_env : Text → Bundle → Bundle
push_env v b = record b { envs = b.envs ++ v ∷ [] }

abbrev pub push_effective : Text → Bundle → Bundle
push_effective v b = record b { effective_capabilities = b.effective_capabilities ++ v ∷ [] }

abbrev pub push_bounding : Text → Bundle → Bundle
push_bounding v b = record b { bounding_capabilities = b.bounding_capabilities ++ v ∷ [] }

abbrev pub push_inheritable : Text → Bundle → Bundle
push_inheritable v b = record b { inheritable_capabilities = b.inheritable_capabilities ++ v ∷ [] }

abbrev pub push_permitted : Text → Bundle → Bundle
push_permitted v b = record b { permitted_capabilities = b.permitted_capabilities ++ v ∷ [] }

abbrev pub push_ambient : Text → Bundle → Bundle
push_ambient v b = record b { ambient_capabilities = b.ambient_capabilities ++ v ∷ [] }

abbrev pub push_limit : Text → ℤ → ℤ → Bundle → Bundle
push_limit type soft hard b = record b { r_limits = b.r_limits ++ (type, soft, hard) ∷ [] }

abbrev pub push_gid : ℤ → Bundle → Bundle
push_gid v b = record b { additional_gids = b.additional_gids ++ v ∷ [] }

module _ (S : Simdjson) where
  open S use {Element, get_string, get_bool, get_int64, get_array, get_object, at_key}

  -- An array of strings, each appended to a member as it is read.
  unfoldable pub load_strings : (Text → Bundle → Bundle) → Element → Step Bundle
  load_strings push e =
      with_value (get_array e) (each λ x. with_value (get_string x) λ v. assign (push v))

  unfoldable pub load_console_field : Text × Element → Step Bundle
  load_console_field (key, e) =
      if first key == b'h'
      then when (text_eq key (codes "height"))
          (with_value (get_uint S 32 e) λ v. assign λ b. record b { console_height = v })
      else if first key == b'w'
      then when (text_eq key (codes "width"))
          (with_value (get_uint S 32 e) λ v. assign λ b. record b { console_width = v })
      else skip

  -- `loadCapability`: an absent set is no error.
  unfoldable pub load_capability_names : (Text → Bundle → Bundle) → Result Element → Step Bundle
  load_capability_names push (ok e) = load_strings push e
  load_capability_names push (err no_such_field) = skip
  load_capability_names push (err _) = λ b. (b, false)

  unfoldable pub load_capabilities : List (Text × Element) → Step Bundle
  load_capabilities caps =
      then_do (load_capability_names push_effective (at_key caps (codes "effective"))) (
        then_do (load_capability_names push_bounding (at_key caps (codes "bounding"))) (
          then_do (load_capability_names push_inheritable (at_key caps (codes "inheritable"))) (
            then_do (load_capability_names push_permitted (at_key caps (codes "permitted")))
              (load_capability_names push_ambient (at_key caps (codes "ambient"))))))

  unfoldable pub load_limit : Element → Step Bundle
  load_limit x = with_value (get_object x) λ o.
      with_value (do t ← at_key o (codes "type"); get_string t)
        λ type.
          with_value (do t ← at_key o (codes "soft"); get_int64 t)
            λ soft.
              with_value (do t ← at_key o (codes "hard"); get_int64 t)
                λ hard. assign (push_limit type soft hard)

  unfoldable pub load_user_field : Text × Element → Step Bundle
  load_user_field (key, e) =
      if first key == b'u'
      then (if text_eq key (codes "uid")
          then with_value (get_int S 32 e) (λ v. assign λ b. record b { uid = v })
          else when (text_eq key (codes "umask"))
              (with_value (get_int S 32 e) λ v. assign λ b. record b { u_mask = v }))
      else if first key == b'g'
      then when (text_eq key (codes "gid"))
          (with_value (get_int S 32 e) λ v. assign λ b. record b { gid = v })
      else if first key == b'a'
      then when (text_eq key (codes "additionalGids")) (
          with_value (get_array e) (each λ x. with_value (get_int S 32 x) λ v. assign (push_gid v)))
      else skip

  -- The case 'c' of the switch.
  unfoldable pub load_process_c : Text → Element → Step Bundle
  load_process_c key e =
      if text_eq key (codes "consoleSize")
      then with_value (get_object e) (each load_console_field)
      else if text_eq key (codes "cwd")
      then with_value (get_string e) (λ v. assign λ b. record b { cwd = v })
      else when (text_eq key (codes "capabilities")) (with_value (get_object e) load_capabilities)

  -- The body of the loop. The limits are looked up in the whole object once more.
  unfoldable pub load_process_field : List (Text × Element) → Text × Element → Step Bundle
  load_process_field process (key, e) =
      if first key == b'a'
      then when (text_eq key (codes "args")) (load_strings push_arg e)
      else if first key == b'c'
      then load_process_c key e
      else if first key == b'e'
      then when (text_eq key (codes "env")) (load_strings push_env e)
      else if first key == b'n'
      then when (text_eq key (codes "noNewPrivileges"))
          (with_value (get_bool e) λ v. assign λ b. record b { no_new_privileges = v })
      else if first key == b'o'
      then when (text_eq key (codes "oomScoreAdj"))
          (with_value (get_int S 32 e) λ v. assign λ b. record b { oom_score_adj = v })
      else if first key == b'r'
      then when (text_eq key (codes "rlimits"))
          (with_value (do t ← at_key process (codes "rlimits"); get_array t) (each load_limit))
      else if first key == b't'
      then when (text_eq key (codes "terminal"))
          (with_value (get_bool e) λ v. assign λ b. record b { terminal = v })
      else if first key == b'u'
      then when (text_eq key (codes "user")) (with_value (get_object e) (each load_user_field))
      else skip

  unfoldable pub load_process : List (Text × Element) → Step Bundle
  load_process process = each (load_process_field process) process
