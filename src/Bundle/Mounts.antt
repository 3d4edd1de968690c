-- ===== src/Bundle/Mounts.antt =====
-- The mounts that Bundle::load of src/bundle.cpp collects.
use mathlib.Core.List.{append-nil, append_assoc}
use runw.Common.{
  ◌≡◌, refl, sym, ◌∙◌, ap, true, false, some, List, [], ◌∷◌, ◌++◌, Text, codes, text_eq,
  if◌then◌else◌, Bool-cases, inl, inr, arith,
}
use runw.Json.{Simdjson, ◌>>=◌}
use runw.Loader.{assign, with_value}
use runw.Loader.Keeps.{Keeps, keeps_rules}
use runw.Loader.Adds.{Adds, Adds-with_value, Adds-each, collect, from_ok}
use runw.Loader.Does.{value_or, Does, folded, Does-assign, Does-with_value, Does-each}
use runw.Bundle.{Bundle, MountDesc, empty_mount}
use runw.Bundle.Root.{push_option, push_mount, load_mount_field, load_mount, load_mounts}
use runw.Bundle.Entries.{at_key, description-Adds, keyed-Adds}
use runw.Bundle.Load.{load_field, load_config, load}
use runw.Bundle.Stable.{Stable}
use runw.Bundle.Preserved.{linux-Keeps}
use runw.Bundle.Loops.{annotation-Keeps, process-Keeps, root-Keeps}

module _ (S : Simdjson) where
  -- The texts of an array.
  abbrev option_of : S.Element → List Text
  option_of x = from_ok (S.get_string x) λ v. v ∷ []

  abbrev pub texts_of : S.Element → List Text
  texts_of e = from_ok (S.get_array e) (collect option_of)

  -- A description with one entry more, by the key: later entries win, and options add up.
  abbrev pub filled_by : Text × S.Element → MountDesc → MountDesc
  filled_by (key, e) d =
      if text_eq key (codes "destination")
      then record d { destination = value_or (S.get_string e) d.destination }
      else if text_eq key (codes "options")
      then record d { options = d.options ++ texts_of e }
      else if text_eq key (codes "source")
      then record d { source = value_or (S.get_string e) d.source }
      else if text_eq key (codes "type")
      then record d { type = value_or (S.get_string e) d.type }
      else d

  -- What an element of a "mounts" array describes, and what an entry and a configuration do.
  abbrev pub mount_of : S.Element → List MountDesc
  mount_of x = from_ok (S.get_object x) λ o. folded filled_by o empty_mount ∷ []

  abbrev pub mounts_at : Text × S.Element → List MountDesc
  mounts_at (key, e) =
      if text_eq key (codes "mounts") then from_ok (S.get_array e) (collect mount_of) else []

  abbrev pub mounts_of : List (Text × S.Element) → List MountDesc
  mounts_of config = collect mounts_at config

  -- The loop over "options".
  abbrev pushed_option : S.Element → MountDesc → MountDesc
  pushed_option x d = record d { options = d.options ++ option_of x }

  option-Does :
      (x : S.Element)
      → Does (with_value (S.get_string x) λ v. assign (push_option v)) (pushed_option x)
  option-Does x =
      Does-with_value (S.get_string x) _
        (λ r d. record d { options = d.options ++ from_ok r λ v. v ∷ [] }) λ v. Does-assign _

  pushed_options :
      (xs : List S.Element) (d : MountDesc)
      → folded pushed_option xs d ≡ record d { options = d.options ++ collect option_of xs }
  unfolding folded
  pushed_options [] d = ap (λ l. record d { options = l }) (sym (append-nil d.options))
  pushed_options (x ∷ xs) d =
      pushed_options xs (pushed_option x d)
      ∙ ap (λ l. record d { options = l }) (append_assoc d.options _ _)

  FieldDoes : Text → S.Element → Type 0
  FieldDoes key e = Does (load_mount_field S (key, e)) (filled_by (key, e))

  destination-Does : (e : S.Element) → FieldDoes (codes "destination") e
  unfolding FieldDoes load_mount_field text_eq
  destination-Does e =
      Does-with_value (S.get_string e) _
        (λ r d. record d { destination = value_or r d.destination }) λ v. Does-assign _

  source-Does : (e : S.Element) → FieldDoes (codes "source") e
  unfolding FieldDoes load_mount_field text_eq
  source-Does e =
      Does-with_value (S.get_string e) _ (λ r d. record d { source = value_or r d.source })
        λ v. Does-assign _

  type-Does : (e : S.Element) → FieldDoes (codes "type") e
  unfolding FieldDoes load_mount_field text_eq
  type-Does e =
      Does-with_value (S.get_string e) _ (λ r d. record d { type = value_or r d.type })
        λ v. Does-assign _

  options-Does : (e : S.Element) → FieldDoes (codes "options") e
  unfolding FieldDoes load_mount_field text_eq
  options-Does e =
      Does-with_value (S.get_array e) _
        (λ r d. record d { options = d.options ++ from_ok r (collect option_of) })
        λ xs. record {
          at = λ d done. (Does-each _ pushed_option xs option-Does).at d done ∙ pushed_options xs d;
        }

  other-Does :
      (key : Text) (e : S.Element)
      → text_eq key (codes "destination") ≡ false
      → text_eq key (codes "options") ≡ false
      → text_eq key (codes "source") ≡ false
      → text_eq key (codes "type") ≡ false
      → FieldDoes key e
  unfolding FieldDoes load_mount_field
  other-Does key e d o s t = record { at = λ b h. ground arith }

  field-Does : (x : Text × S.Element) → Does (load_mount_field S x) (filled_by x)
  unfolding FieldDoes
  field-Does (key, e) = elim (Bool-cases (text_eq key (codes "destination"))) [
    | inl d ↦ at_key (λ k. FieldDoes k e) key (codes "destination") d (destination-Does e)
    | inr d ↦ elim (Bool-cases (text_eq key (codes "options"))) [
      | inl o ↦ at_key (λ k. FieldDoes k e) key (codes "options") o (options-Does e)
      | inr o ↦ elim (Bool-cases (text_eq key (codes "source"))) [
        | inl s ↦ at_key (λ k. FieldDoes k e) key (codes "source") s (source-Does e)
        | inr s ↦ elim (Bool-cases (text_eq key (codes "type"))) [
          | inl t ↦ at_key (λ k. FieldDoes k e) key (codes "type") t (type-Does e)
          | inr t ↦ other-Does key e d o s t
        ]
      ]
    ]
  ]

  mount-Adds : (x : S.Element) → Adds (λ b. b.mounts) (load_mount S x) (mount_of x)
  unfolding load_mount
  mount-Adds =
      description-Adds (λ b. b.mounts) push_mount (λ d b. refl) S (load_mount_field S) filled_by
        empty_mount field-Does

  mounts-Adds :
      (xs : List S.Element) → Adds (λ b. b.mounts) (load_mounts S xs) (collect mount_of xs)
  unfolding load_mounts
  mounts-Adds xs = Adds-each (load_mount S) mount_of xs mount-Adds

abbrev SameMounts : List MountDesc → Bundle → Type 0
SameMounts l b = b.mounts ≡ l

SameMounts-Stable : (S : Simdjson) (l : List MountDesc) → Stable S (SameMounts l)
SameMounts-Stable S l = record {
  set_oci_version = λ v b i. i;
  set_terminal = λ v b i. i;
  set_console_width = λ v b _ i. i;
  set_console_height = λ v b _ i. i;
  set_cwd = λ v b i. i;
  set_no_new_privileges = λ v b i. i;
  set_oom_score_adj = λ v b _ i. i;
  set_uid = λ v b _ i. i;
  set_gid = λ v b _ i. i;
  set_u_mask = λ v b _ i. i;
  set_root_path = λ v b i. i;
  set_root_readonly = λ v b i. i;
  set_cgroups_path = λ v b i. i;
  set_resources_memory_limit = λ v b _ i. i;
  set_resources_memory_reservation = λ v b _ i. i;
  add_arg = λ v b i. i;
  add_env = λ v b i. i;
  add_cmd = λ v b i. i;
  add_effective = λ v b i. i;
  add_bounding = λ v b i. i;
  add_inheritable = λ v b i. i;
  add_permitted = λ v b i. i;
  add_ambient = λ v b i. i;
  add_gid = λ v b _ i. i;
  add_uid_mapping = λ v b _ i. i;
  add_device = λ v b _ i. i;
  add_limit = λ t s h b _ _ i. i;
}

module _ (S : Simdjson) where
  other_field-Keeps :
      (key : Text) (e : S.Element) (l : List MountDesc)
      → text_eq key (codes "mounts") ≡ false
      → Keeps (SameMounts l) (load_field S (key, e))
  unfolding load_field
  other_field-Keeps key e l n = rw n (
      let st = SameMounts-Stable S l in
      search
        (
          keeps_rules,
          annotation-Keeps S st,
          process-Keeps S st,
          root-Keeps S st,
          linux-Keeps S st,
          st.set_oci_version,
        )
        depth 16)

  mounts_entry-Adds :
      (e : S.Element)
      → Adds
          (λ b. b.mounts)
          (load_field S (codes "mounts", e))
          (from_ok (S.get_array e) (collect (mount_of S)))
  unfolding load_field text_eq
  mounts_entry-Adds e =
      Adds-with_value (S.get_array e) _ (collect (mount_of S)) λ xs. mounts-Adds S xs

  field-Adds : (x : Text × S.Element) → Adds (λ b. b.mounts) (load_field S x) (mounts_at S x)
  field-Adds (key, e) =
      keyed-Adds (λ b. b.mounts) (load_field S)
        (λ e. from_ok (S.get_array e) (collect (mount_of S))) (codes "mounts") key e
        (mounts_entry-Adds e) (λ n l. other_field-Keeps key e l n)

  pub load-mounts_of :
      (text : Text) (b : Bundle)
      → (load S (some text) b).1 ≡ true
      → (load S (some text) b).0.mounts
        ≡ b.mounts ++ from_ok (S.parse text >>= S.get_object) (mounts_of S)
  unfolding load load_config
  load-mounts_of text =
      (Adds-with_value (S.parse text >>= S.get_object) _ (mounts_of S)
        λ o. Adds-each (load_field S) (mounts_at S) o field-Adds).at
