-- ===== src/Bundle/Keys.antt =====
-- The switches on the first byte of a key in src/bundle.cpp: which keys they know, and that they
-- choose as the comparisons of whole keys alone would.
use runw.Common.{
  ◌≡◌, ◌||◌, Bool, true, false, List, ◌∷◌, ◌++◌, Text, codes, text_eq, text_eq_iff, arith,
  if◌then◌else◌, ap,
}
use runw.Json.{Simdjson, ◌>>=◌}
use runw.Loader.{Step, skip, assign, with_value, each, first, each-skip, get_int}
use runw.Bundle.{Bundle}
use runw.Bundle.Process.{
  load_process, load_process_field, load_process_c, load_strings, push_arg, push_env, load_limit,
  load_user_field, load_capabilities, load_console_field,
}
use runw.Bundle.Root.{load_root, load_mounts}
use runw.Bundle.Linux.{
  load_linux, load_linux_field, load_namespace, load_uid_mapping, load_gid_mapping, load_device,
  load_resources_field,
}
use runw.Bundle.Load.{load_field, load_config, load_annotation}

-- A key that equals a text begins as that text does.
first_of_text_eq : (k t : Text) → text_eq k t ≡ true → first k ≡ first t
first_of_text_eq k t h = ap first ((text_eq_iff k t).0 h)

abbrev pub known_config : Text → Bool
known_config k =
    text_eq k (codes "annotations")
    || text_eq k (codes "mounts")
    || text_eq k (codes "ociVersion")
    || text_eq k (codes "process")
    || text_eq k (codes "root")
    || text_eq k (codes "linux")

abbrev pub known_linux : Text → Bool
known_linux k =
    text_eq k (codes "namespaces")
    || text_eq k (codes "uidMappings")
    || text_eq k (codes "gidMappings")
    || text_eq k (codes "devices")
    || text_eq k (codes "cgroupsPath")
    || text_eq k (codes "resources")

module _ (S : Simdjson) where
  config_field_skips :
      (k : Text) (e : S.Element) (b : Bundle)
      → known_config k ≡ false
      → load_field S (k, e) b ≡ (b, true)
  unfolding load_field
  config_field_skips k e b h = ground arith

  linux_field_skips :
      (k : Text) (e : S.Element) (b : Bundle)
      → known_linux k ≡ false
      → load_linux_field S (k, e) b ≡ (b, true)
  unfolding load_linux_field
  linux_field_skips k e b h = ground arith

  unknown_config_ignored :
      (xs ys : List (Text × S.Element)) (k : Text) (e : S.Element) (b : Bundle)
      → known_config k ≡ false
      → load_config S (xs ++ (k, e) ∷ ys) b ≡ load_config S (xs ++ ys) b
  unfolding load_config
  unknown_config_ignored xs ys k e b h =
      each-skip (load_field S) xs (k, e) ys b (λ t. config_field_skips k e t h)

  unknown_linux_ignored :
      (xs ys : List (Text × S.Element)) (k : Text) (e : S.Element) (b : Bundle)
      → known_linux k ≡ false
      → load_linux S (xs ++ (k, e) ∷ ys) b ≡ load_linux S (xs ++ ys) b
  unfolding load_linux
  unknown_linux_ignored xs ys k e b h =
      each-skip (load_linux_field S) xs (k, e) ys b (λ t. linux_field_skips k e t h)

  -- An entry with an unknown key, at any place of the configuration or of its "linux" object, has no
  -- effect: the result, with its success or failure, is that without the entry.
  pub unknown_ignored :
      (xs ys : List (Text × S.Element)) (k j : Text) (e : S.Element) (b : Bundle)
      → known_config k ≡ false
      → known_linux j ≡ false
      → (load_config S (xs ++ (k, e) ∷ ys) b ≡ load_config S (xs ++ ys) b)
        × (load_linux S (xs ++ (j, e) ∷ ys) b ≡ load_linux S (xs ++ ys) b)
  unknown_ignored xs ys k j e b hk hj =
      (unknown_config_ignored xs ys k e b hk, unknown_linux_ignored xs ys j e b hj)

module _ (S : Simdjson) where
  open S use {Element, get_string, get_bool, get_array, get_object, at_key}

  -- The body of each loop as comparisons of whole keys, in another order.
  abbrev pub config_by_key : Text → Element → Step Bundle
  config_by_key key e =
      if text_eq key (codes "linux")
      then with_value (get_object e) (load_linux S)
      else if text_eq key (codes "root")
      then with_value (get_object e) (load_root S)
      else if text_eq key (codes "process")
      then with_value (get_object e) (load_process S)
      else if text_eq key (codes "ociVersion")
      then with_value (get_string e) (λ v. assign λ b. record b { oci_version = v })
      else if text_eq key (codes "mounts")
      then with_value (get_array e) (load_mounts S)
      else if text_eq key (codes "annotations")
      then with_value (get_object e) (each (load_annotation S))
      else skip

  abbrev pub process_by_key : List (Text × Element) → Text → Element → Step Bundle
  process_by_key process key e =
      if text_eq key (codes "user")
      then with_value (get_object e) (each (load_user_field S))
      else if text_eq key (codes "terminal")
      then with_value (get_bool e) (λ v. assign λ b. record b { terminal = v })
      else if text_eq key (codes "rlimits")
      then with_value (at_key process (codes "rlimits") >>= get_array) (each (load_limit S))
      else if text_eq key (codes "oomScoreAdj")
      then with_value (get_int S 32 e) (λ v. assign λ b. record b { oom_score_adj = v })
      else if text_eq key (codes "noNewPrivileges")
      then with_value (get_bool e) (λ v. assign λ b. record b { no_new_privileges = v })
      else if text_eq key (codes "env")
      then load_strings S push_env e
      else if text_eq key (codes "consoleSize")
      then with_value (get_object e) (each (load_console_field S))
      else if text_eq key (codes "cwd")
      then with_value (get_string e) (λ v. assign λ b. record b { cwd = v })
      else if text_eq key (codes "capabilities")
      then with_value (get_object e) (load_capabilities S)
      else if text_eq key (codes "args")
      then load_strings S push_arg e
      else skip

  abbrev pub linux_by_key : Text → Element → Step Bundle
  linux_by_key key e =
      if text_eq key (codes "resources")
      then with_value (get_object e) (each (load_resources_field S))
      else if text_eq key (codes "cgroupsPath")
      then with_value (get_string e) (λ v. assign λ b. record b { cgroups_path = v })
      else if text_eq key (codes "devices")
      then with_value (get_array e) (each (load_device S))
      else if text_eq key (codes "gidMappings")
      then with_value (get_array e) (each (load_gid_mapping S))
      else if text_eq key (codes "uidMappings")
      then with_value (get_array e) (each (load_uid_mapping S))
      else if text_eq key (codes "namespaces")
      then with_value (get_array e) (each (load_namespace S))
      else skip

  load_field-by_key :
      (k : Text) (e : Element) (b : Bundle) → load_field S (k, e) b ≡ config_by_key k e b
  unfolding load_field
  load_field-by_key k e b = ground (
    arith,
    first_of_text_eq k (codes "linux"),
    first_of_text_eq k (codes "root"),
    first_of_text_eq k (codes "process"),
    first_of_text_eq k (codes "ociVersion"),
    first_of_text_eq k (codes "mounts"),
    first_of_text_eq k (codes "annotations"),
  )

  load_process_field-by_key :
      (o : List (Text × Element)) (k : Text) (e : Element) (b : Bundle)
      → load_process_field S o (k, e) b ≡ process_by_key o k e b
  unfolding load_process_field load_process_c
  load_process_field-by_key o k e b = ground (
    arith,
    first_of_text_eq k (codes "args"),
    first_of_text_eq k (codes "consoleSize"),
    first_of_text_eq k (codes "cwd"),
    first_of_text_eq k (codes "capabilities"),
    first_of_text_eq k (codes "env"),
    first_of_text_eq k (codes "noNewPrivileges"),
    first_of_text_eq k (codes "oomScoreAdj"),
    first_of_text_eq k (codes "rlimits"),
    first_of_text_eq k (codes "terminal"),
    first_of_text_eq k (codes "user"),
  )

  load_linux_field-by_key :
      (k : Text) (e : Element) (b : Bundle) → load_linux_field S (k, e) b ≡ linux_by_key k e b
  unfolding load_linux_field
  load_linux_field-by_key k e b = ground (
    arith,
    first_of_text_eq k (codes "namespaces"),
    first_of_text_eq k (codes "uidMappings"),
    first_of_text_eq k (codes "gidMappings"),
    first_of_text_eq k (codes "devices"),
    first_of_text_eq k (codes "cgroupsPath"),
    first_of_text_eq k (codes "resources"),
  )

  -- At every key, value and bundle, the switches of the configuration, of its "process" object and of
  -- its "linux" object do what comparing the whole key with the known keys does, in another order.
  pub switches-by_key :
      (o : List (Text × Element)) (k : Text) (e : Element) (b : Bundle)
      → (load_field S (k, e) b ≡ config_by_key k e b)
        × (load_process_field S o (k, e) b ≡ process_by_key o k e b)
        × (load_linux_field S (k, e) b ≡ linux_by_key k e b)
  switches-by_key o k e b =
      (load_field-by_key k e b, load_process_field-by_key o k e b, load_linux_field-by_key k e b)
