-- ===== src/Bundle/Load.antt =====
-- `Bundle::load` of src/bundle.cpp, as it is compiled for Linux.
use runw.Common.{
  ◌==◌, Option, none, some, List, [], ◌∷◌, ◌++◌, false, Text, codes, text_eq, if◌then◌else◌,
}
use runw.Json.{Simdjson, ◌>>=◌}
use runw.Loader.{Step, skip, assign, when, with_value, each, first}
use runw.Bundle.{Bundle}
use runw.Bundle.Process.{load_strings, load_process}
use runw.Bundle.Root.{load_root, load_mounts}
use runw.Bundle.Linux.{load_linux}

abbrev pub push_cmd : Text → Bundle → Bundle
push_cmd v b = record b { cmds = b.cmds ++ v ∷ [] }

module _ (S : Simdjson) where
  open S use {Element, get_string, get_array, get_object, parse}

  unfoldable pub load_annotation : Text × Element → Step Bundle
  load_annotation (key, e) =
      if first key == b'o'
      then when (text_eq key (codes "org.wasmedge.exec.allow_commands")) (load_strings S push_cmd e)
      else skip

  -- The body of the loop over the configuration.
  unfoldable pub load_field : Text × Element → Step Bundle
  load_field (key, e) =
      if first key == b'a'
      then when (text_eq key (codes "annotations"))
          (with_value (get_object e) (each load_annotation))
      else if first key == b'm'
      then when (text_eq key (codes "mounts")) (with_value (get_array e) (load_mounts S))
      else if first key == b'o'
      then when (text_eq key (codes "ociVersion"))
          (with_value (get_string e) λ v. assign λ b. record b { oci_version = v })
      else if first key == b'p'
      then when (text_eq key (codes "process")) (with_value (get_object e) (load_process S))
      else if first key == b'r'
      then when (text_eq key (codes "root")) (with_value (get_object e) (load_root S))
      else if first key == b'l'
      then when (text_eq key (codes "linux")) (with_value (get_object e) (load_linux S))
      else skip

  unfoldable pub load_config : List (Text × Element) → Step Bundle
  load_config config = each load_field config

  -- The whole function, on what the configuration file holds; `none` is a file that is not there.
  unfoldable pub load : Option Text → Step Bundle
  load none b = (b, false)
  load (some text) b = with_value (parse text >>= get_object) load_config b
