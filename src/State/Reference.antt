-- ===== src/State/Reference.antt =====
-- The tree DOM with the reference reader as its parser: a concrete parser of state files, which shows
-- that what the theorems ask of the parser can be met.
use runw.Common.{◌≡◌, refl, true, Option, none, some, List, [], ◌∷◌, Text, arith}
use runw.Json.{Simdjson, IsLawful, Result, ok, err, other}
use runw.Json.Tree.{Tree, Fields, end, field, fields, tree_dom, tree_dom-IsLawful}
use runw.State.Document.{Value, str, int, bool, Member, members_fit, value_fits, read_document}
use runw.State.Denotes.{Means, Denotes, ReadsJson}

abbrev tree_of : Value → Tree
tree_of (str v) = Tree.str v
tree_of (int z) = Tree.int z
tree_of (bool b) = Tree.bool b

abbrev fields_of : List Member → Fields
fields_of [] = end
fields_of ((k, v) ∷ ms) = field k (tree_of v) (fields_of ms)

abbrev object_or_error : Option (List Member) → Result Tree
object_or_error none = err (other 1)
object_or_error (some ms) = ok (Tree.obj (fields_of ms))

abbrev pub reference_parse : Text → Result Tree
reference_parse t = object_or_error (read_document t)

abbrev pub reference : Simdjson
reference = tree_dom reference_parse

means_lem : (v : Value) → value_fits v ≡ true → Means reference v (tree_of v)
means_lem (str v) h = refl
means_lem (int z) h = ground arith
means_lem (bool b) h = refl

denotes_lem :
    (ms : List Member) → members_fit ms ≡ true → Denotes reference ms (fields (fields_of ms))
denotes_lem [] h = tt
denotes_lem ((k, v) ∷ ms) h = (refl, means_lem v (ground arith), denotes_lem ms (ground arith))

pub reference-IsLawful : IsLawful reference
reference-IsLawful = tree_dom-IsLawful reference_parse

pub reference-ReadsJson : ReadsJson reference
reference-ReadsJson = record {
  reads = λ t ms read fit.
      (Tree.obj (fields_of ms), fields (fields_of ms), rw read, refl, denotes_lem ms fit);
}
