-- ===== src/Json/Tree.antt =====
-- A concrete DOM: JSON trees, with the getters that the interface asks for. It shows that the
-- interface can be met, and it is what the examples run on.
use runw.Common.{
  ℕ, ◌≡◌, refl, ℤ, pos, negsuc, Bool, List, [], ◌∷◌, Text, ltb, if◌then◌else◌, ◌^◌, ◌≤ℤ◌, int_min,
  int_max, uint_max, arith,
}
use runw.Json.{Simdjson, IsLawful, Result, ok, err, number_out_of_range, other, first_value, ◌>>=◌}

mutual
  pub data Tree : Type 0 where
    null : Tree
    bool : Bool → Tree
    -- Integers only: the program reads no floating-point number.
    int : ℤ → Tree
    str : Text → Tree
    arr : Items → Tree
    obj : Fields → Tree

  pub data Items : Type 0 where
    nil : Items
    cons : Tree → Items → Items

  pub data Fields : Type 0 where
    end : Fields
    field : Text → Tree → Fields → Fields

abbrev pub items : Items → List Tree
items nil = []
items (cons t xs) = t ∷ items xs

abbrev pub fields : Fields → List (Text × Tree)
fields end = []
fields (field k t fs) = (k, t) ∷ fields fs

-- INCORRECT_TYPE of the parser.
abbrev incorrect_type {ℓ} : {A : Type ℓ} → Result A
incorrect_type = err (other 17)

abbrev string_of : Tree → Result Text
string_of (str s) = ok s
string_of _ = incorrect_type

abbrev bool_of : Tree → Result Bool
bool_of (bool b) = ok b
bool_of _ = incorrect_type

abbrev int64_of : Tree → Result ℤ
int64_of (int (pos n)) = if ltb n (2 ^ 63) then ok (pos n) else err number_out_of_range
int64_of (int (negsuc n)) = if ltb n (2 ^ 63) then ok (negsuc n) else err number_out_of_range
int64_of _ = incorrect_type

abbrev uint64_of : Tree → Result ℕ
uint64_of (int (pos n)) = if ltb n (2 ^ 64) then ok n else err number_out_of_range
uint64_of (int (negsuc n)) = err number_out_of_range
uint64_of _ = incorrect_type

abbrev array_of : Tree → Result (List Tree)
array_of (arr xs) = ok (items xs)
array_of _ = incorrect_type

abbrev object_of : Tree → Result (List (Text × Tree))
object_of (obj fs) = ok (fields fs)
object_of _ = incorrect_type

abbrev pub tree_dom : (Text → Result Tree) → Simdjson
tree_dom parse = record {
  Element = Tree;
  get_string = string_of;
  get_bool = bool_of;
  get_int64 = int64_of;
  get_uint64 = uint64_of;
  get_array = array_of;
  get_object = object_of;
  at_key = first_value;
  at = λ e k. object_of e >>= λ fs. first_value fs k;
  parse = parse;
}

int64_of_range : (t : Tree) (v : ℤ) → int64_of t ≡ ok v → (int_min 64 ≤ℤ v) × (v ≤ℤ int_max 64)
int64_of_range t v h = ground arith

uint64_of_range : (t : Tree) (n : ℕ) → uint64_of t ≡ ok n → pos n ≤ℤ uint_max 64
uint64_of_range t n h = ground arith

-- The tree DOM behaves as documented.
pub tree_dom-IsLawful : (parse : Text → Result Tree) → IsLawful (tree_dom parse)
tree_dom-IsLawful parse = record {
  at_key-first = λ fs k. refl;
  at-object = λ e k. refl;
  int64_range = λ e {v} h. int64_of_range e v h;
  uint64_range = λ e {n} h. uint64_of_range e n h;
}
