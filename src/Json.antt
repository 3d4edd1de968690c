-- ===== src/Json.antt =====
-- The JSON parser that src/bundle.cpp and src/state.cpp call (simdjson's DOM, which is not part of
-- the repository), as an interface: its types and operations, and what its documentation says.
pub mod Tree
use runw.Common.{
  ℕ, ℤ, ◌≡◌, Bool, List, [], ◌∷◌, Text, text_eq, if◌then◌else◌, ◌≤ℤ◌, int_min, int_max, uint_max,
  pos,
}

-- `simdjson::error_code`, less SUCCESS. The code under verification tells only one value apart.
pub data ErrorCode : Type 0 where
  no_such_field number_out_of_range : ErrorCode
  other : ℕ → ErrorCode

-- `simdjson_result<T>`.
pub data Result {ℓ} (A : Type ℓ) : Type ℓ where
  ok : A → Result A
  err : ErrorCode → Result A

infixl 5 ◌>>=◌
abbrev pub ◌>>=◌ {ℓ κ} : {A : Type ℓ} {B : Type κ} → Result A → (A → Result B) → Result B
ok a >>= f = f a
err e >>= f = err e

pub record Simdjson : Type 1 where
  -- `dom::element`; a `dom::array` and a `dom::object` are what iteration over them yields.
  pub Element : Type 0
  pub get_string : Element → Result Text
  pub get_bool : Element → Result Bool
  pub get_int64 : Element → Result ℤ
  pub get_uint64 : Element → Result ℕ
  pub get_array : Element → Result (List Element)
  pub get_object : Element → Result (List (Text × Element))
  -- `object[key]` and `element[key]`.
  pub at_key : List (Text × Element) → Text → Result Element
  pub at : Element → Text → Result Element
  -- `parser.load(path)`, on the text of the file.
  pub parse : Text → Result Element

-- The first value of a key.
abbrev pub first_value {ℓ} : {A : Type ℓ} → List (Text × A) → Text → Result A
first_value [] k = err no_such_field
first_value ((j, v) ∷ fields) k = if text_eq j k then ok v else first_value fields k

-- The documented behaviour that the theorems rely on.
pub record IsLawful (S : Simdjson) : Type 0 where
  pub at_key-first :
      (fields : List (Text × S.Element)) (k : Text) → S.at_key fields k ≡ first_value fields k
  pub at-object :
      (e : S.Element) (k : Text) → S.at e k ≡ (S.get_object e >>= λ fields. S.at_key fields k)
  pub int64_range :
      (e : S.Element) {v : ℤ} → S.get_int64 e ≡ ok v → (int_min 64 ≤ℤ v) × (v ≤ℤ int_max 64)
  pub uint64_range : (e : S.Element) {n : ℕ} → S.get_uint64 e ≡ ok n → pos n ≤ℤ uint_max 64
