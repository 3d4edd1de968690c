-- ===== src/State/Denotes.antt =====
-- When the entries of an object of the JSON parser are the members of a document, and what the look-ups
-- of src/state.cpp find in it.
use mathlib.Core.Path.{subst}
use runw.Common.{◌≡◌, ◌∙◌, ℤ, Bool, true, some, List, [], ◌∷◌, Text, text_eq, Bool-cases, inl, inr}
use runw.Json.{Simdjson, IsLawful, Result, ok, first_value}
use runw.State.Document.{Member, Value, str, int, bool, read_document, members_fit}
use runw.State.Load.{text_at, bool_at, int_at}

value_of_ok : (w v : Value) → ◌≡◌ {A = Result Value} (ok w) (ok v) → w ≡ v
value_of_ok w v h = cc

module _ (S : Simdjson) where
  open S use {Element}

  abbrev pub Means : Value → Element → Type 0
  Means (str v) x = S.get_string x ≡ ok v
  Means (int z) x = S.get_int64 x ≡ ok z
  Means (bool b) x = S.get_bool x ≡ ok b

  -- The entries of an object of the parser, in order, are the members of a document.
  abbrev pub Denotes : List Member → List (Text × Element) → Type 0
  Denotes [] [] = Unit
  Denotes [] (_ ∷ _) = ⊥
  Denotes (_ ∷ _) [] = ⊥
  Denotes ((k, v) ∷ ms) ((j, x) ∷ o) = (j ≡ k) × Means v x × Denotes ms o

  -- The parser reads every document that the reference reader reads, if its texts are ASCII.
  pub record ReadsJson : Type 0 where
    pub reads :
        (t : Text) (ms : List Member)
        → read_document t ≡ some ms
        → members_fit ms ≡ true
        → (e : Element) × (o : List (Text × Element)) × (S.parse t ≡ ok e)
          × (S.get_object e ≡ ok o)
          × Denotes ms o

  pub first_value-Denotes :
      (ms : List Member) (o : List (Text × Element)) (k : Text) (v : Value)
      → Denotes ms o
      → first_value ms k ≡ ok v
      → (x : Element) × (first_value o k ≡ ok x) × Means v x
  first_value-Denotes [] o k v d h = cc
  first_value-Denotes (m ∷ ms) [] k v d h = absurd d
  first_value-Denotes ((j, w) ∷ ms) ((i, x) ∷ o) k v d h = elim (Bool-cases (text_eq j k)) [
    | inl e ↦
        let same : w ≡ v = value_of_ok w v (rw e at h) in
        (x, rw d.0 (rw e), subst (λ u. Means u x) same d.1)
    | inr e ↦
        let (y, p, q) = first_value-Denotes ms o k v d.2 (rw e at h) in (y, rw d.0 (rw e p), q)
  ]

-- The members of an object, through the accessors of `load`.
module _ (S : Simdjson) (L : IsLawful S) (e : S.Element) (o : List (Text × S.Element))
    (obj : S.get_object e ≡ ok o) (ms : List Member) (d : Denotes S ms o) where
  pub at_key-ms :
      (k : Text) (v : Value)
      → first_value ms k ≡ ok v
      → (x : S.Element) × (S.at e k ≡ ok x) × Means S v x
  at_key-ms k v h =
      let (x, p, q) = first_value-Denotes S ms o k v d h in
      (x, L.at-object e k ∙ rw obj (L.at_key-first o k ∙ p), q)

  pub text_of : (k v : Text) → first_value ms k ≡ ok (str v) → text_at S e k ≡ ok v
  text_of k v h = let (x, p, q) = at_key-ms k (str v) h in rw p q

  pub int_of : (k : Text) (v : ℤ) → first_value ms k ≡ ok (int v) → int_at S e k ≡ ok v
  int_of k v h = let (x, p, q) = at_key-ms k (int v) h in rw p q

  pub bool_of : (k : Text) (v : Bool) → first_value ms k ≡ ok (bool v) → bool_at S e k ≡ ok v
  bool_of k v h = let (x, p, q) = at_key-ms k (bool v) h in rw p q
