-- ===== src/Bundle/Entries.antt =====
-- Rules for what the loops of src/bundle.cpp over entries and descriptions collect.
use mathlib.Core.Path.{subst}
use runw.Common.{
  ◌≡◌, refl, sym, ◌∙◌, ap, Bool, true, false, List, [], ◌∷◌, ◌++◌, Text, text_eq, text_eq_iff,
  if◌then◌else◌, Bool-cases, inl, inr,
}
use runw.Json.{Simdjson}
use runw.Loader.{Step, each, with_value}
use runw.Loader.Keeps.{Keeps}
use runw.Loader.Adds.{Adds, Adds-with_value, Adds-of_Keeps, from_ok}
use runw.Loader.Does.{Does, folded, Does-each}
use runw.Bundle.{Bundle}
use runw.Bundle.Root.{pushed}

-- What holds of a name holds of a key that equals it.
pub at_key : (P : Text → Type 0) (key name : Text) → text_eq key name ≡ true → P name → P key
at_key P key name same h = subst P (sym ((text_eq_iff key name).0 same)) h

module _ {D : Type 0} (p : Bundle → List D) (push : D → Bundle → Bundle)
    (appends : (d : D) (b : Bundle) → p (push d b) ≡ p b ++ d ∷ []) where
  -- The description is pushed if all its entries were read.
  pushed-Adds : (r : D × Bool) (d : D) → (r.1 ≡ true → r.0 ≡ d) → Adds p (pushed push r) (d ∷ [])
  pushed-Adds (t, true) d h = record { at = λ b _. appends t b ∙ ap (λ x. p b ++ x ∷ []) (h refl) }
  pushed-Adds (t, false) d h = record { at = λ b done. cc }

  -- A loop body that fills a description from an object, and pushes it.
  pub description-Adds :
      (S : Simdjson) (f : Text × S.Element → Step D) (g : Text × S.Element → D → D) (d : D)
      → ((x : Text × S.Element) → Does (f x) (g x))
      → (x : S.Element)
      → Adds p
          (with_value (S.get_object x) λ o. pushed push (each f o d))
          (from_ok (S.get_object x) λ o. folded g o d ∷ [])
  description-Adds S f g d h x =
      Adds-with_value (S.get_object x) _ (λ o. folded g o d ∷ [])
        λ o. pushed-Adds (each f o d) _ ((Does-each f g o h).at d)

-- A loop body of which one key adds something.
pub keyed-Adds :
    {A E : Type 0} (p : Bundle → List A) (f : Text × E → Step Bundle) (g : E → List A)
    (name key : Text) (e : E)
    → Adds p (f (name, e)) (g e)
    → (text_eq key name ≡ false → (l : List A) → Keeps (λ b. p b ≡ l) (f (key, e)))
    → Adds p (f (key, e)) (if text_eq key name then g e else [])
keyed-Adds p f g name key e here other = elim (Bool-cases (text_eq key name)) [
  | inl same ↦ rw same (at_key (λ k. Adds p (f (k, e)) (g e)) key name same here)
  | inr differs ↦ rw differs (Adds-of_Keeps (f (key, e)) (other differs))
]
