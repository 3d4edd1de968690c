-- ===== src/Loader/Adds.antt =====
-- What a successful step appends to a list of the object, computed from the input alone.
use mathlib.Core.List.{append-nil, append_assoc}
use runw.Common.{◌≡◌, refl, sym, ◌∙◌, ap, Bool, true, false, List, [], ◌∷◌, ◌++◌}
use runw.Json.{Result, ok, err}
use runw.Loader.{Step, skip, assign, next, then_do, with_value, each}
use runw.Loader.Keeps.{Keeps}

pub record Adds {ℓ κ} {S : Type ℓ} {A : Type κ} (p : S → List A) (f : Step S) (d : List A)
    : Type (ℓ ⊔ κ) where
  pub at : (s : S) → (f s).1 ≡ true → p (f s).0 ≡ p s ++ d

-- The lists of the members of a list, in their order.
abbrev pub collect {ℓ κ} : {A : Type ℓ} {B : Type κ} → (A → List B) → List A → List B
collect f [] = []
collect f (x ∷ xs) = f x ++ collect f xs

abbrev pub from_ok {ℓ κ} : {A : Type ℓ} {B : Type κ} → Result A → (A → List B) → List B
from_ok (ok a) f = f a
from_ok (err e) f = []

module _ {ℓ κ} {S : Type ℓ} {A : Type κ} {p : S → List A} where
  pub Adds-skip : Adds p skip []
  Adds-skip = record { at = λ s h. sym (append-nil (p s)) }

  pub Adds-assign : (f : S → S) (d : List A) → ((s : S) → p (f s) ≡ p s ++ d) → Adds p (assign f) d
  Adds-assign f d h = record { at = λ s _. h s }

  -- A step that leaves the list alone adds nothing.
  pub Adds-of_Keeps : (f : Step S) → ((x : List A) → Keeps (λ s. p s ≡ x) f) → Adds p f []
  Adds-of_Keeps f k = record { at = λ s _. (k (p s)).at s refl ∙ sym (append-nil (p s)) }

  Adds-next :
      (r : S × Bool) (g : Step S) (s : S) (d e : List A)
      → (r.1 ≡ true → p r.0 ≡ p s ++ d)
      → Adds p g e
      → (next r g).1 ≡ true
      → p (next r g).0 ≡ p s ++ (d ++ e)
  Adds-next (t, true) g s d e hr hg h =
      hg.at t h ∙ (ap (λ l. l ++ e) (hr refl) ∙ append_assoc (p s) d e)
  Adds-next (t, false) g s d e hr hg h = cc

  pub Adds-then_do :
      (f g : Step S) (d e : List A) → Adds p f d → Adds p g e → Adds p (then_do f g) (d ++ e)
  Adds-then_do f g d e hf hg = record { at = λ s h. Adds-next (f s) g s d e (hf.at s) hg h }

module _ {ℓ κ μ} {S : Type ℓ} {A : Type κ} {B : Type μ} {p : S → List A} where
  pub Adds-with_value :
      (r : Result B) (k : B → Step S) (d : B → List A)
      → ((b : B) → Adds p (k b) (d b))
      → Adds p (with_value r k) (from_ok r d)
  Adds-with_value (ok b) k d h = h b
  Adds-with_value (err e) k d h = record { at = λ s q. cc }

  pub Adds-each :
      (f : B → Step S) (d : B → List A) (xs : List B)
      → ((b : B) → Adds p (f b) (d b))
      → Adds p (each f xs) (collect d xs)
  unfolding each
  Adds-each f d [] h = Adds-skip
  Adds-each f d (x ∷ xs) h = Adds-then_do (f x) (each f xs) (d x) _ (h x) (Adds-each f d xs h)

pub ruleset adds_rules = (Adds-skip, Adds-with_value, Adds-each)
