-- ===== src/Loader/Keeps.antt =====
-- Invariants of loading steps: a rule for each way in which a step is built. They hold on failure
-- too, where the object keeps what was read before.
use runw.Common.{◌≡◌, refl, Bool, true, false, List, [], ◌∷◌, if◌then◌else◌}
use runw.Json.{Result, ok, err}
use runw.Loader.{Step, skip, assign, next, then_do, with_value, each}

pub record Keeps {ℓ κ} {S : Type ℓ} (P : S → Type κ) (f : Step S) : Type (ℓ ⊔ κ) where
  pub at : (s : S) → P s → P (f s).0

module _ {ℓ κ} {S : Type ℓ} {P : S → Type κ} where
  pub Keeps-skip : Keeps P skip
  Keeps-skip = record { at = λ s h. h }

  pub Keeps-fail : Keeps P (λ s. (s, false))
  Keeps-fail = record { at = λ s h. h }

  pub Keeps-assign : (f : S → S) → ((s : S) → P s → P (f s)) → Keeps P (assign f)
  Keeps-assign f h = record { at = h }

  pub Keeps-if : (b : Bool) (f g : Step S) → Keeps P f → Keeps P g → Keeps P (if b then f else g)
  Keeps-if true f g kf kg = kf
  Keeps-if false f g kf kg = kg

  Keeps-next : (r : S × Bool) (g : Step S) → P r.0 → Keeps P g → P (next r g).0
  Keeps-next (s, true) g h kg = kg.at s h
  Keeps-next (s, false) g h kg = h

  pub Keeps-then_do : (f g : Step S) → Keeps P f → Keeps P g → Keeps P (then_do f g)
  Keeps-then_do f g kf kg = record { at = λ s h. Keeps-next (f s) g (kf.at s h) kg }

module _ {ℓ κ μ} {S : Type ℓ} {A : Type μ} {P : S → Type κ} where
  pub Keeps-with_value :
      (r : Result A) (k : A → Step S)
      → ((a : A) → r ≡ ok a → Keeps P (k a))
      → Keeps P (with_value r k)
  Keeps-with_value (ok a) k h = h a refl
  Keeps-with_value (err e) k h = Keeps-fail

  pub Keeps-each : (f : A → Step S) (xs : List A) → ((a : A) → Keeps P (f a)) → Keeps P (each f xs)
  unfolding each
  Keeps-each f [] h = Keeps-skip
  Keeps-each f (x ∷ xs) h = Keeps-then_do (f x) (each f xs) (h x) (Keeps-each f xs h)

pub ruleset keeps_rules =
    (Keeps-skip, Keeps-fail, Keeps-assign, Keeps-if, Keeps-then_do, Keeps-with_value, Keeps-each)
