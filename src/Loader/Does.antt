-- ===== src/Loader/Does.antt =====
-- What a successful step makes of the object, as a function of the object.
use runw.Common.{◌≡◌, refl, ◌∙◌, ap, Bool, true, false, List, [], ◌∷◌}
use runw.Json.{Result, ok, err}
use runw.Loader.{Step, skip, assign, next, then_do, with_value, each}

-- The value, or else what was there.
abbrev pub value_or {ℓ} : {A : Type ℓ} → Result A → A → A
value_or (ok a) b = a
value_or (err e) b = b

pub record Does {ℓ} {S : Type ℓ} (f : Step S) (g : S → S) : Type ℓ where
  pub at : (s : S) → (f s).1 ≡ true → (f s).0 ≡ g s

-- The functions of the members of a list, one after the other.
unfoldable pub folded {ℓ κ} : {A : Type ℓ} {S : Type κ} → (A → S → S) → List A → S → S
folded g [] s = s
folded g (x ∷ xs) s = folded g xs (g x s)

module _ {ℓ} {S : Type ℓ} where
  pub Does-skip : Does {S = S} skip (λ s. s)
  Does-skip = record { at = λ s h. refl }

  pub Does-assign : (g : S → S) → Does (assign g) g
  Does-assign g = record { at = λ s h. refl }

  Does-next :
      (r : S × Bool) (k : Step S) (s g : S) (f : S → S)
      → (r.1 ≡ true → r.0 ≡ g)
      → Does k f
      → (next r k).1 ≡ true
      → (next r k).0 ≡ f g
  Does-next (t, true) k s g f hr hk h = hk.at t h ∙ ap f (hr refl)
  Does-next (t, false) k s g f hr hk h = cc

  pub Does-then_do :
      (f k : Step S) (g h : S → S) → Does f g → Does k h → Does (then_do f k) (λ s. h (g s))
  Does-then_do f k g h hf hk = record { at = λ s p. Does-next (f s) k s (g s) h (hf.at s) hk p }

module _ {ℓ κ} {S : Type ℓ} {A : Type κ} where
  pub Does-with_value :
      (r : Result A) (k : A → Step S) (g : Result A → S → S)
      → ((a : A) → Does (k a) (g (ok a)))
      → Does (with_value r k) (g r)
  Does-with_value (ok a) k g h = h a
  Does-with_value (err e) k g h = record { at = λ s p. cc }

  pub Does-each :
      (f : A → Step S) (g : A → S → S) (xs : List A)
      → ((a : A) → Does (f a) (g a))
      → Does (each f xs) (folded g xs)
  unfolding each folded
  Does-each f g [] h = Does-skip
  Does-each f g (x ∷ xs) h =
      Does-then_do (f x) (each f xs) (g x) (folded g xs) (h x) (Does-each f g xs h)
