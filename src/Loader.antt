-- ===== src/Loader.antt =====
-- The shape that the loading loops of src/bundle.cpp share: a step changes the object under
-- construction and says whether to go on (`return false` leaves the changes made so far).
pub mod Keeps
pub mod Adds
pub mod Does
use runw.Common.{
  ◌≡◌, refl, sym, ◌∙◌, ap, ◌++◌, ℕ, ◌^◌, ◌-◌, ℤ, Bool, true, false, ◌||◌, List, [], ◌∷◌, Text,
  if◌then◌else◌, ltb, ltb_ℤ, int_min, int_max,
}
use mathlib.Core.Path.{fun_ext}
use runw.Json.{Simdjson, Result, ok, err, number_out_of_range, ◌>>=◌}

abbrev pub Step {ℓ} : Type ℓ → Type ℓ
Step S = S → S × Bool

module _ {ℓ} {S : Type ℓ} where
  -- The end of a case: go on.
  abbrev pub skip : Step S
  skip s = (s, true)

  abbrev pub assign : (S → S) → Step S
  assign f s = (f s, true)

  -- `if (b) { ... }`.
  abbrev pub when : Bool → Step S → Step S
  when b f = if b then f else skip

  abbrev pub next : S × Bool → Step S → S × Bool
  next (s, true) k = k s
  next (s, false) k = (s, false)

  -- `a; b`, where a failing `a` returns.
  abbrev pub then_do : Step S → Step S → Step S
  then_do f g s = next (f s) g

module _ {ℓ κ} {S : Type ℓ} {A : Type κ} where
  -- `if (auto Error = ...) return false;` and the rest, which uses the value.
  abbrev pub with_value : Result A → (A → Step S) → Step S
  with_value (ok a) k s = k a s
  with_value (err e) k s = (s, false)

  -- `for (x : xs)` with an early return.
  unfoldable pub each : (A → Step S) → List A → Step S
  each f [] s = (s, true)
  each f (x ∷ xs) s = next (f x s) (each f xs)

-- `Key[0]`: the texts of the parser end in a NUL, which the empty key shows.
abbrev pub first : Text → ℕ
first [] = 0
first (c ∷ _) = c

-- `get_int<T>` (src/bundle.cpp:16-27) at a signed and at an unsigned type of w bits.
module _ (S : Simdjson) where
  unfoldable pub get_int : ℕ → S.Element → Result ℤ
  get_int w e = S.get_int64 e >>= λ v.
      if ltb_ℤ v (int_min w) || ltb_ℤ (int_max w) v then err number_out_of_range else ok v

  unfoldable pub get_uint : ℕ → S.Element → Result ℕ
  get_uint w e = S.get_uint64 e >>= λ v. if ltb (2 ^ w - 1) v then err number_out_of_range else ok v

module _ {ℓ κ} {S : Type ℓ} {A : Type κ} where
  -- A loop over two parts is the loop over the first and then, if that did not return, the second.
  each-append-next :
      (f : A → Step S) (ys : List A) (g : Step S) (r : S × Bool)
      → next (next r g) (each f ys) ≡ next r (λ s. next (g s) (each f ys))
  each-append-next f ys g (s, true) = refl
  each-append-next f ys g (s, false) = refl

  pub each-append :
      (f : A → Step S) (xs ys : List A) (s : S)
      → each f (xs ++ ys) s ≡ next (each f xs s) (each f ys)
  unfolding each
  each-append f [] ys s = refl
  each-append f (x ∷ xs) ys s =
      ap (next (f x s)) (fun_ext (each-append f xs ys))
      ∙ sym (each-append-next f ys (each f xs) (f x s))

  -- A member that the body passes over can be taken out.
  pub each-skip :
      (f : A → Step S) (xs : List A) (x : A) (ys : List A) (s : S)
      → ((t : S) → f x t ≡ (t, true))
      → each f (xs ++ x ∷ ys) s ≡ each f (xs ++ ys) s
  unfolding each
  each-skip f xs x ys s h =
      each-append f xs (x ∷ ys) s
      ∙ (ap (next (each f xs s)) (fun_ext λ t. rw h) ∙ sym (each-append f xs ys s))
