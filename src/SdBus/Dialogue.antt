-- ===== src/SdBus/Dialogue.antt =====
-- `cxx20::expected` with an error code, and functions that change a state and return it.
use runw.Common.{ℤ}

pub data Expected {ℓ} (A : Type ℓ) : Type ℓ where
  value : A → Expected A
  unexpected : ℤ → Expected A

abbrev pub Talk : Type 0 → Type 0 → Type 0
Talk S A = S → Expected A × S

module _ {S A B : Type 0} where
  abbrev pub resume : Expected A × S → (A → Talk S B) → Expected B × S
  resume (value a, s) f = f a s
  resume (unexpected e, s) f = (unexpected e, s)

  -- `if (auto Res = ...; !Res) { return Res; }` and the rest.
  infixl 5 ◌>>=◌
  unfoldable pub ◌>>=◌ : Talk S A → (A → Talk S B) → Talk S B
  ◌>>=◌ m f s = resume (m s) f

module _ {S B : Type 0} where
  infixl 5 ◌>>◌
  abbrev pub ◌>>◌ : Talk S (Unit {0}) → Talk S B → Talk S B
  m >> k = m >>= λ _. k
