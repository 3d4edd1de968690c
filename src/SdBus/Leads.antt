-- ===== src/SdBus/Leads.antt =====
-- Conditions before and after a function with an error: one for each way to return.
use runw.SdBus.Dialogue.{Expected, value, unexpected, Talk, resume, ◌>>=◌}

module _ {S A : Type 0} where
  abbrev pub Post : (S → Type 0) → (S → Type 0) → Expected A × S → Type 0
  Post Q E (value a, s) = Q s
  Post Q E (unexpected e, s) = E s

  pub record Leads (P : S → Type 0) (m : Talk S A) (Q E : S → Type 0) : Type 0 where
    pub at : (s : S) → P s → Post Q E (m s)

module _ {S A B : Type 0} {Q R E : S → Type 0} where
  resume-Post :
      (r : Expected A × S) (f : A → Talk S B)
      → Post Q E r
      → ((a : A) → Leads Q (f a) R E)
      → Post R E (resume r f)
  resume-Post (value a, s) f h k = (k a).at s h
  resume-Post (unexpected e, s) f h k = h

  pub Leads-bind :
      {P : S → Type 0} (m : Talk S A) (f : A → Talk S B)
      → Leads P m Q E
      → ((a : A) → Leads Q (f a) R E)
      → Leads P (m >>= f) R E
  unfolding ◌>>=◌
  Leads-bind m f hm hf = record { at = λ s h. resume-Post (m s) f (hm.at s h) hf }
