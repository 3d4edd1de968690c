-- ===== src/CGroup/Search.antt =====
-- Searches in a text, as `CGroup::finalize` of src/cgroup.cpp makes them.
use runw.Common.{
  ◌≡◌, refl, sym, ap, ◌∙◌, ℕ, zero, suc, ◌+◌, true, [], ◌∷◌, ◌++◌, Text, ◌==◌, Option, none, some,
  arith, length, Bool-cases, inl, inr,
}
use runw.CGroup.Finalize.{starts_with, find, drop, has_newline}

starts_with_self : (t s : Text) → starts_with t (t ++ s) ≡ true
unfolding starts_with
starts_with_self [] s = refl
starts_with_self (c ∷ t) s = ground (arith, starts_with_self t s)

pub starts_with-append : (t s : Text) → starts_with t s ≡ true → (r : Text) × (s ≡ t ++ r)
unfolding starts_with
starts_with-append [] s h = (s, refl)
starts_with-append (c ∷ t) [] h = cc
starts_with-append (c ∷ t) (d ∷ s) h =
    let (r, e) = starts_with-append t s (ground arith) in
    let same : c ≡ d = ground arith in (r, rw (same, e) refl)

find_here : (t s : Text) → starts_with t s ≡ true → find t s ≡ some s
unfolding find
find_here t [] h = rw (h, find) refl
find_here t (c ∷ s) h = rw (h, find) refl

some_value : {s r : Text} → some s ≡ some r → s ≡ r
some_value h = cc

none_value : {r : Text} → ◌≡◌ {A = Option Text} none (some r) → ⊥
none_value h = cc

pub find_before :
    (t s r : Text) → find t s ≡ some r → (b : Text) × (s ≡ b ++ r) × (starts_with t r ≡ true)
unfolding find
find_before t [] r h = elim (Bool-cases (starts_with t [])) [
  | inl y ↦ let same : [] ≡ r = some_value (rw (y, find) at h) in ([], same, rw (sym same) y)
  | inr n ↦ absurd (none_value (rw (n, find) at h))
]
find_before t (c ∷ s) r h = elim (Bool-cases (starts_with t (c ∷ s))) [
  | inl y ↦ let same : c ∷ s ≡ r = some_value (rw (y, find) at h) in ([], same, rw (sym same) y)
  | inr n ↦
      let (b, e, starts) = find_before t s r (rw (n, find) at h) in
      (c ∷ b, ap (λ x. c ∷ x) e, starts)
]

pub drop-append : (t s : Text) (g : ℕ) → drop (length t + g) (t ++ s) ≡ drop g s
unfolding drop
drop-append [] s g = ap (λ k. drop k s) (omega arith)
drop-append (c ∷ t) s g =
    let next : length (c ∷ t) + g ≡ suc (length t + g) = omega arith in
    ap (λ k. drop k (c ∷ (t ++ s))) next ∙ drop-append t s g

drop_less : (k : ℕ) (s : Text) → has_newline (drop (suc k) s) ≡ true → has_newline (drop k s) ≡ true
unfolding drop has_newline
drop_less k [] h = cc
drop_less zero (c ∷ s) h = ground arith
drop_less (suc k) (c ∷ s) h = drop_less k s h

drop_later :
    (k : ℕ) (b s : Text) → has_newline (drop k s) ≡ true → has_newline (drop k (b ++ s)) ≡ true
unfolding drop has_newline
drop_later k [] s h = h
drop_later zero (c ∷ b) s h = ground (arith, drop_later zero b s h)
drop_later (suc k) (c ∷ b) s h = drop_less k (b ++ s) (drop_later (suc k) b s h)

pub has_newline_at : (b s : Text) → has_newline (b ++ 10 ∷ s) ≡ true
unfolding has_newline
has_newline_at [] s = refl
has_newline_at (c ∷ b) s = ground (arith, has_newline_at b s)

pub has_newline-append :
    (s : Text) → has_newline s ≡ true → (b : Text) × (r : Text) × (s ≡ b ++ 10 ∷ r)
unfolding has_newline
has_newline-append [] h = cc
has_newline-append (c ∷ s) h = elim (Bool-cases (c == 10)) [
  | inl y ↦ let same : c ≡ 10 = ground arith in ([], s, ap (λ x. x ∷ s) same)
  | inr n ↦
      let (b, r, e) = has_newline-append s (rw (n, has_newline) at h) in
      (c ∷ b, r, ap (λ x. c ∷ x) e)
]

-- `drop` takes that many bytes away where a newline is left.
pub drop_split :
    (g : ℕ) (s : Text)
    → has_newline (drop g s) ≡ true
    → (b : Text) × (length b ≡ g) × (s ≡ b ++ drop g s)
unfolding drop has_newline
drop_split zero s h = ([], refl, refl)
drop_split (suc g) [] h = cc
drop_split (suc g) (c ∷ s) h =
    let (b, l, e) = drop_split g s h in (c ∷ b, ap suc l, ap (λ x. c ∷ x) e)

-- The first occurrence is followed by a newline if some occurrence is.
pub find_first :
    (t b u : Text) (g : ℕ)
    → has_newline (drop g u) ≡ true
    → (r : Text) × (find t (b ++ (t ++ u)) ≡ some r) × (has_newline (drop (length t + g) r) ≡ true)
unfolding find
find_first t [] u g h =
    (t ++ u, find_here t (t ++ u) (starts_with_self t u), ap has_newline (drop-append t u g) ∙ h)
find_first t (c ∷ b) u g h = elim (Bool-cases (starts_with t (c ∷ (b ++ (t ++ u))))) [
  | inl y ↦ (
    c ∷ (b ++ (t ++ u)),
    find_here t (c ∷ (b ++ (t ++ u))) y,
    drop_later (length t + g) (c ∷ b) (t ++ u) (ap has_newline (drop-append t u g) ∙ h),
  )
  | inr n ↦ let (r, e, later) = find_first t b u g h in (r, rw (n, find) e, later)
]
