-- ===== src/State/Status.antt =====
-- The status codes of include/state.h and their names: `getStatusString` and `parseStatus`.
use runw.Common.{
  ℕ, zero, suc, ◌+◌, ◌==◌, ◌≡◌, refl, ltb, length, [], ◌∷◌, Text, codes, text_eq, text_eq_iff, sym,
  if◌then◌else◌, arith, inl, inr, ap, ◌∙◌, ◌⊎◌, ◌↔◌, ◌≢◌,
}

pub data StatusCode : Type 0 where
  unknown creating created running stopped : StatusCode

unfoldable pub status_string : StatusCode → Text
status_string creating = codes "creating"
status_string created = codes "created"
status_string running = codes "running"
status_string stopped = codes "stopped"
status_string unknown = codes "unknown"

-- `s[i]`, where i is in range.
unfoldable pub byte_at : ℕ → Text → ℕ
byte_at i [] = 0
byte_at zero (c ∷ s) = c
byte_at (suc i) (c ∷ s) = byte_at i s

-- The switch is on a sum of two bytes. (A byte above 127 counts as negative in the source. That
-- cannot make a name match that does not: each case compares the whole text.)
unfoldable pub parse_status : Text → StatusCode
unfolding byte_at
parse_status s =
    let sum = byte_at 0 s + byte_at 5 s in
    if ltb (length s) 6
    then unknown
    else if sum == b'c' + b'i'
    then (if text_eq s (codes "creating") then creating else unknown)
    else if sum == b'c' + b'e'
    then (if text_eq s (codes "created") then created else unknown)
    else if sum == b'r' + b'n'
    then (if text_eq s (codes "running") then running else unknown)
    else if sum == b's' + b'e'
    then (if text_eq s (codes "stopped") then stopped else unknown)
    else unknown

pub parse_status-status_string : (c : StatusCode) → parse_status (status_string c) ≡ c
unfolding parse_status status_string text_eq
parse_status-status_string unknown = refl
parse_status-status_string creating = refl
parse_status-status_string created = refl
parse_status-status_string running = refl
parse_status-status_string stopped = refl

status_string-parse_status :
    (s : Text) → (parse_status s ≡ unknown) ⊎ (status_string (parse_status s) ≡ s)
unfolding parse_status status_string
status_string-parse_status s = ground (
  arith,
  text_eq_iff s (codes "creating"),
  text_eq_iff s (codes "created"),
  text_eq_iff s (codes "running"),
  text_eq_iff s (codes "stopped"),
)

-- `parseStatus`, with its switch on two bytes, returns a known status for exactly the name that
-- `getStatusString` gives it: every other text is `unknown`.
pub parse_status_iff :
    (s : Text) (c : StatusCode) → c ≢ unknown → (parse_status s ≡ c) ↔ (s ≡ status_string c)
parse_status_iff s c h = (
  λ p. elim (status_string-parse_status s) [
    | inl u ↦ absurd (h (sym p ∙ u))
    | inr e ↦ sym e ∙ ap status_string p
  ],
  λ e. ap parse_status e ∙ parse_status-status_string c,
)
