-- ===== src/State/Decimal.antt =====
-- Integers as a stream prints them in decimal, and the integers of JSON.
use runw.Common.{
  ℕ, zero, suc, ◌+◌, ◌-◌, ◌*◌, ◌/◌, ◌%◌, ◌^◌, ◌<◌, ◌≤◌, ◌≡◌, ◌≢◌, refl, ltb, leb, ◌==◌, ℤ, pos,
  negsuc, Bool, true, false, ◌&&◌, Option, none, some, [], ◌∷◌, Text, if◌then◌else◌, arith,
  Bool-cases, inl, inr, ap, ◌∙◌, length,
}

-- The fuel is a bound on the number of digits; `n + 1` is enough.
unfoldable pub digits : ℕ → ℕ → Text → Text
digits zero n acc = acc
digits (suc f) n acc =
    let more = digits f (n / 10) ((48 + n % 10) ∷ acc) in if ltb n 10 then (48 + n) ∷ acc else more

-- `Stream << n`, followed by more text.
unfoldable pub print_int : ℤ → Text → Text
unfolding digits
print_int (pos n) rest = digits (suc n) n rest
print_int (negsuc n) rest = b'-' ∷ digits (suc (suc n)) (suc n) rest

abbrev pub is_digit : ℕ → Bool
is_digit c = leb 48 c && leb c 57

abbrev pub starts_with_digit : Text → Bool
starts_with_digit [] = false
starts_with_digit (c ∷ _) = is_digit c

read_digits : ℕ → Text → ℕ × Text
read_digits v [] = (v, [])
read_digits v (c ∷ s) = if is_digit c then read_digits (v * 10 + (c - 48)) s else (v, c ∷ s)

read_nat : Text → Option (ℕ × Text)
read_nat [] = none
read_nat (c ∷ s) =
    if is_digit c
    then if c == 48
      then if starts_with_digit s then none else some (0, s)
      else some (read_digits 0 (c ∷ s))
    else none

as_pos : Option (ℕ × Text) → Option (ℤ × Text)
as_pos none = none
as_pos (some (n, rest)) = if ltb n (2 ^ 63) then some (pos n, rest) else none

as_neg : Option (ℕ × Text) → Option (ℤ × Text)
as_neg none = none
as_neg (some (zero, rest)) = none
as_neg (some (suc n, rest)) = if ltb n (2 ^ 63) then some (negsuc n, rest) else none

-- An integer of JSON that fits 64 bits with a sign, and what follows it. (RFC 8259, section 6: no
-- leading zeros.)
unfoldable pub read_int : Text → Option (ℤ × Text)
unfolding read_nat read_digits as_pos as_neg
read_int [] = none
read_int (c ∷ s) = if c == b'-' then as_neg (read_nat s) else as_pos (read_nat (c ∷ s))

read_digits-digits :
    (f n : ℕ) (acc : Text) → n < f → read_digits 0 (digits f n acc) ≡ read_digits n acc
unfolding read_digits digits
read_digits-digits zero n acc h = elim h [ ]
read_digits-digits (suc f) n acc h =
    ground (arith, read_digits-digits f (n / 10) ((48 + n % 10) ∷ acc))

digits_head :
    (f n : ℕ) (acc : Text)
    → n < f
    → (d : ℕ) × (s : Text) × (digits f n acc ≡ d ∷ s) × (is_digit d ≡ true) × (n ≢ 0 → d ≢ 48)
unfolding digits
digits_head zero n acc h = elim h [ ]
digits_head (suc f) n acc h = elim (Bool-cases (ltb n 10)) [
  | inl small ↦ (48 + n, acc, rw small, ground arith, ground arith)
  | inr big ↦
      let (d, s, e, digit, nonzero) = digits_head f (n / 10) ((48 + n % 10) ∷ acc) (ground arith) in
      (d, s, rw big e, digit, λ _. nonzero (ground arith))
]

read_digits_stop :
    (n : ℕ) (rest : Text) → starts_with_digit rest ≡ false → read_digits n rest ≡ (n, rest)
unfolding read_digits
read_digits_stop n [] h = refl
read_digits_stop n (c ∷ s) h = ground arith

-- What the reader makes of a number that does not begin with 0.
read_nat_cons :
    (c : ℕ) (s : Text)
    → is_digit c ≡ true
    → c ≢ 48
    → read_nat (c ∷ s) ≡ some (read_digits 0 (c ∷ s))
unfolding read_nat
read_nat_cons c s h z = ground arith

read_digits_all :
    (n : ℕ) (rest : Text)
    → starts_with_digit rest ≡ false
    → read_digits 0 (digits (suc n) n rest) ≡ (n, rest)
read_digits_all n rest h =
    read_digits-digits (suc n) n rest (omega arith) ∙ read_digits_stop n rest h

read_nat-digits :
    (n : ℕ) (rest : Text)
    → starts_with_digit rest ≡ false
    → read_nat (digits (suc n) n rest) ≡ some (n, rest)
unfolding read_nat digits
read_nat-digits zero rest h = rw h
read_nat-digits (suc n) rest h =
    let (d, s, e, digit, nonzero) = digits_head (suc (suc n)) (suc n) rest (omega arith) in
    let same : read_digits 0 (d ∷ s) ≡ (suc n, rest) = rw e at (read_digits_all (suc n) rest h) in
    rw e (read_nat_cons d s digit (nonzero (λ q. omega arith)) ∙ ap some same)

digits_minus :
    (n : ℕ) (rest : Text)
    → starts_with_digit rest ≡ false
    → read_int (digits (suc n) n rest) ≡ as_pos (read_nat (digits (suc n) n rest))
unfolding read_int
digits_minus n rest h =
    let (d, s, e, digit, nonzero) = digits_head (suc n) n rest (omega arith) in rw e (ground arith)

abbrev pub fits_int64 : ℤ → Bool
fits_int64 (pos n) = ltb n (2 ^ 63)
fits_int64 (negsuc n) = ltb n (2 ^ 63)

pub read_int-print_int :
    (z : ℤ) (rest : Text)
    → starts_with_digit rest ≡ false
    → fits_int64 z ≡ true
    → read_int (print_int z rest) ≡ some (z, rest)
unfolding read_int print_int
read_int-print_int (pos n) rest h f = digits_minus n rest h ∙ rw (read_nat-digits n rest h) (rw f)
read_int-print_int (negsuc n) rest h f = rw (read_nat-digits (suc n) rest h) (rw f)

-- The text of an integer begins with a minus sign or a digit.
pub print_int_head :
    (z : ℤ) (rest : Text) → (c : ℕ) × (s : Text) × (print_int z rest ≡ c ∷ s) × (45 ≤ c) × (c ≤ 57)
unfolding print_int
print_int_head (pos n) rest =
    let (d, s, e, digit, nonzero) = digits_head (suc n) n rest (omega arith) in
    (d, s, e, ground arith, ground arith)
print_int_head (negsuc n) rest = (45, _, refl, omega arith, omega arith)

digits_longer : (f n : ℕ) (acc : Text) → length acc ≤ length (digits f n acc)
unfolding digits
digits_longer zero n acc = omega arith
digits_longer (suc f) n acc = ground (arith, digits_longer f (n / 10) ((48 + n % 10) ∷ acc))

pub print_int_longer : (z : ℤ) (rest : Text) → length rest ≤ length (print_int z rest)
unfolding print_int
print_int_longer (pos n) rest = digits_longer (suc n) n rest
print_int_longer (negsuc n) rest = omega (arith, digits_longer (suc (suc n)) (suc n) rest)
