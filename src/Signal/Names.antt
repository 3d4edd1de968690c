-- ===== src/Signal/Names.antt =====
-- What `parseSignal` accepts.
use mathlib.Core.List.{Memᴰ}
use runw.Common.{
  text_eq_iff, ◌⊎◌, ◌≤ℤ◌, int_max, ℕ, zero, suc, ◌+◌, ◌-◌, ◌*◌, ◌/◌, ◌%◌, ◌^◌, ◌<◌, ◌≡◌, refl, sym,
  ◌∙◌, ap, ◌==◌, ℤ, pos, negsuc, inl, inr, Bool, true, false, ◌&&◌, Option, none, some, List, [],
  ◌∷◌, ◌++◌, map, take, drop, Text, codes, text_eq, Bool-cases, arith,
}
use runw.State.Decimal.{digits, print_int}
use runw.Signal.{
  is_digit, to_upper, parse_digits, parse_numeric, signal_names, find_signal, with_prefix,
  parse_signal,
}

to_upper-digit : (c : ℕ) → is_digit (to_upper c) ≡ is_digit c
unfolding to_upper
to_upper-digit c = ground arith

to_upper_of_digit : (c : ℕ) → is_digit c ≡ true → to_upper c ≡ c
unfolding to_upper
to_upper_of_digit c h = ground arith

parse_digits-to_upper : (v : ℕ) (s : Text) → parse_digits v (map to_upper s) ≡ parse_digits v s
unfolding parse_digits
parse_digits-to_upper v [] = refl
parse_digits-to_upper v (c ∷ s) =
    ground
      (arith, to_upper-digit c, to_upper_of_digit c, parse_digits-to_upper (v * 10 + (c - 48)) s)

-- What holds of each entry of the table: it is found, and neither the name nor the name less its
-- prefix is a number.
is_int : ℤ → ℕ → Bool
is_int (pos n) v = n == v
is_int (negsuc n) v = false

no_number : Option ℤ → Bool
no_number none = false
no_number (some (pos n)) = false
no_number (some (negsuc n)) = n == 0

entry_fits : Text × ℕ → Bool
entry_fits (k, v) =
    is_int (find_signal k signal_names) v
    && (no_number (parse_numeric k) && no_number (parse_numeric (drop 3 k)))
    && (text_eq (with_prefix (map to_upper k)) k
        && text_eq (with_prefix (map to_upper (drop 3 k))) k)

all_fit : List (Text × ℕ) → Bool
all_fit [] = true
all_fit (e ∷ es) = entry_fits e && all_fit es

table_fits : all_fit signal_names ≡ true
unfolding all_fit entry_fits is_int no_number find_signal parse_numeric text_eq with_prefix to_upper
table_fits = refl

entry_of_mem :
    (e : Text × ℕ) (es : List (Text × ℕ)) → all_fit es ≡ true → Memᴰ e es → entry_fits e ≡ true
unfolding all_fit
entry_of_mem e [] h m = elim m [ ]
entry_of_mem e (x ∷ es) h (Memᴰ.head p) = rw p (ground arith)
entry_of_mem e (x ∷ es) h (Memᴰ.tail m) = entry_of_mem e es (ground arith) m

int_of_is_int : (z : ℤ) (v : ℕ) → is_int z v ≡ true → z ≡ pos v
unfolding is_int
int_of_is_int (pos n) v h = ground arith
int_of_is_int (negsuc n) v h = cc

minus_one_of_no_number : (o : Option ℤ) → no_number o ≡ true → o ≡ some (negsuc 0)
unfolding no_number
minus_one_of_no_number none h = cc
minus_one_of_no_number (some (pos n)) h = cc
minus_one_of_no_number (some (negsuc n)) h = ground arith

parse_numeric-to_upper : (s : Text) → parse_numeric (map to_upper s) ≡ parse_numeric s
unfolding parse_numeric
parse_numeric-to_upper s = parse_digits-to_upper 0 s

-- A text whose capitals, with or without "SIG", are a name without a number is no number.
not_numeric :
    (k s : Text)
    → parse_numeric k ≡ some (negsuc 0)
    → parse_numeric (drop 3 k) ≡ some (negsuc 0)
    → with_prefix (map to_upper s) ≡ k
    → parse_numeric s ≡ some (negsuc 0)
unfolding with_prefix
not_numeric k s whole stem e = elim (Bool-cases (text_eq (take 3 (map to_upper s)) (codes "SIG"))) [
  | inl t ↦
      let same : map to_upper s ≡ k = rw t at e in
      sym (parse_numeric-to_upper s) ∙ (ap parse_numeric same ∙ whole)
  | inr t ↦
      let same : codes "SIG" ++ map to_upper s ≡ k = rw t at e in
      sym (parse_numeric-to_upper s) ∙ (ap (λ (u : Text). parse_numeric (drop 3 u)) same ∙ stem)
]

parse_signal_of_name :
    (k : Text) (v : ℕ) (s : Text)
    → Memᴰ (k, v) signal_names
    → with_prefix (map to_upper s) ≡ k
    → parse_signal s ≡ some (pos v)
unfolding parse_signal entry_fits
parse_signal_of_name k v s m e =
    let fits = entry_of_mem (k, v) signal_names table_fits m in
    let found : find_signal k signal_names ≡ pos v = int_of_is_int _ v (ground arith) in
    let whole : parse_numeric k ≡ some (negsuc 0) = minus_one_of_no_number _ (ground arith) in
    let stem : parse_numeric (drop 3 k) ≡ some (negsuc 0) =
      minus_one_of_no_number _ (ground arith) in
    rw (not_numeric k s whole stem e, parse_signal) (rw e (rw found))

-- The second text is the first with some of its small letters made capitals.
pub data Capitals : Text → Text → Type 0 where
  end : Capitals [] []
  same : (c : ℕ) (s t : Text) → Capitals s t → Capitals (c ∷ s) (c ∷ t)
  raised : (i : ℕ) (s t : Text) → i < 26 → Capitals s t → Capitals ((97 + i) ∷ s) ((65 + i) ∷ t)

raised_letter : (i : ℕ) → i < 26 → to_upper (97 + i) ≡ to_upper (65 + i)
unfolding to_upper
raised_letter i h = ground arith

map-to_upper : (s t : Text) → Capitals s t → map to_upper s ≡ map to_upper t
map-to_upper _ _ end = refl
map-to_upper _ _ (same c s t h) = ap (λ x. to_upper c ∷ x) (map-to_upper s t h)
map-to_upper _ _ (raised i s t le h) = rw (raised_letter i le, map-to_upper s t h)

-- Every name "SIG..." of the table is accepted in any mixture of small letters and capitals, and so is
-- what stands after its "SIG": each gives the name's number.
pub parse_signal-names :
    (stem : Text) (v : ℕ) (s : Text)
    → Memᴰ (codes "SIG" ++ stem, v) signal_names
    → Capitals s (codes "SIG" ++ stem) ⊎ Capitals s stem
    → parse_signal s ≡ some (pos v)
unfolding entry_fits
parse_signal-names stem v s m (inl whole) =
    let fits = entry_of_mem (codes "SIG" ++ stem, v) signal_names table_fits m in
    parse_signal_of_name (codes "SIG" ++ stem) v s m
      (ap with_prefix (map-to_upper s _ whole) ∙ (text_eq_iff _ _).0 (ground arith))
parse_signal-names stem v s m (inr short) =
    let fits = entry_of_mem (codes "SIG" ++ stem, v) signal_names table_fits m in
    parse_signal_of_name (codes "SIG" ++ stem) v s m
      (ap with_prefix (map-to_upper s _ short) ∙ (text_eq_iff _ _).0 (ground arith))

parse_digits-digits :
    (f n : ℕ) (acc : Text)
    → n < f
    → n < 2 ^ 31
    → parse_digits 0 (digits f n acc) ≡ parse_digits n acc
unfolding parse_digits digits
parse_digits-digits zero n acc h b = elim h [ ]
parse_digits-digits (suc f) n acc h b =
    ground (arith, parse_digits-digits f (n / 10) ((48 + n % 10) ∷ acc))

-- What is to become of an `int` in decimal.
abbrev pub accepted : ℤ → ℤ
accepted (pos n) = pos n
accepted (negsuc n) = negsuc 0

-- An `int` in decimal is accepted and gives itself unless it is negative. A negative one is refused: the
-- result is -1.
pub parse_signal-print_int :
    (z : ℤ) → z ≤ℤ int_max 32 → parse_signal (print_int z []) ≡ some (accepted z)
unfolding parse_signal parse_digits print_int find_signal with_prefix text_eq to_upper
parse_signal-print_int (pos n) h =
    rw (parse_digits-digits (suc n) n [] (omega arith) (ground arith), parse_signal) refl
parse_signal-print_int (negsuc n) h = refl
