-- ===== src/State/Document.antt =====
-- Flat JSON objects: how the members of a state file are laid out, and a reference reader for such
-- texts (a part of RFC 8259: strings, integers, true and false, and no white space but a final line
-- end).
use runw.Common.{
  ℕ, zero, suc, ◌≡◌, refl, ◌∙◌, ◌==◌, ◌≤◌, ℤ, Bool, true, false, ◌&&◌, Option, none, some, List, [],
  ◌∷◌, ◌++◌, Text, codes, length, length-append, if◌then◌else◌, arith, ltb, text_eq,
}
use runw.State.Escape.{quote, json_escape, read_string, read_string-json_escape, all_escapable}
use runw.State.Decimal.{
  print_int, read_int, read_int-print_int, fits_int64, starts_with_digit, print_int_head,
  print_int_longer,
}

pub data Value : Type 0 where
  str : Text → Value
  int : ℤ → Value
  bool : Bool → Value

abbrev pub Member : Type 0
Member = Text × Value

-- The text of a value with what follows it, and so on up to a whole document.
unfoldable pub emit_value : Value → Text → Text
emit_value (str v) rest = quote ∷ (json_escape v ++ quote ∷ rest)
emit_value (int z) rest = print_int z rest
emit_value (bool true) rest = codes "true" ++ rest
emit_value (bool false) rest = codes "false" ++ rest

unfoldable pub emit_member : Member → Text → Text
unfolding emit_value
emit_member (k, v) rest = quote ∷ (json_escape k ++ quote ∷ b':' ∷ emit_value v rest)

unfoldable pub emit_more : List Member → Text
unfolding emit_member
emit_more [] = b'}' ∷ 10 ∷ []
emit_more (m ∷ ms) = b',' ∷ emit_member m (emit_more ms)

unfoldable pub emit : List Member → Text
unfolding emit_more
emit [] = b'{' ∷ b'}' ∷ 10 ∷ []
emit (m ∷ ms) = b'{' ∷ emit_member m (emit_more ms)

infixl 5 ◌>>=◌
abbrev ◌>>=◌ {ℓ κ} : {A : Type ℓ} {B : Type κ} → Option A → (A → Option B) → Option B
none >>= f = none
some a >>= f = f a

-- What follows a given text.
strip : Text → Text → Option Text
strip [] t = some t
strip (c ∷ s) [] = none
strip (c ∷ s) (d ∷ t) = let rest = strip s t in if c == d then rest else none

read_word : Text → Option (Value × Text)
unfolding strip
read_word t = elim (strip (codes "true") t) [
  | some rest ↦ some (bool true, rest)
  | none ↦ elim (strip (codes "false") t) [
    | some rest ↦ some (bool false, rest)
    | none ↦ read_int t >>= λ r. some (int r.0, r.1)
  ]
]

read_value : Text → Option (Value × Text)
unfolding read_word
read_value [] = none
read_value (c ∷ s) =
    if c == quote then read_string s >>= (λ r. some (str r.0, r.1)) else read_word (c ∷ s)

read_member : Text → Option (Member × Text)
unfolding read_value strip
read_member t = strip (quote ∷ []) t >>= read_string >>= λ r.
    strip (b':' ∷ []) r.1 >>= read_value >>= λ v. some ((r.0, v.0), v.1)

at_end : Text → Option (List Member)
at_end [] = some []
at_end (c ∷ s) = if text_eq (c ∷ s) (10 ∷ []) then some [] else none

-- The fuel bounds the number of members; the length of the text is enough.
read_more : ℕ → Text → Option (List Member)
unfolding at_end
read_more n [] = none
read_more zero (c ∷ s) = if c == b'}' then at_end s else none
read_more (suc n) (c ∷ s) =
    let more = read_member s >>= λ r. read_more n r.1 >>= λ ms. some (r.0 ∷ ms) in
    if c == b'}' then at_end s else if c == b',' then more else none

unfoldable pub read_document : Text → Option (List Member)
unfolding read_member read_more strip
read_document t = strip (b'{' ∷ []) t >>= read_member >>= λ r.
    read_more (length r.1) r.1 >>= λ ms. some (r.0 ∷ ms)

unfoldable pub all_ascii : Text → Bool
all_ascii [] = true
all_ascii (c ∷ s) = ltb c 128 && all_ascii s

-- What a JSON text can hold without a \u escape.
abbrev pub value_fits : Value → Bool
value_fits (str v) = all_escapable v && all_ascii v
value_fits (int z) = fits_int64 z
value_fits (bool b) = true

abbrev pub member_fits : Member → Bool
member_fits (k, v) = (all_escapable k && all_ascii k) && value_fits v

abbrev pub members_fit : List Member → Bool
members_fit [] = true
members_fit (m ∷ ms) = member_fits m && members_fit ms

read_word_int :
    (c : ℕ) (s : Text)
    → 45 ≤ c
    → c ≤ 57
    → read_value (c ∷ s) ≡ (read_int (c ∷ s) >>= λ r. some (int r.0, r.1))
unfolding read_value
read_word_int c s lo hi = ground arith

read_value-int :
    (z : ℤ) (rest : Text)
    → read_value (print_int z rest) ≡ (read_int (print_int z rest) >>= λ r. some (int r.0, r.1))
read_value-int z rest =
    let (c, s, e, lo, hi) = print_int_head z rest in rw e (read_word_int c s lo hi)

read_value-emit :
    (v : Value) (rest : Text)
    → starts_with_digit rest ≡ false
    → value_fits v ≡ true
    → read_value (emit_value v rest) ≡ some (v, rest)
unfolding read_value emit_value
read_value-emit (str v) rest d h = rw (read_string-json_escape v rest) (ground arith)
read_value-emit (int z) rest d h = read_value-int z rest ∙ rw (read_int-print_int z rest d h)
read_value-emit (bool true) rest d h = refl
read_value-emit (bool false) rest d h = refl

read_member-emit :
    (m : Member) (rest : Text)
    → starts_with_digit rest ≡ false
    → member_fits m ≡ true
    → read_member (emit_member m rest) ≡ some (m, rest)
unfolding read_member emit_member
read_member-emit (k, v) rest d h =
    rw (read_string-json_escape k (b':' ∷ emit_value v rest))
      (ground (arith, read_value-emit v rest d))

emit_value_longer : (v : Value) (rest : Text) → length rest ≤ length (emit_value v rest)
unfolding emit_value
emit_value_longer (str v) rest = omega (arith, length-append (json_escape v) (quote ∷ rest))
emit_value_longer (int z) rest = print_int_longer z rest
emit_value_longer (bool true) rest = omega arith
emit_value_longer (bool false) rest = omega arith

emit_more_longer : (ms : List Member) → length ms ≤ length (emit_more ms)
unfolding emit_more emit_member
emit_more_longer [] = omega arith
emit_more_longer ((k, v) ∷ ms) = omega (
  arith,
  emit_more_longer ms,
  emit_value_longer v (emit_more ms),
  length-append (json_escape k) (quote ∷ b':' ∷ emit_value v (emit_more ms)),
)

emit_more_stop : (ms : List Member) → starts_with_digit (emit_more ms) ≡ false
unfolding emit_more
emit_more_stop [] = refl
emit_more_stop (m ∷ ms) = refl

read_more-emit_more :
    (n : ℕ) (ms : List Member)
    → length ms ≤ n
    → members_fit ms ≡ true
    → read_more n (emit_more ms) ≡ some ms
unfolding read_more emit_more text_eq
read_more-emit_more zero [] le h = refl
read_more-emit_more (suc n) [] le h = refl
read_more-emit_more zero (m ∷ ms) le h = absurd (omega arith)
read_more-emit_more (suc n) (m ∷ ms) le h =
    rw (read_member-emit m (emit_more ms) (emit_more_stop ms) (ground arith))
      (rw (read_more-emit_more n ms (omega arith) (ground arith)))

-- A document whose texts JSON can hold is read back from its layout.
pub read_document-emit :
    (m : Member) (ms : List Member)
    → members_fit (m ∷ ms) ≡ true
    → read_document (emit (m ∷ ms)) ≡ some (m ∷ ms)
unfolding read_document emit
read_document-emit m ms h =
    rw (read_member-emit m (emit_more ms) (emit_more_stop ms) (ground arith))
      (rw (read_more-emit_more (length (emit_more ms)) ms (emit_more_longer ms) (ground arith)))
