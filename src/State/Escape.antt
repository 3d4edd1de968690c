-- ===== src/State/Escape.antt =====
-- `jsonEscape` of src/state.cpp, against the strings of JSON.
use runw.Common.{
  ℕ, ◌≡◌, refl, ◌==◌, ltb, leb, Bool, true, false, ◌||◌, ◌&&◌, not, Option, none, some, [], ◌∷◌,
  ◌++◌, Text, if◌then◌else◌, arith,
}
use mathlib.Core.List.{append_assoc}

abbrev pub quote : ℕ
quote = 34

abbrev pub backslash : ℕ
backslash = 92

-- One round of the loop: what it pushes for a byte.
unfoldable pub escape_byte : ℕ → Text
escape_byte c =
    if c == 8
    then backslash ∷ b'b' ∷ []
    else if c == 12
    then backslash ∷ b'f' ∷ []
    else if c == 10
    then backslash ∷ b'n' ∷ []
    else if c == 13
    then backslash ∷ b'r' ∷ []
    else if c == 9
    then backslash ∷ b't' ∷ []
    else if c == quote
    then backslash ∷ quote ∷ []
    else if c == backslash
    then backslash ∷ backslash ∷ []
    else c ∷ []

unfoldable pub json_escape : Text → Text
json_escape [] = []
json_escape (c ∷ s) = escape_byte c ++ json_escape s

-- The reference reader of a JSON string (RFC 8259, section 7, without the \u escapes): the bytes
-- that a body stands for, and what follows the closing quote. A control character is an error.
unescape : ℕ → Option ℕ
unescape c =
    if c == quote || (c == backslash || c == b'/')
    then some c
    else if c == b'b'
    then some 8
    else if c == b'f'
    then some 12
    else if c == b'n'
    then some 10
    else if c == b'r'
    then some 13
    else if c == b't'
    then some 9
    else none

prepend : ℕ → Option (Text × Text) → Option (Text × Text)
prepend c none = none
prepend c (some (s, rest)) = some (c ∷ s, rest)

-- What follows an escape's letter.
escaped : Option ℕ → Option (Text × Text) → Option (Text × Text)
escaped none r = none
escaped (some c) r = prepend c r

-- The flag is set after a backslash.
read_body : Bool → Text → Option (Text × Text)
read_body esc [] = none
read_body true (c ∷ s) = escaped (unescape c) (read_body false s)
read_body false (c ∷ s) =
    let plain = read_body false s in
    let escape = read_body true s in
    if c == quote
    then some ([], s)
    else if c == backslash
    then escape
    else if ltb c 32
    then none
    else prepend c plain

unfoldable pub read_string : Text → Option (Text × Text)
unfolding read_body escaped prepend unescape
read_string s = read_body false s

-- The bytes that JSON lets into a string, with the escapes that the program writes.
abbrev pub escapable : ℕ → Bool
escapable c = leb 32 c || (c == 8 || (c == 9 || (c == 10 || (c == 12 || c == 13))))

read_escape_byte :
    (c : ℕ) (rest : Text)
    → read_body false (escape_byte c ++ rest)
      ≡ (if escapable c then prepend c (read_body false rest) else none)
unfolding read_string escape_byte
read_escape_byte c rest = ground arith

unfoldable pub all_escapable : Text → Bool
all_escapable [] = true
all_escapable (c ∷ s) = escapable c && all_escapable s

-- For every text and whatever follows, the reader of JSON strings gets the text back from what
-- `jsonEscape` writes and a closing quote, if each byte is at least 32 or one of \b \t \n \f \r. If
-- some byte is another control character, what was written is no JSON string.
pub read_string-json_escape :
    (s rest : Text)
    → read_string (json_escape s ++ quote ∷ rest)
      ≡ (if all_escapable s then some (s, rest) else none)
unfolding read_string json_escape all_escapable
read_string-json_escape [] rest = refl
read_string-json_escape (c ∷ s) rest =
    rw (append_assoc, read_escape_byte) (ground (arith, read_string-json_escape s rest))

-- A text that needs no escape is written as it stands.
unfoldable pub all_plain : Text → Bool
all_plain [] = true
all_plain (c ∷ s) = leb 32 c && (not (c == quote) && (not (c == backslash) && all_plain s))

pub json_escape-all_plain : (s : Text) → all_plain s ≡ true → json_escape s ≡ s
unfolding json_escape escape_byte all_plain
json_escape-all_plain [] h = refl
json_escape-all_plain (c ∷ s) h = ground (arith, json_escape-all_plain s)

pub all_escapable-all_plain : (s : Text) → all_plain s ≡ true → all_escapable s ≡ true
unfolding all_escapable all_plain
all_escapable-all_plain [] h = refl
all_escapable-all_plain (c ∷ s) h = ground (arith, all_escapable-all_plain s)
