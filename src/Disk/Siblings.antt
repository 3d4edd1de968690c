-- ===== src/Disk/Siblings.antt =====
-- Directories with different names in one directory share no path.
use mathlib.Core.List.{append_assoc}
use runw.Common.{
  ◌≡◌, refl, sym, ◌∙◌, ap, Bool, true, false, not, ◌&&◌, [], ◌∷◌, ◌++◌, Text, codes, text_eq, ◌==◌,
  if◌then◌else◌, Bool-cases, inl, inr, arith,
}
use runw.FilePath.{is_absolute, has_filename, join}
use runw.Disk.{separated, trimmed, is_through, is_below}

abbrev no_separator : Text → Bool
no_separator [] = true
no_separator (c ∷ s) = not (c == b'/') && no_separator s

-- A name that a directory can have for an entry of its own.
unfoldable pub is_name : Text → Bool
is_name [] = false
is_name (c ∷ s) =
    no_separator (c ∷ s)
    && (not (text_eq (c ∷ s) (codes ".")) && not (text_eq (c ∷ s) (codes "..")))

one_name :
    (s t q : Text)
    → no_separator s ≡ true
    → no_separator t ≡ true
    → is_through s q ≡ true
    → is_through t q ≡ true
    → text_eq s t ≡ true
unfolding is_through text_eq
one_name [] [] q hs ht ps pt = refl
one_name [] (b ∷ t) [] hs ht ps pt = ground arith
one_name [] (b ∷ t) (c ∷ q) hs ht ps pt = ground arith
one_name (a ∷ s) [] [] hs ht ps pt = ground arith
one_name (a ∷ s) [] (c ∷ q) hs ht ps pt = ground arith
one_name (a ∷ s) (b ∷ t) [] hs ht ps pt = ground arith
one_name (a ∷ s) (b ∷ t) (c ∷ q) hs ht ps pt = ground (arith, one_name s t q)

same_name :
    (p s t q : Text)
    → no_separator s ≡ true
    → no_separator t ≡ true
    → is_through (p ++ s) q ≡ true
    → is_through (p ++ t) q ≡ true
    → text_eq s t ≡ true
unfolding is_through
same_name [] s t q hs ht ps pt = one_name s t q hs ht ps pt
same_name (a ∷ p) s t [] hs ht ps pt = ground arith
same_name (a ∷ p) s t (c ∷ q) hs ht ps pt = same_name p s t q hs ht (ground arith) (ground arith)

-- A name at the end has no separator to trim.
trimmed_name : (c : _) (s : Text) → no_separator (c ∷ s) ≡ true → trimmed (c ∷ s) ≡ c ∷ s
unfolding trimmed
trimmed_name c [] h = ground arith
trimmed_name c (d ∷ s) h = ground (arith, trimmed_name d s)

separated-append : (p : Text) (c : _) (s : Text) → separated (p ++ c ∷ s) ≡ b'/' ∷ (p ++ c ∷ s)
separated-append [] c s = refl
separated-append (a ∷ p) c s = refl

trimmed-append :
    (p : Text) (c : _) (s : Text) → no_separator (c ∷ s) ≡ true → trimmed (p ++ c ∷ s) ≡ p ++ c ∷ s
unfolding trimmed
trimmed-append [] c s h = trimmed_name c s h
trimmed-append (a ∷ p) c s h = elim (Bool-cases (a == b'/')) [
  | inl y ↦
      let same : a ≡ b'/' = ground arith in
      rw (trimmed-append p c s h, y)
        (separated-append p c s ∙ ap (λ x. x ∷ (p ++ c ∷ s)) (sym same))
  | inr n ↦ rw (trimmed-append p c s h, n) refl
]

is_below-through :
    (p : Text) (c : _) (s q : Text)
    → no_separator (c ∷ s) ≡ true
    → is_below (p ++ c ∷ s) q ≡ is_through (p ++ c ∷ s) q
unfolding is_below
is_below-through [] c s q h = ap (λ x. is_through x q) (trimmed-append [] c s h)
is_below-through (a ∷ p) c s q h = ap (λ x. is_through x q) (trimmed-append (a ∷ p) c s h)

-- What stands before a name in a directory.
abbrev stem : Text → Text
stem directory = if has_filename directory then directory ++ b'/' ∷ [] else directory

join_name :
    (directory : Text) (c : _) (s : Text)
    → no_separator (c ∷ s) ≡ true
    → join directory (c ∷ s) ≡ stem directory ++ c ∷ s
unfolding join
join_name directory c s h =
    let relative : is_absolute (c ∷ s) ≡ false = ground arith in
    elim (Bool-cases (has_filename directory)) [
      | inl y ↦ rw (relative, y) (sym (append_assoc directory (b'/' ∷ []) (c ∷ s)))
      | inr n ↦ rw (relative, n) refl
    ]

differs : true ≡ false → ⊥
differs h = cc

pub siblings :
    (directory s t q : Text)
    → is_name s ≡ true
    → is_name t ≡ true
    → text_eq s t ≡ false
    → is_below (join directory t) q ≡ true
    → is_below (join directory s) q ≡ false
unfolding is_name
siblings directory [] t q hs ht differ below = cc
siblings directory (a ∷ s) [] q hs ht differ below = cc
siblings directory (a ∷ s) (b ∷ t) q hs ht differ below =
    let ns : no_separator (a ∷ s) ≡ true = ground arith in
    let nt : no_separator (b ∷ t) ≡ true = ground arith in
    let through : (c : _) (r : Text)
        → no_separator (c ∷ r) ≡ true
        → is_below (join directory (c ∷ r)) q ≡ is_through (stem directory ++ c ∷ r) q =
      λ c r h.
        ap (λ x. is_below x q) (join_name directory c r h)
        ∙ is_below-through (stem directory) c r q h in
    elim (Bool-cases (is_below (join directory (a ∷ s)) q)) [
      | inl y ↦
          let same : text_eq (a ∷ s) (b ∷ t) ≡ true =
            same_name (stem directory) (a ∷ s) (b ∷ t) q ns nt (sym (through a s ns) ∙ y)
              (sym (through b t nt) ∙ below) in
          absurd (differs (sym same ∙ differ))
      | inr n ↦ n
    ]
