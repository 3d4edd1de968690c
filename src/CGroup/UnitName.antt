-- ===== src/CGroup/UnitName.antt =====
-- The names of the systemd scope and slice that `CGroup::enter` of src/cgroup.cpp asks for.
use runw.Common.{
  ℕ, zero, suc, ◌+◌, ◌≤◌, ◌<◌, ◌≡◌, refl, leb, ◌==◌, Bool, true, ◌&&◌, not, Option, none, some, [],
  ◌∷◌, ◌++◌, Text, Bool-cases, inl, inr, codes, length, take, drop, find, find_from, set,
  if◌then◌else◌, arith,
}

pub record UnitNames : Type 0 where
  pub scope : Text
  pub slice : Text

abbrev dot_scope : Text
dot_scope = codes ".scope"

-- `Scope[i] = '-'` at a position that was found.
unfoldable pub dash_at : Option ℕ → Text → Text
dash_at none scope = scope
dash_at (some i) scope = set scope i b'-'

-- The second colon is searched for in `Scope`, from the position after the first colon of the path.
unfoldable pub names_at : Option ℕ → Text → UnitNames
unfolding dash_at
names_at none path = record { scope = path ++ dot_scope; slice = path }
names_at (some first) path =
    let scope = drop (first + 1) path in
    record {
      scope = dash_at (find_from (first + 1) b':' scope) scope ++ dot_scope;
      slice = take first path;
    }

unfoldable pub unit_names : Text → Text → UnitNames
unfolding names_at
unit_names container_id [] = record {
  scope = codes "runw-" ++ (container_id ++ dot_scope);
  slice = [];
}
unit_names container_id (c ∷ path) = names_at (find b':' (c ∷ path)) (c ∷ path)

-- A text without a byte.
abbrev pub free : ℕ → Text → Bool
free c [] = true
free c (b ∷ s) = not (b == c) && free c s

find-free : (c : ℕ) (s : Text) → free c s ≡ true → find c s ≡ none
find-free c [] h = refl
find-free c (b ∷ s) h = ground (arith, find-free c s)

find_first : (c : ℕ) (s t : Text) → free c s ≡ true → find c (s ++ c ∷ t) ≡ some (length s)
find_first c [] t h = ground arith
find_first c (b ∷ s) t h = ground (arith, find_first c s t)

find_from_before :
    (n c : ℕ) (s t : Text)
    → n ≤ length s
    → free c s ≡ true
    → find_from n c (s ++ c ∷ t) ≡ some (length s)
find_from_before zero c s t le h = find_first c s t h
find_from_before (suc n) c [] t le h = absurd (omega arith)
find_from_before (suc n) c (b ∷ s) t le h = ground (arith, find_from_before n c s t)

find_from-free : (n c : ℕ) (s : Text) → free c s ≡ true → find_from n c s ≡ none
find_from-free zero c s h = find-free c s h
find_from-free (suc n) c [] h = refl
find_from-free (suc n) c (b ∷ s) h = ground (arith, find_from-free n c s)

find_from_after :
    (n c : ℕ) (s t : Text) → length s < n → free c t ≡ true → find_from n c (s ++ c ∷ t) ≡ none
find_from_after zero c s t lt h = absurd (omega arith)
find_from_after (suc n) c [] t lt h = ground (arith, find_from-free n c t h)
find_from_after (suc n) c (b ∷ s) t lt h = ground (arith, find_from_after n c s t)

drop_past : (s : Text) (c : ℕ) (t : Text) → drop (length s + 1) (s ++ c ∷ t) ≡ t
drop_past [] c t = refl
drop_past (b ∷ s) c t = ground (arith, drop_past s c t)

take_before : (s t : Text) → take (length s) (s ++ t) ≡ s
take_before [] t = refl
take_before (b ∷ s) t = ground (arith, take_before s t)

set_at : (s : Text) (c d : ℕ) (t : Text) → set (s ++ c ∷ t) (length s) d ≡ s ++ d ∷ t
set_at [] c d t = refl
set_at (b ∷ s) c d t = ground (arith, set_at s c d t)

unit_names_lem :
    (id s t : Text)
    → unit_names id (s ++ b':' ∷ t) ≡ names_at (find b':' (s ++ b':' ∷ t)) (s ++ b':' ∷ t)
unfolding unit_names
unit_names_lem id [] t = refl
unit_names_lem id (b ∷ s) t = refl

-- The second search, over what follows the first colon.
second_colon :
    (n : ℕ) (prefix name : Text)
    → free b':' prefix ≡ true
    → free b':' name ≡ true
    → dash_at (find_from (n + 1) b':' (prefix ++ b':' ∷ name)) (prefix ++ b':' ∷ name)
      ≡ prefix ++ (if leb (length prefix) n then b':' else b'-') ∷ name
unfolding dash_at
second_colon n prefix name hp hn = elim (Bool-cases (leb (length prefix) n)) [
  | inl le ↦ rw (le, find_from_after (n + 1) b':' prefix name (ground arith) hn)
  | inr gt ↦
      rw (gt, find_from_before (n + 1) b':' prefix name (ground arith) hp)
        (set_at prefix b':' b'-' name)
]

-- Of a path "slice:prefix:name" with no further colons, the slice is the first part. The scope has
-- the other two joined by a dash only if the prefix is longer than the slice: otherwise the colon
-- between them stays.
pub unit_names_of_parts :
    (id slice prefix name : Text)
    → free b':' slice ≡ true
    → free b':' prefix ≡ true
    → free b':' name ≡ true
    → unit_names id (slice ++ b':' ∷ (prefix ++ b':' ∷ name)) ≡ record {
      scope =
          (prefix ++ (if leb (length prefix) (length slice) then b':' else b'-') ∷ name)
          ++ codes ".scope";
      slice = slice;
    }
unfolding names_at
unit_names_of_parts id slice prefix name hs hp hn =
    rw (unit_names_lem, find_first b':' slice (prefix ++ b':' ∷ name) hs, names_at)
      (rw (drop_past, take_before, second_colon (length slice) prefix name hp hn))

-- A path without a colon names both the slice and the scope.
pub unit_names_of_plain :
    (id : Text) (c : ℕ) (path : Text)
    → free b':' (c ∷ path) ≡ true
    → unit_names id (c ∷ path) ≡ record { scope = (c ∷ path) ++ codes ".scope"; slice = c ∷ path }
unfolding unit_names
unit_names_of_plain id c path h = rw (find-free b':' (c ∷ path) h, names_at)
