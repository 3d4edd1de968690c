-- ===== src/Disk/Succeeds.antt =====
-- Atomic writes of src/runw.cpp where the system refuses nothing.
use mathlib.Core.List.{Memᴰ}
use runw.Common.{
  ap, ◌≡◌, ◌∙◌, refl, sym, Bool, true, false, Option, none, some, List, [], ◌∷◌, ◌++◌, Text,
  text_eq, text_eq_iff, text_eq_self, length, All, Bool-cases, inl, inr, arith,
}
use runw.Disk.{Disk, Os, file, put, is_file}
use runw.Disk.TempFile.{open_append, get_temp_filename}
use runw.Disk.AtomicFile.{atomic_create, atomic_update, replace_file, rename_file, replaced}
use runw.Disk.Atomicity.{
  Spares, open_append_cases, open_append_elsewhere, text_eq-append, get_temp_filename-Spares,
  suffixes-Apart, Apart,
}

-- A system that opens and renames all files, and writes texts whole.
pub record Willing (os : Os) : Type 0 where
  pub opens : (d : Disk) (p : Text) → os.opens d p ≡ true
  pub renames : (d : Disk) (p q : Text) → os.renames d p q ≡ true
  pub whole : (d : Disk) (p text : Text) → os.stored d p text ≡ text

-- A suffix that is drawn and whose name is free.
pub record HasFree (suffixes : List Text) (path : Text) (d : Disk) : Type 0 where
  pub suffix : Text
  pub drawn : Memᴰ suffix suffixes
  pub free : d.node (path ++ suffix) ≡ none

-- The disk after a search that has ended.
record Found (d : Disk) (r : Option (Text × Disk)) : Type 0 where
  temp : Text
  left : Disk
  found : r ≡ some (temp, left)
  elsewhere : (q : Text) → text_eq temp q ≡ false → left.node q ≡ d.node q

get_temp_filename-Found :
    (os : Os)
    → Willing os
    → (suffixes : List Text) (d : Disk) (prefix s : Text) → Memᴰ s suffixes
    → d.node (prefix ++ s) ≡ none
    → Found d (get_temp_filename os suffixes d prefix)
unfolding get_temp_filename
get_temp_filename-Found os w [] d prefix s m free = elim m [ ]
get_temp_filename-Found os w (x ∷ more) d prefix s m free =
    elim (open_append_cases os d (prefix ++ x) (w.opens d _)) [
      | inl found ↦ record {
        temp = prefix ++ x;
        left = (open_append os d (prefix ++ x)).0;
        found = rw (found, get_temp_filename) refl;
        elsewhere = open_append_elsewhere os d (prefix ++ x);
      }
      | inr (same, taken) ↦ elim m [
        | Memᴰ.head p ↦ absurd (taken (rw (← p) free))
        | Memᴰ.tail m' ↦
            rw (same, get_temp_filename) (get_temp_filename-Found os w more d prefix s m' free)
      ]
    ]

-- A write that has succeeded: the text is at the path, and no other name has come up.
pub record Written (path text : Text) (d : Disk) (r : Option (Bool × Disk)) : Type 0 where
  pub left : Disk
  pub done : r ≡ some (true, left)
  pub here : left.node path ≡ some (file text)
  pub nothing_new : (q : Text) → text_eq path q ≡ false → d.node q ≡ none → left.node q ≡ none

replace_file-Written :
    (os : Os)
    → Willing os
    → (temp path text : Text) (d b : Disk) → text_eq temp path ≡ false
    → ((q : Text) → text_eq temp q ≡ false → b.node q ≡ d.node q)
    → Written path text d (some (replace_file os temp path b text))
unfolding replace_file rename_file put
replace_file-Written os w temp path text d b other same =
    rw (w.opens b temp, replace_file)
      (rw (w.renames (put b temp (some (file (os.stored b temp text)))) temp path, rename_file)
        (rw (w.whole b temp text) (record {
          left = put (put (put b temp (some (file text))) path (some (file text))) temp none;
          done = rw (text_eq_self temp) refl;
          here = ground (arith, text_eq_self path);
          nothing_new = λ q hq free. ground (arith, same q);
        })))

none_found : {r : Text × Disk} → ◌≡◌ {A = Option (Text × Disk)} none (some r) → ⊥
none_found h = cc

-- What the search found is what the record of it says.
found_same :
    (d : Disk) (temp temp' : Text) (b b' : Disk)
    → ◌≡◌ {A = Option (Text × Disk)} (some (temp, b)) (some (temp', b'))
    → ((q : Text) → text_eq temp' q ≡ false → b'.node q ≡ d.node q)
    → (q : Text) → text_eq temp q ≡ false
    → b.node q ≡ d.node q
found_same d temp temp' b b' e same q h =
    let name : temp' ≡ temp = cc in
    let disk : b ≡ b' = cc in ap (λ x. x.node q) disk ∙ same q (ap (λ t. text_eq t q) name ∙ h)

replaced-Written :
    (os : Os)
    → Willing os
    → (path text : Text) (d : Disk) (r : Option (Text × Disk)) → Spares d path r
    → Found d r
    → Written path text d (replaced os path text r)
replaced-Written os w path text d none spared f = absurd (none_found f.found)
replaced-Written os w path text d (some (temp, b)) spared f =
    replace_file-Written os w temp path text d b spared.1
      (found_same d temp f.temp b f.left f.found f.elsewhere)

module _ (os : Os) (w : Willing os) (suffixes : List Text) (six : All (λ s. length s ≡ 6) suffixes)
    (path text : Text) (d : Disk) (free : HasFree suffixes path d) where
  writes-Written :
      Written path text d (replaced os path text (get_temp_filename os suffixes d path))
  writes-Written =
      replaced-Written os w path text d (get_temp_filename os suffixes d path)
        (get_temp_filename-Spares os suffixes d path path (suffixes-Apart path suffixes six))
        (get_temp_filename-Found os w suffixes d path free.suffix free.drawn free.free)

  pub atomic_update-Written :
      is_file (d.node path) ≡ true → Written path text d (atomic_update os suffixes path text d)
  unfolding atomic_update
  atomic_update-Written there = rw (there, atomic_update) writes-Written

  pub atomic_create-Written :
      is_file (d.node path) ≡ false → Written path text d (atomic_create os suffixes path text d)
  unfolding atomic_create
  atomic_create-Written absent = rw (absent, atomic_create) writes-Written

-- A write to another path takes no free name away.
pub HasFree-Written :
    (suffixes : List Text) (p path text : Text) (d : Disk) (r : Option (Bool × Disk))
    → (w : Written path text d r) → (f : HasFree suffixes p d)
    → text_eq path (p ++ f.suffix) ≡ false
    → HasFree suffixes p w.left
HasFree-Written suffixes p path text d r w f other = record {
  suffix = f.suffix;
  drawn = f.drawn;
  free = w.nothing_new (p ++ f.suffix) other f.free;
}

differs : true ≡ false → ⊥
differs h = cc

text_eq-swap : (s t : Text) → text_eq s t ≡ false → text_eq t s ≡ false
text_eq-swap s t h = elim (Bool-cases (text_eq t s)) [
  | inl y ↦ absurd (differs (sym ((text_eq_iff s t).1 (sym ((text_eq_iff t s).0 y))) ∙ h))
  | inr n ↦ n
]

member-All : (P : Text → Type 0) (s : Text) (xs : List Text) → Memᴰ s xs → All P xs → P s
member-All P s [] m a = elim m [ ]
member-All P s (x ∷ xs) (Memᴰ.head p) a = rw p a.0
member-All P s (x ∷ xs) (Memᴰ.tail m) a = member-All P s xs m a.1

-- A temporary name of a path is not the path, and not one that its names are apart from.
pub own_name :
    (suffixes : List Text) (path : Text) (d : Disk)
    → All (λ s. length s ≡ 6) suffixes
    → (f : HasFree suffixes path d) → text_eq path (path ++ f.suffix) ≡ false
own_name suffixes path d six f =
    text_eq-swap (path ++ f.suffix) path
      (text_eq-append path f.suffix (member-All _ f.suffix suffixes f.drawn six))

pub other_name :
    (suffixes : List Text) (path q : Text) (d : Disk)
    → Apart path suffixes q
    → (f : HasFree suffixes path d) → text_eq q (path ++ f.suffix) ≡ false
other_name suffixes path q d apart f =
    text_eq-swap (path ++ f.suffix) q (member-All _ f.suffix suffixes f.drawn apart)
