-- ===== src/Disk/Atomicity.antt =====
-- What a reader of a file sees of a write, whatever fails.
use mathlib.Core.List.{Memᴰ}
use runw.Common.{
  ◌≢◌, ◌⊎◌, ◌≡◌, refl, ◌∙◌, Bool, true, false, Option, none, some, List, [], ◌∷◌, ◌++◌, Text, inl,
  inr, All, text_eq, text_eq_self, length, Bool-cases, arith,
}
use runw.Disk.{file, Disk, Os, put, is_file}
use runw.Disk.TempFile.{open_append, get_temp_filename}
use runw.Disk.AtomicFile.{rename_file, replaced, replace_file, atomic_create, atomic_update}

-- Paths that no temporary name is.
abbrev pub Apart : Text → List Text → Text → Type 0
Apart prefix suffixes q = All (λ s. text_eq (prefix ++ s) q ≡ false) suffixes

pub open_append_elsewhere :
    (os : Os) (d : Disk) (p q : Text)
    → text_eq p q ≡ false
    → (open_append os d p).0.node q ≡ d.node q
unfolding open_append put
open_append_elsewhere os d p q h = ground arith

-- What was found is another path than `q`, and `q` is as it was.
abbrev pub Spares : Disk → Text → Option (Text × Disk) → Type 0
Spares d q none = Unit
Spares d q (some (temp, d')) = (d'.node q ≡ d.node q) × (text_eq temp q ≡ false)

Spares-trans :
    (d d' : Disk) (q : Text) (r : Option (Text × Disk))
    → d'.node q ≡ d.node q
    → Spares d' q r
    → Spares d q r
Spares-trans d d' q none e h = tt
Spares-trans d d' q (some r) e h = (h.0 ∙ e, h.1)

pub get_temp_filename-Spares :
    (os : Os) (suffixes : List Text) (d : Disk) (prefix q : Text)
    → Apart prefix suffixes q
    → Spares d q (get_temp_filename os suffixes d prefix)
unfolding get_temp_filename
get_temp_filename-Spares os [] d prefix q a = tt
get_temp_filename-Spares os (s ∷ more) d prefix q a =
    let e = open_append_elsewhere os d (prefix ++ s) q a.0 in
    let d' = (open_append os d (prefix ++ s)).0 in
    elim (Bool-cases (open_append os d (prefix ++ s)).1) [
      | inl found ↦ rw (found, get_temp_filename) (e, a.0)
      | inr next ↦
          rw (next, get_temp_filename)
            (Spares-trans d d' q _ e (get_temp_filename-Spares os more d' prefix q a.1))
    ]

-- The outcome of a write to `path`, at `path` and at another path `q`.
abbrev pub AllOrNothing : Os → Text → Text → Disk → Text → Option (Bool × Disk) → Type 0
AllOrNothing os path text d q none = Unit
AllOrNothing os path text d q (some (true, d')) =
    ((b : Disk) × (temp : Text) × (d'.node path ≡ some (file (os.stored b temp text))))
    × (d'.node q ≡ d.node q)
AllOrNothing os path text d q (some (false, d')) =
    (d'.node path ≡ d.node path) × (d'.node q ≡ d.node q)

replace_file-AllOrNothing :
    (os : Os) (temp path q : Text) (d b : Disk) (text : Text)
    → (b.node path ≡ d.node path) × (text_eq temp path ≡ false)
    → (b.node q ≡ d.node q) × (text_eq temp q ≡ false)
    → text_eq path q ≡ false
    → AllOrNothing os path text d q (some (replace_file os temp path b text))
unfolding replace_file put
replace_file-AllOrNothing os temp path q d b text hp hq other =
    elim (Bool-cases (os.opens b temp)) [
      | inl opened ↦
          elim (Bool-cases
            (os.renames (put b temp (some (file (os.stored b temp text)))) temp path)) [
              | inl renamed ↦
                  rw (opened, replace_file)
                    (rw (renamed, rename_file)
                      (
                        (b, temp, ground (arith, text_eq_self path, text_eq_self temp)),
                        ground (arith, text_eq_self temp),
                      ))
              | inr failed ↦
                  rw (opened, replace_file) (rw (failed, rename_file) (ground arith, ground arith))
            ]
      | inr refused ↦ rw (refused, replace_file) (hp.0, hq.0)
    ]

pub text_eq-append : (p s : Text) → length s ≡ 6 → text_eq (p ++ s) p ≡ false
unfolding text_eq
text_eq-append [] [] h = absurd (omega arith)
text_eq-append [] (c ∷ s) h = refl
text_eq-append (a ∷ p) s h = ground (arith, text_eq-append p s)

-- The suffixes that the engine draws have six letters, so no temporary name is the path itself.
pub suffixes-Apart :
    (path : Text) (suffixes : List Text)
    → All (λ s. length s ≡ 6) suffixes
    → Apart path suffixes path
suffixes-Apart path [] h = tt
suffixes-Apart path (s ∷ more) h = (text_eq-append path s h.0, suffixes-Apart path more h.1)

replaced-AllOrNothing :
    (os : Os) (path q text : Text) (d : Disk) (r : Option (Text × Disk))
    → Spares d path r
    → Spares d q r
    → text_eq path q ≡ false
    → AllOrNothing os path text d q (replaced os path text r)
replaced-AllOrNothing os path q text d none hp hq other = tt
replaced-AllOrNothing os path q text d (some (temp, b)) hp hq other =
    replace_file-AllOrNothing os temp path q d b text hp hq other

module _ (os : Os) (suffixes : List Text) (path text q : Text) (d : Disk)
    (six : All (λ s. length s ≡ 6) suffixes) (apart : Apart path suffixes q)
    (other : text_eq path q ≡ false) where
  writes :
      AllOrNothing os path text d q (replaced os path text (get_temp_filename os suffixes d path))
  writes =
      replaced-AllOrNothing os path q text d (get_temp_filename os suffixes d path)
        (get_temp_filename-Spares os suffixes d path path (suffixes-Apart path suffixes six))
        (get_temp_filename-Spares os suffixes d path q apart) other

  -- Whatever the operating system refuses, a write that returns true leaves at the path one whole
  -- file, as the written stream left it, and a write that returns false leaves there what was there.
  -- Either way every other path that is no temporary name is as it was. This holds for the creation
  -- and for the update of a file, over six-letter suffixes.
  pub atomic_writes :
      AllOrNothing os path text d q (atomic_create os suffixes path text d)
      × AllOrNothing os path text d q (atomic_update os suffixes path text d)
  unfolding atomic_create atomic_update
  atomic_writes = elim (Bool-cases (is_file (d.node path))) [
    | inl h ↦ (rw (h, atomic_create) (refl, refl), rw (h, atomic_update) writes)
    | inr h ↦ (rw (h, atomic_create) writes, rw (h, atomic_update) (refl, refl))
  ]

-- The creation refuses a path that has a regular file, and the update one that has none: they return
-- false and touch nothing.
pub atomic_guards :
    (os : Os) (suffixes : List Text) (path text : Text) (d : Disk)
    → (is_file (d.node path) ≡ true → atomic_create os suffixes path text d ≡ some (false, d))
      × (is_file (d.node path) ≡ false → atomic_update os suffixes path text d ≡ some (false, d))
unfolding atomic_create atomic_update
atomic_guards os suffixes path text d = (λ h. rw (h, atomic_create), λ h. rw (h, atomic_update))

-- If no file under the prefix can be opened for writing, the search for a temporary name never ends:
-- whatever suffixes are drawn, and however many, none is taken.
pub get_temp_filename_stuck :
    (os : Os) (suffixes : List Text) (d : Disk) (prefix : Text)
    → ((b : Disk) (s : Text) → os.opens b (prefix ++ s) ≡ false)
    → get_temp_filename os suffixes d prefix ≡ none
unfolding get_temp_filename
get_temp_filename_stuck os [] d prefix h = refl
get_temp_filename_stuck os (s ∷ more) d prefix h =
    ground (arith, h d s, get_temp_filename_stuck os more d prefix h)

-- A name that is taken is passed over, and the disk is as it was.
pub open_append_cases :
    (os : Os) (d : Disk) (p : Text)
    → os.opens d p ≡ true
    → ((open_append os d p).1 ≡ true) ⊎ ((open_append os d p ≡ (d, false)) × (d.node p ≢ none))
unfolding open_append
open_append_cases os d p h = ground arith

-- Where files can be opened, the search ends as soon as a suffix is drawn whose name is free, if not
-- before: enough draws give a name.
pub get_temp_filename_ends :
    (os : Os) (suffixes : List Text) (d : Disk) (prefix s : Text)
    → ((b : Disk) (p : Text) → os.opens b p ≡ true)
    → Memᴰ s suffixes
    → d.node (prefix ++ s) ≡ none
    → (temp : Text) × (d' : Disk) × (get_temp_filename os suffixes d prefix ≡ some (temp, d'))
unfolding get_temp_filename
get_temp_filename_ends os [] d prefix s o m free = elim m [ ]
get_temp_filename_ends os (x ∷ more) d prefix s o (Memᴰ.head p) free =
    elim (open_append_cases os d (prefix ++ x) (o d _)) [
      | inl found ↦ (prefix ++ x, (open_append os d (prefix ++ x)).0, rw (found, get_temp_filename))
      | inr (same, taken) ↦ absurd (taken (rw (← p) free))
    ]
get_temp_filename_ends os (x ∷ more) d prefix s o (Memᴰ.tail m) free =
    elim (open_append_cases os d (prefix ++ x) (o d _)) [
      | inl found ↦ (prefix ++ x, (open_append os d (prefix ++ x)).0, rw (found, get_temp_filename))
      | inr (same, taken) ↦
          rw (same, get_temp_filename) (get_temp_filename_ends os more d prefix s o m free)
    ]
