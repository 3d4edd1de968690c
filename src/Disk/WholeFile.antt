-- ===== src/Disk/WholeFile.antt =====
-- What an atomic write of src/runw.cpp leaves at its own path.
use runw.Common.{
  inl, inr, ◌≡◌, refl, Bool, true, false, Option, none, some, List, Text, text_eq, text_eq_self,
  length, All, Bool-cases, arith,
}
use runw.Disk.{Disk, Os, file, put, is_file}
use runw.Disk.TempFile.{get_temp_filename}
use runw.Disk.AtomicFile.{atomic_create, atomic_update, replace_file, rename_file, replaced}
use runw.Disk.Atomicity.{Spares, get_temp_filename-Spares, suffixes-Apart}

abbrev pub WholeAt : Os → Text → Text → Disk → Option (Bool × Disk) → Type 0
WholeAt os path text d none = Unit
WholeAt os path text d (some (true, d')) =
    (b : Disk) × (temp : Text) × (d'.node path ≡ some (file (os.stored b temp text)))
WholeAt os path text d (some (false, d')) = d'.node path ≡ d.node path

replace_file-WholeAt :
    (os : Os) (temp path : Text) (d b : Disk) (text : Text)
    → (b.node path ≡ d.node path) × (text_eq temp path ≡ false)
    → WholeAt os path text d (some (replace_file os temp path b text))
unfolding replace_file put
replace_file-WholeAt os temp path d b text hp = elim (Bool-cases (os.opens b temp)) [
  | inl opened ↦
      elim (Bool-cases (os.renames (put b temp (some (file (os.stored b temp text)))) temp path)) [
        | inl renamed ↦
            rw (opened, replace_file)
              (rw (renamed, rename_file)
                (b, temp, ground (arith, text_eq_self path, text_eq_self temp)))
        | inr failed ↦ rw (opened, replace_file) (rw (failed, rename_file) (ground arith))
      ]
  | inr refused ↦ rw (refused, replace_file) hp.0
]

replaced-WholeAt :
    (os : Os) (path text : Text) (d : Disk) (r : Option (Text × Disk))
    → Spares d path r
    → WholeAt os path text d (replaced os path text r)
replaced-WholeAt os path text d none hp = tt
replaced-WholeAt os path text d (some (temp, b)) hp = replace_file-WholeAt os temp path d b text hp

pub atomic_update-WholeAt :
    (os : Os) (suffixes : List Text) (path text : Text) (d : Disk)
    → All (λ s. length s ≡ 6) suffixes
    → WholeAt os path text d (atomic_update os suffixes path text d)
unfolding atomic_update
atomic_update-WholeAt os suffixes path text d six = elim (Bool-cases (is_file (d.node path))) [
  | inl h ↦
      rw (h, atomic_update)
        (replaced-WholeAt os path text d (get_temp_filename os suffixes d path)
          (get_temp_filename-Spares os suffixes d path path (suffixes-Apart path suffixes six)))
  | inr h ↦ rw (h, atomic_update) refl
]

pub atomic_create-WholeAt :
    (os : Os) (suffixes : List Text) (path text : Text) (d : Disk)
    → All (λ s. length s ≡ 6) suffixes
    → WholeAt os path text d (atomic_create os suffixes path text d)
unfolding atomic_create
atomic_create-WholeAt os suffixes path text d six = elim (Bool-cases (is_file (d.node path))) [
  | inl h ↦ rw (h, atomic_create) refl
  | inr h ↦
      rw (h, atomic_create)
        (replaced-WholeAt os path text d (get_temp_filename os suffixes d path)
          (get_temp_filename-Spares os suffixes d path path (suffixes-Apart path suffixes six)))
]
