-- ===== src/Disk.antt =====
-- The file system as far as src/runw.cpp uses it, and its functions on whole files.
pub mod TempFile
pub mod AtomicFile
pub mod Atomicity
pub mod WholeFile
pub mod Succeeds
pub mod Siblings
use runw.Common.{
  ℤ, ◌≡◌, refl, ◌&&◌, ◌||◌, not, Bool, true, false, Option, none, some, [], ◌∷◌, ◌++◌, Text,
  text_eq, text_eq_iff, ◌==◌, if◌then◌else◌, arith,
}

pub data Node : Type 0 where
  file : Text → Node
  dir fifo : Node

pub record Disk : Type 0 where
  pub node : Text → Option Node

-- What the operating system decides: which files it opens for writing and reads, how much of a text reaches a
-- file, which renames, removals and signals it carries out, whether a process reads a fifo.
pub record Os : Type 0 where
  pub opens : Disk → Text → Bool
  pub reads : Disk → Text → Bool
  pub stored : Disk → Text → Text → Text
  pub renames : Disk → Text → Text → Bool
  pub removes : Disk → Text → Bool
  -- What a removal that fails leaves.
  pub leaves : Disk → Text → Text → Bool
  -- The files that `Cache::clear` of the engine removes for a container.
  pub clears : Disk → Text → Text → Bool
  pub unlinks : Disk → Text → Bool
  pub has_reader : Disk → Text → Bool
  pub writes_fifo : Disk → Text → Bool
  -- `kill(pid, signal) == 0`.
  pub delivers : ℤ → ℤ → Bool

unfoldable pub put : Disk → Text → Option Node → Disk
put d p n = record { node = λ q. if text_eq p q then n else d.node q }

pub node-put :
    (d : Disk) (p q : Text) (n : Option Node)
    → (put d p n).node q ≡ (if text_eq p q then n else d.node q)
unfolding put
node-put d p q n = refl

-- `is_regular_file`, `is_directory`.
abbrev pub is_file : Option Node → Bool
is_file (some (file _)) = true
is_file _ = false

abbrev pub is_dir : Option Node → Bool
is_dir (some dir) = true
is_dir _ = false

abbrev pub content : Option Node → Option Text
content (some (file t)) = some t
content _ = none

-- A separator goes with what stands behind it.
abbrev separated : Text → Text
separated [] = []
separated (c ∷ p) = b'/' ∷ c ∷ p

-- The text of a directory without the separators at its end.
unfoldable pub trimmed : Text → Text
trimmed [] = []
trimmed (c ∷ p) = let rest = trimmed p in if c == b'/' then separated rest else c ∷ rest

-- A path itself and all paths through it.
unfoldable pub is_through : Text → Text → Bool
is_through [] [] = true
is_through [] (c ∷ _) = c == b'/'
is_through (a ∷ p) [] = false
is_through (a ∷ p) (b ∷ q) = a == b && is_through p q

-- A directory itself and all paths below it. There is no directory with an empty path.
unfoldable pub is_below : Text → Text → Bool
unfolding is_through trimmed
is_below [] q = false
is_below (c ∷ p) q = is_through (trimmed (c ∷ p)) q

-- `remove_all`.
unfoldable pub remove_all : Os → Disk → Text → Disk × Bool
remove_all os d p =
    let done = os.removes d p in
    (
      record {
        node = λ q. if is_below p q && (done || not (os.leaves d p q)) then none else d.node q;
      },
      done,
    )

-- `WasmEdge::AOT::Cache::clear`.
unfoldable pub clear_cache : Os → Text → Disk → Disk
clear_cache os id d = record { node = λ q. if os.clears d id q then none else d.node q }
