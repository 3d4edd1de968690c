-- ===== src/FilePath.antt =====
-- `std::filesystem::path` as far as the program uses it: paths are texts, and `/` joins two.
use runw.Common.{Bool, true, false, [], ◌∷◌, ◌++◌, Text, ◌==◌, if◌then◌else◌}

abbrev pub is_absolute : Text → Bool
is_absolute [] = false
is_absolute (c ∷ _) = c == b'/'

-- The path ends in a file name, after which `/` writes a separator.
unfoldable pub has_filename : Text → Bool
has_filename [] = false
has_filename (c ∷ []) = if c == b'/' then false else true
has_filename (_ ∷ (d ∷ s)) = has_filename (d ∷ s)

unfoldable pub join : Text → Text → Text
unfolding has_filename
join p q = if is_absolute q then q else if has_filename p then p ++ b'/' ∷ q else p ++ q
