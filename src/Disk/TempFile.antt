-- ===== src/Disk/TempFile.antt =====
-- `getTempFilename` of src/runw.cpp.
use runw.Common.{Bool, true, false, Option, none, some, List, [], ◌∷◌, ◌++◌, Text, if◌then◌else◌}
use runw.Disk.{Node, file, Disk, Os, put}

-- `std::ofstream File(Path, std::ios::app)`: the disk, with a new empty file where there was none, and
-- whether `tellp()` is 0. It is -1 on a stream that was not opened.
unfoldable pub appended : Disk → Text → Bool → Option Node → Disk × Bool
appended d p true none = (put d p (some (file [])), true)
appended d p true (some (file [])) = (d, true)
appended d p _ _ = (d, false)

unfoldable pub open_append : Os → Disk → Text → Disk × Bool
unfolding appended
open_append os d p = appended d p (os.opens d p) (d.node p)

-- The loop, over the suffixes that the random engine draws. `none`: all were drawn, and the loop has
-- not ended.
unfoldable pub get_temp_filename : Os → List Text → Disk → Text → Option (Text × Disk)
unfolding open_append
get_temp_filename os [] d prefix = none
get_temp_filename os (suffix ∷ more) d prefix =
    let (d', empty) = open_append os d (prefix ++ suffix) in
    let rest = get_temp_filename os more d' prefix in
    if empty then some (prefix ++ suffix, d') else rest
