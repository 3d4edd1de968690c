-- ===== src/Disk/AtomicFile.antt =====
-- `atomicCreateAndWriteFile`, `atomicUpdateFile` and `readAll` of src/runw.cpp.
use runw.Common.{Bool, true, false, Option, none, some, List, [], Text, if◌then◌else◌}
use runw.Disk.{file, Disk, Os, put, is_file, content}
use runw.Disk.TempFile.{get_temp_filename}

-- The rename of the written file. If it fails, the file is removed.
unfoldable pub rename_file : Os → Text → Text → Disk → Bool × Disk
rename_file os temp path d =
    if os.renames d temp path
    then (true, put (put d path (d.node temp)) temp none)
    else (false, put d temp none)

-- From the temporary file on: open it anew, write, rename.
unfoldable pub replace_file : Os → Text → Text → Disk → Text → Bool × Disk
unfolding rename_file
replace_file os temp path d text =
    if os.opens d temp
    then rename_file os temp path (put d temp (some (file (os.stored d temp text))))
    else (false, d)

abbrev pub replaced : Os → Text → Text → Option (Text × Disk) → Option (Bool × Disk)
replaced os path text none = none
replaced os path text (some (temp, d)) = some (replace_file os temp path d text)

-- `none`: no temporary name was found among the suffixes.
unfoldable pub atomic_create : Os → List Text → Text → Text → Disk → Option (Bool × Disk)
unfolding replace_file get_temp_filename
atomic_create os suffixes path text d =
    if is_file (d.node path)
    then some (false, d)
    else replaced os path text (get_temp_filename os suffixes d path)

unfoldable pub atomic_update : Os → List Text → Text → Text → Disk → Option (Bool × Disk)
unfolding replace_file get_temp_filename
atomic_update os suffixes path text d =
    if is_file (d.node path)
    then replaced os path text (get_temp_filename os suffixes d path)
    else some (false, d)

abbrev pub or_empty : Option Text → Text
or_empty none = []
or_empty (some t) = t

-- `readAll`: nothing at all where there is no regular file that can be read.
unfoldable pub read_all : Os → Disk → Text → Text
read_all os d path = if os.reads d path then or_empty (content (d.node path)) else []
