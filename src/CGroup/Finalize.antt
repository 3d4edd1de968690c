-- ===== src/CGroup/Finalize.antt =====
-- `checkMode` and `CGroup::finalize` of src/cgroup.cpp: the mode of the control groups, and the look at
-- the group of a container's process.
use runw.Common.{
  ℕ, ℤ, pos, zero, suc, Bool, true, false, ◌&&◌, not, [], ◌∷◌, Text, codes, ◌==◌, Option, none,
  some, if◌then◌else◌,
}
use runw.FilePath.{join}
use runw.SdBus.Dialogue.{Expected, value, unexpected}
use runw.State.{State, get_pid}
use runw.State.Decimal.{print_int}

pub data Mode : Type 0 where
  unknown unified legacy hybird : Mode

abbrev pub cgroup2_super_magic : ℕ
cgroup2_super_magic = 1667723888

abbrev pub tmp_fs_magic : ℕ
tmp_fs_magic = 16914836

abbrev pub einval : ℤ
einval = pos 22

abbrev is_enoent : ℤ → Bool
is_enoent (pos n) = n == 2
is_enoent _ = false

-- Of what `statfs` says about /sys/fs/cgroup/unified.
abbrev pub unified_mode : Expected ℕ → Mode
unified_mode (unexpected e) = if is_enoent e then legacy else unknown
unified_mode (value type) = if type == cgroup2_super_magic then hybird else legacy

abbrev pub root_mode : Expected ℕ → Expected ℕ → Mode
root_mode (unexpected e) unified_type = unknown
root_mode (value type) unified_type =
    if type == cgroup2_super_magic
    then unified
    else if not (type == tmp_fs_magic)
    then unknown
    else unified_mode unified_type

-- `statfs` gives the type of a path's file system or fails with an errno.
unfoldable pub check_mode : (Text → Expected ℕ) → Mode
check_mode statfs =
    root_mode (statfs (codes "/sys/fs/cgroup")) (statfs (codes "/sys/fs/cgroup/unified"))

-- `Content.find`: what starts with the first occurrence.
unfoldable pub starts_with : Text → Text → Bool
starts_with [] s = true
starts_with (c ∷ t) [] = false
starts_with (c ∷ t) (d ∷ s) = c == d && starts_with t s

unfoldable pub find : Text → Text → Option Text
unfolding starts_with
find t [] = if starts_with t [] then some [] else none
find t (c ∷ s) = let rest = find t s in if starts_with t (c ∷ s) then some (c ∷ s) else rest

unfoldable pub drop : ℕ → Text → Text
drop zero s = s
drop (suc n) [] = []
drop (suc n) (c ∷ s) = drop n s

-- `Content.find('\n', From)` finds one.
unfoldable pub has_newline : Text → Bool
has_newline [] = false
has_newline (c ∷ s) = let rest = has_newline s in if c == 10 then true else rest

-- What is searched for, and the bytes that are skipped from there.
abbrev pub marker : Mode → Text
marker legacy = codes ":memory"
marker _ = codes "0::"

abbrev pub skipped : Mode → ℕ
skipped legacy = 8
skipped _ = 3

-- The path that is then cut out is not used, and both branches on the user return the same.
abbrev pub find_line : Bool → Mode → Option Text → Expected (Unit {0})
find_line is_root mode none = unexpected einval
find_line is_root mode (some s) =
    if has_newline (drop (skipped mode) s)
    then (if is_root then value tt else value tt)
    else unexpected einval

abbrev pub find_entry : Bool → Mode → Expected Text → Expected (Unit {0})
find_entry is_root mode (unexpected e) = unexpected e
find_entry is_root mode (value content) = find_line is_root mode (find (marker mode) content)

abbrev pub cgroup_path : State → Text
cgroup_path s = join (join (codes "/proc") (print_int (get_pid s) [])) (codes "cgroup")

-- `reads` is `readAll`: the bytes of a file, or the errno of opening it.
unfoldable pub finalize : (Text → Expected Text) → Bool → Mode → State → Expected (Unit {0})
unfolding find has_newline drop join get_pid
finalize reads is_root unknown s = unexpected einval
finalize reads is_root unified s = find_entry is_root unified (reads (cgroup_path s))
finalize reads is_root legacy s = find_entry is_root legacy (reads (cgroup_path s))
finalize reads is_root hybird s = find_entry is_root hybird (reads (cgroup_path s))
