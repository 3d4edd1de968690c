-- ===== src/Signal.antt =====
-- `parseNumeric` and `parseSignal` of src/runw.cpp: the signal that `runw kill` is asked to send. The
-- table is that of Linux, with the numbers of Linux on x86-64.
pub mod Names
use runw.Common.{
  ℕ, ◌+◌, ◌-◌, ◌*◌, ◌^◌, ◌≡◌, ltb, leb, ◌==◌, ℤ, pos, negsuc, Bool, true, false, ◌&&◌, Option, none,
  some, List, [], ◌∷◌, ◌++◌, map, take, Text, codes, text_eq, if◌then◌else◌,
}

-- `isdigit` and `toupper` of the C locale, which change no byte above 127.
abbrev pub is_digit : ℕ → Bool
is_digit c = leb 48 c && leb c 57

unfoldable pub to_upper : ℕ → ℕ
to_upper c = if leb b'a' c && leb c b'z' then c - 32 else c

-- The loop of `parseNumeric`; `none` is the overflow of its `int`, which C++ leaves undefined, and
-- -1 is returned at a byte that is no digit.
unfoldable pub parse_digits : ℕ → Text → Option ℤ
parse_digits value [] = some (pos value)
parse_digits value (c ∷ s) =
    let value' = value * 10 + (c - 48) in
    let rest = parse_digits value' s in
    if is_digit c then (if ltb value' (2 ^ 31) then rest else none) else some (negsuc 0)

unfoldable pub parse_numeric : Text → Option ℤ
unfolding parse_digits
parse_numeric name = parse_digits 0 name

-- `kSignalNames`.
abbrev pub signal_names : List (Text × ℕ)
signal_names =
    (codes "SIGABRT", 6)
    ∷ (codes "SIGALRM", 14)
    ∷ (codes "SIGBUS", 7)
    ∷ (codes "SIGCHLD", 17)
    ∷ (codes "SIGCONT", 18)
    ∷ (codes "SIGFPE", 8)
    ∷ (codes "SIGHUP", 1)
    ∷ (codes "SIGILL", 4)
    ∷ (codes "SIGINT", 2)
    ∷ (codes "SIGIO", 29)
    ∷ (codes "SIGKILL", 9)
    ∷ (codes "SIGPIPE", 13)
    ∷ (codes "SIGPROF", 27)
    ∷ (codes "SIGPWR", 30)
    ∷ (codes "SIGQUIT", 3)
    ∷ (codes "SIGSEGV", 11)
    ∷ (codes "SIGSTKFLT", 16)
    ∷ (codes "SIGSTOP", 19)
    ∷ (codes "SIGSYS", 31)
    ∷ (codes "SIGTERM", 15)
    ∷ (codes "SIGTRAP", 5)
    ∷ (codes "SIGTSTP", 20)
    ∷ (codes "SIGTTIN", 21)
    ∷ (codes "SIGTTOU", 22)
    ∷ (codes "SIGURG", 23)
    ∷ (codes "SIGUSR1", 10)
    ∷ (codes "SIGUSR2", 12)
    ∷ (codes "SIGVTALRM", 26)
    ∷ (codes "SIGWINCH", 28)
    ∷ (codes "SIGXCPU", 24)
    ∷ (codes "SIGXFSZ", 25)
    ∷ []

-- `kSignalNames.find(name)`, and -1 if it is at the end.
unfoldable pub find_signal : Text → List (Text × ℕ) → ℤ
find_signal name [] = negsuc 0
find_signal name ((k, v) ∷ table) = if text_eq k name then pos v else find_signal name table

-- `Upper`, with "SIG" put in front unless it is there.
unfoldable pub with_prefix : Text → Text
with_prefix upper = if text_eq (take 3 upper) (codes "SIG") then upper else codes "SIG" ++ upper

-- A value other than -1 of `parseNumeric` is the answer.
unfoldable pub by_name : Text → ℤ → ℤ
unfolding with_prefix
by_name name (pos n) = pos n
by_name name (negsuc n) =
    if n == 0 then find_signal (with_prefix (map to_upper name)) signal_names else negsuc n

unfoldable pub parse_signal : Text → Option ℤ
unfolding parse_numeric by_name
parse_signal name = elim (parse_numeric name) [
  | none ↦ none
  | some value ↦ some (by_name name value)
]
