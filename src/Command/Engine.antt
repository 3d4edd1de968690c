-- ===== src/Command/Engine.antt =====
-- The set-up of the engine in `doRunInternal` of src/runw.cpp: what the program of a bundle gets.
use runw.Common.{
  ◌==◌, ℕ, ◌≢◌, ◌∙◌, sym, text_eq_iff, ◌≡◌, refl, ◌||◌, Bool, true, false, Option, none, some, List,
  [], ◌∷◌, ◌++◌, Text, codes, text_eq, if◌then◌else◌, Bool-cases, inl, inr, arith, ◌⊎◌, ap,
}
use runw.FilePath.{is_absolute, has_filename, join}
use runw.Bundle.{Bundle}

-- The arguments of `WasiMod->getEnv().init`, and `AllowedCmd` and `AllowedAll` of the process module.
pub record Engine : Type 0 where
  pub directories : List Text
  pub module_path : Text
  pub arguments : List Text
  pub environment : List Text
  pub allowed_commands : List Text
  pub allows_all : Bool

abbrev pub member : Text → List Text → Bool
member c [] = false
member c (x ∷ xs) = text_eq x c || member c xs

-- `AllowedCmd.insert`, on a set.
abbrev pub insert : Text → List Text → List Text
insert c xs = if member c xs then xs else xs ++ c ∷ []

unfoldable pub insert_all : List Text → List Text → List Text
insert_all [] xs = xs
insert_all (c ∷ cs) xs = insert_all cs (insert c xs)

-- `Cwd += ...` adds to the text of the path.
abbrev pub cwd_of : Bundle → Text
cwd_of b = b.root_path ++ b.cwd

abbrev pub engine : Bundle → Text → List Text → Engine
engine b arg args = record {
  directories = (codes "/:" ++ b.root_path) ∷ [];
  module_path = join (cwd_of b) arg;
  arguments = args;
  environment = b.envs;
  allowed_commands = insert_all b.cmds [];
  allows_all = true;
}

-- `none`: `Args[0]` of a bundle with no args is undefined.
unfoldable pub set_up : Bundle → Option Engine
unfolding join insert_all
set_up b = elim b.args [ [] ↦ none | arg ∷ args ↦ some (engine b arg args) ]

-- A directory to whose text a name can be appended as it is: it is empty or ends in a separator.
abbrev pub Complete : Text → Type 0
Complete directory = (directory ≡ []) ⊎ ((t : Text) × (directory ≡ t ++ b'/' ∷ []))

-- A directory that needs a separator first.
abbrev pub Incomplete : Text → Type 0
Incomplete directory = (t : Text) × (c : ℕ) × (c ≢ b'/') × (directory ≡ t ++ c ∷ [])

-- The path of a name in a directory.
abbrev pub InDirectory : Text → Text → Text → Type 0
InDirectory directory name path =
    (Complete directory × (path ≡ directory ++ name))
    ⊎ (Incomplete directory × (path ≡ directory ++ b'/' ∷ name))

-- What the set-up of a bundle with args should be.
pub record Serves (b : Bundle) (e : Engine) : Type 0 where
  pub arg : Text
  pub given : b.args ≡ arg ∷ e.arguments
  pub inside :
      (is_absolute arg ≡ true) × (e.module_path ≡ arg)
      ⊎ (is_absolute arg ≡ false) × InDirectory (b.root_path ++ b.cwd) arg e.module_path
  pub directory : e.directories ≡ (codes "/:" ++ b.root_path) ∷ []
  pub environment : e.environment ≡ b.envs
  pub all : e.allows_all ≡ true
  pub allowed : (c : Text) → member c e.allowed_commands ≡ member c b.cmds

member-append :
    (c : Text) (xs : List Text) (x : Text) → member c (xs ++ x ∷ []) ≡ (member c xs || text_eq x c)
member-append c [] x = ground arith
member-append c (y ∷ xs) x = ground (arith, member-append c xs x)

member-insert :
    (c x : Text) (xs : List Text) → member c (insert x xs) ≡ (member c xs || text_eq x c)
member-insert c x xs = elim (Bool-cases (member x xs)) [
  | inl old ↦ elim (Bool-cases (text_eq x c)) [
    | inl same ↦
        let there : member c xs ≡ true =
          ap (λ z. member z xs) (sym ((text_eq_iff x c).0 same)) ∙ old in
        rw old (rw there refl)
    | inr other ↦ rw old (ground arith)
  ]
  | inr new ↦ rw new (member-append c xs x)
]

member-insert_all :
    (c : Text) (cs xs : List Text) → member c (insert_all cs xs) ≡ (member c xs || member c cs)
unfolding insert_all
member-insert_all c [] xs = ground arith
member-insert_all c (x ∷ cs) xs =
    member-insert_all c cs (insert x xs) ∙ ground (arith, member-insert c x xs)

abbrev End : Text → Type 0
End t = ((has_filename t ≡ false) × Complete t) ⊎ ((has_filename t ≡ true) × Incomplete t)

Complete-cons : (c d : ℕ) (t : Text) → Complete (d ∷ t) → Complete (c ∷ (d ∷ t))
Complete-cons c d t (inl e) = cc
Complete-cons c d t (inr (s, e)) = inr (c ∷ s, ap (λ x. c ∷ x) e)

differs : true ≡ false → ⊥
differs h = cc

one_byte : (c : ℕ) → End (c ∷ [])
unfolding has_filename
one_byte c = elim (Bool-cases (c == b'/')) [
  | inl h ↦ let same : c ≡ b'/' = ground arith in inl (rw h refl, inr ([], ap (λ x. x ∷ []) same))
  | inr h ↦ inr (rw h refl, ([], c, (λ e. differs (rw e at h)), refl))
]

-- `has_filename` tells the two kinds apart.
has_filename-End : (t : Text) → End t
unfolding has_filename
has_filename-End [] = inl (refl, inl refl)
has_filename-End (c ∷ []) = one_byte c
has_filename-End (c ∷ (d ∷ t)) = elim (has_filename-End (d ∷ t)) [
  | inl (bare, complete) ↦ inl (bare, Complete-cons c d t complete)
  | inr (named, (s, b, differs, e)) ↦ inr (named, (c ∷ s, b, differs, ap (λ x. c ∷ x) e))
]

module_inside :
    (b : Bundle) (arg : Text)
    → is_absolute arg ≡ false
    → InDirectory (b.root_path ++ b.cwd) arg (join (cwd_of b) arg)
unfolding join
module_inside b arg h = elim (has_filename-End (cwd_of b)) [
  | inl (bare, complete) ↦ inl (complete, rw (h, join) (rw bare refl))
  | inr (named, incomplete) ↦ inr (incomplete, rw (h, join) (rw named refl))
]

module_outside : (b : Bundle) (arg : Text) → is_absolute arg ≡ true → join (cwd_of b) arg ≡ arg
unfolding join
module_outside b arg h = rw (h, join) refl

engine-Serves :
    (b : Bundle) (arg : Text) (args : List Text)
    → b.args ≡ arg ∷ args
    → Serves b (engine b arg args)
engine-Serves b arg args e = record {
  arg = arg;
  given = e;
  inside = elim (Bool-cases (is_absolute arg)) [
    | inl there ↦ inl (there, module_outside b arg there)
    | inr below ↦ inr (below, module_inside b arg below)
  ];
  directory = refl;
  environment = refl;
  all = refl;
  allowed = λ c. member-insert_all c b.cmds [];
}

set_up_args :
    (b : Bundle) (args : List Text)
    → b.args ≡ args
    → ((b.args ≡ []) × (set_up b ≡ none)) ⊎ ((e : Engine) × (set_up b ≡ some e) × Serves b e)
unfolding set_up
set_up_args b [] h = inl (h, rw (h, set_up) refl)
set_up_args b (arg ∷ args) h =
    inr (engine b arg args, rw (h, set_up) refl, engine-Serves b arg args h)

-- For every bundle, either there are no args, and the set-up is undefined, or the program gets the args
-- after the first in their order, the bundle's environment, the bundle's root as its one directory, as
-- its set of commands just those of the annotations, and beside it the flag that allows every command.
-- Its module is the first of the args: that path itself if it is absolute, and else the texts of the
-- root and the working directory put together, one separator unless they end in one or are empty, and
-- the path.
pub set_up-Serves :
    (b : Bundle)
    → ((b.args ≡ []) × (set_up b ≡ none)) ⊎ ((e : Engine) × (set_up b ≡ some e) × Serves b e)
set_up-Serves b = set_up_args b b.args refl
