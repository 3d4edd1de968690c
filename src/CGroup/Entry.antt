-- ===== src/CGroup/Entry.antt =====
-- When `CGroup::finalize` of src/cgroup.cpp succeeds.
use mathlib.Core.Path.{subst}
use runw.Common.{
  ◌≡◌, ◌≢◌, ◌↔◌, refl, sym, ap, ◌∙◌, ℕ, ℤ, ◌+◌, Bool, true, ◌∷◌, ◌++◌, Text, some, arith, length,
  Option-cases, inl, inr,
}
use runw.SdBus.Dialogue.{Expected, value, unexpected}
use runw.State.{State}
use runw.CGroup.Finalize.{
  Mode, unknown, unified, legacy, hybird, find, drop, has_newline, marker, skipped, find_line,
  find_entry, einval, cgroup_path, finalize,
}
use runw.CGroup.Search.{
  starts_with-append, find_before, drop-append, has_newline_at, has_newline-append, drop_split,
  find_first,
}

-- A file with a line for the mode: somewhere the marker, one byte more where the marker does not end
-- with a colon, and after these a line that ends.
pub record HasEntry (mode : Mode) (content : Text) : Type 0 where
  pub before : Text
  pub gap : Text
  pub path : Text
  pub after : Text
  pub gap_length : length (marker mode) + length gap ≡ skipped mode
  pub at : content ≡ before ++ (marker mode ++ (gap ++ (path ++ 10 ∷ after)))

find_line_value :
    (is_root : Bool) (mode : Mode) (s : Text)
    → (find_line is_root mode (some s) ≡ value tt) ↔ (has_newline (drop (skipped mode) s) ≡ true)
find_line_value is_root mode s = (λ h. ground (arith, h), λ h. ground (arith, h))

refused : (e : ℤ) → ◌≡◌ {A = Expected (Unit {0})} (unexpected e) (value tt) → ⊥
refused e h = cc

found-HasEntry :
    (is_root : Bool) (mode : Mode) (content : Text) (g : ℕ)
    → length (marker mode) + g ≡ skipped mode
    → find_line is_root mode (find (marker mode) content) ≡ value tt
    → HasEntry mode content
found-HasEntry is_root mode content g k h = elim (Option-cases (find (marker mode) content)) [
  | inl off ↦ absurd (refused einval (rw off at h))
  | inr (r, e) ↦
      let (b, whole, starts) = find_before (marker mode) content r e in
      let (rest, r_is) = starts_with-append (marker mode) r starts in
      let line : has_newline (drop (skipped mode) r) ≡ true =
        (find_line_value is_root mode r).0 (rw e at h) in
      let newline : has_newline (drop g rest) ≡ true =
        ap has_newline (
          sym (drop-append (marker mode) rest g)
          ∙ (ap (λ n. drop n (marker mode ++ rest)) k ∙ ap (drop (skipped mode)) (sym r_is)))
        ∙ line in
      let (gap, gap_length, rest_is) = drop_split g rest newline in
      let (path, after, path_is) = has_newline-append (drop g rest) newline in
      record {
        before = b;
        gap = gap;
        path = path;
        after = after;
        gap_length = ap (λ n. length (marker mode) + n) gap_length ∙ k;
        at =
            whole
            ∙ ap (λ x. b ++ x)
                (r_is ∙ ap (λ x. marker mode ++ x) (rest_is ∙ ap (λ x. gap ++ x) path_is));
      }
]

HasEntry-found :
    (is_root : Bool) (mode : Mode) (content : Text)
    → HasEntry mode content
    → find_line is_root mode (find (marker mode) content) ≡ value tt
unfolding drop
HasEntry-found is_root mode content e =
    let u = e.path ++ 10 ∷ e.after in
    let past : drop (length e.gap) (e.gap ++ u) ≡ u =
      ap (λ n. drop n (e.gap ++ u)) (omega arith) ∙ drop-append e.gap u 0 in
    let (r, found, line) =
      find_first (marker mode) e.before (e.gap ++ u) (length e.gap)
        (ap has_newline past ∙ has_newline_at e.path e.after) in
    ap (find_line is_root mode) (ap (find (marker mode)) e.at ∙ found)
    ∙ (find_line_value is_root mode r).1
        (ap (λ n. has_newline (drop n r)) (sym e.gap_length) ∙ line)

-- The bytes between the marker and the line.
gap_size : (mode : Mode) → (g : ℕ) × (length (marker mode) + g ≡ skipped mode)
gap_size unknown = (0, refl)
gap_size unified = (0, refl)
gap_size legacy = (1, refl)
gap_size hybird = (0, refl)

value_text : {s r : Text} → ◌≡◌ {A = Expected Text} (value s) (value r) → r ≡ s
value_text h = cc

with_known :
    {A : Type 0} {B : Type 0} (mode : Mode) → mode ≢ unknown → (A ↔ B) → A ↔ ((mode ≢ unknown) × B)
with_known mode known (there, back) = (λ a. (known, there a), λ b. back b.1)

find_entry_lem :
    (is_root : Bool) (mode : Mode) (file : Expected Text)
    → (find_entry is_root mode file ≡ value tt)
      ↔ ((content : Text) × (file ≡ value content) × HasEntry mode content)
find_entry_lem is_root mode (unexpected e) = (λ h. absurd (refused e h), λ h. cc)
find_entry_lem is_root mode (value content) = (
  λ h. let (g, k) = gap_size mode in (content, refl, found-HasEntry is_root mode content g k h),
  λ h. HasEntry-found is_root mode content (subst (HasEntry mode) (value_text h.1) h.2),
)

-- `finalize` succeeds in just these cases, whoever the user is: the mode of the control groups is known,
-- the process's cgroup file can be read, and somewhere in it the mode's marker stands with a newline
-- after it, past the bytes that are skipped.
pub finalize_lem :
    (reads : Text → Expected Text) (is_root : Bool) (mode : Mode) (s : State)
    → (finalize reads is_root mode s ≡ value tt) ↔ (
        (mode ≢ unknown)
        × ((content : Text) × (reads (cgroup_path s) ≡ value content) × HasEntry mode content))
unfolding finalize
finalize_lem reads is_root unknown s = (λ h. absurd (refused einval h), λ h. absurd (h.0 refl))
finalize_lem reads is_root unified s =
    with_known unified (λ e. cc) (find_entry_lem is_root unified (reads (cgroup_path s)))
finalize_lem reads is_root legacy s =
    with_known legacy (λ e. cc) (find_entry_lem is_root legacy (reads (cgroup_path s)))
finalize_lem reads is_root hybird s =
    with_known hybird (λ e. cc) (find_entry_lem is_root hybird (reads (cgroup_path s)))
