-- ===== src/Fs/Confined.antt =====
-- What `_relative_parts` lets through, and which descriptors a walk leaves open.
use mathlib.Core.List.{append_cancel_right}
use relay_agent.Base.{
  All, Bool, List, Option, Text, [], any, ap, arith, false, if-rule, if◌then◌else◌, inl, inr, none,
  refl, same, some, some-inj, subst, suc, true, ℕ, ◌++◌, ◌==◌, ◌||◌, ◌∙◌, ◌∷◌, ◌≡◌, ◌⊎◌,
}
use relay_agent.Fs.Cursor.{is_absolute, is_special, split_path}
use relay_agent.Fs.Lexical.{normalise, same_path}
use relay_agent.Fs.Paths.{
  FdEvent, Made, OpenResult, Walked, after_open_at, close_last, closed, descend, is_symlink,
  mkdir_fd, no_special, onto_root, open_dir_fd, opened, opens, os_error, parent_fd, reached,
  relative_parts, relative_to, traverses_symlink, unless_failed, value_error, value_raised,
  walk_failed, with_part,
}
use relay_agent.Fs.Plain.{is_plain, same_path-eq}

not_special-plain : (c : Text) → is_special c ≡ false → is_plain c ≡ true
unfolding is_plain same
not_special-plain [] h = ground (arith, h)
not_special-plain (c ∷ s) h = ground (arith, h)

any_special-Plain :
    (parts : List Text) → any is_special parts ≡ false → All (λ c. is_plain c ≡ true) parts
any_special-Plain [] h = tt
any_special-Plain (c ∷ parts) h =
    (not_special-plain c (first_of _ _ h), any_special-Plain parts (rest_of _ _ h))
  where
    first_of : (a b : Bool) → a || b ≡ false → a ≡ false
    first_of a b e = ground (arith, e)

    rest_of : (a b : Bool) → a || b ≡ false → b ≡ false
    rest_of a b e = ground (arith, e)

passed_if :
    (b : Bool) (p parts : List Text)
    → (if b then none else some p) ≡ some parts
    → (b ≡ false) × (p ≡ parts)
passed_if true p parts e = ground (arith, e)
passed_if false p parts e = (refl, ground (arith, e))

relative_to-eq : (root p parts : List Text) → relative_to root p ≡ some parts → p ≡ parts ++ root
unfolding relative_to
relative_to-eq root [] parts h =
    if-rule {A = Option (List Text)} (λ o. o ≡ some parts → [] ≡ parts ++ root) (same_path [] root)
      (λ same e. subst (λ q. [] ≡ q ++ root) (some-inj e) (same_path-eq [] root same))
      (λ _ e. ground (arith, e)) h
relative_to-eq root (c ∷ p) parts h =
    if-rule {A = Option (List Text)} (λ o. o ≡ some parts → c ∷ p ≡ parts ++ root)
      (same_path (c ∷ p) root)
      (λ same e. subst (λ q. c ∷ p ≡ q ++ root) (some-inj e) (same_path-eq (c ∷ p) root same))
      (λ _ e. longer (relative_to root p) (λ q k. relative_to-eq root p q k) e) h
  where
    longer :
        (o : Option (List Text))
        → ((q : List Text) → o ≡ some q → p ≡ q ++ root)
        → with_part c o ≡ some parts
        → c ∷ p ≡ parts ++ root
    longer none k e = ground (arith, e)
    longer (some q) k e = ap (λ t. c ∷ t) (k q refl) ∙ ap (λ t. t ++ root) (some-inj {a = c ∷ q} e)

-- The normalised path that `raw` stands for, below the data root where it is relative
abbrev pub meant : List Text → Text → List Text
meant root raw = normalise (if is_absolute raw then [] else root) (split_path raw)

-- The parts are let through only where the path that is meant is made of them below the data root, as
-- it is resolved or as it was given; and they are plain names: none is empty, `.` or `..`.
pub relative_parts-Plain :
    (root input_root : List Text) (raw : Text) (parts : List Text)
    → relative_parts root input_root raw ≡ some parts
    → All (λ c. is_plain c ≡ true) parts
      × ((meant root raw ≡ parts ++ root) ⊎ (meant root raw ≡ parts ++ input_root))
unfolding relative_parts
relative_parts-Plain root input_root raw parts h =
    let found = let_through _ parts h in
    (found.0, placed _ (λ q. relative_to-eq input_root (meant root raw) q) found.1)
  where
    let_through :
        (o : Option (List Text)) (parts : List Text)
        → no_special o ≡ some parts
        → All (λ c. is_plain c ≡ true) parts × (o ≡ some parts)
    let_through none parts e = ground (arith, e)
    let_through (some p) parts e =
        let (none_special, same_parts) = passed_if (any is_special p) p parts e in
        (
          subst (All (λ c. is_plain c ≡ true)) same_parts (any_special-Plain p none_special),
          ap some same_parts,
        )

    placed :
        (o : Option (List Text))
        → ((q : List Text) → o ≡ some q → meant root raw ≡ q ++ input_root)
        → relative_to root (onto_root root (meant root raw) o) ≡ some parts
        → (meant root raw ≡ parts ++ root) ⊎ (meant root raw ≡ parts ++ input_root)
    placed none k e = inl (relative_to-eq root (meant root raw) parts e)
    placed (some q) k e = inr (
        k q refl
        ∙ ap (λ t. t ++ input_root)
            (append_cancel_right q parts root (relative_to-eq root (q ++ root) parts e)))

unfoldable pub without : ℕ → List ℕ → List ℕ
without fd [] = []
without fd (x ∷ fds) = let rest = without fd fds in if x == fd then fds else x ∷ rest

-- The descriptors that are open after some events
unfoldable pub open_after : List ℕ → List FdEvent → List ℕ
unfolding without
open_after fds [] = fds
open_after fds (opened fd ∷ es) = open_after (fd ∷ fds) es
open_after fds (closed fd ∷ es) = open_after (without fd fds) es

abbrev pub held_by : Walked → List ℕ
held_by (reached fd) = fd ∷ []
held_by (value_raised fd) = fd ∷ []
held_by _ = []

open_after-append :
    (fds : List ℕ) (es fs : List FdEvent)
    → open_after fds (es ++ fs) ≡ open_after (open_after fds es) fs
unfolding open_after
open_after-append fds [] fs = refl
open_after-append fds (opened fd ∷ es) fs = open_after-append (fd ∷ fds) es fs
open_after-append fds (closed fd ∷ es) fs = open_after-append (without fd fds) es fs

without-only : (fd : ℕ) → without fd (fd ∷ []) ≡ []
unfolding without
without-only fd = ground arith

without-second : (fd : ℕ) → without fd (suc fd ∷ fd ∷ []) ≡ suc fd ∷ []
unfolding without
without-second fd = ground arith

module _ (open_at : ℕ → Text → OpenResult) where
  step_held :
      (o : OpenResult) (fd : ℕ) (rest : List FdEvent × Walked)
      → open_after (suc fd ∷ []) rest.0 ≡ held_by rest.1
      → open_after (fd ∷ []) (after_open_at o fd rest).0 ≡ held_by (after_open_at o fd rest).1
  unfolding open_after
  step_held opens fd rest h = ap (λ fds. open_after fds rest.0) (without-second fd) ∙ h
  step_held is_symlink fd rest h = without-only fd
  step_held value_error fd rest h = refl
  step_held os_error fd rest h = without-only fd

  descend_held :
      (fd : ℕ) (parts : List Text)
      → open_after (fd ∷ []) (descend open_at fd parts).0 ≡ held_by (descend open_at fd parts).1
  unfolding descend open_after
  descend_held fd [] = refl
  descend_held fd (part ∷ parts) =
      step_held (open_at fd part) fd (descend open_at (suc fd) parts) (descend_held (suc fd) parts)

  all_closed :
      (r : List FdEvent × Walked)
      → open_after [] r.0 ≡ held_by r.1
      → open_after [] (close_last open_at r).0 ≡ []
  unfolding open_after
  all_closed (es, reached fd) h =
      open_after-append [] es (closed fd ∷ [])
      ∙ ap (λ fds. open_after fds (closed fd ∷ [])) h
      ∙ without-only fd
  all_closed (es, value_raised fd) h =
      open_after-append [] es (closed fd ∷ [])
      ∙ ap (λ fds. open_after fds (closed fd ∷ [])) h
      ∙ without-only fd
  all_closed (es, traverses_symlink) h = h
  all_closed (es, walk_failed) h = h

  parent_fd-closes : (parts : List Text) → open_after [] (parent_fd open_at parts).0 ≡ []
  unfolding parent_fd open_dir_fd open_after
  parent_fd-closes parts = all_closed (open_dir_fd open_at parts) (descend_held 0 parts)

-- Wherever the opening or the making of a component fails, or meets a link: `_open_dir` leaves open
-- just the descriptor that it returns, none where it raises for an OSError, and the one that it had
-- reached where the opening raises ValueError; after `_parent_fd` and after `mkdir` none is open.
pub open_after-open_dir_fd :
    (open_at : ℕ → Text → OpenResult) (make_at : ℕ → Text → Made) (parts : List Text)
    → (open_after [] (open_dir_fd open_at parts).0 ≡ held_by (open_dir_fd open_at parts).1)
      × (open_after [] (parent_fd open_at parts).0 ≡ [])
      × (open_after [] (mkdir_fd make_at open_at parts).0 ≡ [])
unfolding open_dir_fd open_after mkdir_fd
open_after-open_dir_fd open_at make_at parts = (
  descend_held open_at 0 parts,
  parent_fd-closes open_at parts,
  parent_fd-closes (λ fd part. unless_failed (make_at fd part) (open_at fd part)) parts,
)
