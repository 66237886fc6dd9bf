-- ===== src/Fs/Paths.antt =====
-- agent/commands/fs.py: `_relative_parts`, and the walks from the root's descriptor of `_open_dir`
-- and `_parent_fd`. Of the paths, the data root as it was given and as it is resolved are lists of
-- components, the last one first.
use relay_agent.Base.{List, Option, Text, [], any, if◌then◌else◌, none, some, suc, ℕ, ◌++◌, ◌∷◌}
use relay_agent.Fs.Cursor.{is_absolute, is_special, split_path}
use relay_agent.Fs.Lexical.{normalise, same_path}

abbrev pub with_part : Text → Option (List Text) → Option (List Text)
with_part c none = none
with_part c (some p) = some (c ∷ p)

-- `os.path.commonpath((root, p)) == root` and then `os.path.relpath(p, root)`
unfoldable pub relative_to : List Text → List Text → Option (List Text)
unfolding same_path
relative_to root [] = if same_path [] root then some [] else none
relative_to root (c ∷ p) =
    let rest = relative_to root p in if same_path (c ∷ p) root then some [] else with_part c rest

-- A path below the root as it was given counts as the same path below the resolved one.
abbrev pub onto_root : List Text → List Text → Option (List Text) → List Text
onto_root root candidate none = candidate
onto_root root candidate (some p) = p ++ root

abbrev pub no_special : Option (List Text) → Option (List Text)
no_special none = none
no_special (some parts) = if any is_special parts then none else some parts

-- `_relative_parts`, with none where ValueError is raised
unfoldable pub relative_parts : List Text → List Text → Text → Option (List Text)
unfolding normalise relative_to split_path
relative_parts root input_root raw =
    let candidate = normalise (if is_absolute raw then [] else root) (split_path raw) in
    no_special (relative_to root (onto_root root candidate (relative_to input_root candidate)))

-- How `os.open` of one component ends: with a descriptor, an OSError, or a ValueError, which a
-- component with a NUL character or a lone surrogate brings.
pub data OpenResult : Type 0 where
  opens is_symlink os_error value_error : OpenResult

-- How `os.mkdir` of one component ends.
pub data Made : Type 0 where
  dir_made file_exists make_failed : Made

pub data Walked : Type 0 where
  reached value_raised : ℕ → Walked
  traverses_symlink walk_failed : Walked

pub data FdEvent : Type 0 where
  opened closed : ℕ → FdEvent

abbrev pub failure_of : OpenResult → Walked
failure_of is_symlink = traverses_symlink
failure_of _ = walk_failed

abbrev pub before_events : List FdEvent → List FdEvent × Walked → List FdEvent × Walked
before_events es r = (es ++ r.0, r.1)

abbrev pub after_open_at : OpenResult → ℕ → List FdEvent × Walked → List FdEvent × Walked
after_open_at opens fd rest = before_events (opened (suc fd) ∷ closed fd ∷ []) rest
after_open_at value_error fd rest = ([], value_raised fd)
after_open_at result fd rest = (closed fd ∷ [], failure_of result)

-- The descriptors are numbered as they are opened; `open_at` is how the opening of a component
-- below a descriptor ends.
module _ (open_at : ℕ → Text → OpenResult) where
  -- The loop of `_open_dir`, from a descriptor that is open
  unfoldable pub descend : ℕ → List Text → List FdEvent × Walked
  descend fd [] = ([], reached fd)
  descend fd (part ∷ parts) =
      let rest = descend (suc fd) parts in after_open_at (open_at fd part) fd rest

  -- `_open_dir`, where the root itself can be opened; of the exceptions, only OSError is caught.
  unfoldable pub open_dir_fd : List Text → List FdEvent × Walked
  unfolding descend
  open_dir_fd parts = before_events (opened 0 ∷ []) (descend 0 parts)

  abbrev pub close_last : List FdEvent × Walked → List FdEvent × Walked
  close_last (es, reached fd) = (es ++ closed fd ∷ [], reached fd)
  close_last (es, value_raised fd) = (es ++ closed fd ∷ [], value_raised fd)
  close_last (es, w) = (es, w)

  -- `_parent_fd`, parents not created, around a body that opens and closes nothing itself;
  -- `parents` are all components but the last.
  unfoldable pub parent_fd : List Text → List FdEvent × Walked
  unfolding open_dir_fd
  parent_fd parents = close_last (open_dir_fd parents)

-- Where directories are made on the way: the opening that follows, unless `os.mkdir` fails
abbrev pub unless_failed : Made → OpenResult → OpenResult
unless_failed make_failed result = os_error
unless_failed _ result = result

-- `mkdir`, which is also the walk of `_parent_fd` where that makes the parents
unfoldable pub mkdir_fd :
    (ℕ → Text → Made) → (ℕ → Text → OpenResult) → List Text → List FdEvent × Walked
unfolding parent_fd
mkdir_fd make_at open_at parts =
    parent_fd (λ fd part. unless_failed (make_at fd part) (open_at fd part)) parts
