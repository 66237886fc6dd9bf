-- ===== src/Fs/Cursor.antt =====
-- agent/commands/fs.py: the cursor of `list_dir` and `_validate_list_cursor`.
use relay_agent.Base.{
  Bool, List, Option, Text, [], false, if◌then◌else◌, leb, length, none, not, same, some, true, ℕ,
  ◌&&◌, ◌++◌, ◌==◌, ◌||◌, ◌∷◌,
}

-- A frame of the stack of directories that are being listed.
pub record DirFrame : Type 0 where
  pub path : Text
  pub after : Text

-- What a client may send as a frame, and as a cursor; `none` stands for a value that is missing or
-- of another type.
pub data RawFrame : Type 0 where
  no_dict : RawFrame
  raw_frame : Option Text → Option Text → RawFrame

pub data RawCursor : Type 0 where
  no_cursor : RawCursor
  cursor : Bool → Option (List RawFrame) → RawCursor

pub data CursorError : Type 0 where
  bad_cursor bad_stack bad_frame bad_path bad_position bad_root bad_ancestry : CursorError

pub data Checked (A : Type 0) : Type 0 where
  valid : A → Checked A
  invalid : CursorError → Checked A

abbrev pub max_cursor_depth : ℕ
max_cursor_depth = 128

abbrev pub is_empty : Text → Bool
is_empty [] = true
is_empty (_ ∷ _) = false

abbrev pub is_absolute : Text → Bool
is_absolute [] = false
is_absolute (c ∷ _) = c == b'/'

abbrev pub before_first : ℕ → List Text → List Text
before_first c [] = (c ∷ []) ∷ []
before_first c (p ∷ ps) = (c ∷ p) ∷ ps

-- The components between slashes; `Path.parts` leaves out the empty ones and the single dots.
unfoldable pub split_path : Text → List Text
split_path [] = [] ∷ []
split_path (c ∷ s) =
    let parts = split_path s in if c == b'/' then [] ∷ parts else before_first c parts

abbrev pub is_kept : Text → Bool
is_kept part = not (is_empty part) && not (same part (b'.' ∷ []))

-- `part in ("", ".", "..")`
abbrev pub is_special : Text → Bool
is_special part = is_empty part || same part (b'.' ∷ []) || same part (b'.' ∷ b'.' ∷ [])

abbrev pub any_special : List Text → Bool
any_special [] = false
any_special (part ∷ parts) = (is_kept part && is_special part) || any_special parts

unfoldable pub is_unsafe : Text → Bool
is_unsafe path = is_absolute path || any_special (split_path path)

unfoldable pub has_char : ℕ → Text → Bool
has_char c [] = false
has_char c (d ∷ s) = d == c || has_char c s

-- The path of an entry of a directory, both relative to the listed one.
abbrev pub join : Text → Text → Text
join [] name = name
join (c ∷ dir) name = (c ∷ dir) ++ b'/' ∷ name

abbrev pub below : List DirFrame → Text → Checked DirFrame → Checked DirFrame
below [] path ok = if is_empty path then ok else invalid bad_root
below (parent ∷ _) path ok =
    if same path (join parent.path parent.after) then ok else invalid bad_ancestry

-- One frame of the loop of `_validate_list_cursor`, where `stack` holds the frames before it, the
-- last one first.
unfoldable pub check_frame : List DirFrame → RawFrame → Checked DirFrame
check_frame stack (raw_frame (some path) (some after)) =
    if not (is_empty path) && is_unsafe path
    then invalid bad_path
    else if has_char b'/' after || has_char 0 after
    then invalid bad_position
    else below stack path (valid (record { path = path; after = after }))
check_frame stack _ = invalid bad_frame

unfoldable pub check_frames : List DirFrame → List RawFrame → Checked (List DirFrame)
unfolding check_frame
check_frames stack [] = valid stack
check_frames stack (raw ∷ raws) = elim (check_frame stack raw) [
  | invalid e ↦ invalid e
  | valid frame ↦ check_frames (frame ∷ stack) raws
]

abbrev pub check_stack : Option (List RawFrame) → Checked (List DirFrame)
check_stack none = invalid bad_stack
check_stack (some raws) =
    if leb 1 (length raws) && leb (length raws) max_cursor_depth
    then check_frames [] raws
    else invalid bad_stack

-- `_validate_list_cursor`: the stack that it returns, the last frame first.
unfoldable pub validate_list_cursor : RawCursor → Checked (List DirFrame)
unfolding check_frames
validate_list_cursor no_cursor = invalid bad_cursor
validate_list_cursor (cursor is_version_1 stack) =
    if is_version_1 then check_stack stack else invalid bad_cursor

-- The frames of a stack, the first one first.
unfoldable pub raw_onto : List DirFrame → List RawFrame → List RawFrame
raw_onto [] raws = raws
raw_onto (frame ∷ stack) raws =
    raw_onto stack (raw_frame (some frame.path) (some frame.after) ∷ raws)

-- `{"version": 1, "stack": stack} if stack else None`
abbrev pub cursor_of : List DirFrame → Option RawCursor
cursor_of [] = none
cursor_of (frame ∷ stack) = some (cursor true (some (raw_onto (frame ∷ stack) [])))
