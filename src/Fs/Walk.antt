-- ===== src/Fs/Walk.antt =====
-- agent/commands/fs.py: the loops of `list_dir`.
use relay_agent.Base.{
  Bool, List, Option, Text, [], false, if◌then◌else◌, leb, length, ltb, none, some, suc, true, zero,
  ℕ, ◌&&◌, ◌++◌, ◌+◌, ◌==◌, ◌||◌, ◌∷◌,
}
use relay_agent.Fs.Cursor.{
  Checked, CursorError, DirFrame, RawCursor, cursor_of, invalid, join, max_cursor_depth, valid,
  validate_list_cursor,
}

-- `os.stat` of an entry: a regular file with its size, a directory, any other kind, or an OSError.
pub data Entry : Type 0 where
  regular : ℕ → Entry
  directory other no_entry : Entry

-- Opening a directory of the stack: its entries, an OSError, or anything else raised, which is
-- also what an OSError of `os.listdir` comes to.
pub data Opened : Type 0 where
  entries : List Text → Opened
  not_opened raises : Opened

pub data RootOpened : Type 0 where
  present missing fails : RootOpened

abbrev pub max_entries : ℕ
max_entries = 20000

abbrev pub max_files : ℕ
max_files = 10000

-- Python's order of texts.
unfoldable pub precedes : Text → Text → Bool
precedes [] [] = false
precedes [] (_ ∷ _) = true
precedes (_ ∷ _) [] = false
precedes (a ∷ s) (b ∷ t) = ltb a b || (a == b && precedes s t)

unfoldable pub insert : Text → List Text → List Text
unfolding precedes
insert n [] = n ∷ []
insert n (m ∷ names) = let rest = insert n names in if precedes m n then m ∷ rest else n ∷ m ∷ names

-- `sorted(name for name in names if name > after)`
unfoldable pub sorted_after : Text → List Text → List Text
unfolding insert precedes
sorted_after after [] = []
sorted_after after (n ∷ names) =
    let rest = sorted_after after names in if precedes after n then insert n rest else rest

-- The last name seen in the directory, the files of the page, and the number of the entries
-- visited.
pub record Progress : Type 0 where
  pub after : Text
  pub files : List (Text × ℕ)
  pub visited : ℕ

pub data Scan : Type 0 where
  exhausted page_full : Progress → Scan
  descended : Progress → Text → Scan
  too_deep : Scan

abbrev pub with_file : Text → Entry → List (Text × ℕ) → List (Text × ℕ)
with_file path (regular size) files = files ++ (path, size) ∷ []
with_file path _ files = files

unfoldable pub visit : Text → Text → Entry → Progress → Progress
visit dir name e p = record {
  after = name;
  files = with_file (join dir name) e p.files;
  visited = p.visited + 1;
}

unfoldable pub is_page_full : Progress → Bool
is_page_full p = leb max_entries p.visited || leb max_files (length p.files)

-- One entry, with the scan of the entries after it.
unfoldable pub after_entry : ℕ → Text → Entry → Progress → Scan → Scan
unfolding is_page_full
after_entry depth child directory p rest =
    if leb max_cursor_depth depth then too_deep else descended p child
after_entry depth child _ p rest = if is_page_full p then page_full p else rest

pub data Listed : Type 0 where
  listed : List DirFrame → List (Text × ℕ) → Listed
  nesting_error raised out_of_rounds : Listed

pub data Reply : Type 0 where
  page : List (Text × ℕ) → Option RawCursor → Reply
  rejected : CursorError → Reply
  needs_pagination failed exhausted_rounds : Reply

abbrev pub moved : DirFrame → Text → DirFrame
moved frame after = record { path = frame.path; after = after }

abbrev pub child_frame : Text → DirFrame
child_frame path = record { path = path; after = [] }

-- `open_dir` and `stat` are the calls for a directory and for an entry, by the number of rounds
-- that are left, so that the tree may change while it is listed.
module _ (open_dir : ℕ → Text → Opened) (stat : ℕ → Text → Entry) where
  -- The loop over the names of a directory
  unfoldable pub scan : ℕ → Text → ℕ → List Text → Progress → Scan
  unfolding visit after_entry
  scan rounds dir depth [] p = exhausted p
  scan rounds dir depth (n ∷ names) p =
      let e = stat rounds (join dir n) in
      let q = visit dir n e p in
      let rest = scan rounds dir depth names q in after_entry depth (join dir n) e q rest

  unfoldable pub scan_start : DirFrame → List (Text × ℕ) → ℕ → Progress
  scan_start frame files visited = record { after = frame.after; files = files; visited = visited }

  -- The loop `while stack and not page_full`, where `go` stands for its next rounds
  unfoldable pub after_scan :
      (List DirFrame → List (Text × ℕ) → ℕ → Listed) → DirFrame → List DirFrame → Scan → Listed
  after_scan go frame stack (exhausted q) = go stack q.files q.visited
  after_scan go frame stack (page_full q) = listed (moved frame q.after ∷ stack) q.files
  after_scan go frame stack (descended q child) =
      let next_stack = child_frame child ∷ moved frame q.after ∷ stack in
      let more = go next_stack q.files q.visited in
      if leb max_entries q.visited then listed next_stack q.files else more
  after_scan go frame stack too_deep = nesting_error

  unfoldable pub after_open :
      (List DirFrame → List (Text × ℕ) → ℕ → Listed)
      → ℕ
      → DirFrame
      → List DirFrame
      → List (Text × ℕ)
      → ℕ
      → Opened
      → Listed
  unfolding after_scan scan sorted_after scan_start
  after_open go rounds frame stack files visited not_opened = go stack files visited
  after_open go rounds frame stack files visited raises = raised
  after_open go rounds frame stack files visited (entries names) = after_scan go frame stack (
      scan rounds frame.path (suc (length stack)) (sorted_after frame.after names)
        (scan_start frame files visited))

  unfoldable pub list_from : ℕ → List DirFrame → List (Text × ℕ) → ℕ → Listed
  unfolding after_open
  list_from rounds [] files visited = listed [] files
  list_from zero (frame ∷ stack) files visited = out_of_rounds
  list_from (suc rounds) (frame ∷ stack) files visited =
      after_open (list_from rounds) rounds frame stack files visited (open_dir rounds frame.path)

  abbrev pub reply_of : Bool → Listed → Reply
  reply_of pagination (listed [] files) = page files none
  reply_of pagination (listed (frame ∷ stack) files) =
      if pagination then page files (cursor_of (frame ∷ stack)) else needs_pagination
  reply_of pagination nesting_error = failed
  reply_of pagination raised = failed
  reply_of pagination out_of_rounds = exhausted_rounds

  abbrev pub stack_of : Option RawCursor → Checked (List DirFrame)
  stack_of none = valid (child_frame [] ∷ [])
  stack_of (some c) = validate_list_cursor c

  abbrev pub from_root : ℕ → Bool → List DirFrame → RootOpened → Reply
  from_root rounds pagination stack missing = page [] none
  from_root rounds pagination stack fails = failed
  from_root rounds pagination stack present = reply_of pagination (list_from rounds stack [] 0)

  abbrev pub from_stack : ℕ → Bool → RootOpened → Checked (List DirFrame) → Reply
  from_stack rounds pagination root (invalid e) = rejected e
  from_stack rounds pagination root (valid stack) = from_root rounds pagination stack root

  -- `list_dir`
  unfoldable pub list_dir : ℕ → Bool → Option RawCursor → RootOpened → Reply
  unfolding list_from
  list_dir rounds pagination c root = from_stack rounds pagination root (stack_of c)
