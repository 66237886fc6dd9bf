-- ===== src/Fs/Listing.antt =====
-- agent/commands/fs.py: the loops of `list_dir`, over every tree.
use relay_agent.Base.{
  All, Bool, List, Option, Text, [], arith, false, if-rule, if◌then◌else◌, leb, length,
  length-append, none, refl, some, subst, suc, sym, true, zero, ℕ, ◌*◌, ◌+◌, ◌-◌, ◌<◌, ◌∷◌, ◌≡◌,
  ◌≤◌,
}
use relay_agent.Fs.Cursor.{
  Checked, DirFrame, RawCursor, has_char, invalid, join, max_cursor_depth, valid,
  validate_list_cursor,
}
use relay_agent.Fs.Handed.{IsChain, IsPosition, IsProper, chain_root}
use relay_agent.Fs.Pages.{
  IsListable, child-IsChain, moved-IsChain, stack-inj, tail-IsStack, validate_list_cursor-cursor,
  validated-IsListable,
}
use relay_agent.Fs.Walk.{
  Entry, Listed, Opened, Progress, Reply, RootOpened, Scan, after_entry, after_open, after_scan,
  child_frame, descended, directory, entries, exhausted, exhausted_rounds, fails, from_stack,
  insert, is_page_full, list_dir, list_from, listed, max_entries, max_files, missing, moved,
  nesting_error, no_entry, not_opened, other, out_of_rounds, page, page_full, precedes, present,
  raised, raises, regular, reply_of, scan, scan_start, sorted_after, stack_of, too_deep, visit,
  with_file,
}

insert-All :
    (n : Text) (names : List Text) → IsProper n → All IsProper names → All IsProper (insert n names)
unfolding insert
insert-All n [] p h = (p, tt)
insert-All n (m ∷ names) p (q, h) =
    if-rule (All IsProper) (precedes m n) (λ _. (q, insert-All n names p h)) λ _. (p, (q, h))

sorted_after-All :
    (after : Text) (names : List Text)
    → All IsProper names
    → All IsProper (sorted_after after names)
unfolding sorted_after
sorted_after-All after [] h = tt
sorted_after-All after (n ∷ names) (p, h) =
    if-rule (All IsProper) (precedes after n)
      (λ _. insert-All n _ p (sorted_after-All after names h)) λ _. sorted_after-All after names h

-- What a scan of the directory at `dir` leaves, when it starts with `v` entries visited.
abbrev pub IsScan : Text → ℕ → ℕ → Scan → Type 0
IsScan dir depth v (exhausted q) =
    (v ≤ q.visited) × (q.visited < max_entries) × (length q.files < max_files)
IsScan dir depth v (page_full q) = IsPosition q.after × (length q.files ≤ max_files)
IsScan dir depth v (descended q path) =
    (path ≡ join dir q.after)
    × IsProper q.after
    × (depth < max_cursor_depth)
    × (v < q.visited)
    × (length q.files < max_files)
IsScan dir depth v too_deep = Unit

with_file-length :
    (path : Text) (e : Entry) (files : List (Text × ℕ))
    → length (with_file path e files) ≤ suc (length files)
with_file-length path (regular size) files = omega (arith, length-append files ((path, size) ∷ []))
with_file-length path directory files = omega arith
with_file-length path other files = omega arith
with_file-length path no_entry files = omega arith

not_full :
    (p : Progress)
    → is_page_full p ≡ false
    → (p.visited < max_entries) × (length p.files < max_files)
unfolding is_page_full
not_full p h = (ground arith, ground arith)

leb-false : {a b : ℕ} → leb a b ≡ false → b < a
leb-false h = ground arith

weaker-IsScan :
    (dir : Text) (depth v w : ℕ) (r : Scan) → v ≤ w → IsScan dir depth w r → IsScan dir depth v r
weaker-IsScan dir depth v w (exhausted q) h (a, b, c) = (omega arith, b, c)
weaker-IsScan dir depth v w (page_full q) h s = s
weaker-IsScan dir depth v w (descended q path) h (a, b, c, d, e) = (a, b, c, omega arith, e)
weaker-IsScan dir depth v w too_deep h s = tt

full-IsScan :
    (dir : Text) (depth : ℕ) (n : Text) (p : Progress) (e : Entry) (rest : Scan)
    → IsProper n
    → length p.files < max_files
    → (is_page_full (visit dir n e p) ≡ false → IsScan dir depth p.visited rest)
    → IsScan dir depth p.visited
        (if is_page_full (visit dir n e p) then page_full (visit dir n e p) else rest)
unfolding visit
full-IsScan dir depth n p e rest (_, _, s, z) f h =
    if-rule (IsScan dir depth p.visited) (is_page_full (visit dir n e p))
      (λ _. ((s, z), omega (arith, with_file-length (join dir n) e p.files))) h

after_entry-IsScan :
    (dir : Text) (depth : ℕ) (n : Text) (p : Progress) (e : Entry) (rest : Scan)
    → IsProper n
    → length p.files < max_files
    → (is_page_full (visit dir n e p) ≡ false → IsScan dir depth p.visited rest)
    → IsScan dir depth p.visited (after_entry depth (join dir n) e (visit dir n e p) rest)
unfolding after_entry visit
after_entry-IsScan dir depth n p (regular size) rest k f h =
    full-IsScan dir depth n p (regular size) rest k f h
after_entry-IsScan dir depth n p other rest k f h = full-IsScan dir depth n p other rest k f h
after_entry-IsScan dir depth n p no_entry rest k f h = full-IsScan dir depth n p no_entry rest k f h
after_entry-IsScan dir depth n p directory rest k f h =
    if-rule (IsScan dir depth p.visited) (leb max_cursor_depth depth) (λ _. tt)
      λ d. (refl, k, leb-false d, omega arith, f)

module _ (open_dir : ℕ → Text → Opened) (stat : ℕ → Text → Entry) where
  scan-IsScan :
      (rounds : ℕ) (dir : Text) (depth : ℕ) (names : List Text) (p : Progress)
      → All IsProper names
      → p.visited < max_entries
      → length p.files < max_files
      → IsScan dir depth p.visited (scan open_dir stat rounds dir depth names p)
  unfolding scan visit
  scan-IsScan rounds dir depth [] p h v f = (omega arith, v, f)
  scan-IsScan rounds dir depth (n ∷ names) p (k, h) v f =
      let e = stat rounds (join dir n) in
      after_entry-IsScan dir depth n p e _ k f λ o.
        let (v', f') = not_full (visit dir n e p) o in
        weaker-IsScan dir depth p.visited (p.visited + 1) _ (omega arith)
          (scan-IsScan rounds dir depth names (visit dir n e p) h v' f')

  abbrev IsPage : Listed → Type 0
  IsPage (listed stack files) = IsListable stack × (length files ≤ max_files)
  IsPage out_of_rounds = ⊥
  IsPage _ = Unit

  -- That the loop comes to an end, within a number of rounds.
  abbrev Proceeds : (List DirFrame → List (Text × ℕ) → ℕ → Listed) → ℕ → Type 0
  Proceeds go bound =
      (stack : List DirFrame) (files : List (Text × ℕ)) (visited : ℕ)
      → IsListable stack
      → visited < max_entries
      → length files < max_files
      → 2 * (max_entries - visited) + length stack ≤ bound
      → IsPage (go stack files visited)

  after_scan-IsPage :
      (go : List DirFrame → List (Text × ℕ) → ℕ → Listed) (bound v : ℕ) (frame : DirFrame)
      (stack : List DirFrame) (r : Scan)
      → Proceeds go bound
      → IsListable (frame ∷ stack)
      → v < max_entries
      → 2 * (max_entries - v) + length stack ≤ bound
      → IsScan frame.path (suc (length stack)) v r
      → IsPage (after_scan open_dir stat go frame stack r)
  unfolding after_scan
  after_scan-IsPage go bound v frame stack (exhausted q) h (c, l) lt b (a, d, f) =
      h stack q.files q.visited (tail-IsStack c, omega arith) d f (omega arith)
  after_scan-IsPage go bound v frame stack (page_full q) h (c, l) lt b (p, f) =
      ((moved-IsChain q.after p c, l), f)
  after_scan-IsPage go bound v frame stack (descended q path) h (c, l) lt b (e, k, d, w, f) =
      let chain =
        subst (λ p. IsChain (child_frame p ∷ moved frame q.after ∷ stack)) (sym e)
          (child-IsChain q.after k c) in
      if-rule IsPage (leb max_entries q.visited) (λ _. ((chain, omega arith), omega arith))
        λ o. h _ q.files q.visited (chain, omega arith) (leb-false o) f (omega (arith, leb-false o))
  after_scan-IsPage go bound v frame stack too_deep h c lt b s = tt

  abbrev pub AreProper : Opened → Type 0
  AreProper (entries names) = All IsProper names
  AreProper _ = Unit

  module _ (proper : (rounds : ℕ) (dir : Text) → AreProper (open_dir rounds dir)) where
    after_open-IsPage :
        (go : List DirFrame → List (Text × ℕ) → ℕ → Listed) (bound rounds v : ℕ) (frame : DirFrame)
        (stack : List DirFrame) (files : List (Text × ℕ)) (o : Opened)
        → Proceeds go bound
        → IsListable (frame ∷ stack)
        → v < max_entries
        → length files < max_files
        → 2 * (max_entries - v) + length stack ≤ bound
        → AreProper o
        → IsPage (after_open open_dir stat go rounds frame stack files v o)
    unfolding after_open scan_start
    after_open-IsPage go bound rounds v frame stack files not_opened h (c, l) lt f b p =
        h stack files v (tail-IsStack c, omega arith) lt f b
    after_open-IsPage go bound rounds v frame stack files raises h c lt f b p = tt
    after_open-IsPage go bound rounds v frame stack files (entries names) h c lt f b p =
        after_scan-IsPage go bound v frame stack _ h c lt b
          (scan-IsScan rounds frame.path _ _ _ (sorted_after-All frame.after names p) lt f)

    list_from-IsPage : (rounds : ℕ) → Proceeds (list_from open_dir stat rounds) rounds
    unfolding list_from
    list_from-IsPage rounds [] files v r lt f b = ((tt, omega arith), omega arith)
    list_from-IsPage zero (frame ∷ stack) files v r lt f b = omega arith
    list_from-IsPage (suc rounds) (frame ∷ stack) files v r lt f b =
        after_open-IsPage (list_from open_dir stat rounds) rounds rounds v frame stack files _
          (list_from-IsPage rounds) r lt f (omega arith) (proper rounds frame.path)

    -- What a client may rely on: a page has at most 10 000 files, and its cursor is accepted.
    abbrev pub IsReply : Reply → Type 0
    IsReply (page files none) = length files ≤ max_files
    IsReply (page files (some c)) =
        (length files ≤ max_files) × (s : List DirFrame) × (validate_list_cursor c ≡ valid s)
    IsReply exhausted_rounds = ⊥
    IsReply _ = Unit

    reply_of-IsReply :
        (pagination : Bool) (l : Listed) → IsPage l → IsReply (reply_of open_dir stat pagination l)
    reply_of-IsReply pagination (listed [] files) (r, f) = f
    reply_of-IsReply false (listed (frame ∷ stack) files) (r, f) = tt
    reply_of-IsReply true (listed (frame ∷ stack) files) ((c, l), f) =
        (f, frame ∷ stack, validate_list_cursor-cursor frame stack c l)
    reply_of-IsReply pagination nesting_error h = tt
    reply_of-IsReply pagination raised h = tt
    reply_of-IsReply pagination out_of_rounds h = elim h [ ]

    stack_of-IsListable :
        (c : Option RawCursor) (stack : List DirFrame)
        → stack_of open_dir stat c ≡ valid stack
        → IsListable stack
    unfolding has_char
    stack_of-IsListable none stack e =
        let q = stack-inj _ _ e in subst IsListable q (chain_root (refl, refl), omega arith)
    stack_of-IsListable (some c) stack e = validated-IsListable c stack e

    from_stack-IsReply :
        (rounds : ℕ) (pagination : Bool) (root : RootOpened) (k : Checked (List DirFrame))
        → 40128 ≤ rounds
        → ((s : List DirFrame) → k ≡ valid s → IsListable s)
        → IsReply (from_stack open_dir stat rounds pagination root k)
    from_stack-IsReply rounds pagination root (invalid e) b h = tt
    from_stack-IsReply rounds pagination missing (valid s) b h = omega arith
    from_stack-IsReply rounds pagination fails (valid s) b h = tt
    from_stack-IsReply rounds pagination present (valid s) b h =
        let (c, l) = h s refl in
        reply_of-IsReply pagination (list_from open_dir stat rounds s [] 0)
          (list_from-IsPage rounds s [] 0 (c, l) (omega arith) (omega arith) (omega arith))

    -- Where the system only gives proper names, `list_dir` ends within 40 128 rounds, on any tree,
    -- even one that changes, from any cursor. A page has at most 10 000 files, and
    -- `_validate_list_cursor` accepts its cursor.
    pub list_dir-IsReply :
        (rounds : ℕ) (pagination : Bool) (c : Option RawCursor) (root : RootOpened)
        → 40128 ≤ rounds
        → IsReply (list_dir open_dir stat rounds pagination c root)
    unfolding list_dir
    list_dir-IsReply rounds pagination c root b =
        from_stack-IsReply rounds pagination root (stack_of open_dir stat c) b
          (stack_of-IsListable c)
