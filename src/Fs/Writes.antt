-- ===== src/Fs/Writes.antt =====
-- agent/commands/fs.py: the commands that open, write and remove below the data root. Of the root
-- and of the paths the components are listed, the last one first.
use relay_agent.Base.{Bool, List, Option, Text, [], false, none, some, true, ℕ, ◌∷◌}
use relay_agent.Base.Int.{ℤ}
use relay_agent.Fs.Cursor.{below}
use relay_agent.Fs.Disk.{
  Disk, Done, Io, Kind, Outcome, Removal, absent, bad_value, directory, done, gone, not_removed,
  os_failed, other, pure, raise, symlink, ◌>>=◌, ◌>>◌,
}
use relay_agent.Fs.Paths.{
  Made, OpenResult, dir_made, file_exists, is_symlink, make_failed, opens, os_error, relative_parts,
  value_error,
}
use relay_agent.Fs.Ranges.{read_bytes}

-- The components in the order of a path, store before others
abbrev pub turn : List Text → List Text → List Text
turn [] ys = ys
turn (x ∷ xs) ys = turn xs (x ∷ ys)

abbrev pub opened_as {ℓ} : {A : Type ℓ} → A → OpenResult → Outcome A
opened_as a opens = done a
opened_as a is_symlink = symlink
opened_as a os_error = os_failed
opened_as a value_error = bad_value

abbrev pub is_there : Made → Outcome Done
is_there dir_made = done tt
is_there file_exists = done tt
is_there make_failed = os_failed

abbrev pub written : Bool → Outcome Done
written true = done tt
written false = os_failed

-- `os.unlink`, and `shutil.rmtree` with FileNotFoundError suppressed
abbrev pub unlinked : Removal → Outcome Done
unlinked gone = done tt
unlinked _ = os_failed

abbrev pub removed : Removal → Outcome Done
removed not_removed = os_failed
removed _ = done tt

-- `reply_archived size` is the reply with the size alone.
pub data ArchiveReply : Type 0 where
  no_source : ArchiveReply
  reply_archived : ℕ → ArchiveReply

module _ (d : Disk) where
  -- `os.mkdir` with FileExistsError passed over, where directories are made, with that mode
  unfoldable pub make_part : Option ℕ → List Text → Text → Io d.State Done
  make_part none at part s = (done tt, s)
  make_part (some mode) at part s =
      (is_there (d.make_dir s at part mode).0, (d.make_dir s at part mode).1)

  unfoldable pub open_part : List Text → Text → Io d.State (List Text)
  open_part at part s = (opened_as (part ∷ at) (d.open_dir s at part), s)

  -- The loop of `_parent_fd`, and that of `mkdir`
  unfoldable pub enter_all : Option ℕ → List Text → List Text → Io d.State (List Text)
  unfolding ◌>>=◌ make_part open_part
  enter_all mode at [] = pure at
  enter_all mode at (part ∷ parts) = do
    make_part mode at part
    below ← open_part at part
    enter_all mode below parts

  unfoldable pub open_root : Io d.State Done
  open_root s = (written (d.has_root s), s)

  unfoldable pub walk_root : Option ℕ → List Text → Io d.State (List Text)
  unfolding ◌>>=◌ open_root enter_all
  walk_root mode parts = do open_root; enter_all mode [] (turn parts [])

  -- `_parent_fd` around a body; parents are made with the mode 0o777, the default of `os.mkdir`.
  abbrev pub at_parent {ℓ} :
      {A : Type ℓ} → Option ℕ → (List Text → Text → Io d.State A) → List Text → Io d.State A
  at_parent mode body [] = raise bad_value
  at_parent mode body (name ∷ dirs) = do at ← walk_root mode dirs; body at name

  abbrev pub on_parts {ℓ} :
      {A : Type ℓ} → (List Text → Io d.State A) → Option (List Text) → Io d.State A
  on_parts f none = raise bad_value
  on_parts f (some parts) = f parts

  abbrev pub open_file : Bool → List Text → Text → Io d.State Done
  open_file append at name s =
      (opened_as tt (d.open_write s at name append).0, (d.open_write s at name append).1)

  abbrev pub write_file : List Text → Text → List ℕ → Io d.State Done
  write_file at name bytes s = (written (d.write s at name bytes).0, (d.write s at name bytes).1)

  -- Opens and writes; for `write_text` the bytes are none where the text has no encoding.
  unfoldable pub store : Bool → Option (List ℕ) → List Text → Text → Io d.State Done
  unfolding ◌>>=◌
  store append none at name = do open_file append at name; raise bad_value
  store append (some bytes) at name = do open_file append at name; write_file at name bytes

  unfoldable pub fetch : ℤ → ℤ → List Text → Text → Io d.State (List ℕ × Bool)
  fetch offset count at name s = (
    opened_as (read_bytes (d.read s at name) (d.size s at name) offset count)
        (d.open_read s at name),
    s,
  )

  abbrev pub cut : List Text → Text → Io d.State Done
  cut at name s = (unlinked (d.unlink s at name).0, (d.unlink s at name).1)

  abbrev pub cut_tree : List Text → Text → Io d.State Done
  cut_tree at name s = (removed (d.rmtree s at name).0, (d.rmtree s at name).1)

  abbrev pub make_dirs_above : List Text → Io d.State Done
  make_dirs_above parts s = (written (d.make_dirs s parts).0, (d.make_dirs s parts).1)

  abbrev pub tar : List Text → List Text → Io d.State Done
  tar source destination s =
      (written (d.write_archive s source destination).0, (d.write_archive s source destination).1)

  abbrev pub size_of : List Text → Io d.State ArchiveReply
  size_of destination s = (done (reply_archived (d.size_at s destination)), s)

  unfoldable pub archive_into : List Text → List Text → Io d.State ArchiveReply
  unfolding ◌>>=◌
  archive_into source destination = do
    make_dirs_above destination
    tar source destination
    size_of destination

  abbrev pub archive_kind : Io d.State ArchiveReply → Kind → Io d.State ArchiveReply
  archive_kind go absent = pure no_source
  archive_kind go directory = go
  archive_kind go other = raise os_failed

  module _ (root input_root : List Text) where
    abbrev pub on_path {ℓ} : {A : Type ℓ} → (List Text → Io d.State A) → Text → Io d.State A
    on_path f raw = on_parts f (relative_parts root input_root raw)

    unfoldable pub write_text : (Text → Option (List ℕ)) → Text → Text → Io d.State Done
    unfolding store walk_root
    write_text encode raw content =
        on_path (at_parent (some 511) (store false (encode content))) raw

    -- The bytes are those that the base64 text decodes to, none where it is refused.
    unfoldable pub write_bytes : Text → Option (List ℕ) → Bool → Io d.State Done
    unfolding store walk_root
    write_bytes raw none append = raise bad_value
    write_bytes raw (some bytes) append =
        on_path (at_parent (some 511) (store append (some bytes))) raw

    unfoldable pub mkdir : Text → ℕ → Io d.State Done
    unfolding ◌>>=◌ walk_root
    mkdir raw mode = on_path (λ parts. walk_root (some mode) parts >> pure tt) raw

    unfoldable pub remove : Text → Io d.State Done
    unfolding walk_root
    remove raw = on_path (at_parent none cut) raw

    unfoldable pub remove_tree : Text → Io d.State Done
    unfolding walk_root
    remove_tree raw = on_path (at_parent none cut_tree) raw

    -- `read_bytes`, around the range that it reads
    unfoldable pub read_file : Text → ℤ → ℤ → Io d.State (List ℕ × Bool)
    unfolding walk_root fetch
    read_file raw offset count = on_path (at_parent none (fetch offset count)) raw

    abbrev pub archive_from : Text → List Text → Io d.State ArchiveReply
    archive_from destination [] s = (bad_value, s)
    archive_from destination (name ∷ dirs) s =
        archive_kind (on_path (archive_into (name ∷ dirs)) destination) (d.kind_at s (name ∷ dirs))
          s

    unfoldable pub archive : Text → Text → Io d.State ArchiveReply
    unfolding archive_into
    archive source destination = on_path (archive_from destination) source
