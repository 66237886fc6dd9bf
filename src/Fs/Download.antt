-- ===== src/Fs/Download.antt =====
-- What a file that is read in pieces gives.
use mathlib.Core.List.{append-nil}
use relay_agent.Base.{
  Bool-cases, List, Option, Text, [], ap, arith, false, inl, inr, leb, leb→le, length, none, refl,
  some, suc, sym, zero, ℕ, ◌++◌, ◌+◌, ◌<◌, ◌∙◌, ◌∷◌, ◌≡◌, ◌≤◌,
}
use relay_agent.Base.Int.{pos, ℤ}
use relay_agent.Fs.Disk.{Disk, Done, Io, Outcome, continue, done, ◌>>=◌}
use relay_agent.Fs.Lawful.{IsLawful, IsReadable, Passes, drop}
use relay_agent.Fs.Paths.{relative_parts}
use relay_agent.Fs.Pieces.{all_bytes, append_all, before, content-upload, download, joined, upload}
use relay_agent.Fs.Ranges.{read_bytes, read_length, read_length-bounds, read_offset}
use relay_agent.Fs.Transfer.{>>=-done}
use relay_agent.Fs.Writes.{
  at_parent, enter_all, fetch, make_part, on_parts, open_part, open_root, read_file, store, turn,
  walk_root, write_bytes,
}

drop_past {ℓ} : {A : Type ℓ} (n : ℕ) (xs : List A) → length xs ≤ n → drop n xs ≡ []
drop_past zero [] h = refl
drop_past zero (x ∷ xs) h = absurd (omega arith)
drop_past (suc n) [] h = refl
drop_past (suc n) (x ∷ xs) h = drop_past n xs (omega arith)

module _ (d : Disk) (s : d.State) where
  -- A walk through directories that are there and no links
  enter_all-Passes :
      (at parts : List Text) (r : Outcome (List Text) × d.State)
      → Passes d s at
      → enter_all d none at parts s ≡ r
      → enter_all d none [] (turn at parts) s ≡ r
  unfolding enter_all ◌>>=◌ make_part open_part
  enter_all-Passes [] parts r h e = e
  enter_all-Passes (part ∷ at) parts r (is_open, h) e =
      enter_all-Passes at (part ∷ parts) r h (rw is_open e)

  module _ (root input_root : List Text) (raw name : Text) (dirs : List Text) (bytes : List ℕ)
      (named : relative_parts root input_root raw ≡ some (name ∷ dirs))
      (readable : IsReadable d s dirs name bytes) where
    walk_root-Passes : walk_root d none dirs s ≡ (done dirs, s)
    unfolding walk_root open_root enter_all ◌>>=◌
    walk_root-Passes =
        rw (readable.root_there) (enter_all-Passes dirs [] (done dirs, s) readable.passes refl)

    -- One reply
    read_file-at :
        (offset : ℕ) (count : ℤ)
        → (read_file d root input_root raw (pos offset) count s).0
          ≡ done (read_bytes (d.read s dirs name) (d.size s dirs name) (pos offset) count)
    unfolding read_file fetch ◌>>=◌
    read_file-at offset count =
        ap (λ o. (on_parts d (at_parent d none (fetch d (pos offset) count)) o s).0) named
        ∙ ap (λ r. (continue (λ at. fetch d (pos offset) count at name) r.0 r.1).0) walk_root-Passes
        ∙ rw readable.opens_read refl

    -- With a round for each byte, and one more, the replies are the file from an offset on.
    download-drop :
        (count : ℤ) (rounds offset : ℕ)
        → offset ≤ length bytes
        → length bytes < rounds + offset
        → download d root input_root raw count rounds offset s ≡ some (drop offset bytes)
    unfolding download read_bytes read_offset
    download-drop count zero offset inside enough = absurd (omega arith)
    download-drop count (suc rounds) offset inside enough =
        ap
          (joined d root input_root raw (λ o. download d root input_root raw count rounds o s)
            offset)
          (read_file-at offset count)
        ∙ rw readable.size_length (elim (Bool-cases (leb (length bytes) reached_to)) [
          | inl at_end ↦ rw at_end (
              ap some (
                sym (append-nil chunk)
                ∙ ap (λ r. chunk ++ r) (sym (drop_past reached_to bytes (leb→le _ _ at_end)))
                ∙ all_read))
          | inr more ↦ rw more (
              ap (before d root input_root raw chunk) (
                download-drop count rounds reached_to (not_past _ _ more).1
                  (omega (arith, grows (not_past _ _ more).0)))
              ∙ ap some all_read)
        ])
      where
        chunk : List ℕ
        chunk = d.read s dirs name offset (read_length count)

        reached_to : ℕ
        reached_to = offset + length chunk

        all_read : chunk ++ drop reached_to bytes ≡ drop offset bytes
        all_read = readable.reads.read_rest offset (read_length count)

        not_past : (a b : ℕ) → leb a b ≡ false → (b < a) × (b ≤ a)
        not_past a b e = (ground (arith, e), ground (arith, e))

        grows : reached_to < length bytes → 1 ≤ length chunk
        grows e =
            readable.reads.read_some offset (read_length count) (omega (arith, e))
              (read_length-bounds count).0

module _ (d : Disk) (root input_root : List Text) (raw : Text) where
  on_parts-named :
      (body : List Text → Text → Io d.State Done) (mode : Option ℕ) (o : Option (List Text))
      → (s : d.State) → (on_parts d (at_parent d mode body) o s).0 ≡ done tt
      → (name : Text) × (dirs : List Text) × (o ≡ some (name ∷ dirs))
  on_parts-named body mode none s h = ground (arith, h)
  on_parts-named body mode (some []) s h = ground (arith, h)
  on_parts-named body mode (some (name ∷ dirs)) s h = (name, dirs, refl)

  -- A path that is written to has at least one component.
  upload-named :
      (b : List ℕ) (bs : List (List ℕ)) (s : d.State)
      → (upload d root input_root raw b bs s).0 ≡ done tt
      → (name : Text) × (dirs : List Text) × (relative_parts root input_root raw
          ≡ some (name ∷ dirs))
  unfolding upload write_bytes
  upload-named b bs s ended =
      let (_, wrote, _, _) =
        >>=-done (write_bytes d root input_root raw (some b) false)
          (λ _. append_all d root input_root raw bs) s ended in
      on_parts-named (store d false (some b)) (some 511) (relative_parts root input_root raw) s
        wrote

-- On a disk that keeps the laws, where a file has been written in pieces, none refused, under a
-- path, the first piece without `append`: whatever was there before, reading it in pieces of any
-- size, under any path with the same parts, up to a reply that says `eof`, gives exactly the pieces
-- one after the other, in at most one round more than they have bytes.
pub download-upload :
    (d : Disk) (content : d.State → List Text → Text → Option (List ℕ)) (law : IsLawful d content)
    (root input_root : List Text) (raw raw' : Text) (count : ℤ) (b : List ℕ) (bs : List (List ℕ))
    (s : d.State)
    → relative_parts root input_root raw' ≡ relative_parts root input_root raw
    → (upload d root input_root raw b bs s).0 ≡ done tt
    → download d root input_root raw' count
        (suc (length (b ++ all_bytes bs)))
        0
        (upload d root input_root raw b bs s).1
      ≡ some (b ++ all_bytes bs)
download-upload d content law root input_root raw raw' count b bs s same_parts ended =
    let (name, dirs, named) = upload-named d root input_root raw b bs s ended in
    download-drop d (upload d root input_root raw b bs s).1 root input_root raw' name dirs
      (b ++ all_bytes bs) (same_parts ∙ named)
      (law.content-IsReadable _ dirs name _
        (content-upload d content law root input_root raw name dirs named b bs s ended))
      count (suc (length (b ++ all_bytes bs))) 0 (omega arith) (omega arith)
