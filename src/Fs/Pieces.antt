-- ===== src/Fs/Pieces.antt =====
-- A file written in pieces and read in pieces, as the control plane sends and fetches one.
use mathlib.Core.List.{append-nil, append_assoc}
use relay_agent.Base.{
  Bool, List, Option, Text, [], ap, false, length, none, some, suc, sym, true, zero, ℕ, ◌++◌, ◌+◌,
  ◌∙◌, ◌∷◌, ◌≡◌,
}
use relay_agent.Base.Int.{pos, ℤ}
use relay_agent.Fs.Disk.{Disk, Done, Io, Outcome, done, pure, ◌>>=◌, ◌>>◌}
use relay_agent.Fs.Lawful.{IsLawful, kept}
use relay_agent.Fs.Paths.{relative_parts}
use relay_agent.Fs.Transfer.{>>=-done, content-write_bytes, walk_root-Holds}
use relay_agent.Fs.Writes.{read_file, write_bytes}

abbrev pub all_bytes {ℓ} : {A : Type ℓ} → List (List A) → List A
all_bytes [] = []
all_bytes (b ∷ bs) = b ++ all_bytes bs

module _ (d : Disk) (root input_root : List Text) (raw : Text) where
  -- Requests of `write_bytes`, all but the first with `append`
  unfoldable pub append_all : List (List ℕ) → Io d.State Done
  unfolding ◌>>=◌ write_bytes
  append_all [] = pure tt
  append_all (b ∷ bs) = do write_bytes d root input_root raw (some b) true; append_all bs

  unfoldable pub upload : List ℕ → List (List ℕ) → Io d.State Done
  unfolding ◌>>=◌ write_bytes append_all
  upload b bs = do write_bytes d root input_root raw (some b) false; append_all bs

  abbrev pub before : List ℕ → Option (List ℕ) → Option (List ℕ)
  before bytes none = none
  before bytes (some rest) = some (bytes ++ rest)

  -- Requests of `read_bytes`, each from the end of the last reply, up to one that says `eof`
  abbrev pub joined : (ℕ → Option (List ℕ)) → ℕ → Outcome (List ℕ × Bool) → Option (List ℕ)
  joined rest offset (done (bytes, true)) = some bytes
  joined rest offset (done (bytes, false)) = before bytes (rest (offset + length bytes))
  joined rest offset _ = none

  unfoldable pub download : ℤ → ℕ → ℕ → d.State → Option (List ℕ)
  unfolding read_file
  download count zero offset s = none
  download count (suc rounds) offset s =
      joined (λ o. download count rounds o s) offset
        (read_file d root input_root raw (pos offset) count s).0

module _ (d : Disk) (content : d.State → List Text → Text → Option (List ℕ))
    (law : IsLawful d content) (root input_root : List Text) (raw name : Text) (dirs : List Text)
    (named : relative_parts root input_root raw ≡ some (name ∷ dirs)) where
  content-append_all :
      (bs : List (List ℕ)) (s : d.State) (old : List ℕ)
      → content s dirs name ≡ some old
      → (append_all d root input_root raw bs s).0 ≡ done tt
      → content (append_all d root input_root raw bs s).1 dirs name ≡ some (old ++ all_bytes bs)
  unfolding append_all
  content-append_all [] s old h ended = h ∙ ap some (sym (append-nil old))
  content-append_all (b ∷ bs) s old h ended =
      let (_, wrote, same_run, rest) =
        >>=-done (write_bytes d root input_root raw (some b) true)
          (λ _. append_all d root input_root raw bs) s ended in
      let grown =
        content-write_bytes d content law root input_root raw name dirs named b true s wrote
        ∙ ap (λ o. some (kept true o ++ b))
            (walk_root-Holds d content law dirs name old (some 511) dirs s h) in
      ap (λ r. content r.1 dirs name) same_run
      ∙ content-append_all bs _ (old ++ b) grown rest
      ∙ ap some (append_assoc old b (all_bytes bs))

  pub content-upload :
      (b : List ℕ) (bs : List (List ℕ)) (s : d.State)
      → (upload d root input_root raw b bs s).0 ≡ done tt
      → content (upload d root input_root raw b bs s).1 dirs name ≡ some (b ++ all_bytes bs)
  unfolding upload
  content-upload b bs s ended =
      let (_, wrote, same_run, rest) =
        >>=-done (write_bytes d root input_root raw (some b) false)
          (λ _. append_all d root input_root raw bs) s ended in
      let fresh =
        content-write_bytes d content law root input_root raw name dirs named b false s wrote in
      ap (λ r. content r.1 dirs name) same_run ∙ content-append_all bs _ b fresh rest
