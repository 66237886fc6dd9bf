-- ===== src/Fs/Lawful.antt =====
-- What the file commands rely on: how a regular file that is opened with O_TRUNC or O_APPEND, is
-- written and is read behaves.
use relay_agent.Base.{
  Bool, List, Option, Text, [], length, some, suc, true, zero, ℕ, ◌++◌, ◌+◌, ◌<◌, ◌∷◌, ◌≡◌, ◌≤◌,
}
use relay_agent.Fs.Disk.{Disk}
use relay_agent.Fs.Paths.{opens}

abbrev pub drop {ℓ} : {A : Type ℓ} → ℕ → List A → List A
drop zero xs = xs
drop (suc n) [] = []
drop (suc n) (x ∷ xs) = drop n xs

-- What is left of a file's bytes once it is open for writing
abbrev pub kept : Bool → Option (List ℕ) → List ℕ
kept true (some bytes) = bytes
kept _ _ = []

-- Every directory of a path can be opened, and none is a link.
abbrev pub Passes : (d : Disk) → d.State → List Text → Type 0
Passes d s [] = Unit
Passes d s (part ∷ at) = (d.open_dir s at part ≡ opens) × Passes d s at

-- A read gives bytes from its offset on, at most as many as it is asked for, and some before the
-- end.
pub record Reads (read : ℕ → ℕ → List ℕ) (bytes : List ℕ) : Type 0 where
  pub read_rest : (o n : ℕ) → read o n ++ drop (o + length (read o n)) bytes ≡ drop o bytes
  pub read_at_most : (o n : ℕ) → length (read o n) ≤ n
  pub read_some : (o n : ℕ) → o < length bytes → 1 ≤ n → 1 ≤ length (read o n)

pub record IsReadable (d : Disk) (s : d.State) (at : List Text) (name : Text) (bytes : List ℕ)
    : Type 0 where
  pub root_there : d.has_root s ≡ true
  pub passes : Passes d s at
  pub opens_read : d.open_read s at name ≡ opens
  pub reads : Reads (d.read s at name) bytes
  pub size_length : d.size s at name ≡ length bytes

-- `content` are the bytes of a regular file that is reached through no link.
pub record IsLawful (d : Disk) (content : d.State → List Text → Text → Option (List ℕ))
    : Type 0 where
  pub content-open_write :
      (s : d.State) (at : List Text) (name : Text) (append : Bool)
      → (d.open_write s at name append).0 ≡ opens
      → content (d.open_write s at name append).1 at name ≡ some (kept append (content s at name))
  pub content-write :
      (s : d.State) (at : List Text) (name : Text) (old bytes : List ℕ)
      → content s at name ≡ some old
      → (d.write s at name bytes).0 ≡ true
      → content (d.write s at name bytes).1 at name ≡ some (old ++ bytes)
  pub content-make_dir :
      (s : d.State) (at dirs : List Text) (name part : Text) (mode : ℕ) (old : List ℕ)
      → content s at name ≡ some old
      → content (d.make_dir s dirs part mode).1 at name ≡ some old
  pub content-IsReadable :
      (s : d.State) (at : List Text) (name : Text) (bytes : List ℕ)
      → content s at name ≡ some bytes
      → IsReadable d s at name bytes
