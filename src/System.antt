-- ===== src/System.antt =====
-- agent/commands/system.py: `metrics`, and what it reads out of /proc/meminfo. Texts are lists of
-- code points.
use relay_agent.Base.{
  Bool, List, Option, Text, [], all, any, arith, false, if◌then◌else◌, none, refl, same, some, true,
  ℕ, ◌*◌, ◌++◌, ◌==◌, ◌∷◌, ◌≡◌,
}
use relay_agent.Docker.{codes}
use relay_agent.Docker.Objects.{found}

-- `line.partition(":")`: what stands before and behind the first colon
unfoldable pub before_colon : Text → Text
before_colon [] = []
before_colon (c ∷ s) = let rest = c ∷ before_colon s in if c == b':' then [] else rest

unfoldable pub behind_colon : Text → Text
behind_colon [] = []
behind_colon (c ∷ s) = let rest = behind_colon s in if c == b':' then s else rest

-- `int` is what a text of digits stands for, none where `isdigit` is false of it.
module _ (is_space : ℕ → Bool) (int : Text → Option ℕ) where
  unfoldable pub skip_spaces : Text → Text
  skip_spaces [] = []
  skip_spaces (c ∷ s) = let rest = skip_spaces s in if is_space c then rest else c ∷ s

  unfoldable pub take_word : Text → Text
  take_word [] = []
  take_word (c ∷ s) = let rest = c ∷ take_word s in if is_space c then [] else rest

  -- `value.strip().split(maxsplit=1)`: the first word, none where there is none
  abbrev pub first_word : Text → Option Text
  first_word [] = none
  first_word (c ∷ s) = some (take_word (c ∷ s))

  abbrev pub amount_of : Option Text → Option ℕ
  amount_of none = none
  amount_of (some word) = int word

  abbrev pub in_bytes : Text → Option ℕ → Option (Text × ℕ)
  in_bytes key none = none
  in_bytes key (some n) = some (key, n * 1024)

  -- One line: a key and its amount, if it has one
  unfoldable pub read_line : Text → Option (Text × ℕ)
  unfolding before_colon behind_colon skip_spaces take_word
  read_line line =
      in_bytes (before_colon line) (amount_of (first_word (skip_spaces (behind_colon line))))

  abbrev pub or_last : Option (Text × ℕ) → Text → Option ℕ → Option ℕ
  or_last none key found = found
  or_last (some (j, n)) key found = if same j key then some n else found

  -- The item of the dictionary that the lines make: the last line of a key counts.
  unfoldable pub look_up : Text → List Text → Option ℕ → Option ℕ
  unfolding read_line
  look_up key [] found = found
  look_up key (line ∷ lines) found = look_up key lines (or_last (read_line line) key found)

  abbrev pub or_zero : Option ℕ → ℕ
  or_zero none = 0
  or_zero (some n) = n

  -- `mem_total_bytes` and its like, where the file can be read
  abbrev pub memory : Text → Option (List Text) → ℕ
  memory key none = 0
  memory key (some lines) = or_zero (look_up key lines none)

-- The part of the reply that is counted in bytes; the load is passed on as it is.
pub record Metrics : Type 0 where
  pub mem_total_bytes : ℕ
  pub mem_available_bytes : ℕ
  pub disk_total_bytes : ℕ
  pub disk_available_bytes : ℕ

-- What `os.statvfs` gives: `f_blocks`, `f_bavail` and `f_frsize`
abbrev pub disk_total : Option (ℕ × ℕ × ℕ) → ℕ
disk_total none = 0
disk_total (some (blocks, bavail, frsize)) = blocks * frsize

abbrev pub disk_available : Option (ℕ × ℕ × ℕ) → ℕ
disk_available none = 0
disk_available (some (blocks, bavail, frsize)) = bavail * frsize

unfoldable pub metrics :
    (ℕ → Bool) → (Text → Option ℕ) → Option (List Text) → Option (ℕ × ℕ × ℕ) → Metrics
unfolding look_up
metrics is_space int meminfo disk = record {
  mem_total_bytes = memory is_space int (codes "MemTotal") meminfo;
  mem_available_bytes = memory is_space int (codes "MemAvailable") meminfo;
  disk_total_bytes = disk_total disk;
  disk_available_bytes = disk_available disk;
}

abbrev StartsAfter : (ℕ → Bool) → Text → Type 0
StartsAfter is_space [] = Unit
StartsAfter is_space (c ∷ s) = is_space c ≡ true

before_colon-key :
    (key rest : Text) → any (λ c. c == b':') key ≡ false → before_colon (key ++ b':' ∷ rest) ≡ key
unfolding before_colon
before_colon-key [] rest h = refl
before_colon-key (c ∷ key) rest h = ground (arith, h, before_colon-key key rest)

behind_colon-key :
    (key rest : Text) → any (λ c. c == b':') key ≡ false → behind_colon (key ++ b':' ∷ rest) ≡ rest
unfolding behind_colon
behind_colon-key [] rest h = refl
behind_colon-key (c ∷ key) rest h = ground (arith, h, behind_colon-key key rest)

module _ (is_space : ℕ → Bool) (int : Text → Option ℕ) where
  skip_spaces-gap :
      (gap : Text) (c : ℕ) (s : Text)
      → all is_space gap ≡ true
      → is_space c ≡ false
      → skip_spaces is_space int (gap ++ c ∷ s) ≡ c ∷ s
  unfolding skip_spaces
  skip_spaces-gap [] c s h k = rw k refl
  skip_spaces-gap (d ∷ gap) c s h k = ground (arith, h, skip_spaces-gap gap c s)

  take_word-word :
      (word tail : Text)
      → any is_space word ≡ false
      → StartsAfter is_space tail
      → take_word is_space int (word ++ tail) ≡ word
  unfolding take_word
  take_word-word [] [] h k = refl
  take_word-word [] (c ∷ tail) h k = rw k refl
  take_word-word (c ∷ word) tail h k = ground (arith, h, take_word-word word tail)

  -- A line as the kernel writes it, a key, a colon, a gap, an amount in KiB and more behind a
  -- space, is read as the key with that many bytes.
  read_line-written :
      (key gap : Text) (c : ℕ) (digits tail : Text) (n : ℕ)
      → any (λ c. c == b':') key ≡ false
      → all is_space gap ≡ true
      → any is_space (c ∷ digits) ≡ false
      → StartsAfter is_space tail
      → int (c ∷ digits) ≡ some n
      → read_line is_space int (key ++ b':' ∷ (gap ++ c ∷ (digits ++ tail))) ≡ some (key, n * 1024)
  unfolding read_line
  read_line-written key gap c digits tail n plain spaced solid ends reads =
      rw (before_colon-key key _ plain) (
        rw (behind_colon-key key _ plain) (
          rw (skip_spaces-gap gap c (digits ++ tail) spaced (ground (arith, solid)))
            (rw (take_word-word (c ∷ digits) tail solid ends) (rw reads refl))))
