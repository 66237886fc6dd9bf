-- ===== src/Fs/Ranges.antt =====
-- agent/commands/fs.py: the range that `read_bytes` reads.
use relay_agent.Base.{
  Bool, Bool-cases, List, arith, false, inl, inr, leb, length, min, suc, true, zero, ℕ, ◌*◌, ◌+◌,
  ◌<◌, ◌≡◌, ◌≤◌, ◌⊎◌,
}
use relay_agent.Base.Int.{negsuc, pos, ℤ}

abbrev pub default_chunk : ℕ
default_chunk = 4 * 1024 * 1024

abbrev pub max_read_chunk : ℕ
max_read_chunk = 8 * 1024 * 1024

-- `max(0, int(...))`
unfoldable pub read_offset : ℤ → ℕ
read_offset (pos n) = n
read_offset (negsuc _) = 0

unfoldable pub read_length : ℤ → ℕ
read_length (pos zero) = min default_chunk max_read_chunk
read_length (pos (suc n)) = min (suc n) max_read_chunk
read_length (negsuc _) = min default_chunk max_read_chunk

-- `os.read` of so many bytes from an offset on, and the file's size, are those of the system.
module _ (read : ℕ → ℕ → List ℕ) (size : ℕ) where
  -- `read_bytes`: the bytes before they are encoded, and `eof`
  unfoldable pub read_bytes : ℤ → ℤ → List ℕ × Bool
  unfolding read_offset read_length
  read_bytes offset count =
      let chunk = read (read_offset offset) (read_length count) in
      (chunk, leb size (read_offset offset + length chunk))

pub read_length-bounds :
    (count : ℤ) → (1 ≤ read_length count) × (read_length count ≤ max_read_chunk)
unfolding read_length
read_length-bounds (pos zero) = (omega arith, omega arith)
read_length-bounds (pos (suc n)) = (ground arith, ground arith)
read_length-bounds (negsuc n) = (omega arith, omega arith)

pub before_end : (size o n : ℕ) → leb size (o + n) ≡ false → o < size
before_end size o n h = ground arith

-- Where a read gives no more bytes than it is asked for, and at least one byte if it is asked for
-- one before the end, a reply of `read_bytes` has at most 8 MiB, for any offset and length, and
-- says `eof` or has at least one byte.
pub read_bytes_bounds :
    (read : ℕ → ℕ → List ℕ) (size : ℕ) (offset count : ℤ)
    → ((o n : ℕ) → length (read o n) ≤ n)
    → ((o n : ℕ) → o < size → 1 ≤ n → 1 ≤ length (read o n))
    → (length (read_bytes read size offset count).0 ≤ max_read_chunk)
      × (((read_bytes read size offset count).1 ≡ true)
          ⊎ (1 ≤ length (read_bytes read size offset count).0))
unfolding read_bytes
read_bytes_bounds read size offset count short some_bytes =
    let (lo, hi) = read_length-bounds count in
    let chunk = read (read_offset offset) (read_length count) in
    (
      omega (arith, short (read_offset offset) (read_length count)),
      elim (Bool-cases (leb size (read_offset offset + length chunk))) [
        | inl e ↦ inl e
        | inr e ↦ inr (some_bytes _ _ (before_end _ _ _ e) lo)
      ],
    )
