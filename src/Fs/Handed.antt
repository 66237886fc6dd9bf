-- ===== src/Fs/Handed.antt =====
-- agent/commands/fs.py: the cursors that `list_dir` hands out.
use relay_agent.Base.{
  Bool, Bool-cases, List, Text, [], arith, false, inl, inr, not, refl, same_refl, some, sym, ℕ,
  ◌&&◌, ◌++◌, ◌==◌, ◌||◌, ◌∙◌, ◌∷◌, ◌≡◌,
}
use relay_agent.Fs.Cursor.{
  DirFrame, RawFrame, any_special, before_first, check_frame, check_frames, has_char, is_empty,
  is_kept, is_special, is_unsafe, join, raw_frame, raw_onto, split_path, valid,
}

-- What an operating system allows as the name of an entry.
abbrev pub IsProper : Text → Type 0
IsProper n =
    (is_kept n && is_special n ≡ false)
    × (is_empty n ≡ false)
    × (has_char b'/' n ≡ false)
    × (has_char 0 n ≡ false)

abbrev pub IsPosition : Text → Type 0
IsPosition after = (has_char b'/' after ≡ false) × (has_char 0 after ≡ false)

abbrev pub IsSafe : Text → Type 0
IsSafe path = not (is_empty path) && is_unsafe path ≡ false

-- The frames of a stack, each one the child that its parent stands at.
pub data IsChain : List DirFrame → Type 0 where
  chain_root :
      {after : Text} → IsPosition after → IsChain (record { path = []; after = after } ∷ [])
  chain_child :
      {path after : Text} {parent : DirFrame} {stack : List DirFrame}
      → path ≡ join parent.path parent.after
      → IsSafe path
      → IsPosition after
      → IsChain (parent ∷ stack)
      → IsChain (record { path = path; after = after } ∷ parent ∷ stack)

pub or_left : (x y : Bool) → x || y ≡ false → x ≡ false
or_left x y h = ground arith

pub or_right : (x y : Bool) → x || y ≡ false → y ≡ false
or_right x y h = ground arith

pub split-cons : (s : Text) → (p : Text) × (ps : List Text) × (split_path s ≡ p ∷ ps)
unfolding split_path
split-cons [] = ([], [], refl)
split-cons (c ∷ s) =
    let (p, ps, e) = split-cons s in
    elim (Bool-cases (c == b'/')) [
      | inl h ↦ ([], split_path s, rw h refl)
      | inr h ↦ (c ∷ p, ps, rw (h, e) refl)
    ]

before_first-append :
    (c : ℕ) (n p : Text) (ps : List Text)
    → before_first c ((p ∷ ps) ++ n ∷ []) ≡ before_first c (p ∷ ps) ++ n ∷ []
before_first-append c n p ps = refl

pub split-name : (n : Text) → has_char b'/' n ≡ false → split_path n ≡ n ∷ []
unfolding split_path has_char
split-name [] h = refl
split-name (c ∷ n) h =
    rw (or_left (c == b'/') (has_char b'/' n) h, split-name n (or_right (c == b'/') _ h)) refl

split-append :
    (s n : Text) → has_char b'/' n ≡ false → split_path (s ++ b'/' ∷ n) ≡ split_path s ++ n ∷ []
unfolding split_path
split-append [] n h = rw (split-name n h) refl
split-append (c ∷ s) n h = elim (Bool-cases (c == b'/')) [
  | inl e ↦ rw (e, split-append s n h) refl
  | inr e ↦ let (p, ps, q) = split-cons s in rw (e, split-append s n h, q) refl
]

any_special-append :
    (ps : List Text) (n : Text)
    → any_special ps ≡ false
    → is_kept n && is_special n ≡ false
    → any_special (ps ++ n ∷ []) ≡ false
any_special-append [] n h k = rw k refl
any_special-append (p ∷ ps) n h k =
    rw
      (
        or_left (is_kept p && is_special p) (any_special ps) h,
        any_special-append ps n (or_right (is_kept p && is_special p) _ h) k,
      )
      refl

proper-IsSafe : (n : Text) → IsProper n → IsSafe n
unfolding is_unsafe has_char
proper-IsSafe [] p = refl
proper-IsSafe (c ∷ n) (k, _, s, _) =
    rw (or_left (c == b'/') (has_char b'/' n) s, split-name (c ∷ n) s, k) refl

pub join-IsSafe : (dir n : Text) → IsSafe dir → IsProper n → IsSafe (join dir n)
unfolding is_unsafe
join-IsSafe [] n h p = proper-IsSafe n p
join-IsSafe (c ∷ dir) n h (k, _, s, _) =
    rw
      (
        or_left (c == b'/') (any_special (split_path (c ∷ dir))) h,
        split-append (c ∷ dir) n s,
        any_special-append (split_path (c ∷ dir)) n (or_right (c == b'/') _ h) k,
      )
      refl

check-root :
    (after : Text)
    → IsPosition after
    → check_frame [] (raw_frame (some []) (some after))
      ≡ valid (record { path = []; after = after })
unfolding check_frame
check-root after (p, q) = rw (p, q) refl

check-child :
    (path after : Text) (parent : DirFrame) (stack : List DirFrame)
    → path ≡ join parent.path parent.after
    → IsSafe path
    → IsPosition after
    → check_frame (parent ∷ stack) (raw_frame (some path) (some after))
      ≡ valid (record { path = path; after = after })
unfolding check_frame
check-child path after parent stack e s (p, q) = rw (s, p, q, sym e, same_refl path) refl

pub check_frames-cons :
    (stack : List DirFrame) (raw : RawFrame) (f : DirFrame) (raws : List RawFrame)
    → check_frame stack raw ≡ valid f
    → check_frames stack (raw ∷ raws) ≡ check_frames (f ∷ stack) raws
unfolding check_frames
check_frames-cons stack raw f raws e = rw (e, check_frames) refl

pub check_frames-raw_onto :
    (stack : List DirFrame) (raws : List RawFrame)
    → IsChain stack
    → check_frames [] (raw_onto stack raws) ≡ check_frames stack raws
unfolding check_frames raw_onto
check_frames-raw_onto ss raws (chain_root {after = a} p) =
    check_frames-cons [] (raw_frame (some []) (some a)) _ raws (check-root a p)
check_frames-raw_onto ss raws
      (chain_child {path = q} {after = a} {parent = f} {stack = s} e h p c) =
    check_frames-raw_onto _ (raw_frame (some q) (some a) ∷ raws) c
    ∙ check_frames-cons (f ∷ s) (raw_frame (some q) (some a)) _ raws (check-child q a f s e h p)
