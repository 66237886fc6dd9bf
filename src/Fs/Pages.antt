-- ===== src/Fs/Pages.antt =====
-- agent/commands/fs.py: the pages of `list_dir`: their cursors are valid.
use relay_agent.Base.{
  All, Bool, List, Text, [], arith, false, if-rule, inl, inr, leb, leb→le, length, none, not, refl,
  same, same-eq, some, subst, sym, true, ℕ, ◌&&◌, ◌+◌, ◌==◌, ◌||◌, ◌∙◌, ◌∷◌, ◌≡◌, ◌≢◌, ◌≤◌, ◌⊎◌,
}
use relay_agent.Fs.Cursor.{
  Checked, CursorError, DirFrame, RawCursor, RawFrame, any_special, bad_ancestry, bad_frame,
  bad_path, bad_position, bad_root, below, check_frame, check_frames, check_stack, cursor, has_char,
  invalid, is_empty, is_kept, is_special, is_unsafe, join, max_cursor_depth, no_cursor, no_dict,
  raw_frame, raw_onto, split_path, valid, validate_list_cursor,
}
use relay_agent.Fs.Handed.{
  IsChain, IsPosition, IsProper, IsSafe, chain_child, chain_root, check_frames-cons,
  check_frames-raw_onto, join-IsSafe, or_left, or_right,
}
use relay_agent.Fs.Walk.{child_frame, moved}

abbrev pub IsStack : List DirFrame → Type 0
IsStack [] = Unit
IsStack (frame ∷ stack) = IsChain (frame ∷ stack)

-- The frame of a valid stack may stand at any other position.
pub moved-IsChain :
    {frame : DirFrame} {stack : List DirFrame} (after : Text)
    → IsPosition after
    → IsChain (frame ∷ stack)
    → IsChain (moved frame after ∷ stack)
moved-IsChain a p (chain_root _) = chain_root p
moved-IsChain a p (chain_child e s _ c) = chain_child e s p c

pub tail-IsStack :
    {frame : DirFrame} {stack : List DirFrame} → IsChain (frame ∷ stack) → IsStack stack
tail-IsStack (chain_root _) = tt
tail-IsStack (chain_child e s _ c) = c

top-IsSafe :
    {frame : DirFrame} {stack : List DirFrame} → IsChain (frame ∷ stack) → IsSafe frame.path
top-IsSafe (chain_root _) = refl
top-IsSafe (chain_child e s _ c) = s

pub child-IsChain :
    {frame : DirFrame} {stack : List DirFrame} (n : Text)
    → IsProper n
    → IsChain (frame ∷ stack)
    → IsChain (child_frame (join frame.path n) ∷ moved frame n ∷ stack)
unfolding has_char
child-IsChain {frame = f} n p c =
    let (_, _, s, z) = p in
    chain_child refl (join-IsSafe f.path n (top-IsSafe c) p) (refl, refl) (moved-IsChain n (s, z) c)

abbrev Accepts : List DirFrame → Checked DirFrame → Type 0
Accepts stack v = (f : DirFrame) → v ≡ valid f → IsChain (f ∷ stack)

invalid-Accepts : (stack : List DirFrame) (e : CursorError) → Accepts stack (invalid e)
invalid-Accepts stack e f h = ground arith

valid-inj : (f g : DirFrame) → valid f ≡ valid g → f ≡ g
valid-inj f g h = ground arith

below-Accepts :
    (stack : List DirFrame) (path after : Text)
    → IsStack stack
    → IsSafe path
    → IsPosition after
    → Accepts stack (below stack path (valid (record { path = path; after = after })))
below-Accepts [] [] after h s p f e = subst (λ g. IsChain (g ∷ [])) (valid-inj _ _ e) (chain_root p)
below-Accepts [] (c ∷ path) after h s p f e = invalid-Accepts [] bad_root f e
below-Accepts (parent ∷ stack) path after h s p f e =
    if-rule (Accepts (parent ∷ stack)) (same path (join parent.path parent.after))
      (λ eq g q.
        subst (λ g. IsChain (g ∷ parent ∷ stack)) (valid-inj _ _ q)
          (chain_child (same-eq _ _ eq) s p h))
      (λ _. invalid-Accepts (parent ∷ stack) bad_ancestry) f e

check_frame-IsChain :
    (stack : List DirFrame) (raw : RawFrame) → IsStack stack → Accepts stack (check_frame stack raw)
unfolding check_frame
check_frame-IsChain stack no_dict h = invalid-Accepts stack bad_frame
check_frame-IsChain stack (raw_frame none _) h = invalid-Accepts stack bad_frame
check_frame-IsChain stack (raw_frame (some _) none) h = invalid-Accepts stack bad_frame
check_frame-IsChain stack (raw_frame (some path) (some after)) h =
    if-rule (Accepts stack) (not (is_empty path) && is_unsafe path)
      (λ _. invalid-Accepts stack bad_path)
      λ s.
        if-rule (Accepts stack) (has_char b'/' after || has_char 0 after)
          (λ _. invalid-Accepts stack bad_position)
          λ p. below-Accepts stack path after h s (or_left _ _ p, or_right _ _ p)

pub stack-inj : (s t : List DirFrame) → valid s ≡ valid t → s ≡ t
stack-inj s t h = ground arith

check_frames-invalid :
    (stack : List DirFrame) (raw : RawFrame) (raws : List RawFrame) (s : List DirFrame)
    (e : CursorError)
    → check_frame stack raw ≡ invalid e
    → check_frames stack (raw ∷ raws) ≢ valid s
unfolding check_frames
check_frames-invalid stack raw raws s e h q = ground (arith, h, q)

Checked-cases :
    {A : Type 0} (c : Checked A) → ((e : CursorError) × (c ≡ invalid e)) ⊎ ((a : A) × (c ≡ valid a))
Checked-cases (invalid e) = inl (e, refl)
Checked-cases (valid a) = inr (a, refl)

pub check_frames-IsStack :
    (raws : List RawFrame) (stack s : List DirFrame)
    → IsStack stack
    → check_frames stack raws ≡ valid s
    → IsStack s × (length s ≡ length stack + length raws)
unfolding check_frames
check_frames-IsStack [] stack s h e =
    let q = stack-inj _ _ e in (subst IsStack q h, rw (sym q) (omega arith))
check_frames-IsStack (raw ∷ raws) stack s h e = elim (Checked-cases (check_frame stack raw)) [
  | inl (x, q) ↦ elim (check_frames-invalid stack raw raws s x q e) [ ]
  | inr (f, q) ↦
      let (i, l) =
        check_frames-IsStack raws (f ∷ stack) s (check_frame-IsChain stack raw h f q)
          (sym (check_frames-cons stack raw f raws q) ∙ e) in
      (i, omega arith)
]

length-raw_onto :
    (stack : List DirFrame) (raws : List RawFrame)
    → length (raw_onto stack raws) ≡ length stack + length raws
unfolding raw_onto
length-raw_onto [] raws = omega arith
length-raw_onto (f ∷ stack) raws =
    omega (arith, length-raw_onto stack (raw_frame (some f.path) (some f.after) ∷ raws))

-- What a stack must be for the loop to go on from it.
abbrev pub IsListable : List DirFrame → Type 0
IsListable stack = IsStack stack × (length stack ≤ max_cursor_depth)

no_error : (e : CursorError) (s : List DirFrame) → invalid e ≡ valid s → IsListable s
no_error e s h = ground arith

and_right : (x y : Bool) → x && y ≡ true → y ≡ true
and_right x y h = ground arith

check_stack-IsListable :
    (raws : List RawFrame) (s : List DirFrame) → check_stack (some raws) ≡ valid s → IsListable s
check_stack-IsListable raws s =
    if-rule (λ v. v ≡ valid s → IsListable s)
      (leb 1 (length raws) && leb (length raws) max_cursor_depth)
      (λ b e.
        let (i, l) = check_frames-IsStack raws [] s tt e in
        (i, omega (arith, leb→le (length raws) max_cursor_depth (and_right _ _ b))))
      λ _ e. no_error _ _ e

-- A path that neither starts at the root of the file system nor has a component `..`
pub record StaysBelow (path : Text) : Type 0 where
  pub not_from_root : (rest : Text) → path ≢ b'/' ∷ rest
  pub no_parent : All (λ part. part ≢ b'.' ∷ b'.' ∷ []) (split_path path)

no_special-no_parent :
    (parts : List Text) → any_special parts ≡ false → All (λ part. part ≢ b'.' ∷ b'.' ∷ []) parts
unfolding same
no_special-no_parent [] h = tt
no_special-no_parent (part ∷ parts) h = (
  λ e. dots (subst (λ x. is_kept x && is_special x ≡ false) e (or_left _ (any_special parts) h)),
  no_special-no_parent parts (or_right (is_kept part && is_special part) _ h),
)
  where
    dots : true ≡ false → ⊥
    dots e = ground (arith, e)

IsSafe-StaysBelow : (path : Text) → IsSafe path → StaysBelow path
unfolding is_unsafe split_path
IsSafe-StaysBelow [] h = record {
  not_from_root = λ rest e. ground (arith, e);
  no_parent = (λ e. ground (arith, e), tt);
}
IsSafe-StaysBelow (c ∷ path) h = record {
  not_from_root = λ rest e. from_slash c path rest (or_left (c == b'/') _ h) e;
  no_parent = no_special-no_parent (split_path (c ∷ path)) (or_right (c == b'/') _ h);
}
  where
    from_slash : (x : ℕ) (s rest : Text) → x == b'/' ≡ false → x ∷ s ≢ b'/' ∷ rest
    from_slash x s rest k e = ground (arith, k, e)

stack-StaysBelow : (s : List DirFrame) → IsStack s → All (λ f. StaysBelow f.path) s
stack-StaysBelow [] h = tt
stack-StaysBelow (f ∷ s) h =
    (IsSafe-StaysBelow f.path (top-IsSafe h), stack-StaysBelow s (tail-IsStack h))

pub validated-IsListable :
    (c : RawCursor) (s : List DirFrame) → validate_list_cursor c ≡ valid s → IsListable s
unfolding validate_list_cursor
validated-IsListable no_cursor s e = no_error _ _ e
validated-IsListable (cursor false _) s e = no_error _ _ e
validated-IsListable (cursor true none) s e = no_error _ _ e
validated-IsListable (cursor true (some raws)) s e = check_stack-IsListable raws s e

-- Every stack that `_validate_list_cursor` returns is at most 128 deep and a chain from the listed
-- directory, each path the entry that its parent stands at; and no path in it starts with a slash or
-- has a component `..`.
pub validate_list_cursor-IsListable :
    (c : RawCursor) (s : List DirFrame)
    → validate_list_cursor c ≡ valid s
    → IsListable s × All (λ f. StaysBelow f.path) s
validate_list_cursor-IsListable c s e =
    let listable = validated-IsListable c s e in (listable, stack-StaysBelow s listable.0)

in_range :
    (raws : List RawFrame)
    → 1 ≤ length raws
    → length raws ≤ max_cursor_depth
    → check_stack (some raws) ≡ check_frames [] raws
in_range raws lo hi = ground arith

-- `_validate_list_cursor` gives back the stack that a cursor was made of, where its frames form a
-- chain of safe paths from the listed directory, at most 128 deep.
pub validate_list_cursor-cursor :
    (frame : DirFrame) (stack : List DirFrame)
    → IsChain (frame ∷ stack)
    → length (frame ∷ stack) ≤ max_cursor_depth
    → validate_list_cursor (cursor true (some (raw_onto (frame ∷ stack) [])))
      ≡ valid (frame ∷ stack)
unfolding validate_list_cursor
validate_list_cursor-cursor f stack c b =
    let n = length-raw_onto (f ∷ stack) [] in
    in_range _ (omega arith) (omega arith) ∙ check_frames-raw_onto (f ∷ stack) [] c
