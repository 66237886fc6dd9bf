-- ===== src/Instance/Discovered.antt =====
-- agent/commands/instance.py: the paths that `_discover_image_addon_paths` reads out of the lines that
-- the probe prints.
use relay_agent.Base.{
  Bool, Bool-cases, List, Option, Text, [], all, any, ap, arith, false, if-rule, if◌then◌else◌, inl,
  inr, leb, not, refl, same, true, ℕ, ◌&&◌, ◌==◌, ◌||◌, ◌∙◌, ◌∷◌, ◌≡◌,
}
use relay_agent.Config.{lstrip, rstrip}
use relay_agent.Docker.{Call}
use relay_agent.Fs.Walk.{insert, precedes}

-- `bytes.strip` takes the white space of ASCII away, `str.strip` all that is white space.
abbrev is_ascii_space : ℕ → Bool
is_ascii_space c = c == b' ' || (leb 9 c && leb c 13)

unfoldable is_blank_line : Text → Bool
is_blank_line line = all is_ascii_space line

-- White space as Python's texts know it, what `re` makes of the text that it puts in, and what the
-- probe printed: its lines, with none where a line that is not blank is no UTF-8
pub record Runtime : Type 0 where
  pub is_space : ℕ → Bool
  pub template : Text → Text
  pub lines : List Call → ℕ → Option (List Text)

module _ (is_space : ℕ → Bool) where
  unfoldable strip : Text → Text
  unfolding lstrip rstrip
  strip s = rstrip is_space (lstrip is_space s)

  -- `sorted(line.strip() for line in lines if line.strip())`
  unfoldable pub found_paths : List Text → List Text
  unfolding strip insert is_blank_line
  found_paths [] = []
  found_paths (line ∷ lines) =
      let others = found_paths lines in
      if is_blank_line line then others else insert (strip line) others

-- No text comes before the one in front of it.
abbrev AreSorted : List Text → Type 0
AreSorted [] = Unit
AreSorted (a ∷ []) = Unit
AreSorted (a ∷ b ∷ ps) = (precedes b a ≡ false) × AreSorted (b ∷ ps)

precedes-asymmetric : (a b : Text) → precedes a b ≡ true → precedes b a ≡ false
unfolding precedes
precedes-asymmetric [] (d ∷ b) h = refl
precedes-asymmetric [] [] h = refl
precedes-asymmetric (c ∷ a) [] h = ground (arith, h)
precedes-asymmetric (c ∷ a) (d ∷ b) h = ground (arith, h, precedes-asymmetric a b)

cons-AreSorted :
    (m n : Text) (names : List Text)
    → precedes m n ≡ true
    → AreSorted (m ∷ names)
    → AreSorted (insert n names)
    → AreSorted (m ∷ insert n names)
unfolding insert
cons-AreSorted m n [] before h k = (precedes-asymmetric m n before, tt)
cons-AreSorted m n (l ∷ names) before h k = elim (Bool-cases (precedes l n)) [
  | inl e ↦ rw e (h.0, rw e at k)
  | inr e ↦ rw e (precedes-asymmetric m n before, rw e at k)
]

tail-AreSorted : (m : Text) (names : List Text) → AreSorted (m ∷ names) → AreSorted names
tail-AreSorted m [] h = tt
tail-AreSorted m (n ∷ names) (_, h) = h

insert-AreSorted : (n : Text) (names : List Text) → AreSorted names → AreSorted (insert n names)
unfolding insert
insert-AreSorted n [] h = tt
insert-AreSorted n (m ∷ names) h = elim (Bool-cases (precedes m n)) [
  | inl e ↦
      rw e (cons-AreSorted m n names e h (insert-AreSorted n names (tail-AreSorted m names h)))
  | inr e ↦ rw e (e, h)
]

listed-insert :
    (path n : Text) (names : List Text)
    → any (λ c. same c path) (insert n names) ≡ (same n path || any (λ c. same c path) names)
unfolding insert
listed-insert path n [] = refl
listed-insert path n (m ∷ names) = ground (arith, listed-insert path n names)

listed-insert_unless :
    (b : Bool) (path n : Text) (names : List Text)
    → any (λ p. same p path) (if b then names else insert n names)
      ≡ ((not b && same n path) || any (λ p. same p path) names)
listed-insert_unless true path n names = refl
listed-insert_unless false path n names = listed-insert path n names

module _ (is_space : ℕ → Bool) where
  found_paths-AreSorted : (lines : List Text) → AreSorted (found_paths is_space lines)
  unfolding found_paths
  found_paths-AreSorted [] = tt
  found_paths-AreSorted (line ∷ lines) =
      if-rule AreSorted (is_blank_line line) (λ _. found_paths-AreSorted lines)
        λ _.
          insert-AreSorted (strip is_space line) (found_paths is_space lines)
            (found_paths-AreSorted lines)

  -- The paths that are found are the lines that are not blank, stripped.
  found_paths-listed :
      (lines : List Text) (path : Text)
      → any (λ p. same p path) (found_paths is_space lines)
        ≡ any (λ line. not (is_blank_line line) && same (strip is_space line) path) lines
  unfolding found_paths
  found_paths-listed [] path = refl
  found_paths-listed (line ∷ lines) path =
      listed-insert_unless (is_blank_line line) path (strip is_space line)
        (found_paths is_space lines)
      ∙ ap (λ b. (not (is_blank_line line) && same (strip is_space line) path) || b)
          (found_paths-listed lines path)
