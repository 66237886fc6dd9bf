-- ===== src/Fs/Lexical.antt =====
-- Paths as `posixpath` reads them: lists of components, the last one first.
use relay_agent.Base.{Bool, List, Text, [], false, if◌then◌else◌, same, true, ◌&&◌, ◌||◌, ◌∷◌}

unfoldable pub same_path : List Text → List Text → Bool
same_path [] [] = true
same_path (a ∷ p) (b ∷ q) = same a b && same_path p q
same_path _ _ = false

abbrev pub is_skipped : Text → Bool
is_skipped c = same c [] || same c (b'.' ∷ [])

-- One component of `os.path.normpath`
abbrev pub up : List Text → List Text
up [] = []
up (_ ∷ p) = p

abbrev pub enter : List Text → Text → List Text
enter p c = if is_skipped c then p else if same c (b'.' ∷ b'.' ∷ []) then up p else c ∷ p

unfoldable pub normalise : List Text → List Text → List Text
normalise p [] = p
normalise p (c ∷ cs) = normalise (enter p c) cs

-- A path that has `root` above it, or is `root`
unfoldable pub is_under : List Text → List Text → Bool
unfolding same_path
is_under root [] = same_path [] root
is_under root (c ∷ p) = same_path (c ∷ p) root || is_under root p
