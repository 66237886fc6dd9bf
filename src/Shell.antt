-- ===== src/Shell.antt =====
-- `shlex.quote`, by which the agent puts arguments into a line for `sh -c`, and the shell's own
-- reading of such a line: the quoting rules of the POSIX shell for a plain list of words.
pub mod Words
use Prim.Native.Char.{code}
use relay_agent.Base.{
  Bool, List, Option, [], all, if◌then◌else◌, leb, none, some, ℕ, ◌&&◌, ◌++◌, ◌==◌, ◌||◌, ◌∷◌,
}

abbrev pub is_between : ℕ → ℕ → ℕ → Bool
is_between lo hi c = leb lo c && leb c hi

-- The characters that need no quoting: letters, digits and @ % + = : , . / - _
unfoldable pub is_safe : ℕ → Bool
is_safe c =
    is_between b'a' b'z' c
    || is_between b'A' b'Z' c
    || is_between b'+' b':' c
    || c == b'@'
    || c == b'%'
    || c == b'='
    || c == b'_'

-- `s.replace("'", "'\"'\"'")`
unfoldable pub escape : List ℕ → List ℕ
escape [] = []
escape (c ∷ s) = let rest = escape s in if c == 39 then 39 ∷ 34 ∷ 39 ∷ 34 ∷ 39 ∷ rest else c ∷ rest

-- `shlex.quote`
unfoldable pub quote : List ℕ → List ℕ
unfolding is_safe escape
quote [] = 39 ∷ 39 ∷ []
quote (c ∷ s) = if all is_safe (c ∷ s) then c ∷ s else 39 ∷ (escape (c ∷ s) ++ 39 ∷ [])

-- Where the shell stands: between words, in a word, or within quotes.
pub data Mode : Type 0 where
  gap word single double : Mode

-- What it does with a character. `refuse` is an operator or an expansion: no plain word.
pub data Move : Type 0 where
  refuse emit : Move
  skip push : Mode → Move

unfoldable pub unquoted : Move → ℕ → Move
unfolding is_safe
unquoted blank c =
    if c == 32
    then blank
    else if c == 39
    then skip single
    else if c == 34
    then skip double
    else if is_safe c
    then push word
    else refuse

unfoldable pub move : Mode → ℕ → Move
unfolding unquoted
move gap c = unquoted (skip gap) c
move word c = unquoted emit c
move single c = if c == 39 then skip word else push single
move double c =
    if c == 34 then skip word else if c == 36 || c == 92 || c == 96 then refuse else push double

abbrev pub add_word : List ℕ → Option (List (List ℕ)) → Option (List (List ℕ))
add_word w none = none
add_word w (some ws) = some (w ∷ ws)

-- The words of a line, from a mode and the part of the word that has been read.
unfoldable pub words_from : Mode → List ℕ → List ℕ → Option (List (List ℕ))
unfolding move
words_from gap w [] = some []
words_from word w [] = some (w ∷ [])
words_from single w [] = none
words_from double w [] = none
words_from m w (c ∷ s) = elim (move m c) [
  | refuse ↦ none
  | emit ↦ add_word w (words_from gap [] s)
  | skip m' ↦ words_from m' w s
  | push m' ↦ words_from m' (w ++ c ∷ []) s
]

unfoldable pub words : List ℕ → Option (List (List ℕ))
unfolding words_from
words s = words_from gap [] s
