-- ===== src/Instance/Conf.antt =====
-- agent/commands/instance.py: `_replace_addons_path`, which puts the addons path into the text of an
-- odoo.conf. The pattern `^\s*addons_path\s*=.*$`, where `^` and `$` match at every line.
use relay_agent.Base.{
  Bool, Option, Text, [], false, if◌then◌else◌, none, some, suc, true, zero, ℕ, ◌++◌, ◌+◌, ◌-◌,
  ◌==◌, ◌∷◌,
}
use relay_agent.Docker.{codes}

-- How many characters the parts of a match have, in front of what follows
unfoldable pub spaces : (ℕ → Bool) → Text → ℕ
spaces is_space [] = 0
spaces is_space (c ∷ s) = let rest = suc (spaces is_space s) in if is_space c then rest else 0

unfoldable pub line_length : Text → ℕ
line_length [] = 0
line_length (c ∷ s) = let rest = suc (line_length s) in if c == 10 then 0 else rest

abbrev pub drop_text : ℕ → Text → Text
drop_text zero s = s
drop_text (suc n) [] = []
drop_text (suc n) (c ∷ s) = drop_text n s

-- What follows a fixed text
unfoldable pub after_text : Text → Text → Option Text
after_text [] s = some s
after_text (c ∷ p) [] = none
after_text (c ∷ p) (d ∷ s) = let rest = after_text p s in if c == d then rest else none

abbrev pub addons_key : Text
addons_key = codes "addons_path"

abbrev pub value_length : ℕ → Option Text → Option ℕ
value_length n none = none
value_length n (some s) = some (n + 1 + line_length s)

module _ (is_space : ℕ → Bool) where
  abbrev pub sign_length : ℕ → Option Text → Option ℕ
  sign_length n none = none
  sign_length n (some s) =
      value_length (n + 11 + spaces is_space s)
        (after_text (b'=' ∷ []) (drop_text (spaces is_space s) s))

  -- The length of the match at the start of a line
  unfoldable pub match_length : Text → Option ℕ
  unfolding spaces line_length after_text
  match_length s =
      sign_length (spaces is_space s) (after_text addons_key (drop_text (spaces is_space s) s))

  abbrev pub at_line_start : Bool → Text → Option ℕ
  at_line_start true s = match_length s
  at_line_start false s = none

  module _ (by : Text) where
    -- The replaced text, whether anything was replaced
    abbrev pub replace_at : Option ℕ → ℕ → (ℕ → Text × Bool) → Text × Bool
    replace_at none c rest = (c ∷ (rest 0).0, (rest 0).1)
    replace_at (some n) c rest = (by ++ (rest (n - 1)).0, true)

    -- `re.subn`: `left` characters belong to the last match.
    unfoldable pub subn : Bool → ℕ → Text → Text × Bool
    unfolding match_length
    subn first left [] = ([], false)
    subn first zero (c ∷ s) =
        replace_at (at_line_start first (c ∷ s)) c (λ left. subn (c == 10) left s)
    subn first (suc left) (c ∷ s) = subn (c == 10) left s

abbrev pub consed : ℕ → Option Text → Option Text
consed c none = none
consed c (some s) = some (c ∷ s)

abbrev pub put_before : Text → Option Text → Option Text → Option Text
put_before by none rest = rest
put_before by (some r) rest = some (by ++ r)

-- `s.replace(p, by, 1)`, with none where `p` is not in `s`; `p` is not empty.
unfoldable pub replace_first : Text → Text → Text → Option Text
unfolding after_text
replace_first p by [] = none
replace_first p by (c ∷ s) =
    let rest = consed c (replace_first p by s) in put_before by (after_text p (c ∷ s)) rest

abbrev pub replacement : Text → Text
replacement addons_path = codes "addons_path = " ++ addons_path

abbrev pub added : Text → Text → Option Text → Text
added line config (some updated) = updated
added line config none = codes "[options]\n" ++ line ++ codes "\n" ++ config

abbrev pub or_added : Text → Text → Text × Bool → Text
or_added line config (updated, true) = updated
or_added line config (updated, false) =
    added line updated (replace_first (codes "[options]") (codes "[options]\n" ++ line) updated)

-- `template` is what `re` makes of a replacement; it leaves one without a backslash alone.
module _ (is_space : ℕ → Bool) (template : Text → Text) where
  unfoldable pub replace_addons_path : Text → Text → Text
  unfolding subn replace_first
  replace_addons_path config addons_path =
      or_added (replacement addons_path) config
        (subn is_space (template (replacement addons_path)) true 0 config)
