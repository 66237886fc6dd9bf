-- ===== src/Instance/Configured.antt =====
-- What an odoo.conf holds once its addons path is replaced.
use mathlib.Core.List.{append_assoc}
use relay_agent.Base.{
  Bool, Option, Text, [], ap, arith, false, none, refl, some, subst, suc, sym, true, zero, ℕ, ◌++◌,
  ◌-◌, ◌==◌, ◌∙◌, ◌∷◌, ◌≡◌,
}
use relay_agent.Docker.{codes}
use relay_agent.Instance.Conf.{
  added, after_text, at_line_start, consed, or_added, put_before, replace_addons_path, replace_at,
  replace_first, replacement, subn,
}

-- A text within another
abbrev pub Within : Text → Text → Type 0
Within p s = (before : Text) × (behind : Text) × (s ≡ before ++ (p ++ behind))

Within-cons : (p : Text) (c : ℕ) (s : Text) → Within p s → Within p (c ∷ s)
Within-cons p c s (before, behind, e) = (c ∷ before, behind, ap (λ r. c ∷ r) e)

Within-append : (q p s : Text) → Within (q ++ p) s → Within p s
Within-append q p s (before, behind, e) = (
  before ++ q,
  behind,
  e ∙ ap (λ r. before ++ r) (append_assoc q p behind) ∙ sym (append_assoc before q (p ++ behind)),
)

module _ (is_space : ℕ → Bool) (by : Text) where
  replace_at-Within :
      (o : Option ℕ) (c : ℕ) (rest : ℕ → Text × Bool)
      → ((k : ℕ) → (rest k).1 ≡ true → Within by (rest k).0)
      → (replace_at is_space by o c rest).1 ≡ true
      → Within by (replace_at is_space by o c rest).0
  replace_at-Within none c rest ih h = Within-cons by c (rest 0).0 (ih 0 h)
  replace_at-Within (some n) c rest ih h = ([], (rest (n - 1)).0, refl)

  subn-Within :
      (first : Bool) (left : ℕ) (s : Text)
      → (subn is_space by first left s).1 ≡ true
      → Within by (subn is_space by first left s).0
  unfolding subn
  subn-Within first left [] h = ground (arith, h)
  subn-Within first zero (c ∷ s) h =
      replace_at-Within (at_line_start is_space first (c ∷ s)) c
        (λ k. subn is_space by (c == 10) k s) (λ k e. subn-Within (c == 10) k s e) h
  subn-Within first (suc left) (c ∷ s) h = subn-Within (c == 10) left s h

put_before-Within :
    (by : Text) (o rest : Option Text) (r : Text)
    → ((t : Text) → rest ≡ some t → Within by t)
    → put_before by o rest ≡ some r
    → Within by r
put_before-Within by none rest r ih h = ih r h
put_before-Within by (some t) rest r ih h = ([], t, ground (arith, h))

replace_first-Within : (p by s r : Text) → replace_first p by s ≡ some r → Within by r
unfolding replace_first
replace_first-Within p by [] r h = ground (arith, h)
replace_first-Within p by (c ∷ s) r h =
    put_before-Within by (after_text p (c ∷ s)) (consed c (replace_first p by s)) r
      (behind (replace_first p by s) (replace_first-Within p by s)) h
  where
    behind :
        (o : Option Text)
        → ((t : Text) → o ≡ some t → Within by t)
        → (t : Text) → consed c o ≡ some t
        → Within by t
    behind none ih t e = ground (arith, e)
    behind (some u) ih t e = subst (Within by) (ground (arith, e)) (Within-cons by c u (ih u refl))

added-Within :
    (line config : Text) (o : Option Text)
    → ((t : Text) → o ≡ some t → Within (codes "[options]\n" ++ line) t)
    → Within line (added line config o)
added-Within line config none h = (
  codes "[options]\n",
  codes "\n" ++ config,
  ap (λ r. codes "[options]\n" ++ r) (append_assoc line (codes "\n") config),
)
added-Within line config (some t) h = Within-append (codes "[options]\n") line t (h t refl)

-- Whatever the config holds, with an addons path that `re` takes as it is: the result holds
-- `addons_path = ` and the new path.
replace_addons_path-Within :
    (is_space : ℕ → Bool) (template : Text → Text) (config addons_path : Text)
    → template (replacement addons_path) ≡ replacement addons_path
    → Within (replacement addons_path) (replace_addons_path is_space template config addons_path)
unfolding replace_addons_path
replace_addons_path-Within is_space template config addons_path plain =
    ending (subn is_space (template (replacement addons_path)) true 0 config) (λ e.
      subst (λ by. Within by (subn is_space (template (replacement addons_path)) true 0 config).0)
        plain (subn-Within is_space (template (replacement addons_path)) true 0 config e))
  where
    ending :
        (r : Text × Bool)
        → (r.1 ≡ true → Within (replacement addons_path) r.0)
        → Within (replacement addons_path) (or_added (replacement addons_path) config r)
    ending (updated, true) h = h refl
    ending (updated, false) h =
        added-Within (replacement addons_path) updated
          (replace_first (codes "[options]") (codes "[options]\n" ++ replacement addons_path)
            updated)
          (replace_first-Within (codes "[options]") (codes "[options]\n" ++ replacement addons_path)
            updated)
