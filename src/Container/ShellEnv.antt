-- ===== src/Container/ShellEnv.antt =====
-- agent/commands/host_shell.py: `_safe_shell_env`.
use relay_agent.Base.{
  Bool, List, Option, String, [], ap, arith, eq_iff, false, if-rule, if◌then◌else◌, is_some, member,
  none, refl, some, str_eq, sym, true, ◌||◌, ◌∙◌, ◌∷◌, ◌≡◌,
}
use relay_agent.Base.Dict.{Dict, get, get-put, put}

abbrev pub env_allowlist : List String
env_allowlist = "PATH" ∷ "HOME" ∷ "USER" ∷ "LOGNAME" ∷ "LANG" ∷ "LC_ALL" ∷ "TZ" ∷ "SHELL" ∷ []

-- The items of a dictionary whose keys are in a list
unfoldable pub keep_keys : List String → Dict String → Dict String
unfolding member
keep_keys ks [] = []
keep_keys ks ((k, v) ∷ env) =
    let rest = keep_keys ks env in if member k ks then (k, v) ∷ rest else rest

-- `env.setdefault`
abbrev pub set_default : String → String → Dict String → Dict String
set_default k v env = if is_some (get k env) then env else put k v env

unfoldable pub safe_shell_env : Dict String → Dict String
unfolding keep_keys get put
safe_shell_env environ = put "TERM" "xterm-256color" (
    set_default "PATH" "/usr/local/sbin:/usr/local/bin:/usr/sbin:/usr/bin:/sbin:/bin"
      (keep_keys env_allowlist environ))

get-keep_keys :
    (ks : List String) (k : String) (env : Dict String)
    → member k ks ≡ false
    → get k (keep_keys ks env) ≡ none
unfolding keep_keys get
get-keep_keys ks k [] h = refl
get-keep_keys ks k ((j, v) ∷ env) h =
    if-rule {A = Dict String} (λ t. get k t ≡ none) (member j ks)
      (λ listed_key.
        if-rule {A = Option String} (λ o. o ≡ none) (str_eq j k)
          (λ same_key.
            absurd (clash (sym listed_key ∙ ap (λ i. member i ks) ((eq_iff j k).0 same_key) ∙ h)))
          λ _. get-keep_keys ks k env h)
      λ _. get-keep_keys ks k env h
  where
    clash : true ≡ false → ⊥
    clash e = ground (arith, e)

get-set_default :
    (k j v : String) (env : Dict String)
    → str_eq j k ≡ false
    → get k env ≡ none
    → get k (set_default j v env) ≡ none
get-set_default k j v env h e =
    if-rule {A = Dict String} (λ t. get k t ≡ none) (is_some (get j env)) (λ _. e)
      λ _. get-put j k v env ∙ rw h e

-- The host's shell gets no variable but those on the list and TERM, whatever the agent's own
-- environment holds: not its TOKEN.
pub get-safe_shell_env :
    (k : String) (environ : Dict String)
    → member k env_allowlist ≡ false
    → str_eq "TERM" k ≡ false
    → get k (safe_shell_env environ) ≡ none
unfolding safe_shell_env member
get-safe_shell_env k environ h not_term =
    let defaulted =
      set_default "PATH" "/usr/local/sbin:/usr/local/bin:/usr/sbin:/usr/bin:/sbin:/bin"
        (keep_keys env_allowlist environ) in
    get-put "TERM" k "xterm-256color" defaulted
    ∙ ap (λ b. if b then some "xterm-256color" else get k defaulted) not_term
    ∙ get-set_default k "PATH" _ (keep_keys env_allowlist environ) (first_of _ _ h)
        (get-keep_keys env_allowlist k environ h)
  where
    first_of : (a b : Bool) → a || b ≡ false → a ≡ false
    first_of a b e = ground (arith, e)
