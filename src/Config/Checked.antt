-- ===== src/Config/Checked.antt =====
-- What the settings of an agent that starts are like.
use relay_agent.Base.{
  Bool, Bool-cases, Option, String, Text, [], ap, arith, false, inl, inr, none, refl, some, subst,
  sym, ℕ, ◌∙◌, ◌∷◌, ◌≡◌, ◌≢◌,
}
use relay_agent.Base.Int.{ℤ}
use relay_agent.Config.{
  Environment, Settings, config, get_env, is_slash, kept_before, lstrip, not_empty, required,
  rstrip, settings,
}
use relay_agent.Docker.{codes}

abbrev pub first_is : (ℕ → Bool) → Text → Bool
first_is p [] = false
first_is p (c ∷ s) = p c

unfoldable pub last_is : (ℕ → Bool) → Text → Bool
last_is p [] = false
last_is p (c ∷ []) = p c
last_is p (c ∷ d ∷ s) = last_is p (d ∷ s)

-- A text that is there, with no white space at either end
pub record IsValue (is_space : ℕ → Bool) (s : Text) : Type 0 where
  pub is_there : s ≢ []
  pub begins : first_is is_space s ≡ false
  pub ends : last_is is_space s ≡ false

pub record IsSettings (is_space : ℕ → Bool) (s : Settings) : Type 0 where
  pub url : IsValue is_space s.gateway_url
  pub token : IsValue is_space s.token
  pub no_last_slash : last_is is_slash s.data_root_path ≡ false

last_is-rstrip : (p : ℕ → Bool) (s : Text) → last_is p (rstrip p s) ≡ false
unfolding rstrip last_is
last_is-rstrip p [] = refl
last_is-rstrip p (c ∷ s) = behind (rstrip p s) (last_is-rstrip p s)
  where
    behind : (t : Text) → last_is p t ≡ false → last_is p (kept_before p c t) ≡ false
    behind [] h = elim (Bool-cases (p c)) [ inl e ↦ rw e refl | inr e ↦ rw e e ]
    behind (d ∷ t) h = h

first_is-lstrip : (p : ℕ → Bool) (s : Text) → first_is p (lstrip p s) ≡ false
unfolding lstrip
first_is-lstrip p [] = refl
first_is-lstrip p (c ∷ s) = elim (Bool-cases (p c)) [
  | inl e ↦ rw e (first_is-lstrip p s)
  | inr e ↦ rw e e
]

first_is-rstrip : (p : ℕ → Bool) (s : Text) → first_is p s ≡ false → first_is p (rstrip p s) ≡ false
unfolding rstrip
first_is-rstrip p [] h = refl
first_is-rstrip p (c ∷ s) h = same_first (rstrip p s)
  where
    same_first : (t : Text) → first_is p (kept_before p c t) ≡ false
    same_first [] = rw h h
    same_first (d ∷ t) = h

not_empty-some : (s t : Text) → not_empty s ≡ some t → (s ≡ t) × (t ≢ [])
not_empty-some [] t h = ground (arith, h)
not_empty-some (c ∷ s) t h = (ground (arith, h), ground (arith, h))

of_some :
    (is_space : ℕ → Bool) {r s : Settings}
    → some r ≡ some s
    → IsSettings is_space r
    → IsSettings is_space s
of_some is_space {r} {s} h k = let e : r ≡ s = cc in subst (IsSettings is_space) e k

module _ (is_space : ℕ → Bool) (upper lower : Text → Text) (int float : Text → Option ℤ)
    (env : Environment) where
  required-IsValue :
      (key : String) (t : Text)
      → required is_space upper lower int float env key ≡ some t
      → IsValue is_space t
  unfolding required
  required-IsValue key t h =
      let (e, given) = not_empty-some _ t h in
      record {
        is_there = given;
        begins =
            ap (first_is is_space) (sym e)
            ∙ first_is-rstrip is_space (lstrip is_space (get_env env key []))
                (first_is-lstrip is_space (get_env env key []));
        ends =
            ap (last_is is_space) (sym e)
            ∙ last_is-rstrip is_space (lstrip is_space (get_env env key []));
      }

  settings-IsSettings :
      (url token : Option Text) (backoff timeout : Option ℤ) (s : Settings)
      → ((t : Text) → url ≡ some t → IsValue is_space t)
      → ((t : Text) → token ≡ some t → IsValue is_space t)
      → settings is_space upper lower int float env url token backoff timeout ≡ some s
      → IsSettings is_space s
  settings-IsSettings (some url) (some token) (some backoff) (some timeout) s u k h =
      of_some is_space h (record {
        url = u url refl;
        token = k token refl;
        no_last_slash =
            last_is-rstrip is_slash (get_env env "DATA_ROOT_PATH" (codes "/data/tenants"));
      })
  settings-IsSettings none token backoff timeout s u k h = ground (arith, h)
  settings-IsSettings (some url) none backoff timeout s u k h = ground (arith, h)
  settings-IsSettings (some url) (some token) none timeout s u k h = ground (arith, h)
  settings-IsSettings (some url) (some token) (some backoff) none s u k h = ground (arith, h)

  -- Whatever the environment holds: if `Config()` returns, the gateway's URL and the token are
  -- not empty and have no white space at either end, and the data root does not end in a slash.
  pub config-IsSettings :
      (s : Settings) → config is_space upper lower int float env ≡ some s → IsSettings is_space s
  unfolding config
  config-IsSettings s h =
      settings-IsSettings _ _ _ _ s (required-IsValue "GATEWAY_URL") (required-IsValue "TOKEN") h
