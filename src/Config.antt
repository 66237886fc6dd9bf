-- ===== src/Config.antt =====
-- agent/config.py: the settings that the agent reads from its environment. Texts are lists of code
-- points; Python's conversions of texts to numbers are parameters.
pub mod Checked
use relay_agent.Base.{
  Bool, Option, String, Text, [], if◌then◌else◌, none, not, same, some, ℕ, ◌==◌, ◌∷◌,
}
use relay_agent.Base.Int.{ℤ}
use relay_agent.Docker.{codes}

-- A character in front of what is left of the rest
abbrev pub kept_before : (ℕ → Bool) → ℕ → Text → Text
kept_before p c [] = if p c then [] else c ∷ []
kept_before p c (b ∷ s) = c ∷ b ∷ s

-- `str.rstrip` of the characters of a test
unfoldable pub rstrip : (ℕ → Bool) → Text → Text
rstrip p [] = []
rstrip p (c ∷ s) = kept_before p c (rstrip p s)

unfoldable pub lstrip : (ℕ → Bool) → Text → Text
lstrip p [] = []
lstrip p (c ∷ s) = let rest = lstrip p s in if p c then rest else c ∷ s

abbrev pub Environment : Type 0
Environment = String → Option Text

abbrev pub or_default : Text → Option Text → Text
or_default default none = default
or_default default (some v) = v

abbrev pub get_env : Environment → String → Text → Text
get_env env key default = or_default default (env key)

pub record Settings : Type 0 where
  pub gateway_url : Text
  pub token : Text
  pub data_root_path : Text
  pub reconnect_max_backoff : ℤ
  pub command_timeout : ℤ
  pub log_level : Text
  pub ssl_verify : Bool

abbrev pub not_empty : Text → Option Text
not_empty [] = none
not_empty (c ∷ s) = some (c ∷ s)

abbrev pub is_slash : ℕ → Bool
is_slash c = c == b'/'

-- What Python takes for white space, changes to capitals or small letters, and reads as a number
-- (of seconds, in milliseconds for the timeout)
module _ (is_space : ℕ → Bool) (upper lower : Text → Text) (int float : Text → Option ℤ)
    (env : Environment) where
  unfoldable pub required : String → Option Text
  unfolding lstrip rstrip
  required key = not_empty (rstrip is_space (lstrip is_space (get_env env key [])))

  abbrev pub settings : Option Text → Option Text → Option ℤ → Option ℤ → Option Settings
  settings (some url) (some token) (some backoff) (some timeout) = some (record {
    gateway_url = url;
    token = token;
    data_root_path = rstrip is_slash (get_env env "DATA_ROOT_PATH" (codes "/data/tenants"));
    reconnect_max_backoff = backoff;
    command_timeout = timeout;
    log_level = upper (get_env env "LOG_LEVEL" (codes "INFO"));
    ssl_verify = not (same (lower (get_env env "SSL_VERIFY" (codes "true"))) (codes "false"));
  })
  settings _ _ _ _ = none

  -- `Config()`, with none where it raises
  unfoldable pub config : Option Settings
  unfolding required rstrip
  config =
      settings (required "GATEWAY_URL") (required "TOKEN")
        (int (get_env env "RECONNECT_MAX_BACKOFF" (codes "60")))
        (float (get_env env "COMMAND_TIMEOUT" (codes "120")))
