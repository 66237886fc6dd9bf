-- ===== src/TenantDb/Names.antt =====
-- agent/commands/tenantdb.py: the parameters of its commands, the checks of `ensure` and the names.
use Prim.Native.String.{◌++◌ as str_append}
use relay_agent.Base.{
  Bool, List, Option, String, Text, [], false, if◌then◌else◌, leb, none, same, some, str_eq, ℕ,
  ◌&&◌, ◌*◌, ◌∷◌,
}
use relay_agent.Base.Int.{negsuc, pos, ℤ}
use relay_agent.Docker.{Action, Done, codes, docker_error, missing_key, pure, raise, ◌>>=◌, ◌>>◌}
use relay_agent.Docker.Objects.{require}
use relay_agent.Slug.{is_ident, is_tenant_slug, starts_with}

pub record Names : Type 0 where
  pub network : String
  pub container : String
  pub data_volume : String
  pub scratch : String
  pub wal : String

-- `_names`
unfoldable pub names : String → Names
names slug = record {
  network = str_append "berth_t_" slug;
  container = str_append "berth_pg_" slug;
  data_volume = str_append "berth_pgdata_" slug;
  scratch = str_append "berth_scratch_" slug;
  wal = str_append "berth_wal_" slug;
}

-- `_slug`
unfoldable pub check_slug : String → Action Done
check_slug slug = require (is_tenant_slug (codes slug))

-- `_ident`
unfoldable pub check_ident : String → Action Done
check_ident value = require (is_ident (codes value))

-- What `ensure` is given.
pub record Params : Type 0 where
  pub slug : String
  pub image : String
  pub command : List Text
  pub environment : List (String × String)
  pub mem_limit : Option String
  pub pids_limit : Option ℤ
  pub wal_archiving : Bool
  pub recreate : Bool
  pub pull : Bool

-- The item of a dictionary, and KeyError without it.
unfoldable pub item_of : String → List (String × String) → Action String
item_of key [] = raise missing_key
item_of key ((k, v) ∷ items) = let rest = item_of key items in if str_eq k key then pure v else rest

abbrev pub default_to {ℓ} : {A : Type ℓ} → A → Option A → A
default_to a none = a
default_to a (some b) = b

abbrev pub memory_limit : Params → String
memory_limit p = default_to "768m" p.mem_limit

abbrev pub process_limit : Params → ℤ
process_limit p = default_to (pos 200) p.pids_limit

abbrev pub max_mem : ℕ
max_mem = 4 * 1024 * 1024 * 1024

abbrev pub is_pids_limit : ℤ → Bool
is_pids_limit (pos n) = leb 1 n && leb n 1000
is_pids_limit (negsuc _) = false

abbrev pub starts_postgres : List Text → Bool
starts_postgres [] = false
starts_postgres (word ∷ _) = same word (codes "postgres")

-- `docker.utils.parse_bytes`, which raises where it gives nothing
abbrev pub parsed : Option ℕ → Action ℕ
parsed none = raise docker_error
parsed (some n) = pure n

module _ (parse_bytes : String → Option ℕ) where
  -- The checks at the beginning of `ensure`, which gives the user's name
  unfoldable pub check_params : Params → Action String
  check_params p = do
    check_slug p.slug
    pg_user ← item_of "POSTGRES_USER" p.environment
    check_ident pg_user
    bytes ← parsed (parse_bytes (memory_limit p))
    require (leb bytes max_mem)
    require (is_pids_limit (process_limit p))
    require (starts_postgres p.command)
    require (starts_with (codes "postgres:") (codes p.image))
    pure pg_user
