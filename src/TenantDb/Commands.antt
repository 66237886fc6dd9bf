-- ===== src/TenantDb/Commands.antt =====
-- agent/executor.py: what a method of the tenant databases does, by the action that it names.
use relay_agent.Base.{All, Bool, List, Option, String, Text, false, ℕ, ◌≡◌}
use relay_agent.Docker.{Action, Call, Daemon, codes, pure, ◌>>=◌, ◌>>◌}
use relay_agent.Docker.Extends.{Makes, Makes-bind, Makes-pure}
use relay_agent.Slug.Component.{has}
use relay_agent.TenantDb.Ensure.{ensure}
use relay_agent.TenantDb.EnsureOwned.{ensure-Makes}
use relay_agent.TenantDb.Files.{cleanup, dump, export_dir, restore}
use relay_agent.TenantDb.FilesOwned.{
  container_status-Makes, dump-Makes, remove_all-Makes, restore-Makes, start_container-Makes,
  stop_container-Makes,
}
use relay_agent.TenantDb.Lifecycle.{
  Answer, container_status, remove_all, start_container, stop_container,
}
use relay_agent.TenantDb.Names.{Params}
use relay_agent.TenantDb.Owned.{IsEntryName, Owned}
use relay_agent.TenantDb.PathsOwned.{cleanup-Makes, export_dir-Makes}

pub data Command : Type 0 where
  ensure_with : Params → Command
  ask_status : String → Command
  stop_it : String → Command
  start_it : String → String → Command
  remove_it : String → Bool → Command
  dump_it : String → String → String → String → Command
  restore_it : String → String → String → String → Option String → Command
  export_it : String → Text → String → Command
  clean_up : String → Option Text → Command

pub data Outcome : Type 0 where
  ensured : Bool → Outcome
  stands : Answer → Outcome
  at_path : Text → Outcome
  finished : Outcome

abbrev pub slug_of : Command → String
slug_of (ensure_with p) = p.slug
slug_of (ask_status slug) = slug
slug_of (stop_it slug) = slug
slug_of (start_it slug pg_user) = slug
slug_of (remove_it slug keep_volume) = slug
slug_of (dump_it token slug pg_user db_name) = slug
slug_of (restore_it slug owner db_name password file) = slug
slug_of (export_it slug path name) = slug
slug_of (clean_up slug path) = slug

-- The random part of a dump's name
abbrev pub token_of : Command → String
token_of (dump_it token slug pg_user db_name) = token
token_of _ = ""

module _ (d : Daemon) (data_root : Text) (parse_bytes : String → Option ℕ) (rounds : ℕ) where
  unfoldable pub run_command : Command → Action Outcome
  run_command (ensure_with p) = do made ← ensure d parse_bytes rounds p; pure (ensured made)
  run_command (ask_status slug) = do answer ← container_status d slug; pure (stands answer)
  run_command (stop_it slug) = stop_container d slug >> pure finished
  run_command (start_it slug pg_user) = start_container d rounds slug pg_user >> pure finished
  run_command (remove_it slug keep_volume) =
      remove_all d data_root slug keep_volume >> pure finished
  run_command (dump_it token slug pg_user db_name) = do
    path ← dump d data_root token slug pg_user db_name
    pure (at_path path)
  run_command (restore_it slug owner db_name password file) =
      restore d data_root slug owner db_name password file >> pure finished
  run_command (export_it slug raw_path name) = do
    path ← export_dir d data_root slug raw_path name
    pure (at_path path)
  run_command (clean_up slug path) = cleanup d data_root slug path >> pure finished

  pub commands-Owned :
      (c : Command)
      → has b'/' (codes (token_of c)) ≡ false
      → ((l : List Call) (path : Text) → All IsEntryName (d.entries l path))
      → Makes (Owned d data_root (slug_of c)) (run_command c)
  unfolding run_command
  commands-Owned (ensure_with p) random named =
      Makes-bind _ _ (ensure-Makes d data_root p parse_bytes rounds)
        λ made. Makes-pure (ensured made)
  commands-Owned (ask_status slug) random named =
      Makes-bind _ _ (container_status-Makes d data_root slug) λ answer. Makes-pure (stands answer)
  commands-Owned (stop_it slug) random named =
      Makes-bind _ _ (stop_container-Makes d data_root slug) λ _. Makes-pure finished
  commands-Owned (start_it slug pg_user) random named =
      Makes-bind _ _ (start_container-Makes d data_root slug rounds pg_user)
        λ _. Makes-pure finished
  commands-Owned (remove_it slug keep_volume) random named =
      Makes-bind _ _ (remove_all-Makes d data_root slug keep_volume) λ _. Makes-pure finished
  commands-Owned (dump_it token slug pg_user db_name) random named =
      Makes-bind _ _ (dump-Makes d data_root slug token pg_user db_name random)
        λ path. Makes-pure (at_path path)
  commands-Owned (restore_it slug owner db_name password file) random named =
      Makes-bind _ _ (restore-Makes d data_root slug owner db_name password file)
        λ _. Makes-pure finished
  commands-Owned (export_it slug raw_path name) random named =
      Makes-bind _ _ (export_dir-Makes d data_root slug raw_path name named)
        λ path. Makes-pure (at_path path)
  commands-Owned (clean_up slug path) random named =
      Makes-bind _ _ (cleanup-Makes d data_root slug path) λ _. Makes-pure finished
