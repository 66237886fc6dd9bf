-- ===== src/Postgres/Actions.antt =====
-- agent/commands/postgres.py: the methods of `PostgresCommands`, as actions on the daemon. Times
-- are in milliseconds. The polling loop of `_wait_ready` takes a number of rounds.
use relay_agent.Base.{
  Bool, List, Option, String, Text, [], false, if◌then◌else◌, leb, ltb, min, none, some, str_eq,
  suc, true, zero, ℕ, ◌*◌, ◌++◌, ◌+◌, ◌-◌, ◌==◌, ◌∷◌,
}
use relay_agent.Docker.{
  Action, Daemon, Done, Error, Result, Spec, Status, catch, clock, codes, create_network, dead,
  deadline_exceeded, err, exec, exited, find, get_image, get_network, image_unavailable,
  insufficient_margin, make_dirs, not_ready, ok, out_of_rounds, perform, pull_image, pure, raise,
  reload_status, remove, removing, rename, replacement_stopped, run_container_spec, running, sleep,
  start, stop, suppress, when, ◌>>=◌, ◌>>◌,
}
use relay_agent.Postgres.Command.{install_wrapper, pg_args, postgres_command_line}

-- What a command's `params` come to, their defaults filled in.
pub record Settings : Type 0 where
  pub pg_user : String
  pub pg_password : String
  pub network : String
  pub image : String
  pub pg_extra_args : List Text

-- `params` as they arrive.
pub record Params : Type 0 where
  pub pg_user : String
  pub pg_password : String
  pub network : Option String
  pub pg_image : Option String
  pub pg_extra_args : Option (List Text)

abbrev pub get_or {ℓ} : {A : Type ℓ} → A → Option A → A
get_or default none = default
get_or default (some a) = a

-- `params.get("pg_image") or _DEFAULT_IMAGE`
unfoldable pub image_of : Option String → String
image_of none = "postgres:16"
image_of (some i) = if str_eq i "" then "postgres:16" else i

unfoldable pub settings : Params → Settings
unfolding image_of
settings p = record {
  pg_user = p.pg_user;
  pg_password = p.pg_password;
  network = get_or "berth_platform_proxy" p.network;
  image = image_of p.pg_image;
  pg_extra_args = get_or [] p.pg_extra_args;
}

abbrev pub container_name : String
container_name = "berth_postgres"

abbrev pub recreate_commit_deadline : ℕ
recreate_commit_deadline = 300 * 1000

abbrev pub recreate_finalize_reserve : ℕ
recreate_finalize_reserve = 65 * 1000

-- The arguments of `containers.run` in `_run_container`.
unfoldable pub spec_of : Text → Settings → Bool → Spec
spec_of data_root s wal_archiving = record {
  image = s.image;
  name = container_name;
  command =
      install_wrapper (codes s.image)
        (postgres_command_line (pg_args wal_archiving s.pg_extra_args));
  environment =
      ("POSTGRES_USER", codes s.pg_user) ∷ ("POSTGRES_PASSWORD", codes s.pg_password) ∷ [];
  volumes =
      (data_root ++ codes "/_pg_data", "/var/lib/postgresql/data", "rw")
      ∷ (data_root ++ codes "/_pg_scratch", "/scratch", "rw")
      ∷ (if wal_archiving
          then (data_root ++ codes "/_pg_wal_archive", "/wal_archive", "rw") ∷ []
          else []);
  network = s.network;
  mem_limit = none;
  pids_limit = none;
  options =
      ("detach", "True")
      ∷ ("restart_policy", "unless-stopped")
      ∷ ("log_config", "json-file 50m 5")
      ∷ [];
}

abbrev pub has_stopped : Status → Bool
has_stopped exited = true
has_stopped dead = true
has_stopped removing = true
has_stopped _ = false

abbrev pub is_running : Status → Bool
is_running running = true
is_running _ = false

-- `rollback_name` is the name that the old container gets: `berth_postgres_rollback_` and its
-- short id.
module _ (d : Daemon) (data_root : Text) (rollback_name : ℕ → String) where
  -- `_ensure_network`
  unfoldable pub ensure_network : String → Action Done
  ensure_network network =
      catch (perform d (get_network network)) (λ _. perform d (create_network network))

  -- `_run_container`
  unfoldable pub run_container : Settings → Bool → Action ℕ
  run_container s wal_archiving = do
    perform d (make_dirs (data_root ++ codes "/_pg_data"))
    perform d (make_dirs (data_root ++ codes "/_pg_scratch"))
    when wal_archiving (perform d (make_dirs (data_root ++ codes "/_pg_wal_archive")))
    ensure_network s.network
    suppress (perform d (pull_image s.image))
    run_container_spec d (spec_of data_root s wal_archiving)

  -- `_ensure_image_available`
  unfoldable pub ensure_image_available : String → Action Done
  ensure_image_available image =
      catch (perform d (pull_image image))
        (λ _. catch (perform d (get_image image)) (λ _. raise image_unavailable))

  -- The loop of `_wait_ready`
  unfoldable pub poll_ready : ℕ → ℕ → String → ℕ → Action Done
  poll_ready zero h pg_user deadline = raise out_of_rounds
  poll_ready (suc rounds) h pg_user deadline = do
    now ← clock d
    if leb deadline now then raise not_ready else (do
      status ← reload_status d h
      if has_stopped status then raise replacement_stopped else (do
        exit_code ← exec d h ("pg_isready" ∷ "-U" ∷ pg_user ∷ [])
        if exit_code == 0
            then pure tt
            else (do perform d sleep; poll_ready rounds h pg_user deadline)))

  unfoldable pub wait_ready : ℕ → ℕ → String → ℕ → Action Done
  wait_ready rounds h pg_user timeout = do
    begin ← clock d
    poll_ready rounds h pg_user (begin + timeout)

  -- `_wait_ready_before`
  unfoldable pub wait_ready_before : ℕ → ℕ → String → ℕ → Action Done
  wait_ready_before rounds h pg_user commit_deadline = do
    now ← clock d
    if leb commit_deadline now then raise deadline_exceeded else (do
      wait_ready rounds h pg_user (min 120000 (commit_deadline - now))
      now' ← clock d
      if ltb commit_deadline now' then raise deadline_exceeded else pure tt)

  -- `_create_with_deadline`
  unfoldable pub create_with_deadline : ℕ → Settings → Bool → ℕ → Action Done
  create_with_deadline rounds s wal_archiving commit_deadline = do
    now ← clock d
    if leb commit_deadline now then raise deadline_exceeded else (do
      container ← run_container s wal_archiving
      catch (wait_ready_before rounds container s.pg_user commit_deadline)
          (λ e. suppress (perform d (remove container true)) >> raise e))

  -- The body of the second `try` of `_recreate_with_rollback`
  unfoldable pub replace : ℕ → Settings → Bool → ℕ → Action Done
  replace rounds s wal_archiving commit_deadline = do
    replacement ← run_container s wal_archiving
    wait_ready_before rounds replacement s.pg_user commit_deadline
    now ← clock d
    if leb commit_deadline (now + recreate_finalize_reserve)
        then raise insufficient_margin
        else pure tt

  abbrev pub discard_partial : Option ℕ → Action Done
  discard_partial none = pure tt
  discard_partial (some partial) = suppress (perform d (remove partial true))

  -- Its `except` branch
  unfoldable pub undo : ℕ → Bool → Error → Action Done
  undo existing was_running e = do
    partial ← find d container_name
    discard_partial partial
    perform d (rename existing container_name)
    when was_running (perform d (start existing))
    raise e

  -- That `try` statement, its `else` branch included
  abbrev pub settle : ℕ → Bool → Result Done → Action Done
  settle existing was_running (ok _) = suppress (perform d (remove existing false))
  settle existing was_running (err e) = undo existing was_running e

  unfoldable pub replace_or_undo : ℕ → ℕ → Bool → Settings → Bool → ℕ → Action Done
  replace_or_undo rounds existing was_running s wal_archiving commit_deadline log =
      let (r, log') = replace rounds s wal_archiving commit_deadline log in
      settle existing was_running r log'

  -- `_recreate_with_rollback`; `was_running` is the status that the caller has just reloaded.
  unfoldable pub recreate_with_rollback : ℕ → ℕ → Bool → Settings → Bool → ℕ → Action Done
  recreate_with_rollback rounds existing was_running s wal_archiving commit_deadline = do
    now ← clock d
    if leb commit_deadline now then raise deadline_exceeded else (do
      when was_running (perform d (stop existing))
      catch (perform d (rename existing (rollback_name existing)))
          (λ e. when was_running (suppress (perform d (start existing))) >> raise e)
      replace_or_undo rounds existing was_running s wal_archiving commit_deadline)
