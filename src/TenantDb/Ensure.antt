-- ===== src/TenantDb/Ensure.antt =====
-- agent/commands/tenantdb.py: `ensure` and the methods that it uses. The polling loop of
-- `_wait_ready` takes a number of rounds.
use Prim.Native.String.{◌++◌ as str_append}
use relay_agent.Base.{
  Bool, List, Option, String, Text, [], false, if◌then◌else◌, leb, none, not, some, suc, true, zero,
  ℕ, ◌&&◌, ◌+◌, ◌==◌, ◌∷◌,
}
use relay_agent.Docker.{
  Action, Daemon, Done, Result, Spec, Status, clock, codes, create_internal_network, err, exec,
  exec_root, get_image, get_network, not_ready, ok, out_of_rounds, perform, pull_image, pure, raise,
  reload_status, remove, rename, running, sleep, start, stop, when, ◌>>=◌, ◌>>◌,
}
use relay_agent.Docker.Objects.{ask, catch_missing, create_container, look_up, suppress_missing}
use relay_agent.TenantDb.Names.{Params, check_params, memory_limit, names, process_limit}

abbrev pub with_codes : List (String × String) → List (String × Text)
with_codes [] = []
with_codes ((k, v) ∷ items) = (k, codes v) ∷ with_codes items

-- The arguments of `containers.create` in `_create_or_get`.
unfoldable pub spec_of : Params → Spec
unfolding names
spec_of p = record {
  image = p.image;
  name = (names p.slug).container;
  command = p.command;
  environment = with_codes p.environment;
  volumes =
      (codes (names p.slug).data_volume, "/var/lib/postgresql/data", "rw")
      ∷ (codes (names p.slug).scratch, "/scratch", "rw")
      ∷ (if p.wal_archiving then (codes (names p.slug).wal, "/wal_archive", "rw") ∷ [] else []);
  network = (names p.slug).network;
  mem_limit = some (memory_limit p);
  pids_limit = some (process_limit p);
  options =
      ("berth.role", "tenant-db")
      ∷ ("berth.slug", p.slug)
      ∷ ("restart_policy", "unless-stopped")
      ∷ ("cap_drop", "ALL")
      ∷ ("cap_add", "CHOWN SETUID SETGID DAC_OVERRIDE FOWNER")
      ∷ ("security_opt", "no-new-privileges:true")
      ∷ [];
}

abbrev pub is_up : Status → Bool
is_up running = true
is_up _ = false

abbrev pub old_name : String → String
old_name name = str_append name "_old"

module _ (d : Daemon) where
  -- The loop of `_wait_ready`, and the method
  unfoldable pub poll : ℕ → ℕ → String → ℕ → Action Done
  poll zero h pg_user deadline = raise out_of_rounds
  poll (suc rounds) h pg_user deadline = do
    now ← clock d
    if leb deadline now then raise not_ready else (do
      exit_code ← exec d h ("pg_isready" ∷ "-h" ∷ "127.0.0.1" ∷ "-U" ∷ pg_user ∷ [])
      if exit_code == 0 then pure tt else (do perform d sleep; poll rounds h pg_user deadline))

  unfoldable pub wait_ready : ℕ → ℕ → String → Action Done
  wait_ready rounds h pg_user = do begin ← clock d; poll rounds h pg_user (begin + 90000)

  abbrev pub retire : String → Option ℕ → Action (Option ℕ)
  retire name none = pure none
  retire name (some h) = do ask d (stop h); ask d (rename h (old_name name)); pure (some h)

  -- `_set_aside`
  unfoldable pub set_aside : String → Action (Option ℕ)
  set_aside name = do
    suppress_missing (do h ← look_up d (old_name name); ask d (remove h true))
    current ← catch_missing (do h ← look_up d name; pure (some h)) (pure none)
    retire name current

  -- `_put_back`
  unfoldable pub put_back : String → ℕ → Action Done
  put_back name previous = do
    suppress_missing (do h ← look_up d name; ask d (remove h true))
    ask d (rename previous name)
    ask d (start previous)

  unfoldable pub fetch_image : Params → Action Done
  fetch_image p =
      catch_missing
        (ask d (if p.pull && not p.recreate then pull_image p.image else get_image p.image))
        (ask d (pull_image p.image))

  abbrev pub create_missing : Params → Option ℕ → Action (ℕ × Bool)
  create_missing p (some h) = pure (h, false)
  create_missing p none = do fetch_image p; h ← create_container d (spec_of p); pure (h, true)

  -- `_create_or_get`: the container, and whether it is new
  unfoldable pub create_or_get : Params → Action (ℕ × Bool)
  unfolding names
  create_or_get p = do
    existing ← catch_missing (do h ← look_up d (names p.slug).container; pure (some h)) (pure none)
    create_missing p existing

  unfoldable pub chown_mount : ℕ → String → Action Done
  chown_mount h path log =
      when (d.has_mount log h path)
        (ask d (exec_root h ("chown" ∷ "postgres:postgres" ∷ path ∷ []))) log

  -- The body of the `try` statement of `ensure`
  unfoldable pub bring_up : ℕ → Params → String → Action Bool
  bring_up rounds p pg_user = do
    made ← create_or_get p
    status ← reload_status d made.0
    when (not (is_up status)) (ask d (start made.0))
    wait_ready rounds made.0 pg_user
    chown_mount made.0 "/scratch"
    chown_mount made.0 "/wal_archive"
    pure made.1

  abbrev pub discard_previous : Option ℕ → Action Done
  discard_previous none = pure tt
  discard_previous (some h) = suppress_missing (ask d (remove h true))

  abbrev pub restore_previous : String → Option ℕ → Action Done
  restore_previous name none = pure tt
  restore_previous name (some h) = put_back name h

  -- That statement's `except` branch, and what follows it
  abbrev pub commit : String → Option ℕ → Result Bool → Action Bool
  commit name previous (ok created) = discard_previous previous >> pure created
  commit name previous (err e) = restore_previous name previous >> raise e

  unfoldable pub bring_up_or_undo : ℕ → Params → String → Option ℕ → Action Bool
  unfolding names
  bring_up_or_undo rounds p pg_user previous log =
      let (r, log') = bring_up rounds p pg_user log in
      commit (names p.slug).container previous r log'

  unfoldable pub displace : Params → Action (Option ℕ)
  unfolding names
  displace p =
      if p.recreate
      then (do when p.pull (ask d (pull_image p.image)); set_aside (names p.slug).container)
      else pure none

  unfoldable pub ensure_private_network : String → Action Done
  ensure_private_network network =
      catch_missing (ask d (get_network network)) (ask d (create_internal_network network))

  -- `ensure`: whether the container is new
  unfoldable pub ensure : (String → Option ℕ) → ℕ → Params → Action Bool
  unfolding names
  ensure parse_bytes rounds p = do
    pg_user ← check_params parse_bytes p
    ensure_private_network (names p.slug).network
    previous ← displace p
    bring_up_or_undo rounds p pg_user previous
