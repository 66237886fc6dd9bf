-- ===== src/Postgres/Mutations.antt =====
-- agent/commands/postgres.py: `bootstrap`, `enable_pitr` and `retune`. The polling loop takes a
-- number of rounds.
use relay_agent.Base.{
  Bool, List, Option, String, Text, false, if◌then◌else◌, none, some, true, ℕ, ◌+◌,
}
use relay_agent.Docker.{
  Action, Call, Daemon, Result, already_running, clock, err, find, perform, pure, reload_status,
  start, started_command, ◌>>=◌, ◌>>◌,
}
use relay_agent.Postgres.Actions.{
  Params, Settings, container_name, create_with_deadline, ensure_image_available, is_running,
  recreate_commit_deadline, recreate_with_rollback, run_container, settings,
}
use relay_agent.Postgres.Command.{archives}

pub data BootstrapStatus : Type 0 where
  was_already_running restarted started : BootstrapStatus

pub data PitrStatus : Type 0 where
  already_enabled enabled : PitrStatus

module _ (d : Daemon) (data_root : Text) (rollback_name : ℕ → String) where
  abbrev pub bootstrap_found : Settings → Option ℕ → Action BootstrapStatus
  bootstrap_found s none = do run_container d data_root rollback_name s false; pure started
  bootstrap_found s (some existing) = do
    status ← reload_status d existing
    if is_running status
        then pure was_already_running
        else (do perform d (start existing); pure restarted)

  -- `_bootstrap`
  unfoldable pub bootstrap : Params → Action BootstrapStatus
  bootstrap p = do existing ← find d container_name; bootstrap_found (settings p) existing

  abbrev pub pitr_found : ℕ → Settings → ℕ → Option ℕ → Action PitrStatus
  pitr_found rounds s commit_deadline none = do
    create_with_deadline d data_root rollback_name rounds s true commit_deadline
    pure enabled
  pitr_found rounds s commit_deadline (some existing) = do
    status ← reload_status d existing
    cmd ← started_command d existing
    if archives cmd then pure already_enabled else (do
      ensure_image_available d data_root rollback_name s.image
      recreate_with_rollback d data_root rollback_name rounds existing (is_running status) s true
          commit_deadline
      pure enabled)

  -- `_enable_pitr`
  unfoldable pub enable_pitr : ℕ → Params → Action PitrStatus
  enable_pitr rounds p = do
    now ← clock d
    existing ← find d container_name
    pitr_found rounds (settings p) (now + recreate_commit_deadline) existing

  abbrev pub retune_found : ℕ → Settings → ℕ → Option ℕ → Action Bool
  retune_found rounds s commit_deadline none = do
    create_with_deadline d data_root rollback_name rounds s false commit_deadline
    pure false
  retune_found rounds s commit_deadline (some existing) = do
    status ← reload_status d existing
    cmd ← started_command d existing
    ensure_image_available d data_root rollback_name s.image
    recreate_with_rollback d data_root rollback_name rounds existing (is_running status) s
        (archives cmd) commit_deadline
    pure (archives cmd)

  -- `_retune`: whether WAL archiving is on
  unfoldable pub retune : ℕ → Params → Action Bool
  retune rounds p = do
    now ← clock d
    existing ← find d container_name
    retune_found rounds (settings p) (now + recreate_commit_deadline) existing

-- `bootstrap`, `enable_pitr` and `retune` around these: the non-blocking lock, held or not, and
-- what is left of it.
unfoldable pub with_lock {ℓ} :
    {A : Type ℓ} → Action A → Bool → List Call → Result A × Bool × List Call
with_lock m true log = (err already_running, true, log)
with_lock m false log = let (r, log') = m log in (r, false, log')
