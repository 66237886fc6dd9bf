-- ===== src/Postgres/Aside.antt =====
-- Which of the calls of `agent/commands/postgres.py` may touch the old container.
use relay_agent.Base.{Bool, String, Text, leb, suc, zero, ℕ, ◌==◌}
use relay_agent.Docker.{Daemon, not_ready, out_of_rounds, replacement_stopped, sleep}
use relay_agent.Docker.Aside.{Leaves}
use relay_agent.Docker.Extends.{
  Makes, Makes-bind, Makes-clock, Makes-exec, Makes-if, Makes-perform, Makes-pure, Makes-raise,
  Makes-reload_status, makes_rules,
}
use relay_agent.Postgres.Actions.{
  Settings, ensure_network, has_stopped, poll_ready, replace, run_container, wait_ready,
  wait_ready_before,
}

module _ (d : Daemon) (data_root : Text) (rollback_name : ℕ → String) where
  pub run_container-Leaves :
      (h : ℕ) (s : Settings) (wal_archiving : Bool)
      → Makes (Leaves h) (run_container d data_root rollback_name s wal_archiving)
  unfolding run_container ensure_network
  run_container-Leaves h s wal_archiving = search (makes_rules, tt) depth 12

  pub poll_ready-Leaves :
      (h : ℕ) (rounds g : ℕ) (pg_user : String) (deadline : ℕ)
      → Makes (Leaves h) (poll_ready d data_root rollback_name rounds g pg_user deadline)
  unfolding poll_ready
  poll_ready-Leaves h zero g pg_user deadline = Makes-raise out_of_rounds
  poll_ready-Leaves h (suc rounds) g pg_user deadline = Makes-bind _ _ (Makes-clock d tt) λ now.
      Makes-if (leb deadline now) _ _ (Makes-raise not_ready) (
        Makes-bind _ _ (Makes-reload_status d g tt) λ status.
          Makes-if (has_stopped status) _ _ (Makes-raise replacement_stopped) (
            Makes-bind _ _ (Makes-exec d g _ tt) λ exit_code.
              Makes-if (exit_code == 0) _ _ (Makes-pure tt) (
                Makes-bind _ _ (Makes-perform d sleep tt)
                  λ _. poll_ready-Leaves h rounds g pg_user deadline)))

  pub wait_ready_before-Leaves :
      (h : ℕ) (rounds g : ℕ) (pg_user : String) (deadline : ℕ)
      → Makes (Leaves h) (wait_ready_before d data_root rollback_name rounds g pg_user deadline)
  unfolding wait_ready_before wait_ready
  wait_ready_before-Leaves h rounds g pg_user deadline =
      search (makes_rules, tt, poll_ready-Leaves) depth 12

  pub replace-Leaves :
      (h : ℕ) (rounds : ℕ) (s : Settings) (wal_archiving : Bool) (deadline : ℕ)
      → Makes (Leaves h) (replace d data_root rollback_name rounds s wal_archiving deadline)
  unfolding replace
  replace-Leaves h rounds s wal_archiving deadline =
      search (makes_rules, run_container-Leaves, wait_ready_before-Leaves) depth 12
