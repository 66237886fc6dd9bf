-- ===== src/Postgres/Rounds.antt =====
-- How many rounds the polling loop of `_wait_ready` takes.
use relay_agent.Base.{
  List, String, Text, [], arith, if-rule, if◌then◌else◌, leb, suc, zero, ℕ, ◌*◌, ◌+◌, ◌∷◌, ◌≤◌,
}
use relay_agent.Docker.{
  Action, Call, Daemon, Done, Status, clock, monotonic, not_ready, raise, reload, reload_status,
  replacement_stopped, sleep, ◌>>=◌,
}
use relay_agent.Docker.Rounds.{
  HasRounds, answered-HasRounds, other-HasRounds, probe, probe-HasRounds, too_early,
}
use relay_agent.Postgres.Actions.{has_stopped, poll_ready, wait_ready}

module _ (d : Daemon) (data_root : Text) (rollback_name : ℕ → String) where
  module _ (steady : (l : List Call) (c : Call) → d.now l ≤ d.now (c ∷ l))
      (sleeps : (l : List Call) → d.now l + 1000 ≤ d.now (sleep ∷ l)) where
    module _ (go : Action Done) (start_time : ℕ)
        (later : (l : List Call) → start_time + 1000 ≤ d.now l → HasRounds (go l)) where
      abbrev on_status : ℕ → List String → Status → Action Done
      on_status h cmd status =
          if has_stopped status then raise replacement_stopped else probe d go h cmd

      watch-HasRounds :
          (h : ℕ) (cmd : List String) (l : List Call)
          → start_time ≤ d.now l
          → HasRounds ((do status ← reload_status d h; on_status h cmd status) l)
      unfolding ◌>>=◌ reload_status
      watch-HasRounds h cmd l t =
          answered-HasRounds (on_status h cmd) (d.succeeds l (reload h))
            (d.status_of (reload h ∷ l) h) (reload h ∷ l)
            (if-rule {A = Action Done} (λ m. HasRounds (m (reload h ∷ l)))
              (has_stopped (d.status_of (reload h ∷ l) h))
              (λ _. other-HasRounds replacement_stopped (reload h ∷ l) (λ q. ground arith))
              λ _.
                probe-HasRounds d steady sleeps go start_time later h cmd (reload h ∷ l)
                  (omega (arith, steady l (reload h))))

    poll_ready-HasRounds :
        (rounds h : ℕ) (pg_user : String) (deadline : ℕ) (l : List Call)
        → deadline ≤ d.now l + 1000 * rounds
        → HasRounds (poll_ready d data_root rollback_name (suc rounds) h pg_user deadline l)
    unfolding poll_ready ◌>>=◌ clock
    poll_ready-HasRounds zero h pg_user deadline l enough =
        if-rule {A = Action Done} (λ m. HasRounds (m (monotonic ∷ l))) (leb deadline (d.now l))
          (λ _. other-HasRounds not_ready (monotonic ∷ l) (λ q. ground arith))
          λ early. absurd (too_early deadline (d.now l) early (omega arith))
    poll_ready-HasRounds (suc rounds) h pg_user deadline l enough =
        if-rule {A = Action Done} (λ m. HasRounds (m (monotonic ∷ l))) (leb deadline (d.now l))
          (λ _. other-HasRounds not_ready (monotonic ∷ l) (λ q. ground arith))
          λ early.
            watch-HasRounds (poll_ready d data_root rollback_name (suc rounds) h pg_user deadline)
              (d.now l) (λ l' t. poll_ready-HasRounds rounds h pg_user deadline l' (omega arith)) h
              ("pg_isready" ∷ "-U" ∷ pg_user ∷ []) (monotonic ∷ l) (steady l monotonic)

    -- Where the clock never goes back and a sleep takes a second, one round more than the seconds
    -- of its timeout are enough for `_wait_ready`, whatever the daemon answers: it returns, or it
    -- raises one of the errors of the code.
    pub wait_ready-HasRounds :
        (rounds h : ℕ) (pg_user : String) (timeout : ℕ) (l : List Call)
        → timeout ≤ 1000 * rounds
        → HasRounds (wait_ready d data_root rollback_name (suc rounds) h pg_user timeout l)
    unfolding wait_ready ◌>>=◌ clock
    wait_ready-HasRounds rounds h pg_user timeout l enough =
        poll_ready-HasRounds rounds h pg_user (d.now l + timeout) (monotonic ∷ l)
          (omega (arith, steady l monotonic))
