-- ===== src/TenantDb/Readiness.antt =====
-- How long `_wait_ready` polls, and what its return shows.
use relay_agent.Base.{List, String, [], arith, if-rule, leb, suc, zero, ℕ, ◌*◌, ◌+◌, ◌==◌, ◌∷◌, ◌≤◌}
use relay_agent.Docker.{
  Action, Call, Daemon, Done, clock, exec, monotonic, not_ready, perform, sleep, ◌>>=◌,
}
use relay_agent.Docker.Ends.{Ends, Ends-bind, Ends-if, raises, returns}
use relay_agent.Docker.Extends.{Makes-clock, Makes-perform}
use relay_agent.Docker.Probed.{Answered, AnyCall, Ends-stays, exec-Answered}
use relay_agent.Docker.Rounds.{HasRounds, other-HasRounds, probe-HasRounds, too_early}
use relay_agent.TenantDb.Ensure.{poll, wait_ready}

abbrev pub is_ready_command : String → List String
is_ready_command pg_user = "pg_isready" ∷ "-h" ∷ "127.0.0.1" ∷ "-U" ∷ pg_user ∷ []

module _ (d : Daemon) where
  module _ (I : List Call → Type 0) (stays : (c : Call) (l : List Call) → I l → I (c ∷ l)) where
    poll-Answered :
        (rounds h : ℕ) (pg_user : String) (deadline : ℕ) (l : List Call)
        → I l
        → Ends
            (λ _ l'. Answered d I (is_ready_command pg_user) h l')
            (λ _. Unit)
            (poll d rounds h pg_user deadline l)
    unfolding poll
    poll-Answered zero h pg_user deadline l i = raises tt
    poll-Answered (suc rounds) h pg_user deadline l i =
        Ends-bind (clock d) _ l (Ends-stays I stays {P = AnyCall} l (Makes-clock d tt) i)
          λ now l1 i1.
            Ends-if (leb deadline now) _ _ l1 (λ _. raises tt)
              λ _. Ends-bind (exec d h _) _ l1 (exec-Answered I stays d h _ l1 i1) λ code l2 answer.
                Ends-if (code == 0) _ _ l2 (λ zero_code. returns (answer.0 (ground arith)))
                  λ _.
                    Ends-bind (perform d sleep) _ l2
                      (Ends-stays I stays {P = AnyCall} l2 (Makes-perform d sleep tt) answer.1)
                      λ _ l3 i3. poll-Answered rounds h pg_user deadline l3 i3

    pub wait_ready-Answered :
        (rounds h : ℕ) (pg_user : String) (l : List Call)
        → I l
        → Ends
            (λ _ l'. Answered d I (is_ready_command pg_user) h l')
            (λ _. Unit)
            (wait_ready d rounds h pg_user l)
    unfolding wait_ready
    wait_ready-Answered rounds h pg_user l i =
        Ends-bind (clock d) _ l (Ends-stays I stays {P = AnyCall} l (Makes-clock d tt) i)
          λ begin l1 i1. poll-Answered rounds h pg_user _ l1 i1

  module _ (steady : (l : List Call) (c : Call) → d.now l ≤ d.now (c ∷ l))
      (sleeps : (l : List Call) → d.now l + 1000 ≤ d.now (sleep ∷ l)) where
    -- Where the clock never goes back and a sleep takes at least a second, one round more than the
    -- seconds up to its deadline are enough for the loop of `_wait_ready`: it returns, or raises an
    -- error of the code, whatever the daemon answers.
    pub poll-HasRounds :
        (rounds h : ℕ) (pg_user : String) (deadline : ℕ) (l : List Call)
        → deadline ≤ d.now l + 1000 * rounds
        → HasRounds (poll d (suc rounds) h pg_user deadline l)
    unfolding poll ◌>>=◌ clock
    poll-HasRounds zero h pg_user deadline l enough =
        if-rule {A = Action Done} (λ m. HasRounds (m (monotonic ∷ l))) (leb deadline (d.now l))
          (λ _. other-HasRounds not_ready (monotonic ∷ l) (λ q. ground arith))
          λ early. absurd (too_early deadline (d.now l) early (omega arith))
    poll-HasRounds (suc rounds) h pg_user deadline l enough =
        if-rule {A = Action Done} (λ m. HasRounds (m (monotonic ∷ l))) (leb deadline (d.now l))
          (λ _. other-HasRounds not_ready (monotonic ∷ l) (λ q. ground arith))
          λ early.
            probe-HasRounds d steady sleeps (poll d (suc rounds) h pg_user deadline) (d.now l)
              (λ l' t. poll-HasRounds rounds h pg_user deadline l' (omega arith)) h
              ("pg_isready" ∷ "-h" ∷ "127.0.0.1" ∷ "-U" ∷ pg_user ∷ []) (monotonic ∷ l)
              (steady l monotonic)
