-- ===== src/Postgres/Readiness.antt =====
-- `_wait_ready_before` and what surrounds it: a replacement counts as ready only after an answer.
use relay_agent.Base.{
  Bool, Bool-cases, List, String, Text, [], ap, arith, false, inl, inr, leb, ltb, refl, subst, suc,
  zero, ℕ, ◌+◌, ◌<◌, ◌==◌, ◌∙◌, ◌∷◌, ◌≡◌,
}
use relay_agent.Docker.{
  Action, Call, Daemon, Done, Spec, clock, exec, exec_run, monotonic, perform, reload_status, run,
  run_container_spec, sleep, ◌>>=◌,
}
use relay_agent.Docker.Ends.{Ends, Ends-bind, Ends-if, raises, returns}
use relay_agent.Docker.Extends.{
  Extends, Makes, Makes-clock, Makes-perform, Makes-reload_status, Makes-suppress, Makes-when,
  after, makes_rules, unchanged,
}
use relay_agent.Docker.Probed.{Answered, AnyCall, Ends-stays, exec-Answered}
use relay_agent.Postgres.Actions.{
  Settings, ensure_network, has_stopped, poll_ready, recreate_finalize_reserve, replace,
  run_container, spec_of, wait_ready, wait_ready_before,
}

abbrev pub is_ready_command : String → List String
is_ready_command pg_user = "pg_isready" ∷ "-U" ∷ pg_user ∷ []

-- A container that the daemon gave for `run spec`, after the calls of `log`
pub data Started (d : Daemon) (spec : Spec) (g : ℕ) (log : List Call) : List Call → Type 0 where
  just_now :
      {l : List Call}
      → Extends AnyCall log l
      → d.started_as l spec ≡ g
      → Started d spec g log (run spec ∷ l)
  earlier_on : {c : Call} {l : List Call} → Started d spec g log l → Started d spec g log (c ∷ l)

abbrev ReadAt : Daemon → (List Call → Type 0) → List String → ℕ → List Call → Type 0
ReadAt d I cmd g l = (before : List Call) × (l ≡ monotonic ∷ before) × Answered d I cmd g before

module _ (d : Daemon) (data_root : Text) (rollback_name : ℕ → String) where
  module _ (I : List Call → Type 0) (stays : (c : Call) (l : List Call) → I l → I (c ∷ l)) where
    poll_ready-Answered :
        (rounds g : ℕ) (pg_user : String) (deadline : ℕ) (l : List Call)
        → I l
        → Ends
            (λ _ l'. Answered d I (is_ready_command pg_user) g l')
            (λ _. Unit)
            (poll_ready d data_root rollback_name rounds g pg_user deadline l)
    unfolding poll_ready
    poll_ready-Answered zero g pg_user deadline l i = raises tt
    poll_ready-Answered (suc rounds) g pg_user deadline l i =
        Ends-bind (clock d) _ l (Ends-stays I stays {P = AnyCall} l (Makes-clock d tt) i)
          λ now l1 i1.
            Ends-if (leb deadline now) _ _ l1 (λ _. raises tt)
              λ _.
                Ends-bind (reload_status d g) _ l1
                  (Ends-stays I stays {P = AnyCall} l1 (Makes-reload_status d g tt) i1)
                  λ status l2 i2.
                    Ends-if (has_stopped status) _ _ l2 (λ _. raises tt)
                      λ _.
                        Ends-bind (exec d g _) _ l2 (exec-Answered I stays d g _ l2 i2)
                          λ code l3 answer.
                            Ends-if (code == 0) _ _ l3
                              (λ zero_code. returns (answer.0 (ground arith)))
                              λ _.
                                Ends-bind (perform d sleep) _ l3
                                  (Ends-stays I stays {P = AnyCall} l3 (Makes-perform d sleep tt)
                                    answer.1)
                                  λ _ l4 i4. poll_ready-Answered rounds g pg_user deadline l4 i4

    wait_ready_before-Answered :
        (rounds g : ℕ) (pg_user : String) (deadline : ℕ) (l : List Call)
        → I l
        → Ends
            (λ _ l'. ReadAt d I (is_ready_command pg_user) g l')
            (λ _. Unit)
            (wait_ready_before d data_root rollback_name rounds g pg_user deadline l)
    unfolding wait_ready_before wait_ready clock
    wait_ready_before-Answered rounds g pg_user deadline l i =
        Ends-bind {Q = λ _ l1. I l1} (clock d) _ l (returns (stays _ _ i)) λ now l1 i1.
          Ends-if (leb deadline now) _ _ l1 (λ _. raises tt)
            λ _.
              Ends-bind _ _ l1
                (Ends-bind {Q = λ _ l2. I l2} (clock d) _ l1 (returns (stays _ _ i1))
                  λ begin l2 i2. poll_ready-Answered rounds g pg_user _ l2 i2)
                λ _ l3 answer.
                  Ends-bind {Q = λ _ l4. ReadAt d I (is_ready_command pg_user) g l4} (clock d) _ l3
                    (returns (l3, refl, answer))
                    λ now' l4 read.
                      Ends-if (ltb deadline now') _ _ l4 (λ _. raises tt) (λ _. returns read)

  -- A replacement, started by these calls, that has answered `pg_isready` in the last call but for
  -- two readings of the clock, with time left to commit
  pub record IsReady (s : Settings) (wal_archiving : Bool) (deadline : ℕ) (log l : List Call)
      : Type 0 where
    pub replacement : ℕ
    pub earlier : List Call
    pub answer : List Call
    pub clock_last : l ≡ monotonic ∷ monotonic ∷ answer
    pub last_answer : answer ≡ exec_run replacement (is_ready_command s.pg_user) ∷ earlier
    pub zero_code : d.exit_code earlier replacement ≡ 0
    pub started_here : Started d (spec_of data_root s wal_archiving) replacement log earlier
    pub margin : d.now (monotonic ∷ answer) + recreate_finalize_reserve < deadline

  ensure_network-Makes :
      (network : String) → Makes AnyCall (ensure_network d data_root rollback_name network)
  unfolding ensure_network
  ensure_network-Makes network = search (makes_rules, tt) depth 6

  run_container-Started :
      (s : Settings) (wal_archiving : Bool) (log : List Call)
      → Ends
          (λ g l. Started d (spec_of data_root s wal_archiving) g log l)
          (λ _. Unit)
          (run_container d data_root rollback_name s wal_archiving log)
  unfolding run_container run_container_spec
  run_container-Started s wal_archiving log = step _ (Makes-perform d _ tt) unchanged λ _ l1 e1.
      step _ (Makes-perform d _ tt) e1 λ _ l2 e2.
        step _ (Makes-when wal_archiving _ (Makes-perform d _ tt)) e2 λ _ l3 e3.
          step _ (ensure_network-Makes s.network) e3
            λ _ l4 e4. step _ (Makes-suppress _ (Makes-perform d _ tt)) e4 λ _ l5 e5. started l5 e5
    where
      step :
          {m : Action Done} {l : List Call} (f : Done → Action ℕ)
          → Makes AnyCall m
          → Extends AnyCall log l
          → ((a : Done) (l' : List Call)
              → Extends AnyCall log l'
              → Ends
                  (λ g l''. Started d (spec_of data_root s wal_archiving) g log l'')
                  (λ _. Unit)
                  (f a l'))
          → Ends
              (λ g l'. Started d (spec_of data_root s wal_archiving) g log l')
              (λ _. Unit)
              ((m >>= f) l)
      step {m} {l} f h e k =
          Ends-bind m f l
            (Ends-stays (Extends AnyCall log) (λ c l' x. after tt x) {P = AnyCall} l h e) k

      started :
          (l : List Call)
          → Extends AnyCall log l
          → Ends
              (λ g l'. Started d (spec_of data_root s wal_archiving) g log l')
              (λ _. Unit)
              (run_container_spec d (spec_of data_root s wal_archiving) l)
      started l e = elim (Bool-cases (d.succeeds l (run (spec_of data_root s wal_archiving)))) [
        | inl runs ↦ rw runs (returns (just_now e refl))
        | inr failed ↦ rw failed (raises tt)
      ]

  pub replace-IsReady :
      (rounds : ℕ) (s : Settings) (wal_archiving : Bool) (deadline : ℕ) (l : List Call)
      → Ends
          (λ _ l'. IsReady s wal_archiving deadline l l')
          (λ _. Unit)
          (replace d data_root rollback_name rounds s wal_archiving deadline l)
  unfolding replace clock
  replace-IsReady rounds s wal_archiving deadline l =
      Ends-bind (run_container d data_root rollback_name s wal_archiving) _ l
        (run_container-Started s wal_archiving l)
        λ g l1 started.
          Ends-bind _ _ l1
            (wait_ready_before-Answered (Started d (spec_of data_root s wal_archiving) g l)
              (λ _ _. earlier_on) rounds g s.pg_user deadline l1 started)
            λ _ l2 ready.
              Ends-bind {Q = λ now l3. (now ≡ d.now l2) × (l3 ≡ monotonic ∷ l2)} (clock d) _ l2
                (returns (refl, refl))
                λ now l3 read.
                  Ends-if (leb deadline (now + recreate_finalize_reserve)) _ _ l3 (λ _. raises tt)
                    λ margin. returns (finished l2 now l3 ready read margin)
    where
      finished :
          {g : ℕ} (l2 : List Call) (now : ℕ) (l3 : List Call)
          → ReadAt d
              (Started d (spec_of data_root s wal_archiving) g l)
              (is_ready_command s.pg_user)
              g
              l2
          → (now ≡ d.now l2) × (l3 ≡ monotonic ∷ l2)
          → leb deadline (now + recreate_finalize_reserve) ≡ false
          → IsReady s wal_archiving deadline l l3
      finished {g} l2 now l3 (before, e, answered) (at, read) margin = record {
        replacement = g;
        earlier = answered.earlier;
        answer = before;
        clock_last = read ∙ ap (λ t. monotonic ∷ t) e;
        last_answer = answered.last;
        zero_code = answered.zero_code;
        started_here = answered.holds_earlier;
        margin = subst (λ t. d.now t + recreate_finalize_reserve < deadline) e (ground arith);
      }
