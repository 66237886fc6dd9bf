-- ===== src/Postgres/Rollback.antt =====
-- `_recreate_with_rollback` gives the old container up only for a replacement that has answered
-- in time, and otherwise puts it back.
use relay_agent.Base.{
  Bool, Bool-cases, List, String, Text, arith, false, inl, inr, leb, refl, same, some, str_eq, true,
  ℕ, ◌∙◌, ◌∷◌, ◌≡◌, ◌≢◌, ◌⊎◌,
}
use relay_agent.Docker.{
  Action, Call, Daemon, Done, Result, catch, clock, docker_error, perform, raise, remove, rename,
  start, stop, suppress, when, ◌>>=◌, ◌>>◌,
}
use relay_agent.Docker.Aside.{Extends-Spares, Leaves, Spares, is_aside, is_aside-Extends}
use relay_agent.Docker.Ends.{Ends, Ends-bind, Ends-if, Makes-Ends, raises, returns}
use relay_agent.Docker.Extends.{
  Extends, Extends-trans, Makes-clock, Makes-perform, Makes-when, after, unchanged,
}
use relay_agent.Postgres.Actions.{
  Settings, container_name, recreate_with_rollback, replace_or_undo, settle,
}
use relay_agent.Postgres.Aside.{replace-Leaves}
use relay_agent.Postgres.Readiness.{IsReady, replace-IsReady}
use relay_agent.Postgres.Undo.{Restored, undo-Restored, undo-Spares}

module _ (d : Daemon) (data_root : Text) (rollback_name : ℕ → String) where
  module _ (h : ℕ) (was_running : Bool) where
    -- How the renaming out of the way ends.
    step_aside : Action Done
    step_aside =
        catch (perform d (rename h (rollback_name h)))
          (λ e. when was_running (suppress (perform d (start h))) >> raise e)

    abbrev TookAside : List Call → List Call → Type 0
    TookAside log l = Extends (Spares h) log l × (is_aside d container_name h l ≡ true)

    abbrev NotAside : List Call → List Call → Type 0
    NotAside log l =
        Extends (Spares h) log l × (is_aside d container_name h l ≡ is_aside d container_name h log)

    step_aside-Ends :
        (log : List Call)
        → str_eq (rollback_name h) container_name ≡ false
        → Ends (λ _ l. TookAside log l) (λ l. NotAside log l) (step_aside log)
    unfolding step_aside catch perform ◌>>=◌ when suppress is_aside
    step_aside-Ends log named_otherwise =
        elim (Bool-cases (d.succeeds log (rename h (rollback_name h)))) [
          | inl took ↦ rw took (returns (after tt unchanged, took_name took))
          | inr failed ↦ rw failed (go was_running (kept_name failed))
        ]
      where
        took_name :
            d.succeeds log (rename h (rollback_name h)) ≡ true
            → is_aside d container_name h (rename h (rollback_name h) ∷ log) ≡ true
        took_name took = ground arith

        kept_name :
            d.succeeds log (rename h (rollback_name h)) ≡ false
            → is_aside d container_name h (rename h (rollback_name h) ∷ log)
              ≡ is_aside d container_name h log
        kept_name failed = ground arith

        go :
            (w : Bool)
            → is_aside d container_name h (rename h (rollback_name h) ∷ log)
              ≡ is_aside d container_name h log
            → Ends
                (λ _ l. TookAside log l)
                (λ l. NotAside log l)
                ((when w (suppress (perform d (start h))) >> raise {A = Done} docker_error)
                  (rename h (rollback_name h) ∷ log))
        go false kept = raises (after tt unchanged, kept)
        go true kept = elim (Bool-cases (d.succeeds (rename h (rollback_name h) ∷ log) (start h))) [
          | inl done ↦ rw done (raises (after tt (after tt unchanged), kept))
          | inr undone ↦ rw undone (raises (after tt (after tt unchanged), kept))
        ]

    -- How the second `try` statement ends.
    abbrev pub Committed : Settings → Bool → ℕ → List Call → List Call → Type 0
    Committed s wal_archiving deadline log l =
        (ready begin : List Call) × (l ≡ remove h false ∷ ready)
        × IsReady d data_root rollback_name s wal_archiving deadline begin ready
        × Extends (Spares h) log begin
        × (is_aside d container_name h begin ≡ true)
        × Extends (Leaves h) begin ready

    abbrev pub Kept : List Call → List Call → Type 0
    Kept log l =
        Extends (Spares h) log l
        × (Restored d h was_running l
            ⊎ (is_aside d container_name h l ≡ is_aside d container_name h log))

    module _
        (hidden : (l : List Call)
          → is_aside d container_name h l ≡ true
          → d.finds l container_name ≢ some h) where
      undone :
          {s : Settings} {wal_archiving : Bool} {deadline : ℕ} (log : List Call)
          {p : Result Done × List Call}
          → Extends (Spares h) log p.1
          → Ends (λ _ _. ⊥) (Restored d h was_running) p
          → Ends (λ _ l. Committed s wal_archiving deadline log l) (λ l. Kept log l) p
      undone log spared (returns never) = absurd never
      undone log spared (raises restored) = raises (spared, inl restored)

      settle-Ends :
          {s : Settings} {wal_archiving : Bool} {deadline : ℕ} (log l : List Call)
          {p : Result Done × List Call}
          → Extends (Spares h) log l
          → is_aside d container_name h l ≡ true
          → Ends
              (λ _ l'. IsReady d data_root rollback_name s wal_archiving deadline l l')
              (λ _. Unit)
              p
          → Extends (Leaves h) l p.1
          → Ends
              (λ _ l'. Committed s wal_archiving deadline log l')
              (λ l'. Kept log l')
              (settle d data_root rollback_name h was_running p.0 p.1)
      unfolding suppress catch perform
      settle-Ends log l spared aside (returns {l = l'} ready) left =
          elim (Bool-cases (d.succeeds l' (remove h false))) [
            | inl gone ↦ rw gone (returns (l', l, refl, ready, spared, aside, left))
            | inr failed ↦ rw failed (returns (l', l, refl, ready, spared, aside, left))
          ]
      settle-Ends log l spared aside (raises {e} {l = l'} _) left =
          undone log
            (Extends-trans spared (
              Extends-trans (Extends-Spares h left) (
                undo-Spares d data_root rollback_name h was_running e l'
                  (hidden l' (is_aside-Extends d container_name h left ∙ aside)))))
            (undo-Restored d data_root rollback_name h was_running e l')

      replace_or_undo-Ends :
          (rounds : ℕ) (s : Settings) (wal_archiving : Bool) (deadline : ℕ) (log l : List Call)
          → TookAside log l
          → Ends
              (λ _ l'. Committed s wal_archiving deadline log l')
              (λ l'. Kept log l')
              (replace_or_undo d data_root rollback_name rounds h was_running s wal_archiving
                deadline l)
      unfolding replace_or_undo
      replace_or_undo-Ends rounds s wal_archiving deadline log l (spared, aside) =
          settle-Ends log l spared aside
            (replace-IsReady d data_root rollback_name rounds s wal_archiving deadline l)
            ((replace-Leaves d data_root rollback_name h rounds s wal_archiving deadline).at l)

      -- For a daemon that never finds the old container under the server's name once it has been
      -- renamed to another, whatever else it answers and wherever calls fail: if the recreation
      -- succeeds, its last call asks to remove the old container, which stands aside; just before, but
      -- for two readings of the clock, the container that the daemon gave for the new settings, after
      -- the old one was aside, had answered `pg_isready`, and more than 65 s were left to the
      -- deadline. If it fails, no call has removed the old container, and either it is renamed aside
      -- only if it was so before, or the last calls renamed it back and started it again if it had
      -- been running, or that renaming was refused.
      pub recreate_with_rollback-Ends :
          (rounds : ℕ) (s : Settings) (wal_archiving : Bool) (deadline : ℕ) (log : List Call)
          → str_eq (rollback_name h) container_name ≡ false
          → Ends
              (λ _ l. Committed s wal_archiving deadline log l)
              (λ l. Kept log l)
              (recreate_with_rollback d data_root rollback_name rounds h was_running s wal_archiving
                deadline log)
      unfolding recreate_with_rollback step_aside
      recreate_with_rollback-Ends rounds s wal_archiving deadline log named_otherwise =
          Ends-bind {Q = λ _ l. Extends (Leaves h) log l} (clock d) _ log
            (widen (Makes-Ends log (Makes-clock d tt)))
            λ now l1 e1.
              Ends-if (leb deadline now) _ _ l1 (λ _. raises (not_renamed e1))
                λ _.
                  Ends-bind {Q = λ _ l. Extends (Leaves h) log l}
                    (when was_running (perform d (stop h))) _ l1
                    (from e1
                      (Makes-Ends l1 (Makes-when was_running _ (Makes-perform d (stop h) tt))))
                    λ _ l2 e2.
                      Ends-bind {Q = λ _ l. TookAside log l} (step_aside) _ l2
                        (onwards e2 (step_aside-Ends l2 named_otherwise))
                        λ _ l3 took.
                          replace_or_undo-Ends rounds s wal_archiving deadline log l3 took
        where
          not_renamed : {l : List Call} → Extends (Leaves h) log l → Kept log l
          not_renamed e = (Extends-Spares h e, inr (is_aside-Extends d container_name h e))

          widen :
              {A : Type 0} {p : Result A × List Call}
              → Ends (λ _ l. Extends (Leaves h) log l) (λ l. Extends (Leaves h) log l) p
              → Ends (λ _ l. Extends (Leaves h) log l) (λ l. Kept log l) p
          widen (returns e) = returns e
          widen (raises e) = raises (not_renamed e)

          from :
              {l : List Call} {p : Result Done × List Call}
              → Extends (Leaves h) log l
              → Ends (λ _ l'. Extends (Leaves h) l l') (λ l'. Extends (Leaves h) l l') p
              → Ends (λ _ l'. Extends (Leaves h) log l') (λ l'. Kept log l') p
          from e (returns f) = returns (Extends-trans e f)
          from e (raises f) = raises (not_renamed (Extends-trans e f))

          onwards :
              {l : List Call} {p : Result Done × List Call}
              → Extends (Leaves h) log l
              → Ends (λ _ l'. TookAside l l') (λ l'. NotAside l l') p
              → Ends (λ _ l'. TookAside log l') (λ l'. Kept log l') p
          onwards e (returns (f, aside)) = returns (Extends-trans (Extends-Spares h e) f, aside)
          onwards e (raises (f, same)) = raises (
            Extends-trans (Extends-Spares h e) f,
            inr (same ∙ is_aside-Extends d container_name h e),
          )
