-- ===== src/Postgres/Undo.antt =====
-- The `except` branch of `_recreate_with_rollback`.
use relay_agent.Base.{
  Bool, Bool-cases, List, Option, String, Text, ap, false, inl, inr, none, some, true, ℕ, ◌∷◌, ◌≡◌,
  ◌≢◌,
}
use relay_agent.Docker.{
  Action, Call, Daemon, Done, Error, catch, find, get_container, perform, raise, remove, rename,
  start, suppress, when, ◌>>=◌, ◌>>◌,
}
use relay_agent.Docker.Aside.{Spares}
use relay_agent.Docker.Ends.{Ends, Ends-bind, raises, returns}
use relay_agent.Docker.Extends.{
  Extends, Extends-trans, Makes, Makes-bind, Makes-perform, Makes-suppress, after, makes_rules,
  unchanged,
}
use relay_agent.Postgres.Actions.{container_name, discard_partial, undo}

-- How an attempt to bring the old container back ends: under its name, and started if it was
-- running before; or with a renaming that the daemon refused.
pub data Restored (d : Daemon) (h : ℕ) : Bool → List Call → Type 0 where
  renamed_back :
      {l : List Call}
      → d.succeeds l (rename h container_name) ≡ true
      → Restored d h false (rename h container_name ∷ l)
  restarted_too :
      {l : List Call}
      → d.succeeds l (rename h container_name) ≡ true
      → Restored d h true (start h ∷ rename h container_name ∷ l)
  refused :
      {was_running : Bool} {l : List Call}
      → d.succeeds l (rename h container_name) ≡ false
      → Restored d h was_running (rename h container_name ∷ l)

module _ (d : Daemon) (data_root : Text) (rollback_name : ℕ → String) where
  -- The old container is renamed back, whatever became of the partial replacement.
  bring_back : ℕ → Bool → Error → Action Done
  bring_back h was_running e = do
    perform d (rename h container_name)
    when was_running (perform d (start h))
    raise e

  bring_back-Restored :
      (h : ℕ) (was_running : Bool) (e : Error) (l : List Call)
      → Ends (λ _ _. ⊥) (Restored d h was_running) (bring_back h was_running e l)
  unfolding bring_back ◌>>=◌ perform when
  bring_back-Restored h was_running e l =
      elim (Bool-cases (d.succeeds l (rename h container_name))) [
        | inr no_rename ↦ rw no_rename (raises (refused no_rename))
        | inl renamed ↦ rw renamed (again was_running renamed)
      ]
    where
      again :
          (w : Bool)
          → d.succeeds l (rename h container_name) ≡ true
          → Ends
              (λ _ _. ⊥)
              (Restored d h w)
              ((when w (perform d (start h)) >> raise {A = Done} e) (rename h container_name ∷ l))
      again false renamed = raises (renamed_back renamed)
      again true renamed = elim (Bool-cases (d.succeeds (rename h container_name ∷ l) (start h))) [
        | inl done ↦ rw done (raises (restarted_too renamed))
        | inr failed ↦ rw failed (raises (restarted_too renamed))
      ]

  discard_partial-Ends :
      (E : List Call → Type 0) (partial : Option ℕ) (l : List Call)
      → Ends (λ _ _. Unit) E (discard_partial d data_root rollback_name partial l)
  unfolding suppress catch perform
  discard_partial-Ends E none l = returns tt
  discard_partial-Ends E (some p) l = elim (Bool-cases (d.succeeds l (remove p true))) [
    | inl gone ↦ rw gone (returns tt)
    | inr failed ↦ rw failed (returns tt)
  ]

  pub undo-Restored :
      (h : ℕ) (was_running : Bool) (e : Error) (l : List Call)
      → Ends
          (λ _ _. ⊥)
          (Restored d h was_running)
          (undo d data_root rollback_name h was_running e l)
  unfolding undo find bring_back
  undo-Restored h was_running e l =
      Ends-bind {Q = λ _ _. Unit} (find d container_name) _ l (returns tt) λ partial l' _.
        Ends-bind {Q = λ _ _. Unit} (discard_partial d data_root rollback_name partial) _ l'
          (discard_partial-Ends _ partial l') λ _ l'' _. bring_back-Restored h was_running e l''

  undo_rest-Spares :
      (h : ℕ) (was_running : Bool) (e : Error) (partial : Option ℕ)
      → partial ≢ some h
      → Makes
          (Spares h)
          (discard_partial d data_root rollback_name partial >> bring_back h was_running e)
  unfolding bring_back
  undo_rest-Spares h was_running e none ne = search makes_rules depth 12
  undo_rest-Spares h was_running e (some p) ne =
      Makes-bind _ _ (Makes-suppress _ (Makes-perform d (remove p true) (λ eq. ne (ap some eq))))
        λ _. search makes_rules depth 12

  pub undo-Spares :
      (h : ℕ) (was_running : Bool) (e : Error) (l : List Call)
      → d.finds l container_name ≢ some h
      → Extends (Spares h) l (undo d data_root rollback_name h was_running e l).1
  unfolding undo ◌>>=◌ find bring_back
  undo-Spares h was_running e l hidden =
      Extends-trans (after {c = get_container container_name} tt unchanged) (
        (undo_rest-Spares h was_running e (d.finds l container_name) hidden).at
          (get_container container_name ∷ l))
