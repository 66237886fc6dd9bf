-- ===== src/Instance/Probe.antt =====
-- `_discover_image_addon_paths` never fails, and leaves no container of its own behind.
use relay_agent.Base.{
  Bool-cases, List, String, Text, [], false, inl, inr, refl, true, ℕ, ◌==◌, ◌∷◌, ◌≡◌, ◌⊎◌,
}
use relay_agent.Docker.{
  Call, Daemon, Result, Spec, catch, create, err, handle, logs, ok, pure, remove, start, suppress,
  wait, ◌>>=◌,
}
use relay_agent.Docker.Ends.{Ends, raises, returns}
use relay_agent.Docker.Extends.{
  Extends, Makes, Makes-bind, Makes-catch, Makes-if, Makes-pure, after, unchanged,
}
use relay_agent.Docker.Objects.{ask, create_container, ending, finally}
use relay_agent.Docker.Objects.Rules.{Makes-ask}
use relay_agent.Instance.Discovered.{Runtime}
use relay_agent.Instance.Provision.{discover, read_lines, read_probe, wait_for}
use relay_agent.Instance.Specs.{probe_spec}

-- Calls of which every created container is asked to go again, before another is created
pub data Tidy (d : Daemon) (log : List Call) : List Call → Type 0 where
  nothing_created : {s : Spec} → d.succeeds log (create s) ≡ false → Tidy d log (create s ∷ log)
  told_to_go :
      {s : Spec} {h : ℕ} {l : List Call}
      → d.started_as log s ≡ h
      → Extends (λ c. (c ≡ start h) ⊎ ((c ≡ wait h) ⊎ (c ≡ logs h))) (create s ∷ log) l
      → Tidy d log (remove h true ∷ l)

module _ (d : Daemon) (runtime : Runtime) where
  abbrev Uses : ℕ → Call → Type 0
  Uses h c = (c ≡ start h) ⊎ ((c ≡ wait h) ⊎ (c ≡ logs h))

  read_probe-Uses : (h : ℕ) → Makes (Uses h) (read_probe d runtime h)
  unfolding read_probe wait_for read_lines
  read_probe-Uses h = Makes-bind _ _ (Makes-ask d (start h) (inl refl)) λ _.
      Makes-bind _ _ (record { at = λ log. after (inr (inl refl)) unchanged })
        λ code.
          Makes-if (code == 0) _ _ (record { at = λ log. after (inr (inr refl)) unchanged })
            (Makes-pure [])

  tidied :
      (h : ℕ) (image : String) (log : List Call) {p : Result (List Text) × List Call}
      → d.started_as log (probe_spec image) ≡ h
      → Extends (Uses h) (create (probe_spec image) ∷ log) p.1
      → Ends (λ _ _. Unit) (λ _. ⊥) p
      → Ends (λ _ l. Tidy d log l) (λ _. ⊥) (ending p.0 (suppress (ask d (remove h true)) p.1))
  unfolding suppress catch ask
  tidied h image log same_h used (returns {l} _) =
      elim (Bool-cases (d.succeeds l (remove h true))) [
        | inl gone ↦ rw gone (returns (told_to_go same_h used))
        | inr left ↦ rw left (returns (told_to_go same_h used))
      ]
  tidied h image log same_h used (raises never) = absurd never

  caught :
      {A : Type 0} (a : A) (p : Result A × List Call)
      → Ends (λ _ _. Unit) (λ _. ⊥) (handle (λ _. pure a) p.0 p.1)
  caught a (ok x, l) = returns tt
  caught a (err e, l) = returns tt

  passed_on :
      {A : Type 0} (a : A) {Q : A → List Call → Type 0} {p : Result A × List Call}
      → Ends Q (λ _. ⊥) p
      → Ends Q (λ _. ⊥) (handle (λ _. pure a) p.0 p.1)
  passed_on a (returns q) = returns q
  passed_on a (raises never) = absurd never

  -- Whatever the daemon answers and wherever it fails, the discovery of an image's addons returns,
  -- and either it has created no container, or its last call asks for the removal of the one that
  -- it has created, after nothing but starting it, waiting for it and reading its output.
  pub discover-Tidy :
      (image : String) (log : List Call)
      → Ends (λ _ l. Tidy d log l) (λ _. ⊥) (discover d runtime image log)
  unfolding discover ◌>>=◌ create_container catch finally
  discover-Tidy image log = elim (Bool-cases (d.succeeds log (create (probe_spec image)))) [
    | inr denied ↦ rw denied (returns (nothing_created denied))
    | inl done ↦ rw done (
        passed_on [] (
          tidied (d.started_as log (probe_spec image)) image log refl
            ((Makes-catch _ _ (read_probe-Uses _) (λ _. Makes-pure [])).at _)
            (caught [] (
              read_probe d runtime (d.started_as log (probe_spec image))
                (create (probe_spec image) ∷ log)))))
  ]
