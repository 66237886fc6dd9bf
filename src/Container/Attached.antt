-- ===== src/Container/Attached.antt =====
-- A container that has to join networks: it starts only after it has joined them all, or it is
-- taken down again.
use relay_agent.Base.{All, Bool-cases, List, String, [], false, inl, inr, refl, true, ℕ, ◌∷◌, ◌≡◌}
use relay_agent.Container.Run.{attach, attach_and_start, start_attached}
use relay_agent.Docker.{
  Call, Daemon, Done, Result, Spec, catch, connect, create, get_network, handle, raise, remove,
  start, ◌>>=◌, ◌>>◌,
}
use relay_agent.Docker.Ends.{Ends, Ends-any, Ends-bind, raises, returns}
use relay_agent.Docker.Extends.{Extends, Makes, Makes-bind, Makes-pure, after, unchanged}
use relay_agent.Docker.Objects.{ask, create_container}
use relay_agent.Docker.Objects.Rules.{Makes-ask}

-- A call that has been made, and succeeded
pub data Made (d : Daemon) (c : Call) : List Call → Type 0 where
  now_made : {l : List Call} → d.succeeds l c ≡ true → Made d c (c ∷ l)
  made_before : {b : Call} {l : List Call} → Made d c l → Made d c (b ∷ l)

-- What a failed launch leaves: no container was created, or the one created was told to go.
pub data TakenDown (d : Daemon) (spec : Spec) : List Call → Type 0 where
  not_created :
      {l : List Call} → d.succeeds l (create spec) ≡ false → TakenDown d spec (create spec ∷ l)
  removed :
      {l before : List Call} {h : ℕ}
      → d.started_as before spec ≡ h
      → TakenDown d spec (remove h true ∷ l)

module _ (d : Daemon) where
  Made-Extends :
      {P : Call → Type 0} {c : Call} {log l : List Call}
      → Extends P log l
      → Made d c log
      → Made d c l
  Made-Extends unchanged m = m
  Made-Extends (after p e) m = made_before (Made-Extends e m)

  ask-Made : (c : Call) (l : List Call) → Ends (λ _ l'. Made d c l') (λ _. Unit) (ask d c l)
  unfolding ask
  ask-Made c l = elim (Bool-cases (d.succeeds l c)) [
    | inl done ↦ rw done (returns (now_made done))
    | inr denied ↦ rw denied (raises tt)
  ]

  abbrev pub Joined : List String → ℕ → List Call → Type 0
  Joined networks h l = All (λ n. Made d (connect n h) l) networks

  ask_last :
      (c : Call) (R : List Call → Type 0) (l : List Call)
      → R l
      → Ends
          (λ _ l'.
            (before : List Call) × (l' ≡ c ∷ before) × (d.succeeds before c ≡ true) × R before)
          (λ _. Unit)
          (ask d c l)
  unfolding ask
  ask_last c R l r = elim (Bool-cases (d.succeeds l c)) [
    | inl done ↦ rw done (returns (l, refl, done, r))
    | inr denied ↦ rw denied (raises tt)
  ]

  attach-Made : (ns : List String) (h : ℕ) → Makes (λ _. Unit) (attach d ns h)
  unfolding attach
  attach-Made [] h = Makes-pure tt
  attach-Made (n ∷ ns) h =
      Makes-bind _ _ (Makes-ask d _ tt) λ _. Makes-bind _ _ (Makes-ask d _ tt) λ _. attach-Made ns h

  -- The calls so far, and then others
  rest_after :
      {c : Call} (ns : List String) (h : ℕ) {l : List Call} {p : Result Done × List Call}
      → Made d c l
      → Extends (λ _. Unit) l p.1
      → Ends (λ _ l'. Joined ns h l') (λ _. Unit) p
      → Ends (λ _ l'. Made d c l' × Joined ns h l') (λ _. Unit) p
  rest_after ns h m e (returns j) = returns (Made-Extends e m, j)
  rest_after ns h m e (raises t) = raises tt

  attach-Joined :
      (ns : List String) (h : ℕ) (l : List Call)
      → Ends (λ _ l'. Joined ns h l') (λ _. Unit) (attach d ns h l)
  unfolding attach
  attach-Joined [] h l = returns tt
  attach-Joined (n ∷ ns) h l =
      Ends-bind {Q = λ _ _. Unit} (ask d (get_network n)) _ l (Ends-any _) λ _ l1 _.
        Ends-bind _ _ l1 (ask-Made (connect n h) l1)
          λ _ l2 made. rest_after ns h made ((attach-Made ns h).at l2) (attach-Joined ns h l2)

  -- The container was started last, and had joined every network before.
  abbrev pub StartedLast : List String → ℕ → List Call → Type 0
  StartedLast networks h l =
      (before : List Call) × (l ≡ start h ∷ before)
      × (d.succeeds before (start h) ≡ true)
      × Joined networks h before

  attach_and_start-Ends :
      (ns : List String) (h : ℕ) (l : List Call)
      → Ends (λ _ l'. StartedLast ns h l') (λ _. Unit) (attach_and_start d ns h l)
  attach_and_start-Ends ns h l =
      Ends-bind _ _ l (attach-Joined ns h l) λ _ l1 j. ask_last (start h) (Joined ns h) l1 j

  caught :
      (ns : List String) (spec : Spec) (h : ℕ) (log : List Call) {p : Result Done × List Call}
      → d.started_as log spec ≡ h
      → Ends (λ _ l. StartedLast ns h l) (λ _. Unit) p
      → Ends
          (λ _ l. StartedLast ns h l)
          (TakenDown d spec)
          (handle (λ e. ask d (remove h true) >> raise e) p.0 p.1)
  unfolding ◌>>=◌ ask
  caught ns spec h log same_h (returns s) = returns s
  caught ns spec h log same_h (raises {e} {l} _) =
      elim (Bool-cases (d.succeeds l (remove h true))) [
        | inl done ↦ rw done (raises (removed {before = log} same_h))
        | inr denied ↦ rw denied (raises (removed {before = log} same_h))
      ]

  -- `run` with networks to join: where it returns a container, that was started by the last call,
  -- which succeeded, and every network had been joined before. Where it fails, either no container
  -- was created, or the last call asked for the removal of the one that was created.
  pub start_attached-Ends :
      (ns : List String) (spec : Spec) (log : List Call)
      → Ends (λ h l. StartedLast ns h l) (TakenDown d spec) (start_attached d ns spec log)
  unfolding start_attached create_container catch
  start_attached-Ends ns spec log =
      Ends-bind {Q = λ h l. d.started_as log spec ≡ h} (create_container d spec) _ log created
        λ h l same_h.
          Ends-bind {Q = λ _ l'. StartedLast ns h l'} _ _ l
            (caught ns spec h log same_h (attach_and_start-Ends ns h l))
            λ _ l' started. returns started
    where
      created :
          Ends (λ h l. d.started_as log spec ≡ h) (TakenDown d spec) (create_container d spec log)
      created = elim (Bool-cases (d.succeeds log (create spec))) [
        | inl done ↦ rw done (returns refl)
        | inr denied ↦ rw denied (raises (not_created denied))
      ]
