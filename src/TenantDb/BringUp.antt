-- ===== src/TenantDb/BringUp.antt =====
-- What has come up when the `try` body of `ensure` is done.
use relay_agent.Base.{
  Bool-cases, List, Option, Option-cases, String, [], ap, false, inl, inr, leb, none, not, refl,
  some, suc, true, zero, ℕ, ◌&&◌, ◌==◌, ◌∙◌, ◌∷◌, ◌≡◌, ◌≢◌,
}
use relay_agent.Docker.{
  Action, Call, Daemon, Done, catch, create, exec_root, get_container, not_ready, out_of_rounds,
  pure, reload_status, sleep, ◌>>=◌,
}
use relay_agent.Docker.Aside.{Leaves, is_aside}
use relay_agent.Docker.Ends.{Ends, Ends-bind, Ends-map, Makes-Ends, raises, returns}
use relay_agent.Docker.Extends.{
  Extends, Extends-trans, Makes, Makes-bind, Makes-clock, Makes-exec, Makes-if, Makes-perform,
  Makes-pure, Makes-raise, Makes-reload_status, Makes-when, after, unchanged,
}
use relay_agent.Docker.Objects.{catch_missing, create_container, look_up, refusal}
use relay_agent.Docker.Objects.Rules.{Makes-ask, Makes-create_container, object_rules}
use relay_agent.Docker.Probed.{Answered, AnyCall, Ends-stays}
use relay_agent.TenantDb.Ensure.{
  bring_up, chown_mount, create_missing, create_or_get, fetch_image, poll, spec_of, wait_ready,
}
use relay_agent.TenantDb.Names.{Params, names}
use relay_agent.TenantDb.Readiness.{is_ready_command, wait_ready-Answered}

abbrev pub ChangesOwner : ℕ → Call → Type 0
ChangesOwner g c = (path : String) × (c ≡ exec_root g ("chown" ∷ "postgres:postgres" ∷ path ∷ []))

module _ (d : Daemon) (p : Params) (h : ℕ) where
  poll-Leaves :
      (rounds g : ℕ) (pg_user : String) (deadline : ℕ)
      → Makes (Leaves h) (poll d rounds g pg_user deadline)
  unfolding poll
  poll-Leaves zero g pg_user deadline = Makes-raise out_of_rounds
  poll-Leaves (suc rounds) g pg_user deadline = Makes-bind _ _ (Makes-clock d tt) λ now.
      Makes-if (leb deadline now) _ _ (Makes-raise not_ready) (
        Makes-bind _ _ (Makes-exec d g _ tt) λ exit_code.
          Makes-if (exit_code == 0) _ _ (Makes-pure tt)
            (Makes-bind _ _ (Makes-perform d sleep tt) λ _. poll-Leaves rounds g pg_user deadline))

  chown_mount-Leaves : (g : ℕ) (path : String) → Makes (Leaves h) (chown_mount d g path)
  unfolding chown_mount
  chown_mount-Leaves g path = record {
    at = λ log. (Makes-when (d.has_mount log g path) _ (Makes-ask d (exec_root g _) tt)).at log;
  }

  fetch_image-Leaves : Makes (Leaves h) (fetch_image d p)
  unfolding fetch_image
  fetch_image-Leaves = elim (Bool-cases (p.pull && not p.recreate)) [
    | inl pulls ↦ rw pulls (search (object_rules, tt) depth 8)
    | inr gets ↦ rw gets (search (object_rules, tt) depth 8)
  ]

  create_or_get-Leaves : Makes (Leaves h) (create_or_get d p)
  unfolding create_or_get
  create_or_get-Leaves = Makes-bind _ _ (search (object_rules, tt) depth 8) made
    where
      made : (o : Option ℕ) → Makes (Leaves h) (create_missing d p o)
      made none =
          Makes-bind _ _ fetch_image-Leaves
            (λ _. Makes-bind _ _ (Makes-create_container d _ tt) λ g. Makes-pure (g, true))
      made (some g) = Makes-pure (g, false)

  pub bring_up-Leaves :
      (rounds : ℕ) (pg_user : String) → Makes (Leaves h) (bring_up d rounds p pg_user)
  unfolding bring_up wait_ready
  bring_up-Leaves rounds pg_user =
      search (object_rules, create_or_get-Leaves, poll-Leaves, chown_mount-Leaves) depth 20

  -- A container other than the old one that the daemon found under the tenant's name after the calls
  -- of `log`, or one that it gave then for the tenant's specification
  pub data Provided (log : List Call) (g : ℕ) : List Call → Type 0 where
    found_under_name :
        {l : List Call}
        → Extends (Leaves h) log l
        → d.finds l (names p.slug).container ≡ some g
        → g ≢ h
        → Provided log g (get_container (names p.slug).container ∷ l)
    created_now :
        {l : List Call}
        → Extends (Leaves h) log l
        → d.started_as l (spec_of p) ≡ g
        → Provided log g (create (spec_of p) ∷ l)
    earlier_on : {c : Call} {l : List Call} → Provided log g l → Provided log g (c ∷ l)

  abbrev pub IsUp : String → List Call → List Call → Type 0
  IsUp pg_user log l =
      (g : ℕ) × (probed : List Call) × Extends (ChangesOwner g) probed l
      × Answered d (Provided log g) (is_ready_command pg_user) g probed

  chown_mount-ChangesOwner : (g : ℕ) (path : String) → Makes (ChangesOwner g) (chown_mount d g path)
  unfolding chown_mount
  chown_mount-ChangesOwner g path = record {
    at = λ log.
        (Makes-when (d.has_mount log g path) _ (Makes-ask d (exec_root g _) (path, refl))).at log;
  }

  module _
      (hidden : (l : List Call)
        → is_aside d (names p.slug).container h l ≡ true
        → d.finds l (names p.slug).container ≢ some h) where
    abbrev FoundOr : List Call → Option ℕ → List Call → Type 0
    FoundOr log none l = Extends (Leaves h) log l
    FoundOr log (some g) l = Provided log g l

    find_existing-FoundOr :
        (log : List Call)
        → is_aside d (names p.slug).container h log ≡ true
        → Ends
            (FoundOr log)
            (λ _. Unit)
            (catch_missing
              (do g ← look_up d (names p.slug).container; pure (some g))
              (pure none)
              log)
    unfolding catch_missing catch ◌>>=◌ look_up refusal
    find_existing-FoundOr log aside = elim (Option-cases (d.finds log (names p.slug).container)) [
      | inl nothing ↦ elim (Bool-cases (d.missing log (get_container (names p.slug).container))) [
        | inl gone ↦ rw nothing (rw gone (returns (after tt unchanged)))
        | inr broken ↦ rw nothing (rw broken (raises tt))
      ]
      | inr (g, there) ↦ rw there (
          returns (
            found_under_name unchanged there
              (λ same_one. hidden log aside (there ∙ ap some same_one))))
    ]

    create-Provided :
        (log l : List Call)
        → Extends (Leaves h) log l
        → Ends (λ g l'. Provided log g l') (λ _. Unit) (create_container d (spec_of p) l)
    unfolding create_container
    create-Provided log l e = elim (Bool-cases (d.succeeds l (create (spec_of p)))) [
      | inl made ↦ rw made (returns (created_now e refl))
      | inr failed ↦ rw failed (raises tt)
    ]

    create_missing-Provided :
        (log : List Call) (o : Option ℕ) (l : List Call)
        → FoundOr log o l
        → Ends (λ made l'. Provided log made.0 l') (λ _. Unit) (create_missing d p o l)
    create_missing-Provided log (some g) l there = returns there
    create_missing-Provided log none l e =
        Ends-bind _ _ l
          (Ends-map (λ _ l1 f. Extends-trans e f) (λ _ _. tt) (Makes-Ends l fetch_image-Leaves))
          λ _ l1 e1. Ends-bind _ _ l1 (create-Provided log l1 e1) λ g l2 made. returns made

    create_or_get-Provided :
        (log : List Call)
        → is_aside d (names p.slug).container h log ≡ true
        → Ends (λ made l. Provided log made.0 l) (λ _. Unit) (create_or_get d p log)
    unfolding create_or_get
    create_or_get-Provided log aside =
        Ends-bind _ _ log (find_existing-FoundOr log aside)
          λ o l there. create_missing-Provided log o l there

    pub bring_up-IsUp :
        (rounds : ℕ) (pg_user : String) (log : List Call)
        → is_aside d (names p.slug).container h log ≡ true
        → Ends (λ _ l. IsUp pg_user log l) (λ _. Unit) (bring_up d rounds p pg_user log)
    unfolding bring_up
    bring_up-IsUp rounds pg_user log aside =
        Ends-bind (create_or_get d p) _ log (create_or_get-Provided log aside) λ made l1 i1.
          Ends-bind (reload_status d made.0) _ l1
            (stay made.0 l1 (Makes-reload_status d made.0 tt) i1)
            λ s l2 i2.
              Ends-bind _ _ l2 (stay made.0 l2 (Makes-when _ _ (Makes-ask d _ tt)) i2) λ _ l3 i3.
                Ends-bind _ _ l3
                  (wait_ready-Answered d (Provided log made.0) (λ _ _. earlier_on) rounds made.0
                    pg_user l3 i3)
                  λ _ l4 ready.
                    Ends-bind _ _ l4
                      (onwards l4 l4 (chown_mount-ChangesOwner made.0 "/scratch") unchanged)
                      λ _ l5 e5.
                        Ends-bind _ _ l5
                          (onwards l4 l5 (chown_mount-ChangesOwner made.0 "/wal_archive") e5)
                          λ _ l6 e6. returns (made.0, l4, e6, ready)
      where
        stay :
            {A : Type 0} (g : ℕ) {m : Action A} (l : List Call)
            → Makes AnyCall m
            → Provided log g l
            → Ends (λ _ l'. Provided log g l') (λ _. Unit) (m l)
        stay g l k i = Ends-stays (Provided log g) (λ _ _. earlier_on) l k i

        onwards :
            {g : ℕ} {m : Action Done} (l4 l : List Call)
            → Makes (ChangesOwner g) m
            → Extends (ChangesOwner g) l4 l
            → Ends (λ _ l'. Extends (ChangesOwner g) l4 l') (λ _. Unit) (m l)
        onwards l4 l k e = Ends-map (λ _ l' f. Extends-trans e f) (λ _ _. tt) (Makes-Ends l k)
