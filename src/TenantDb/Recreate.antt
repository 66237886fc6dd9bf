-- ===== src/TenantDb/Recreate.antt =====
-- `ensure` with a container that was set aside: the `try` statement and what follows it.
use relay_agent.Base.{
  Bool, Bool-cases, List, String, false, inl, inr, refl, some, true, ℕ, ◌∙◌, ◌∷◌, ◌≡◌, ◌≢◌,
}
use relay_agent.Docker.{
  Call, Daemon, Done, Error, Result, catch, continue, pure, raise, remove, ◌>>=◌, ◌>>◌,
}
use relay_agent.Docker.Aside.{Extends-Spares, Leaves, Spares, is_aside, is_aside-Extends}
use relay_agent.Docker.Ends.{Ends, raises, returns}
use relay_agent.Docker.Extends.{Extends, Extends-trans}
use relay_agent.Docker.Objects.{ask, catch_missing, refusal, suppress_missing}
use relay_agent.Docker.Probed.{Answered}
use relay_agent.TenantDb.BringUp.{ChangesOwner, IsUp, Provided, bring_up-IsUp, bring_up-Leaves}
use relay_agent.TenantDb.Ensure.{bring_up_or_undo, commit, discard_previous}
use relay_agent.TenantDb.Names.{Params, names}
use relay_agent.TenantDb.PutBack.{Fails, IsBack, put_back-PutBack, put_back-Spares}
use relay_agent.TenantDb.Readiness.{is_ready_command}

module _ (d : Daemon) (p : Params) (h : ℕ) where
  -- The old container was told to go once that one had answered `pg_isready`; in between, only the
  -- ownership of its mounts was changed.
  pub record Replaced (pg_user : String) (log l : List Call) : Type 0 where
    pub ready : List Call
    pub probed : List Call
    pub replacement : ℕ
    pub goes_last : l ≡ remove h true ∷ ready
    pub only_owners : Extends (ChangesOwner replacement) probed ready
    pub has_answered :
        Answered d (Provided d p h log replacement) (is_ready_command pg_user) replacement probed
    pub untouched_before : Extends (Leaves h) log ready

  -- How `_put_back` ends, begun after the calls of `begin`
  pub data PutBack (begin l : List Call) : Type 0 where
    is_back : IsBack d (names p.slug).container h begin l → PutBack begin l
    not_back : Fails d (names p.slug).container h begin l → PutBack begin l

  -- A failure keeps the old container, or comes from its very removal.
  pub data Failed (pg_user : String) (log l : List Call) : Type 0 where
    kept :
        {begin : List Call}
        → Extends (Leaves h) log begin
        → Extends (Spares h) log l
        → PutBack begin l
        → Failed pg_user log l
    removal_refused :
        (r : Replaced pg_user log l)
        → d.succeeds r.ready (remove h true) ≡ false
        → Failed pg_user log l

  module _
      (hidden : (l : List Call)
        → is_aside d (names p.slug).container h l ≡ true
        → d.finds l (names p.slug).container ≢ some h) where
    removal-Ends :
        (pg_user : String) (log l : List Call) (made : Bool)
        → IsUp d p h pg_user log l
        → Extends (Leaves h) log l
        → Ends
            (λ _ l'. Replaced pg_user log l')
            (Failed pg_user log)
            ((discard_previous d (some h) >> pure made) l)
    unfolding ◌>>=◌ suppress_missing catch_missing catch ask refusal
    removal-Ends pg_user log l made (g, probed, owners, answer) left =
        elim (Bool-cases (d.succeeds l (remove h true))) [
          | inl gone ↦ rw gone (returns replaced)
          | inr failed ↦ elim (Bool-cases (d.missing l (remove h true))) [
            | inl gone ↦ rw failed (rw gone (returns replaced))
            | inr broken ↦ rw failed (rw broken (raises (removal_refused replaced failed)))
          ]
        ]
      where
        replaced : Replaced pg_user log (remove h true ∷ l)
        replaced = record {
          ready = l;
          probed = probed;
          replacement = g;
          goes_last = refl;
          only_owners = owners;
          has_answered = answer;
          untouched_before = left;
        }

    undo-Ends :
        (pg_user : String) (log begin : List Call) (e : Error) {q : Result Done × List Call}
        → Extends (Leaves h) log begin
        → Extends (Spares h) log q.1
        → Ends
            (λ _ l'. IsBack d (names p.slug).container h begin l')
            (Fails d (names p.slug).container h begin)
            q
        → Ends {A = Bool}
            (λ _ l'. Replaced pg_user log l')
            (Failed pg_user log)
            (continue (λ _. raise e) q.0 q.1)
    undo-Ends pg_user log begin e left spared (returns back) =
        raises (kept left spared (is_back back))
    undo-Ends pg_user log begin e left spared (raises back) =
        raises (kept left spared (not_back back))

    commit-Ends :
        (pg_user : String) (log : List Call) {q : Result Bool × List Call}
        → is_aside d (names p.slug).container h log ≡ true
        → Ends (λ _ l. IsUp d p h pg_user log l) (λ _. Unit) q
        → Extends (Leaves h) log q.1
        → Ends
            (λ _ l. Replaced pg_user log l)
            (Failed pg_user log)
            (commit d (names p.slug).container (some h) q.0 q.1)
    unfolding ◌>>=◌
    commit-Ends pg_user log aside (returns {a} {l} up) left = removal-Ends pg_user log l a up left
    commit-Ends pg_user log aside (raises {e} {l} _) left =
        undo-Ends pg_user log l e left
          (Extends-trans (Extends-Spares h left) (
            put_back-Spares d (names p.slug).container h l
              (hidden l (is_aside-Extends d (names p.slug).container h left ∙ aside))))
          (put_back-PutBack d (names p.slug).container h l)

    -- For a daemon that never finds a container under the tenant's name once it has been renamed
    -- to another, wherever calls fail: with a container set aside, `ensure` returns only after its
    -- last call has asked for the removal of that container, and just before, but for changes of the
    -- owner of its mounts, the container now found under the tenant's name, which is another, or
    -- given for the tenant's settings had answered `pg_isready` for the user. If it fails, either
    -- the old container has not been removed, and `_put_back` has ended, with that container under
    -- its name and started, unless the daemon refused a call of it; or the failure is that of the
    -- removal, after the replacement had answered.
    pub bring_up_or_undo-Ends :
        (rounds : ℕ) (pg_user : String) (log : List Call)
        → is_aside d (names p.slug).container h log ≡ true
        → Ends
            (λ _ l. Replaced pg_user log l)
            (Failed pg_user log)
            (bring_up_or_undo d rounds p pg_user (some h) log)
    unfolding bring_up_or_undo
    bring_up_or_undo-Ends rounds pg_user log aside =
        commit-Ends pg_user log aside (bring_up-IsUp d p h hidden rounds pg_user log aside)
          ((bring_up-Leaves d p h rounds pg_user).at log)
