-- ===== src/TenantDb/EnsureOwned.antt =====
-- `ensure` touches only the tenant's own objects.
use relay_agent.Base.{
  All, Bool, Bool-cases, List, Option, String, Text, [], false, if-rule, inl, inr, leb, none, not,
  refl, some, suc, true, zero, ℕ, ◌&&◌, ◌==◌, ◌∷◌, ◌≡◌,
}
use relay_agent.Docker.{
  Call, Daemon, Result, Status, bad_value, create, create_internal_network, docker_error, err,
  exec_root, get_network, missing_key, not_ready, ok, out_of_rounds, pull_image, pure, remove,
  rename, sleep, start, stop, when, ◌>>=◌,
}
use relay_agent.Docker.Extends.{
  Extends-trans, Makes, Makes-bind, Makes-clock, Makes-exec, Makes-if, Makes-perform, Makes-pure,
  Makes-raise, Makes-reload_status, Makes-when,
}
use relay_agent.Docker.Objects.{ask, catch_missing, look_up, require, suppress_missing}
use relay_agent.Docker.Objects.Rules.{
  Makes-ask, Makes-catch_missing, Makes-suppress_missing, object_rules,
}
use relay_agent.Docker.Yields.{
  Makes-after, Yields, Yields-any, Yields-bind, Yields-catch_missing, Yields-create_container,
  Yields-if, Yields-look_up, Yields-pure,
}
use relay_agent.TenantDb.Ensure.{
  bring_up, bring_up_or_undo, chown_mount, commit, create_missing, create_or_get, displace, ensure,
  ensure_private_network, fetch_image, is_up, poll, put_back, retire, set_aside, spec_of,
  wait_ready,
}
use relay_agent.TenantDb.Names.{
  Params, check_ident, check_params, check_slug, item_of, names, parsed,
}
use relay_agent.TenantDb.Owned.{
  Own, OwnMount, OwnName, Owned, created_here, current_name, data_dir, found_named, found_old,
  own_mount, previous_name, scratch_dir, wal_dir,
}

module _ (d : Daemon) (data_root : Text) (p : Params) where
  abbrev Mine : Call → Type 0
  Mine = Owned d data_root p.slug

  abbrev OwnOption : Option ℕ → Type 0
  OwnOption none = Unit
  OwnOption (some h) = Own d p.slug h

  name : String
  name = (names p.slug).container

  find_current :
      Yields Mine OwnOption
        (catch_missing (do h ← look_up d (names p.slug).container; pure (some h)) (pure none))
  find_current =
      Yields-catch_missing _ _
        (Yields-bind _ _ (Yields-look_up d _ current_name)
          λ h found_there. Yields-pure (some h) (found_named found_there.0 found_there.1))
        (Yields-pure none tt)

  remove_named :
      (n : String)
      → OwnName p.slug n
      → Makes Mine (suppress_missing (do h ← look_up d n; ask d (remove h true)))
  remove_named n own = Makes-suppress_missing _ (
      Makes-after _ _ (Yields-look_up d n own)
        λ h found_there. Makes-ask d (remove h true) (own_of n own h found_there))
    where
      own_of :
          (n : String)
          → OwnName p.slug n
          → (h : ℕ) → (l : List Call) × (d.finds l n ≡ some h)
          → Own d p.slug h
      own_of _ current_name h (l, e) = found_named l e
      own_of _ previous_name h (l, e) = found_old l e

  retire-Yields :
      (o : Option ℕ) → OwnOption o → Yields Mine OwnOption (retire d (names p.slug).container o)
  retire-Yields none own = Yields-pure none tt
  retire-Yields (some h) own = Yields-bind _ _ (Yields-any _ (Makes-ask d (stop h) own)) λ _ _.
      Yields-bind _ _ (Yields-any _ (Makes-ask d (rename h _) (own, previous_name)))
        λ _ _. Yields-pure (some h) own

  set_aside-Yields : Yields Mine OwnOption (set_aside d (names p.slug).container)
  unfolding set_aside
  set_aside-Yields =
      Yields-bind _ _ (Yields-any _ (remove_named _ previous_name))
        λ _ _. Yields-bind _ _ find_current retire-Yields

  put_back-Makes : (h : ℕ) → Own d p.slug h → Makes Mine (put_back d (names p.slug).container h)
  unfolding put_back
  put_back-Makes h own = Makes-bind _ _ (remove_named _ current_name) λ _.
      Makes-bind _ _ (Makes-ask d (rename h _) (own, current_name)) λ _. Makes-ask d (start h) own

  fetch_image-Makes : Makes Mine (fetch_image d p)
  unfolding fetch_image
  fetch_image-Makes = elim (Bool-cases (p.pull && not p.recreate)) [
    | inl pulls ↦ rw pulls (search (object_rules, tt) depth 8)
    | inr gets ↦ rw gets (search (object_rules, tt) depth 8)
  ]

  spec_of-Owned : Mine (create (spec_of p))
  unfolding spec_of
  spec_of-Owned = (
    refl,
    refl,
    (
      own_mount data_dir,
      (
        own_mount scratch_dir,
        if-rule (All (OwnMount p.slug)) p.wal_archiving (λ _. (own_mount wal_dir, tt)) (λ _. tt),
      ),
    ),
  )

  create_or_get-Yields : Yields Mine (λ made. Own d p.slug made.0) (create_or_get d p)
  unfolding create_or_get
  create_or_get-Yields = Yields-bind _ _ find_current create_rest
    where
      create_rest :
          (o : Option ℕ)
          → OwnOption o
          → Yields Mine (λ made. Own d p.slug made.0) (create_missing d p o)
      create_rest none _ = Yields-bind _ _ (Yields-any _ fetch_image-Makes) λ _ _.
          Yields-bind _ _ (Yields-create_container d (spec_of p) spec_of-Owned)
            λ h made. Yields-pure (h, true) (created_here made.0 (spec_of p) spec_of-Owned.0 made.1)
      create_rest (some h) own = Yields-pure (h, false) own

module _ (d : Daemon) (data_root : Text) (slug : String) where
  poll-Makes :
      (rounds h : ℕ) (pg_user : String) (deadline : ℕ)
      → Own d slug h
      → Makes (Owned d data_root slug) (poll d rounds h pg_user deadline)
  unfolding poll
  poll-Makes zero h pg_user deadline own = Makes-raise out_of_rounds
  poll-Makes (suc rounds) h pg_user deadline own = Makes-bind _ _ (Makes-clock d tt) λ now.
      Makes-if (leb deadline now) _ _ (Makes-raise not_ready) (
        Makes-bind _ _ (Makes-exec d h _ own) λ exit_code.
          Makes-if (exit_code == 0) _ _ (Makes-pure tt) (
            Makes-bind _ _ (Makes-perform d sleep tt)
              λ _. poll-Makes rounds h pg_user deadline own))

  pub wait_ready-Makes :
      (rounds h : ℕ) (pg_user : String)
      → Own d slug h
      → Makes (Owned d data_root slug) (wait_ready d rounds h pg_user)
  unfolding wait_ready
  wait_ready-Makes rounds h pg_user own =
      Makes-bind _ _ (Makes-clock d tt) λ begin. poll-Makes rounds h pg_user _ own

  chown_mount-Makes :
      (h : ℕ) (path : String) → Own d slug h → Makes (Owned d data_root slug) (chown_mount d h path)
  unfolding chown_mount
  chown_mount-Makes h path own = record {
    at = λ log. (Makes-when (d.has_mount log h path) _ (Makes-ask d (exec_root h _) own)).at log;
  }

  pub start_if_down-Makes :
      (h : ℕ) (s : Status)
      → Own d slug h
      → Makes (Owned d data_root slug) (when (not (is_up s)) (ask d (start h)))
  start_if_down-Makes h s own = Makes-when _ _ (Makes-ask d (start h) own)

module _ (d : Daemon) (data_root : Text) (p : Params) where
  bring_up-Makes :
      (rounds : ℕ) (pg_user : String)
      → Makes (Owned d data_root p.slug) (bring_up d rounds p pg_user)
  unfolding bring_up
  bring_up-Makes rounds pg_user = Makes-after _ _ (create_or_get-Yields d data_root p) λ made own.
      Makes-bind _ _ (Makes-reload_status d made.0 own) λ s.
        Makes-bind _ _ (start_if_down-Makes d data_root p.slug made.0 s own) λ _.
          Makes-bind _ _ (wait_ready-Makes d data_root p.slug rounds made.0 pg_user own) λ _.
            Makes-bind _ _ (chown_mount-Makes d data_root p.slug made.0 "/scratch" own) λ _.
              Makes-bind _ _ (chown_mount-Makes d data_root p.slug made.0 "/wal_archive" own)
                λ _. Makes-pure made.1

  commit-Makes :
      (previous : Option ℕ) (r : Result Bool)
      → OwnOption d data_root p previous
      → Makes (Owned d data_root p.slug) (commit d (names p.slug).container previous r)
  commit-Makes none (ok made) own = Makes-bind _ _ (Makes-pure tt) λ _. Makes-pure made
  commit-Makes (some h) (ok made) own =
      Makes-bind _ _ (Makes-suppress_missing _ (Makes-ask d (remove h true) own))
        λ _. Makes-pure made
  commit-Makes none (err e) own = Makes-bind _ _ (Makes-pure tt) λ _. Makes-raise e
  commit-Makes (some h) (err e) own =
      Makes-bind _ _ (put_back-Makes d data_root p h own) λ _. Makes-raise e

  bring_up_or_undo-Makes :
      (rounds : ℕ) (pg_user : String) (previous : Option ℕ)
      → OwnOption d data_root p previous
      → Makes (Owned d data_root p.slug) (bring_up_or_undo d rounds p pg_user previous)
  unfolding bring_up_or_undo
  bring_up_or_undo-Makes rounds pg_user previous own = record {
    at = λ log. Extends-trans ((bring_up-Makes rounds pg_user).at log) (
        (commit-Makes previous (bring_up d rounds p pg_user log).0 own).at
          (bring_up d rounds p pg_user log).1);
  }

  displace-Yields : Yields (Owned d data_root p.slug) (OwnOption d data_root p) (displace d p)
  unfolding displace
  displace-Yields =
      Yields-if p.recreate _ _
        (Yields-bind _ _ (Yields-any _ (Makes-when p.pull _ (Makes-ask d (pull_image p.image) tt)))
          λ _ _. set_aside-Yields d data_root p)
        (Yields-pure none tt)

  ensure_private_network-Makes :
      Makes (Owned d data_root p.slug) (ensure_private_network d (names p.slug).network)
  unfolding ensure_private_network
  ensure_private_network-Makes =
      Makes-catch_missing _ _ (Makes-ask d (get_network _) refl)
        (Makes-ask d (create_internal_network _) refl)

  item_of-Makes :
      {P : Call → Type 0} (key : String) (items : List (String × String))
      → Makes P (item_of key items)
  unfolding item_of
  item_of-Makes key [] = Makes-raise missing_key
  item_of-Makes key ((k, v) ∷ items) = Makes-if _ _ _ (Makes-pure v) (item_of-Makes key items)

  pub require-Makes : {P : Call → Type 0} (b : Bool) → Makes P (require b)
  require-Makes b = Makes-if b _ _ (Makes-pure tt) (Makes-raise bad_value)

  check_params-Makes :
      {P : Call → Type 0} (parse_bytes : String → Option ℕ) → Makes P (check_params parse_bytes p)
  unfolding check_params check_slug check_ident
  check_params-Makes parse_bytes =
      search (object_rules, require-Makes, item_of-Makes, parsed-Makes) depth 20
    where
      parsed-Makes : {P : Call → Type 0} (o : Option ℕ) → Makes P (parsed o)
      parsed-Makes none = Makes-raise docker_error
      parsed-Makes (some n) = Makes-pure n

  pub ensure-Makes :
      (parse_bytes : String → Option ℕ) (rounds : ℕ)
      → Makes (Owned d data_root p.slug) (ensure d parse_bytes rounds p)
  unfolding ensure
  ensure-Makes parse_bytes rounds = Makes-bind _ _ (check_params-Makes parse_bytes) λ pg_user.
      Makes-bind _ _ ensure_private_network-Makes
        λ _. Makes-after _ _ displace-Yields (bring_up_or_undo-Makes rounds pg_user)
