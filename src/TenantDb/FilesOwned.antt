-- ===== src/TenantDb/FilesOwned.antt =====
-- The other commands touch only the tenant's own objects and files.
use relay_agent.Base.{
  Bool, List, Option, String, Text, [], false, none, not, refl, some, true, ℕ, ◌∷◌, ◌≡◌,
}
use relay_agent.Docker.{
  Action, Call, Daemon, Done, bad_value, codes, disconnect, failed_command, get_archive,
  get_network, get_volume, make_dirs, put_archive, reload_network, remove, remove_network,
  remove_tree, remove_volume, stop, unlink, write_file, ◌>>=◌,
}
use relay_agent.Docker.Extends.{
  Makes, Makes-bind, Makes-exec, Makes-if, Makes-pure, Makes-raise, Makes-reload_status,
  Makes-suppress, Makes-when, unchanged,
}
use relay_agent.Docker.Objects.Rules.{
  Makes-ask, Makes-exec_env, Makes-finally, Makes-require, Makes-suppress_missing,
}
use relay_agent.Docker.Yields.{
  Makes-after, Yields, Yields-bind, Yields-catch_missing, Yields-look_up, Yields-pure,
  Yields-weaken,
}
use relay_agent.Fs.Upward.{NoParent}
use relay_agent.Slug.Component.{has}
use relay_agent.TenantDb.EnsureOwned.{start_if_down-Makes, wait_ready-Makes}
use relay_agent.TenantDb.FileNames.{dump_name-NoParent, restore_file-NoParent}
use relay_agent.TenantDb.Files.{
  dump, fetch_dump, require_file, restore, take_member, unlink_quietly,
}
use relay_agent.TenantDb.Lifecycle.{
  answer_of, container_of, container_status, detach, disconnect_all, drop_volume, missing_container,
  remove_all, remove_private_network, remove_tree_quietly, start_container, status_answer,
  stop_container,
}
use relay_agent.TenantDb.Names.{check_ident, check_slug, default_to, names}
use relay_agent.TenantDb.Owned.{
  Below, Own, OwnVolume, Owned, below, current_name, data_dir, found_named, itself, scratch_dir,
  wal_dir,
}
use relay_agent.TenantDb.Patterns.{is_restore_file}

module _ (d : Daemon) (data_root : Text) (slug : String) where
  abbrev Mine : Call → Type 0
  Mine = Owned d data_root slug

  pub check_slug-Makes : (s : String) → Makes Mine (check_slug s)
  unfolding check_slug
  check_slug-Makes s = Makes-if _ _ _ (Makes-pure tt) (Makes-raise bad_value)

  pub check_ident-Makes : (s : String) → Makes Mine (check_ident s)
  unfolding check_ident
  check_ident-Makes s = Makes-if _ _ _ (Makes-pure tt) (Makes-raise bad_value)

  pub container_of-Yields : Yields Mine (Own d slug) (container_of d slug)
  unfolding container_of
  container_of-Yields =
      Yields-weaken (λ h found_there. found_named found_there.0 found_there.1)
        (Yields-look_up d _ current_name)

  with_container :
      (f : ℕ → Action Done)
      → ((h : ℕ) → Own d slug h → Makes Mine (f h))
      → Makes Mine (do h ← container_of d slug; f h)
  with_container f k = Makes-after _ f container_of-Yields k

  pub container_status-Makes : Makes Mine (container_status d slug)
  unfolding container_status
  container_status-Makes = Makes-bind _ _ (check_slug-Makes slug) λ _.
      Makes-after {R = OwnOption} _ _
        (Yields-catch_missing _ _
          (Yields-bind _ _ container_of-Yields λ h own. Yields-pure (some h) own)
          (Yields-pure none tt))
        answer
    where
      OwnOption : Option ℕ → Type 0
      OwnOption none = Unit
      OwnOption (some h) = Own d slug h

      answer : (o : Option ℕ) → OwnOption o → Makes Mine (status_answer d o)
      answer none own = Makes-pure missing_container
      answer (some h) own =
          Makes-bind _ _ (Makes-reload_status d h own) λ s. Makes-pure (answer_of s)

  pub stop_container-Makes : Makes Mine (stop_container d slug)
  unfolding stop_container
  stop_container-Makes =
      Makes-bind _ _ (check_slug-Makes slug)
        λ _. Makes-suppress_missing _ (with_container _ λ h own. Makes-ask d (stop h) own)

  pub start_container-Makes :
      (rounds : ℕ) (pg_user : String) → Makes Mine (start_container d rounds slug pg_user)
  unfolding start_container
  start_container-Makes rounds pg_user = Makes-bind _ _ (check_slug-Makes slug) λ _.
      with_container _ λ h own. Makes-bind _ _ (Makes-reload_status d h own) λ s.
        Makes-bind _ _ (start_if_down-Makes d data_root slug h s own) λ _.
          Makes-bind _ _ (check_ident-Makes pg_user)
            λ _. wait_ready-Makes d data_root slug rounds h pg_user own

  disconnect_all-Makes :
      (cids : List String) → Makes Mine (disconnect_all d (names slug).network cids)
  unfolding disconnect_all
  disconnect_all-Makes [] = Makes-pure tt
  disconnect_all-Makes (cid ∷ cids) =
      Makes-bind _ _ (Makes-suppress _ (Makes-ask d (disconnect _ cid) refl))
        λ _. disconnect_all-Makes cids

  remove_private_network-Makes : Makes Mine (remove_private_network d (names slug).network)
  unfolding remove_private_network detach
  remove_private_network-Makes = Makes-bind _ _ (Makes-ask d (get_network _) refl) λ _.
      Makes-bind _ _ (Makes-ask d (reload_network _) refl) λ _.
        Makes-bind _ _
          (record {
            at = λ log. (disconnect_all-Makes (d.endpoints log (names slug).network)).at log;
          })
          λ _. Makes-ask d (remove_network _) refl

  drop_volume-Makes : (v : String) → OwnVolume slug v → Makes Mine (drop_volume d v)
  unfolding drop_volume
  drop_volume-Makes v own =
      Makes-suppress_missing _
        (Makes-bind _ _ (Makes-ask d (get_volume v) own) λ _. Makes-ask d (remove_volume v) own)

  pub remove_tree_quietly-Makes :
      (path : Text) → Below data_root slug path → Makes Mine (remove_tree_quietly d path)
  unfolding remove_tree_quietly
  remove_tree_quietly-Makes path own = Makes-suppress _ (Makes-ask d (remove_tree path) own)

  pub remove_all-Makes : (keep_volume : Bool) → Makes Mine (remove_all d data_root slug keep_volume)
  unfolding remove_all
  remove_all-Makes keep_volume = Makes-bind _ _ (check_slug-Makes slug) λ _.
      Makes-bind _ _
        (Makes-suppress_missing _ (with_container _ λ h own. Makes-ask d (remove h true) own))
        λ _. Makes-bind _ _ (Makes-suppress_missing _ remove_private_network-Makes) λ _.
          Makes-bind _ _ (drop_volume-Makes _ scratch_dir) λ _.
            Makes-bind _ _
              (Makes-when (not keep_volume) _
                (Makes-bind _ _ (drop_volume-Makes _ wal_dir) λ _. drop_volume-Makes _ data_dir))
              λ _. remove_tree_quietly-Makes _ itself

  pub unlink_quietly-Makes :
      (path : Text) → Below data_root slug path → Makes Mine (unlink_quietly d data_root path)
  unfolding unlink_quietly
  unlink_quietly-Makes path own = Makes-suppress _ (Makes-ask d (unlink path) own)

  fetch_dump-Makes :
      (h : ℕ) (name staged : String) (code : ℕ)
      → Own d slug h
      → NoParent (codes name)
      → Makes Mine (fetch_dump d data_root slug h name staged code)
  unfolding fetch_dump take_member
  fetch_dump-Makes h name staged code own safe =
      Makes-bind _ _ (Makes-if _ _ _ (Makes-pure tt) (Makes-raise failed_command)) λ _.
        Makes-bind _ _ (Makes-ask d (make_dirs _) itself) λ _.
          Makes-bind _ _ (Makes-ask d (get_archive h _) own) λ _.
            Makes-bind _ _ (record { at = λ log. unchanged })
              λ _. Makes-ask d (write_file _) (below _ safe)

  pub dump-Makes :
      (token pg_user db_name : String)
      → has b'/' (codes token) ≡ false
      → Makes Mine (dump d data_root token slug pg_user db_name)
  unfolding dump
  dump-Makes token pg_user db_name random = Makes-bind _ _ (check_slug-Makes slug) λ _.
      Makes-bind _ _ (check_ident-Makes pg_user) λ _.
        Makes-bind _ _ (check_ident-Makes db_name) λ _. Makes-after _ _ container_of-Yields λ h own.
          Makes-bind _ _ (Makes-exec d h _ own) λ code.
            Makes-bind _ _
              (Makes-finally _ _ (fetch_dump-Makes h _ _ code own (dump_name-NoParent token random))
                (Makes-bind _ _ (Makes-exec d h _ own) λ _. Makes-pure tt))
              λ _. Makes-pure _

  require_file-Makes : (path : Text) → Makes Mine (require_file d data_root path)
  unfolding require_file
  require_file-Makes path = record { at = λ log. unchanged }

  pub restore-Makes :
      (owner db_name password : String) (file : Option String)
      → Makes Mine (restore d data_root slug owner db_name password file)
  unfolding restore
  restore-Makes owner db_name password file = Makes-bind _ _ (check_slug-Makes slug) λ _.
      Makes-bind _ _ (check_ident-Makes owner) λ _. Makes-bind _ _ (check_ident-Makes db_name) λ _.
        Makes-require (is_restore_file (codes (default_to "restore.pgdump" file))) _ λ fits.
          Makes-bind _ _ (require_file-Makes _) λ _. Makes-after _ _ container_of-Yields λ h own.
            Makes-bind _ _
              (Makes-ask d (put_archive h _) (own, below _ (restore_file-NoParent _ fits)))
              λ _.
                Makes-bind _ _
                  (Makes-finally _ _ (Makes-exec_env d h _ _ own) (
                    Makes-bind _ _ (Makes-exec d h _ own)
                      λ _. unlink_quietly-Makes _ (below _ (restore_file-NoParent _ fits))))
                  λ code. Makes-if _ _ _ (Makes-pure tt) (Makes-raise failed_command)
