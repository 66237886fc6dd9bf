-- ===== src/TenantDb/Lifecycle.antt =====
-- agent/commands/tenantdb.py: `status`, `stop`, `start` and `remove`.
use relay_agent.Base.{Bool, List, Option, String, Text, [], none, not, some, true, ℕ, ◌++◌, ◌∷◌}
use relay_agent.Docker.{
  Action, Daemon, Done, Status, codes, disconnect, get_network, get_volume, pure, reload_network,
  reload_status, remove, remove_network, remove_tree, remove_volume, running, start, stop, suppress,
  when, ◌>>=◌, ◌>>◌,
}
use relay_agent.Docker.Objects.{ask, catch_missing, look_up, suppress_missing}
use relay_agent.TenantDb.Ensure.{is_up, wait_ready}
use relay_agent.TenantDb.Names.{check_ident, check_slug, names}

pub data Answer : Type 0 where
  missing_container running_container stopped_container : Answer

abbrev pub answer_of : Status → Answer
answer_of running = running_container
answer_of _ = stopped_container

-- `_host_dir`
unfoldable pub host_dir : Text → String → Text
host_dir data_root slug = data_root ++ codes "/_tenantdb/" ++ codes slug

module _ (d : Daemon) where
  -- `_container`
  unfoldable pub container_of : String → Action ℕ
  unfolding names
  container_of slug = look_up d (names slug).container

  abbrev pub status_answer : Option ℕ → Action Answer
  status_answer none = pure missing_container
  status_answer (some h) = do s ← reload_status d h; pure (answer_of s)

  unfoldable pub container_status : String → Action Answer
  container_status slug = do
    check_slug slug
    found_one ← catch_missing (do h ← container_of slug; pure (some h)) (pure none)
    status_answer found_one

  unfoldable pub stop_container : String → Action Done
  stop_container slug = do
    check_slug slug
    suppress_missing (do h ← container_of slug; ask d (stop h))

  unfoldable pub start_container : ℕ → String → String → Action Done
  start_container rounds slug pg_user = do
    check_slug slug
    h ← container_of slug
    s ← reload_status d h
    when (not (is_up s)) (ask d (start h))
    check_ident pg_user
    wait_ready d rounds h pg_user

  -- The loop that detaches the containers of a network
  unfoldable pub disconnect_all : String → List String → Action Done
  disconnect_all network [] = pure tt
  disconnect_all network (cid ∷ cids) = do
    suppress (ask d (disconnect network cid))
    disconnect_all network cids

  -- The endpoints are those that the reload has just read.
  unfoldable pub detach : String → Action Done
  detach network log = disconnect_all network (d.endpoints log network) log

  unfoldable pub remove_private_network : String → Action Done
  remove_private_network network = do
    ask d (get_network network)
    ask d (reload_network network)
    detach network
    ask d (remove_network network)

  unfoldable pub drop_volume : String → Action Done
  drop_volume volume = suppress_missing (do ask d (get_volume volume); ask d (remove_volume volume))

  -- `shutil.rmtree(path, ignore_errors=True)`
  unfoldable pub remove_tree_quietly : Text → Action Done
  remove_tree_quietly path = suppress (ask d (remove_tree path))

  -- `remove`
  unfoldable pub remove_all : Text → String → Bool → Action Done
  unfolding names host_dir
  remove_all data_root slug keep_volume = do
    check_slug slug
    suppress_missing (do h ← container_of slug; ask d (remove h true))
    suppress_missing (remove_private_network (names slug).network)
    drop_volume (names slug).scratch
    when (not keep_volume) (do drop_volume (names slug).wal; drop_volume (names slug).data_volume)
    remove_tree_quietly (host_dir data_root slug)
