-- ===== src/TenantDb/Volumes.antt =====
-- Which volumes `remove` leaves alone.
use relay_agent.Base.{List, String, Text, [], true, ◌∷◌, ◌≡◌}
use relay_agent.Docker.{Call, Daemon, disconnect, remove_volume, when}
use relay_agent.Docker.Extends.{Makes, Makes-bind, Makes-pure, Makes-suppress}
use relay_agent.Docker.Objects.Rules.{Makes-ask, object_rules}
use relay_agent.TenantDb.Lifecycle.{
  container_of, detach, disconnect_all, drop_volume, remove_all, remove_private_network,
  remove_tree_quietly,
}
use relay_agent.TenantDb.Names.{check_slug, names}

-- Calls that remove no volume but the scratch volume.
abbrev pub KeepsData : String → Call → Type 0
KeepsData slug (remove_volume v) = v ≡ (names slug).scratch
KeepsData slug _ = Unit

module _ (d : Daemon) (data_root : Text) (slug : String) where
  disconnect_all-KeepsData :
      (network : String) (cids : List String)
      → Makes (KeepsData slug) (disconnect_all d network cids)
  unfolding disconnect_all
  disconnect_all-KeepsData network [] = Makes-pure tt
  disconnect_all-KeepsData network (cid ∷ cids) =
      Makes-bind _ _ (Makes-suppress _ (Makes-ask d (disconnect _ cid) tt))
        λ _. disconnect_all-KeepsData network cids

  detach-KeepsData : (network : String) → Makes (KeepsData slug) (detach d network)
  unfolding detach
  detach-KeepsData network = record {
    at = λ log. (disconnect_all-KeepsData network (d.endpoints log network)).at log;
  }

  -- With `keep_volume`, a removal removes no volume but the scratch volume.
  pub remove_all-KeepsData : Makes (KeepsData slug) (remove_all d data_root slug true)
  unfolding remove_all check_slug container_of remove_private_network drop_volume
      remove_tree_quietly when
  remove_all-KeepsData = search (object_rules, detach-KeepsData) depth 20
