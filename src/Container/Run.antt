-- ===== src/Container/Run.antt =====
-- agent/commands/container.py: `run`, `stop`, `start`, `remove` and `exec_run`.
use relay_agent.Base.{Bool, List, String, [], if◌then◌else◌, not, str_eq, true, ℕ, ◌∷◌}
use relay_agent.Docker.{
  Action, Daemon, Done, Spec, catch, codes, connect, get_network, pull_image, pure, raise, remove,
  run_container_spec, start, stop, suppress, when, ◌>>=◌, ◌>>◌,
}
use relay_agent.Docker.Objects.{ask, create_container, exec_env, look_up}
use relay_agent.Slug.{starts_with}

-- Only a tenant's own private database network may be joined.
unfoldable pub tenant_networks : List String → List String
tenant_networks [] = []
tenant_networks (n ∷ ns) =
    let rest = tenant_networks ns in
    if starts_with (codes "berth_t_") (codes n) then n ∷ rest else rest

module _ (d : Daemon) where
  -- The pull before the start, whose failure is only logged
  unfoldable pub pre_pull : String → Action Done
  pre_pull image = when (not (str_eq image "")) (suppress (ask d (pull_image image)))

  unfoldable pub attach : List String → ℕ → Action Done
  attach [] h = pure tt
  attach (n ∷ ns) h = do ask d (get_network n); ask d (connect n h); attach ns h

  abbrev pub attach_and_start : List String → ℕ → Action Done
  attach_and_start networks h = do attach networks h; ask d (start h)

  unfoldable pub start_attached : List String → Spec → Action ℕ
  start_attached networks spec = do
    h ← create_container d spec
    catch (attach_and_start networks h) (λ e. ask d (remove h true) >> raise e)
    pure h

  abbrev pub launch : List String → Spec → Action ℕ
  launch [] spec = run_container_spec d spec
  launch (n ∷ ns) spec = start_attached (n ∷ ns) spec

  -- `run`, with the volumes resolved
  unfoldable pub run_app : Spec → List String → Action ℕ
  unfolding tenant_networks
  run_app spec extra_networks = do pre_pull spec.image; launch (tenant_networks extra_networks) spec

  unfoldable pub stop_named : String → Action Done
  stop_named name = do h ← look_up d name; ask d (stop h)

  unfoldable pub start_named : String → Action Done
  start_named name = do h ← look_up d name; ask d (start h)

  unfoldable pub remove_named : String → Bool → Action Done
  remove_named name force = suppress (do h ← look_up d name; ask d (remove h force))

  unfoldable pub exec_named : String → List String → List (String × String) → Action ℕ
  exec_named name cmd environment = do h ← look_up d name; exec_env d h cmd environment
