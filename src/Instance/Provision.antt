-- ===== src/Instance/Provision.antt =====
-- agent/commands/instance.py: `provision`, `deprovision` and the helpers that make calls. What the
-- discovery container prints is a parameter.
use relay_agent.Base.{
  List, Option, String, Text, [], if◌then◌else◌, none, not, some, str_eq, true, ℕ, ◌++◌, ◌==◌, ◌||◌,
  ◌∷◌,
}
use relay_agent.Container.Run.{launch, tenant_networks}
use relay_agent.Docker.{
  Action, Call, Daemon, Done, Result, catch, codes, create_network, docker_error, err, get_network,
  logs, make_dirs, ok, pull_image, pure, remove, run_container_spec, start, suppress, wait, when,
  write_text, ◌>>=◌, ◌>>◌,
}
use relay_agent.Docker.Objects.{ask, create_container, finally, look_up, require}
use relay_agent.Instance.Addons.{merge_addon_paths}
use relay_agent.Instance.Conf.{replace_addons_path}
use relay_agent.Instance.Discovered.{Runtime, found_paths}
use relay_agent.Instance.Specs.{
  Params, addons_path_of, chown_spec, instance_name, instance_spec, probe_spec, sidecar_name,
  sidecar_spec, slug_dir,
}
use relay_agent.Slug.{is_instance_slug}

module _ (d : Daemon) (runtime : Runtime) where
  -- `_ensure_network`
  unfoldable pub ensure_bridge : String → Action Done
  ensure_bridge network = catch (ask d (get_network network)) (λ _. ask d (create_network network))

  unfoldable pub existing : Text → List Text → List Call → List Text
  existing dir [] log = []
  existing dir (sub ∷ subs) log =
      let rest = existing dir subs log in
      let path = dir ++ (b'/' ∷ sub) in
      if d.is_dir log path || d.is_file log path then (codes "/data/" ++ sub) ∷ rest else rest

  abbrev pub run_chown : Text → String → List Text → Action Done
  run_chown dir image [] = pure tt
  run_chown dir image (t ∷ ts) =
      suppress (run_container_spec d (chown_spec dir image (t ∷ ts)) >> pure tt)

  -- `_normalize_data_dir_perms`
  unfoldable pub normalize_data_dir_perms : Text → String → Action Done
  normalize_data_dir_perms dir image log =
      run_chown dir image
        (existing dir (codes "filestore" ∷ codes "sessions" ∷ codes "addons" ∷ []) log) log

  -- `probe.wait()`, with the code it gives
  unfoldable pub wait_for : ℕ → Action ℕ
  wait_for h log =
      (if d.succeeds log (wait h) then ok (d.exit_code log h) else err docker_error, wait h ∷ log)

  abbrev pub or_undecodable : Option (List Text) → Result (List Text)
  or_undecodable none = err docker_error
  or_undecodable (some lines) = ok (found_paths runtime.is_space lines)

  -- `probe.logs()`, and the paths in it; an exception of any kind ends the same way.
  unfoldable pub read_lines : ℕ → Action (List Text)
  unfolding found_paths
  read_lines h log = (
    if d.succeeds log (logs h) then or_undecodable (runtime.lines log h) else err docker_error,
    logs h ∷ log,
  )

  unfoldable pub read_probe : ℕ → Action (List Text)
  read_probe h = do ask d (start h); code ← wait_for h; if code == 0 then read_lines h else pure []

  -- `_discover_image_addon_paths`: the probe is removed on every way out.
  unfoldable pub discover : String → Action (List Text)
  unfolding probe_spec
  discover image =
      catch
        (do
          h ← create_container d (probe_spec image)
          finally (catch (read_probe h) (λ _. pure [])) (suppress (ask d (remove h true))))
        (λ _. pure [])

  -- A stale container is removed, if there is one.
  unfoldable pub remove_stale : String → Action Done
  remove_stale name = suppress (do h ← look_up d name; ask d (remove h true))

  -- `_spawn_cloudflared`, with none where it fails
  unfoldable pub spawn_cloudflared : String → String → String → Action (Option ℕ)
  unfolding sidecar_spec
  spawn_cloudflared slug token network =
      catch (do h ← run_container_spec d (sidecar_spec slug token network); pure (some h))
        (λ _. pure none)

  abbrev pub with_tunnel : Params → Option String → Action (Option ℕ)
  with_tunnel p none = pure none
  with_tunnel p (some token) =
      if str_eq token "" then pure none else spawn_cloudflared p.slug token p.network

  unfoldable pub make_instance_dirs : Text → Action Done
  make_instance_dirs dir = do
    ask d (make_dirs (dir ++ codes "/filestore"))
    ask d (make_dirs (dir ++ codes "/sessions"))
    ask d (make_dirs (dir ++ codes "/addons"))
    ask d (make_dirs (dir ++ codes "/conf"))

  -- What odoo.conf holds
  abbrev pub conf_text : Text → List Text → Text
  conf_text config paths =
      replace_addons_path runtime.is_space runtime.template config (addons_path_of paths)

  -- `provision`: the container and the sidecar
  unfoldable pub provision : Text → Params → Action (ℕ × Option ℕ)
  unfolding slug_dir instance_spec merge_addon_paths tenant_networks replace_addons_path
  provision data_root p = do
    require (is_instance_slug (codes p.slug))
    make_instance_dirs (slug_dir data_root p.slug)
    ensure_bridge p.network
    suppress (ask d (pull_image p.image))
    normalize_data_dir_perms (slug_dir data_root p.slug) p.image
    baked ← discover p.image
    let paths = merge_addon_paths p.extra_addons_paths baked
    ask d (
        write_text (slug_dir data_root p.slug ++ codes "/conf/odoo.conf")
          (conf_text p.odoo_config_content paths))
    remove_stale (instance_name p.slug)
    remove_stale (sidecar_name p.slug)
    h ← launch d (tenant_networks p.extra_networks) (instance_spec data_root p paths)
    sidecar ← with_tunnel p p.tunnel_token
    pure (h, sidecar)

  -- The loop of `deprovision`; an identifier that is missing or empty is left out.
  unfoldable pub deprovision : List (Option String) → Action Done
  deprovision [] = pure tt
  deprovision (none ∷ names) = deprovision names
  deprovision (some name ∷ names) = do
    when (not (str_eq name "")) (remove_stale name)
    deprovision names
