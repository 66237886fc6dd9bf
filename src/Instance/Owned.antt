-- ===== src/Instance/Owned.antt =====
-- The calls that touch nothing but one instance.
use relay_agent.Base.{
  All, List, Option, String, Text, [], arith, if-rule, none, refl, some, str_eq, true, ℕ, ◌++◌,
  ◌==◌, ◌||◌, ◌∷◌, ◌≡◌,
}
use relay_agent.Container.Run.{attach, launch, start_attached, tenant_networks}
use relay_agent.Docker.{
  Call, Daemon, Spec, codes, connect, create, create_network, get_container, get_network, logs,
  make_dirs, pull_image, remove, run, start, wait, write_text,
}
use relay_agent.Docker.Extends.{
  Makes, Makes-bind, Makes-catch, Makes-if, Makes-map, Makes-pure, Makes-raise,
  Makes-run_container_spec, Makes-suppress, after, unchanged,
}
use relay_agent.Docker.Objects.{create_container}
use relay_agent.Docker.Objects.Rules.{Makes-ask, Makes-finally, Makes-require}
use relay_agent.Docker.Yields.{
  Makes-after, Yields, Yields-create_container, Yields-look_up, Yields-weaken,
}
use relay_agent.Fs.Cursor.{split_path}
use relay_agent.Fs.Upward.{NoParent}
use relay_agent.Instance.Addons.{merge_addon_paths}
use relay_agent.Instance.Discovered.{Runtime}
use relay_agent.Instance.Provision.{
  discover, ensure_bridge, make_instance_dirs, normalize_data_dir_perms, provision, read_lines,
  read_probe, remove_stale, run_chown, spawn_cloudflared, wait_for, with_tunnel,
}
use relay_agent.Instance.Specs.{
  Params, chown_spec, instance_name, instance_spec, probe_spec, sidecar_name, sidecar_spec,
  slug_dir,
}
use relay_agent.Slug.{is_instance_slug, is_tenant_slug, starts_with}
use relay_agent.Slug.Component.{IsComponent, slug-IsComponent}

pub data OwnName (slug : String) : String → Type 0 where
  own_instance : OwnName slug (instance_name slug)
  own_sidecar : OwnName slug (sidecar_name slug)

-- A container that is started under one of those names, or a helper without a name
pub data OwnSpec (slug : String) : Spec → Type 0 where
  own_name : {s : Spec} → OwnName slug s.name → OwnSpec slug s
  helper : {s : Spec} → s.name ≡ "" → OwnSpec slug s

pub data Own (d : Daemon) (slug : String) : ℕ → Type 0 where
  own_found :
      {h : ℕ} {name : String} (l : List Call)
      → OwnName slug name
      → d.finds l name ≡ some h
      → Own d slug h
  own_started :
      {h : ℕ} {s : Spec} (l : List Call) → OwnSpec slug s → d.started_as l s ≡ h → Own d slug h

-- What is written after the instance's directory and a slash, and leads nowhere upwards
pub data InDir (data_root : Text) (slug : String) : Text → Type 0 where
  in_dir :
      (rest : Text)
      → NoParent rest
      → InDir data_root slug (slug_dir data_root slug ++ (b'/' ∷ rest))

abbrev pub OwnCall : Daemon → Text → String → Call → Type 0
OwnCall d data_root slug (get_container name) = OwnName slug name
OwnCall d data_root slug (remove h force) = Own d slug h
OwnCall d data_root slug (start h) = Own d slug h
OwnCall d data_root slug (wait h) = Own d slug h
OwnCall d data_root slug (logs h) = Own d slug h
OwnCall d data_root slug (connect network h) =
    (starts_with (codes "berth_t_") (codes network) ≡ true) × Own d slug h
OwnCall d data_root slug (create s) = OwnSpec slug s
OwnCall d data_root slug (run s) = OwnSpec slug s
OwnCall d data_root slug (make_dirs path) = InDir data_root slug path
OwnCall d data_root slug (write_text path content) = InDir data_root slug path
OwnCall d data_root slug (get_network name) = Unit
OwnCall d data_root slug (create_network name) = Unit
OwnCall d data_root slug (pull_image image) = Unit
OwnCall d data_root slug _ = ⊥

-- A call of `provision` for a slug that is one component of a path, so that the slug's directory lies
-- right below the data root
abbrev pub SafeCall : Daemon → Text → String → Call → Type 0
SafeCall d data_root slug c = IsComponent (codes slug) × OwnCall d data_root slug c

module _ (d : Daemon) (data_root : Text) (slug : String) where
  abbrev Mine : Call → Type 0
  Mine = OwnCall d data_root slug

  abbrev AreTenants : List String → Type 0
  AreTenants = All (λ n. starts_with (codes "berth_t_") (codes n) ≡ true)

  tenant_networks-AreTenants : (ns : List String) → AreTenants (tenant_networks ns)
  unfolding tenant_networks
  tenant_networks-AreTenants [] = tt
  tenant_networks-AreTenants (n ∷ ns) =
      if-rule AreTenants (starts_with (codes "berth_t_") (codes n))
        (λ h. (h, tenant_networks-AreTenants ns)) (λ _. tenant_networks-AreTenants ns)

  attach-Makes :
      (ns : List String) (h : ℕ) → AreTenants ns → Own d slug h → Makes Mine (attach d ns h)
  unfolding attach
  attach-Makes [] h are own = Makes-pure tt
  attach-Makes (n ∷ ns) h (is, are) own =
      Makes-bind _ _ (Makes-ask d (get_network n) tt)
        λ _. Makes-bind _ _ (Makes-ask d (connect n h) (is, own)) λ _. attach-Makes ns h are own

  created_container : (s : Spec) → OwnSpec slug s → Yields Mine (Own d slug) (create_container d s)
  created_container s own =
      Yields-weaken (λ h made. own_started made.0 own made.1) (Yields-create_container d s own)

  start_attached-Makes :
      (ns : List String) (s : Spec)
      → AreTenants ns
      → OwnSpec slug s
      → Makes Mine (start_attached d ns s)
  unfolding start_attached
  start_attached-Makes ns s are spec = Makes-after _ _ (created_container s spec) λ h own.
      Makes-bind _ _
        (Makes-catch _ _ (Makes-bind _ _ (attach-Makes ns h are own) λ _. Makes-ask d (start h) own)
          λ e. Makes-bind _ _ (Makes-ask d (remove h true) own) λ _. Makes-raise e)
        λ _. Makes-pure h

  launch-Makes :
      (ns : List String) (s : Spec) → AreTenants ns → OwnSpec slug s → Makes Mine (launch d ns s)
  launch-Makes [] s are own = Makes-run_container_spec d s own
  launch-Makes (n ∷ ns) s are own = start_attached-Makes (n ∷ ns) s are own

  remove_stale-Makes :
      (runtime : Runtime) (name : String)
      → OwnName slug name
      → Makes Mine (remove_stale d runtime name)
  unfolding remove_stale
  remove_stale-Makes runtime name own = Makes-suppress _ (
      Makes-after _ _ (Yields-look_up d name own)
        λ h found_so. Makes-ask d (remove h true) (own_found found_so.0 own found_so.1))

  module _ (runtime : Runtime) where
    probe_helper : (image : String) → OwnSpec slug (probe_spec image)
    unfolding probe_spec
    probe_helper image = helper refl

    read_probe-Makes : (h : ℕ) → Own d slug h → Makes Mine (read_probe d runtime h)
    unfolding read_probe wait_for read_lines
    read_probe-Makes h own = Makes-bind _ _ (Makes-ask d (start h) own) λ _.
        Makes-bind _ _ (record { at = λ log. after own unchanged })
          λ code.
            Makes-if (code == 0) _ _ (record { at = λ log. after own unchanged }) (Makes-pure [])

    discover-Makes : (image : String) → Makes Mine (discover d runtime image)
    unfolding discover
    discover-Makes image =
        Makes-catch _ _
          (Makes-after _ _ (created_container (probe_spec image) (probe_helper image)) λ h own.
            Makes-finally _ _ (Makes-catch _ _ (read_probe-Makes h own) (λ _. Makes-pure []))
              (Makes-suppress _ (Makes-ask d (remove h true) own)))
          (λ _. Makes-pure [])

    run_chown-Makes :
        (dir : Text) (image : String) (ts : List Text)
        → Makes Mine (run_chown d runtime dir image ts)
    unfolding chown_spec
    run_chown-Makes dir image [] = Makes-pure tt
    run_chown-Makes dir image (t ∷ ts) =
        Makes-suppress _
          (Makes-bind _ _ (Makes-run_container_spec d _ (helper refl)) λ _. Makes-pure tt)

    normalize-Makes :
        (dir : Text) (image : String) → Makes Mine (normalize_data_dir_perms d runtime dir image)
    unfolding normalize_data_dir_perms
    normalize-Makes dir image = record { at = λ log. (run_chown-Makes dir image _).at log }

    spawn_cloudflared-Makes :
        (token network : String) → Makes Mine (spawn_cloudflared d runtime slug token network)
    unfolding spawn_cloudflared sidecar_spec
    spawn_cloudflared-Makes token network =
        Makes-catch _ _
          (Makes-bind _ _ (Makes-run_container_spec d _ (own_name own_sidecar))
            λ h. Makes-pure (some h))
          (λ _. Makes-pure none)

    make_instance_dirs-Makes : Makes Mine (make_instance_dirs d runtime (slug_dir data_root slug))
    unfolding make_instance_dirs split_path
    make_instance_dirs-Makes =
        Makes-bind _ _ (Makes-ask d _ (in_dir (codes "filestore") ((λ e. ground (arith, e)), tt)))
          λ _.
            Makes-bind _ _
              (Makes-ask d _ (in_dir (codes "sessions") ((λ e. ground (arith, e)), tt)))
              λ _.
                Makes-bind _ _
                  (Makes-ask d _ (in_dir (codes "addons") ((λ e. ground (arith, e)), tt)))
                  λ _. Makes-ask d _ (in_dir (codes "conf") ((λ e. ground (arith, e)), tt))

    ensure_bridge-Makes : (network : String) → Makes Mine (ensure_bridge d runtime network)
    unfolding ensure_bridge
    ensure_bridge-Makes network = Makes-catch _ _ (Makes-ask d _ tt) (λ _. Makes-ask d _ tt)

module _ (d : Daemon) (runtime : Runtime) (data_root : Text) (p : Params) where
  with_tunnel-Makes :
      (token : Option String) → Makes (OwnCall d data_root p.slug) (with_tunnel d runtime p token)
  with_tunnel-Makes none = Makes-pure none
  with_tunnel-Makes (some token) =
      Makes-if (str_eq token "") _ _ (Makes-pure none)
        (spawn_cloudflared-Makes d data_root p.slug runtime token p.network)

  spec-OwnSpec : (paths : List Text) → OwnSpec p.slug (instance_spec data_root p paths)
  unfolding instance_spec
  spec-OwnSpec paths = own_name own_instance

  -- Whatever the daemon answers and wherever it fails, `provision` makes calls only for a slug that
  -- is one component of a path, neither `.` nor `..`; it looks up and removes only containers with
  -- the two names of that slug, and helpers that it has created itself; it connects only to networks
  -- of tenant databases; and all that it writes is in the slug's directory, at paths without `..`.
  pub provision-OwnCall : Makes (SafeCall d data_root p.slug) (provision d runtime data_root p)
  unfolding provision split_path
  provision-OwnCall = Makes-require (is_instance_slug (codes p.slug)) _ λ accepted.
      Makes-map (λ c own. (slug-IsComponent (codes p.slug) (either accepted), own))
        (Makes-bind _ _ (make_instance_dirs-Makes d data_root p.slug runtime) λ _.
          Makes-bind _ _ (ensure_bridge-Makes d data_root p.slug runtime p.network) λ _.
            Makes-bind _ _ (Makes-suppress _ (Makes-ask d (pull_image p.image) tt)) λ _.
              Makes-bind _ _ (normalize-Makes d data_root p.slug runtime _ p.image) λ _.
                Makes-bind _ _ (discover-Makes d data_root p.slug runtime p.image) λ baked.
                  Makes-bind _ _
                    (Makes-ask d _ (
                      in_dir (codes "conf/odoo.conf")
                        ((λ e. ground (arith, e)), ((λ e. ground (arith, e)), tt))))
                    λ _.
                      Makes-bind _ _ (remove_stale-Makes d data_root p.slug runtime _ own_instance)
                        λ _.
                          Makes-bind _ _
                            (remove_stale-Makes d data_root p.slug runtime _ own_sidecar)
                            λ _.
                              Makes-bind _ _
                                (launch-Makes d data_root p.slug (tenant_networks p.extra_networks)
                                  _ (tenant_networks-AreTenants d data_root p.slug p.extra_networks)
                                  (spec-OwnSpec (merge_addon_paths p.extra_addons_paths baked)))
                                λ h.
                                  Makes-bind _ _ (with_tunnel-Makes p.tunnel_token)
                                    λ sidecar. Makes-pure (h, sidecar))
    where
      either :
          is_instance_slug (codes p.slug) ≡ true
          → is_tenant_slug (codes p.slug) || is_instance_slug (codes p.slug) ≡ true
      either h = ground (arith, h)
