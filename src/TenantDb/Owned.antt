-- ===== src/TenantDb/Owned.antt =====
-- The calls that touch nothing but the Docker objects and the files of one tenant.
use relay_agent.Base.{All, List, String, Text, [], false, some, ℕ, ◌++◌, ◌∷◌, ◌≡◌, ◌≢◌}
use relay_agent.Docker.{
  Call, Daemon, Spec, codes, create, create_internal_network, disconnect, exec_root, exec_run,
  exec_with, extract_into, get_archive, get_container, get_image, get_network, get_volume,
  make_dirs, monotonic, move, pull_image, put_archive, reload, reload_network, remove, remove_dir,
  remove_network, remove_tree, remove_volume, rename, sleep, start, stop, unlink, write_file,
}
use relay_agent.Fs.Upward.{NoParent}
use relay_agent.Slug.Component.{IsComponent, has}
use relay_agent.TenantDb.Ensure.{old_name}
use relay_agent.TenantDb.Lifecycle.{host_dir}
use relay_agent.TenantDb.Names.{names}

-- A container that the daemon has found under one of the tenant's names, or created_here under it.
pub data Own (d : Daemon) (slug : String) : ℕ → Type 0 where
  found_named : {h : ℕ} (l : List Call) → d.finds l (names slug).container ≡ some h → Own d slug h
  found_old :
      {h : ℕ} (l : List Call) → d.finds l (old_name (names slug).container) ≡ some h → Own d slug h
  created_here :
      {h : ℕ} (l : List Call) (s : Spec)
      → s.name ≡ (names slug).container
      → d.started_as l s ≡ h
      → Own d slug h

pub data OwnName (slug : String) : String → Type 0 where
  current_name : OwnName slug (names slug).container
  previous_name : OwnName slug (old_name (names slug).container)

pub data OwnVolume (slug : String) : String → Type 0 where
  data_dir : OwnVolume slug (names slug).data_volume
  scratch_dir : OwnVolume slug (names slug).scratch
  wal_dir : OwnVolume slug (names slug).wal

pub data OwnMount (slug : String) : Text × String × String → Type 0 where
  own_mount :
      {volume target mode : String}
      → OwnVolume slug volume
      → OwnMount slug (codes volume, target, mode)

-- The tenant's directory, or what is written with a slash and more after it that leads nowhere
-- upwards
pub data Below (data_root : Text) (slug : String) : Text → Type 0 where
  itself : Below data_root slug (host_dir data_root slug)
  below :
      (rest : Text)
      → NoParent rest
      → Below data_root slug (host_dir data_root slug ++ codes "/" ++ rest)

-- Every call with the objects and paths that it names
abbrev pub Owned : Daemon → Text → String → Call → Type 0
Owned d data_root slug (get_container name) = OwnName slug name
Owned d data_root slug (get_network name) = name ≡ (names slug).network
Owned d data_root slug (create_internal_network name) = name ≡ (names slug).network
Owned d data_root slug (reload_network name) = name ≡ (names slug).network
Owned d data_root slug (remove_network name) = name ≡ (names slug).network
Owned d data_root slug (disconnect name cid) = name ≡ (names slug).network
Owned d data_root slug (get_volume name) = OwnVolume slug name
Owned d data_root slug (remove_volume name) = OwnVolume slug name
Owned d data_root slug (reload h) = Own d slug h
Owned d data_root slug (stop h) = Own d slug h
Owned d data_root slug (start h) = Own d slug h
Owned d data_root slug (rename h name) = Own d slug h × OwnName slug name
Owned d data_root slug (remove h force) = Own d slug h
Owned d data_root slug (create s) =
    (s.name ≡ (names slug).container)
    × (s.network ≡ (names slug).network)
    × All (OwnMount slug) s.volumes
Owned d data_root slug (exec_run h cmd) = Own d slug h
Owned d data_root slug (exec_root h cmd) = Own d slug h
Owned d data_root slug (exec_with h cmd environment) = Own d slug h
Owned d data_root slug (get_archive h path) = Own d slug h
Owned d data_root slug (put_archive h path) = Own d slug h × Below data_root slug path
Owned d data_root slug (make_dirs path) = Below data_root slug path
Owned d data_root slug (remove_tree path) = Below data_root slug path
Owned d data_root slug (unlink path) = Below data_root slug path
Owned d data_root slug (remove_dir path) = Below data_root slug path
Owned d data_root slug (write_file path) = Below data_root slug path
Owned d data_root slug (extract_into path) = Below data_root slug path
Owned d data_root slug (move from to) = Below data_root slug from × Below data_root slug to
Owned d data_root slug (get_image image) = Unit
Owned d data_root slug (pull_image image) = Unit
Owned d data_root slug monotonic = Unit
Owned d data_root slug sleep = Unit
Owned d data_root slug _ = ⊥

-- A call for a slug that is one component of a path, so that the tenant's directory lies right below
-- that of all tenants
abbrev pub SafeOwned : Daemon → Text → String → Call → Type 0
SafeOwned d data_root slug c = IsComponent (codes slug) × Owned d data_root slug c

-- What the file system gives as the name of an entry
abbrev pub IsEntryName : Text → Type 0
IsEntryName n = (has b'/' n ≡ false) × (n ≢ b'.' ∷ b'.' ∷ [])
