-- ===== src/Instance/Specs.antt =====
-- agent/commands/instance.py: what `provision` is given, and the arguments of the containers that it
-- and its helpers start.
use Prim.Native.String.{◌++◌ as str_append}
use relay_agent.Base.{Bool, List, Option, String, Text, [], none, ◌++◌, ◌∷◌}
use relay_agent.Base.Dict.{Dict, put}
use relay_agent.Docker.{Spec, codes}
use relay_agent.Instance.Command.{join_commas, odoo_command}

-- What `provision` is given; `limits` are the keyword arguments for the platform, the processors,
-- the memory and the hostname, as `containers.run` gets them.
pub record Params : Type 0 where
  pub slug : String
  pub image : String
  pub network : String
  pub extra_addons_paths : List (Option Text)
  pub odoo_config_content : Text
  pub config_container_path : String
  pub labels : List (String × String)
  pub db_env : List (String × String)
  pub db_name : Text
  pub init_base : Bool
  pub init_list : List (Option Text)
  pub demo_is_true : Bool
  pub extra_networks : List String
  pub tunnel_token : Option String
  pub limits : List (String × String)

abbrev pub instance_name : String → String
instance_name slug = str_append "saas_" slug

abbrev pub sidecar_name : String → String
sidecar_name slug = str_append "saas_" (str_append slug "_cloudflared")

-- `self._data_root / slug`
unfoldable pub slug_dir : Text → String → Text
slug_dir data_root slug = data_root ++ (b'/' ∷ codes slug)

unfoldable pub put_env : List (String × String) → Dict Text → Dict Text
unfolding put
put_env [] env = env
put_env ((k, v) ∷ items) env = put_env items (put k (codes v) env)

abbrev pub addons_path_of : List Text → Text
addons_path_of [] = codes "/mnt/extra-addons"
addons_path_of (p ∷ ps) = join_commas (p ∷ ps)

-- The arguments of `containers.run`
unfoldable pub instance_spec : Text → Params → List Text → Spec
unfolding slug_dir put_env join_commas odoo_command
instance_spec data_root p paths = record {
  image = p.image;
  name = instance_name p.slug;
  command = odoo_command p.db_name p.init_base p.init_list p.demo_is_true;
  environment = put_env p.db_env (("ADDONS_PATH", addons_path_of paths) ∷ []);
  volumes =
      (slug_dir data_root p.slug ++ codes "/filestore", "/var/lib/odoo/filestore", "rw")
      ∷ (slug_dir data_root p.slug ++ codes "/sessions", "/var/lib/odoo/sessions", "rw")
      ∷ (slug_dir data_root p.slug ++ codes "/addons", "/mnt/extra-addons", "rw")
      ∷ (slug_dir data_root p.slug ++ codes "/conf/odoo.conf", p.config_container_path, "ro")
      ∷ [];
  network = p.network;
  mem_limit = none;
  pids_limit = none;
  options = ("restart_policy", "unless-stopped") ∷ (p.labels ++ p.limits);
}

unfoldable pub sidecar_spec : String → String → String → Spec
sidecar_spec slug token network = record {
  image = "cloudflare/cloudflared:latest";
  name = sidecar_name slug;
  command =
      codes "tunnel" ∷ codes "--no-autoupdate" ∷ codes "run" ∷ codes "--token" ∷ codes token ∷ [];
  environment = [];
  volumes = [];
  network = network;
  mem_limit = none;
  pids_limit = none;
  options =
      ("restart_policy", "unless-stopped")
      ∷ ("saas.instance", slug)
      ∷ ("saas.role", "cloudflared")
      ∷ [];
}

-- A container without a name, that ends by itself: its command is the entry point.
abbrev pub helper_spec :
    String → List Text → List (Text × String × String) → String → List (String × String) → Spec
helper_spec image command volumes network options = record {
  image = image;
  name = "";
  command = command;
  environment = [];
  volumes = volumes;
  network = network;
  mem_limit = none;
  pids_limit = none;
  options = options;
}

unfoldable pub chown_spec : Text → String → List Text → Spec
unfolding slug_dir
chown_spec dir image targets =
    helper_spec image (codes "chown" ∷ codes "-R" ∷ codes "1000:1000" ∷ targets)
      ((dir, "/data", "rw") ∷ []) "none" (("user", "0:0") ∷ ("remove", "True") ∷ [])

unfoldable pub probe_spec : String → Spec
probe_spec image =
    helper_spec image
      (codes "find"
        ∷ codes "/opt/odoo/extra-addons"
        ∷ codes "-mindepth"
        ∷ codes "2"
        ∷ codes "-maxdepth"
        ∷ codes "2"
        ∷ codes "-type"
        ∷ codes "d"
        ∷ [])
      [] "" []
