-- ===== src/Examples/Instances.antt =====
-- agent/commands/instance.py, agent/commands/container.py and agent/commands/host_shell.py at
-- concrete inputs.
use relay_agent.Base.{
  All, List, Option, Text, [], false, leb, none, refl, same, some, true, ◌&&◌, ◌++◌, ◌==◌, ◌||◌,
  ◌↔◌, ◌∷◌, ◌≡◌, ◌⊎◌,
}
use relay_agent.Container.Attached.{StartedLast, TakenDown, start_attached-Ends}
use relay_agent.Container.Inside.{resolve_volume-Inside}
use relay_agent.Container.Pty.{Round, close, data_item}
use relay_agent.Container.Run.{start_attached}
use relay_agent.Container.Volumes.{any_link, real_path, resolve_volume}
use relay_agent.Docker.{Spec, codes}
use relay_agent.Docker.Ends.{Ends}
use relay_agent.Docker.Extends.{Makes}
use relay_agent.Examples.Commands.{steady}
use relay_agent.Fs.Cursor.{split_path}
use relay_agent.Fs.Plain.{is_plain}
use relay_agent.Instance.Addons.{custom_paths, is_listed, merge_addon_paths}
use relay_agent.Instance.Command.{odoo_args, odoo_command, wait_script}
use relay_agent.Instance.Discovered.{Runtime}
use relay_agent.Instance.Merged.{AreApart, merge_addon_paths-listed}
use relay_agent.Instance.Owned.{SafeCall, provision-OwnCall}
use relay_agent.Instance.Probe.{Tidy, discover-Tidy}
use relay_agent.Instance.Provision.{discover, provision}
use relay_agent.Instance.Specs.{Params}
use relay_agent.Instance.Words.{words-odoo_args}
use relay_agent.Shell.{words}

abbrev data_root_path : List Text
data_root_path = codes "data" ∷ []

resolve_volume-Inside_example :
    (q : List Text) × (real_path (codes "filestore" ∷ codes "acme" ∷ codes "data" ∷ [])
      ≡ real_path (q ++ data_root_path))
    × All (λ c. is_plain c ≡ true) q
unfolding is_plain same resolve_volume split_path any_link
resolve_volume-Inside_example =
    resolve_volume-Inside (λ p. p) (λ p. false) data_root_path (codes "acme/sub/../filestore")
      (real_path (codes "filestore" ∷ codes "acme" ∷ codes "data" ∷ [])) (λ p h. refl) (refl, tt)
      refl refl

abbrev shop_spec : Spec
shop_spec = record {
  image = "odoo:17";
  name = "saas_shop";
  command = codes "odoo" ∷ [];
  environment = [];
  volumes = [];
  network = "berth_platform_proxy";
  mem_limit = none;
  pids_limit = none;
  options = [];
}

start_attached-Ends_example :
    Ends
      (λ h l. StartedLast steady ("berth_t_shop" ∷ []) h l)
      (TakenDown steady shop_spec)
      (start_attached steady ("berth_t_shop" ∷ []) shop_spec [])
start_attached-Ends_example = start_attached-Ends steady ("berth_t_shop" ∷ []) shop_spec []

abbrev typed : List Round
typed =
    record { is_stopped = false; given = some (data_item (codes "ls")); takes_it = true }
    ∷ record { is_stopped = false; given = none; takes_it = true }
    ∷ record { is_stopped = false; given = some close; takes_it = true }
    ∷ []

words-odoo_args_example :
    (line : Text) × (odoo_command
        (codes "shop; rm -rf /")
        true
        (some (codes "sale") ∷ none ∷ [])
        false
      ≡ codes "sh" ∷ codes "-c" ∷ (wait_script ++ line) ∷ [])
    × (words line
        ≡ some (odoo_args (codes "shop; rm -rf /") true (some (codes "sale") ∷ none ∷ []) false))
words-odoo_args_example =
    words-odoo_args (codes "shop; rm -rf /") true (some (codes "sale") ∷ none ∷ []) false

abbrev tenant_paths : List (Option Text)
tenant_paths = some (codes "/mnt/extra-addons/oca/web/") ∷ none ∷ []

abbrev image_paths : List Text
image_paths = codes "/opt/odoo/extra-addons/oca/web" ∷ codes "/opt/odoo/extra-addons/oca/sale" ∷ []

merge_addon_paths-listed_example :
    (is_listed (merge_addon_paths tenant_paths image_paths) (codes "/opt/odoo/extra-addons/oca/web")
      ≡ true)
    ↔ ((is_listed (custom_paths tenant_paths) (codes "/opt/odoo/extra-addons/oca/web") ≡ true)
        ⊎ ((is_listed image_paths (codes "/opt/odoo/extra-addons/oca/web") ≡ true)
            × AreApart (custom_paths tenant_paths) (codes "/opt/odoo/extra-addons/oca/web")))
merge_addon_paths-listed_example =
    merge_addon_paths-listed tenant_paths image_paths (codes "/opt/odoo/extra-addons/oca/web")

abbrev shop : Params
shop = record {
  slug = "shop";
  image = "odoo:17";
  network = "berth_platform_proxy";
  extra_addons_paths = tenant_paths;
  odoo_config_content = codes "[options]\naddons_path = /mnt/extra-addons\n";
  config_container_path = "/etc/odoo/odoo.conf";
  labels = [];
  db_env = ("HOST", "berth_pg_shop") ∷ [];
  db_name = codes "shop";
  init_base = true;
  init_list = [];
  demo_is_true = false;
  extra_networks = "berth_t_shop" ∷ "bridge" ∷ [];
  tunnel_token = none;
  limits = [];
}

abbrev baked_lines : Runtime
baked_lines = record {
  is_space = λ c. c == b' ' || (leb 9 c && leb c 13);
  template = λ s. s;
  lines = λ _ _. some (codes " /opt/odoo/extra-addons/web/hr" ∷ codes "  " ∷ image_paths);
}

provision-OwnCall_example :
    Makes
      (SafeCall steady (codes "/data") "shop")
      (provision steady baked_lines (codes "/data") shop)
provision-OwnCall_example = provision-OwnCall steady baked_lines (codes "/data") shop

discover-Tidy_example :
    Ends (λ _ l. Tidy steady [] l) (λ _. ⊥) (discover steady baked_lines "odoo:17" [])
discover-Tidy_example = discover-Tidy steady baked_lines "odoo:17" []
