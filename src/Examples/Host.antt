-- ===== src/Examples/Host.antt =====
-- agent/commands/tcp_tunnel.py and the metrics loop of agent/gateway.py at concrete inputs.
use relay_agent.Base.{
  List, String, [], if◌then◌else◌, none, refl, same, some, str_eq, true, ◌==◌, ◌||◌, ◌∷◌, ◌≡◌,
}
use relay_agent.Base.Int.{pos}
use relay_agent.Config.{Environment, Settings, config, lstrip, required, rstrip}
use relay_agent.Config.Checked.{IsSettings, config-IsSettings}
use relay_agent.Container.Stats.{RawStats, Running}
use relay_agent.Docker.{codes}
use relay_agent.Instance.Conf.{
  after_text, line_length, match_length, replace_addons_path, replace_first, spaces, subn,
}
use relay_agent.Metrics.{
  Reports, Tick, connection_closed, delivered, metrics_loop, metrics_loop-Reports,
}
use relay_agent.TcpTunnel.{Joined, attach_to_container_network, joins, networks, refused}
use relay_agent.TcpTunnel.Joins.{Attaches, attach_to_container_network-Attaches}

abbrev only_proxy : String → Joined
only_proxy network = if str_eq network "proxy" then joins else refused

attach_to_container_network-Attaches_example :
    Attaches only_proxy (networks ("host" ∷ "internal" ∷ "proxy" ∷ [])) (networks ("bridge" ∷ [])) (
      attach_to_container_network only_proxy
        (networks ("host" ∷ "internal" ∷ "proxy" ∷ []))
        (networks ("bridge" ∷ [])))
attach_to_container_network-Attaches_example =
    attach_to_container_network-Attaches only_proxy (networks ("host" ∷ "internal" ∷ "proxy" ∷ []))
      (networks ("bridge" ∷ []))

abbrev idle : RawStats
idle = record {
  total_usage = 10;
  total_usage_before = 8;
  system_usage = some 100;
  system_usage_before = some 80;
  online_cpus = none;
  percpu_usage = none;
  mem_usage = some 512;
  mem_cache = none;
  mem_limit = some 1024;
  networks = (some 1, none) ∷ [];
  io_bytes = (some "read", some 4096) ∷ [];
}

abbrev acme : Running
acme = record { role = none; slug = some "acme"; raw = some idle }

abbrev tunnel_of_acme : Running
tunnel_of_acme = record { role = some "cloudflared"; slug = some "acme"; raw = some idle }

abbrev three_ticks : List Tick
three_ticks =
    record { listed = none; sending = delivered }
    ∷ record { listed = some (acme ∷ tunnel_of_acme ∷ []); sending = delivered }
    ∷ record { listed = some (acme ∷ []); sending = connection_closed }
    ∷ []

metrics_loop-Reports_example : Reports three_ticks (metrics_loop three_ticks).0
metrics_loop-Reports_example = metrics_loop-Reports three_ticks

-- Lines before it stay, those after it too.
conf_replaced :
    replace_addons_path
      (λ c. c == 32 || c == 10)
      (λ r. r)
      (codes "[options]\n addons_path= /old\nworkers = 2")
      (codes "/new")
    ≡ codes "[options]\naddons_path = /new\nworkers = 2"
unfolding replace_addons_path subn match_length spaces line_length after_text
conf_replaced = refl

conf_added :
    replace_addons_path
      (λ c. c == 32 || c == 10)
      (λ r. r)
      (codes "[options]\nx_addons_path = 1")
      (codes "/new")
    ≡ codes "[options]\naddons_path = /new\nx_addons_path = 1"
unfolding replace_addons_path subn match_length spaces line_length after_text replace_first
conf_added = refl

abbrev environment : Environment
environment key =
    if str_eq key "GATEWAY_URL"
    then some (codes " wss://gateway ")
    else if str_eq key "TOKEN"
    then some (codes "secret")
    else if str_eq key "DATA_ROOT_PATH"
    then some (codes "/srv//")
    else none

abbrev read_settings : Settings
read_settings = record {
  gateway_url = codes "wss://gateway";
  token = codes "secret";
  data_root_path = codes "/srv";
  reconnect_max_backoff = pos 60;
  command_timeout = pos 60;
  log_level = codes "INFO";
  ssl_verify = true;
}

config-IsSettings_example : IsSettings (λ c. c == 32) read_settings
unfolding config required lstrip rstrip same
config-IsSettings_example =
    config-IsSettings (λ c. c == 32) (λ t. t) (λ t. t) (λ t. some (pos 60)) (λ t. some (pos 60))
      environment read_settings refl
