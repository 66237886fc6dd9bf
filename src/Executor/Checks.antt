-- ===== src/Executor/Checks.antt =====
-- agent/executor.py: `docker_version` and `container_exists`, which answer whatever the daemon does.
use relay_agent.Base.{Bool, Option, String, false, none, some, true}
use relay_agent.Docker.{
  Action, Daemon, Status, another, catch, dead, exited, pure, reload_status, removing, running,
  ◌>>=◌,
}
use relay_agent.Docker.Objects.{look_up}

abbrev version_or : Option String → String
version_or none = "unknown"
version_or (some v) = v

-- The answer of `version()`, none where it raises, and its `Version`
unfoldable docker_version : Option (Option String) → String
docker_version none = "unknown"
docker_version (some v) = version_or v

abbrev is_running : Status → Bool
is_running running = true
is_running exited = false
is_running dead = false
is_running removing = false
is_running another = false

module _ (d : Daemon) where
  unfoldable container_exists : String → Action Bool
  unfolding ◌>>=◌ catch look_up reload_status
  container_exists name_or_id =
      catch (do h ← look_up d name_or_id; status ← reload_status d h; pure (is_running status))
        (λ _. pure false)
