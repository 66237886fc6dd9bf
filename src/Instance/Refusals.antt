-- ===== src/Instance/Refusals.antt =====
-- A slug that is refused.
use relay_agent.Base.{List, Text, arith, false, ◌≡◌}
use relay_agent.Docker.{Call, Daemon, codes}
use relay_agent.Docker.Refuses.{Refuses, require-Refuses}
use relay_agent.Instance.Discovered.{Runtime}
use relay_agent.Instance.Provision.{provision}
use relay_agent.Instance.Specs.{Params}
use relay_agent.Slug.{is_instance_slug}

module _ (d : Daemon) (runtime : Runtime) (data_root : Text) (p : Params) (log : List Call) where
  -- With a slug that the pattern does not let through, `provision` raises and makes no call.
  pub provision-Refuses :
      is_instance_slug (codes p.slug) ≡ false → Refuses log (provision d runtime data_root p log)
  unfolding provision
  provision-Refuses unsafe = require-Refuses _ _ log (λ safe. ground (arith, unsafe, safe))
