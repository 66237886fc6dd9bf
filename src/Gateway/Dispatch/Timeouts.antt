-- ===== src/Gateway/Dispatch/Timeouts.antt =====
-- The time that a command gets.
use relay_agent.Base.{arith, min, ℕ, ◌≤◌}
use relay_agent.Gateway.Dispatch.{effective_timeout, max_timeout, reply_timeout}
use relay_agent.Gateway.Json.{Value}

-- With a session timeout of at most half an hour, a command gets at least that and what its
-- request asks for, up to half an hour, and never more than half an hour.
pub reply_timeout_bounds :
    (method : Value) (command_timeout requested : ℕ)
    → command_timeout ≤ max_timeout
    → let t = reply_timeout method (effective_timeout command_timeout requested) in
      (command_timeout ≤ t) × (min requested max_timeout ≤ t) × (t ≤ max_timeout)
unfolding reply_timeout effective_timeout
reply_timeout_bounds method command_timeout requested h = ground arith
