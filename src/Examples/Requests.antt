-- ===== src/Examples/Requests.antt =====
-- agent/gateway.py: requests of the control plane.
use relay_agent.Base.{Bool, [], arith, false, min, none, refl, same, some, true, ◌&&◌, ◌≡◌, ◌≤◌}
use relay_agent.Executor.{
  Commands, Name, container, dispatch, docker_route, found, handler, is_private, name, split_dots,
  three_parts,
}
use relay_agent.Executor.Routes.{Names, dispatch-Names, is_guarded}
use relay_agent.Gateway.Dispatch.{
  Conn, Env, dispatch_message, effective_timeout, handle_request, max_timeout, milliseconds,
  reply_timeout,
}
use relay_agent.Gateway.Dispatch.Replies.{Takes, handle_request-Takes}
use relay_agent.Gateway.Dispatch.Timeouts.{reply_timeout_bounds}
use relay_agent.Gateway.Json.{Fields, end, field, is_text, lookup_or, object, text}
use relay_agent.Gateway.Session.{new}
use relay_agent.Gateway.Session.Accounting.{new-IsAccounted}
use relay_agent.Gateway.System.{connected, next, receive}
use relay_agent.Gateway.System.Soundness.{IsSound, Reach-IsSound}

abbrev an_env : Env
an_env = record {
  command_timeout = 120000;
  docker_version = "27.0";
  submits = true;
  b64decode = λ v. none;
  int_of = λ v. none;
  float_of = λ v. milliseconds 600000;
}

abbrev a_request : Fields
a_request =
    field "type" (text "request")
      (field "id" (text "r1") (field "method" (text "docker.container.restart") end))

abbrev idle : Conn
idle = record { sess = new; sent = []; spawned = []; in_flight = []; serial = 0 }

handle_request-Takes_example :
    Takes (lookup_or "id" (text "") a_request) idle (handle_request an_env a_request idle)
handle_request-Takes_example = handle_request-Takes an_env a_request idle

new_idle-IsSound : IsSound idle
new_idle-IsSound = record { accounted = new-IsAccounted; counted = refl; throttled = omega arith }

Reach-IsSound_example : IsSound (dispatch_message an_env (some (object a_request)) idle).0
Reach-IsSound_example =
    Reach-IsSound {env = an_env} (next connected (receive (some (object a_request))))

reply_timeout_bounds_example :
    (120000 ≤ reply_timeout (text "saas.postgres.retune") (effective_timeout 120000 5000))
    × (min 5000 max_timeout
        ≤ reply_timeout (text "saas.postgres.retune") (effective_timeout 120000 5000))
    × (reply_timeout (text "saas.postgres.retune") (effective_timeout 120000 5000) ≤ max_timeout)
reply_timeout_bounds_example =
    reply_timeout_bounds (text "saas.postgres.retune") 120000 5000 (omega arith)

-- A tuning command gets six minutes.
retune_timeout :
    reply_timeout (text "saas.postgres.retune") (effective_timeout 120000 5000) ≡ 360000
unfolding reply_timeout effective_timeout is_text
retune_timeout = refl

abbrev every : Commands → Name → Bool
every c a = true

restart-handler :
    dispatch every (name "docker.container.restart") ≡ handler container (name "restart")
unfolding dispatch docker_route three_parts found split_dots same
restart-handler = refl

dispatch-Names_example :
    Names container (name "restart") (split_dots (name "docker.container.restart"))
    × (every container (name "restart") ≡ true)
    × (is_guarded container && is_private (name "restart") ≡ false)
dispatch-Names_example =
    dispatch-Names every (name "docker.container.restart") (name "restart") container
      restart-handler
