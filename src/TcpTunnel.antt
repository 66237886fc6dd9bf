-- ===== src/TcpTunnel.antt =====
-- agent/commands/tcp_tunnel.py: the connection to a tunnel's target, and the network that the
-- agent's own container joins for it. Names and the daemon's answers are texts and parameters.
pub mod Joins
use relay_agent.Base.{
  Bool, List, String, [], if◌then◌else◌, member, not, str_eq, ◌&&◌, ◌++◌, ◌||◌, ◌∷◌,
}

-- `containers.get`: the networks of the container, an APIError, or another exception.
pub data Found : Type 0 where
  networks : List String → Found
  api_error broken : Found

-- `networks.get(network).connect(me)`
pub data Joined : Type 0 where
  joins refused breaks : Joined

pub data TunnelEvent : Type 0 where
  asked : String → TunnelEvent
  dialled : TunnelEvent

-- How a command ends: it goes on, or raises.
pub data Ending : Type 0 where
  goes_on raises : Ending

abbrev pub Attempt : Type 0
Attempt = List String × Ending

abbrev pub is_passed_over : List String → String → Bool
is_passed_over mine network = member network mine || str_eq network "host" || str_eq network "none"

abbrev pub after_ask : Joined → String → Attempt → Attempt
after_ask joins network rest = (network ∷ [], goes_on)
after_ask refused network rest = (network ∷ rest.0, rest.1)
after_ask breaks network rest = (network ∷ [], raises)

module _ (join : String → Joined) where
  -- The loop over the target's networks, with the networks that are asked for
  unfoldable pub attach : List String → List String → Attempt
  attach mine [] = ([], goes_on)
  attach mine (network ∷ others) =
      let rest = attach mine others in
      if is_passed_over mine network then rest else after_ask (join network) network rest

  unfoldable pub attach_to_container_network : Found → Found → Attempt
  unfolding attach
  attach_to_container_network (networks target) (networks mine) = attach mine target
  attach_to_container_network (networks target) api_error = ([], goes_on)
  attach_to_container_network (networks target) broken = ([], raises)
  attach_to_container_network api_error me = ([], goes_on)
  attach_to_container_network broken me = ([], raises)

  abbrev pub asks : List String → List TunnelEvent
  asks [] = []
  asks (n ∷ ns) = asked n ∷ asks ns

  abbrev pub then_dial : Attempt → List TunnelEvent
  then_dial (ns, goes_on) = asks ns ++ dialled ∷ []
  then_dial (ns, raises) = asks ns

  -- `open_connection` up to the dialling
  unfoldable pub open_connection : Bool → Bool → Found → Found → List TunnelEvent
  unfolding attach_to_container_network
  open_connection has_docker resolves target me =
      if has_docker && not resolves
      then then_dial (attach_to_container_network target me)
      else dialled ∷ []
