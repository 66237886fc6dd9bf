-- ===== src/Gateway/Tunnel/Pauses.antt =====
-- How soon the relay of a tunnel obeys a pause.
use relay_agent.Base.{Bool, List, Option, false, length, none, some, true, ℕ, ◌+◌, ◌≡◌, ◌≤◌}
use relay_agent.Gateway.Tunnel.{Event, Phase, Relay, in_send, resume_comes, waits_to_send}

abbrev pub is_resume : Event → Bool
is_resume resume_comes = true
is_resume _ = false

-- How many chunks may still leave from a phase while the relay is paused
abbrev pub may_leave : Phase → ℕ
may_leave (in_send _) = 1
may_leave (waits_to_send _ true) = 1
may_leave _ = 0

abbrev LeavesAfter : ℕ → Option Relay → Type 0
LeavesAfter n none = Unit
LeavesAfter n (some r) = (r.is_paused ≡ true) × (length r.sent_chunks + may_leave r.phase ≤ n)

abbrev Paused : Phase → List (List ℕ) → Relay
Paused p sent = record { phase = p; is_paused = true; sent_chunks = sent }
