-- ===== src/Gateway/Tunnel.antt =====
-- agent/gateway.py: `_handle_tcp_tunnel_session`, how it ends, and the loop that relays what the
-- target sends.
pub mod Pipe
pub mod Closed
pub mod Pauses
use relay_agent.Base.{
  Bool, List, Option, String, [], false, if◌then◌else◌, none, some, true, ℕ, ◌++◌, ◌∷◌,
}
use relay_agent.Base.Int.{pos}
use relay_agent.Gateway.Frame.{Frame, error, not_started, ok_value, reported, result}
use relay_agent.Gateway.Json.{Value}
use relay_agent.Gateway.Session.{Session, release_stream}
use relay_agent.Gateway.Tasks.{Left, Sized, closing_frames, sent_if, with_size}

-- How the opening of the connection to the target ends.
pub data Dialled : Type 0 where
  dialled_up dial_cancelled : Dialled
  dial_failed : String → Dialled

-- How `await writer.wait_closed()` ends; its other exceptions are suppressed.
pub data WriterEnd : Type 0 where
  writer_gone close_cancelled : WriterEnd

module _ (delivered : Frame → Bool) (others : Session → Session) where
  -- What follows `wait_closed` in the `finally` block; a cancellation there skips it.
  abbrev pub after_close : Value → String → ℕ → WriterEnd → Session → Left
  after_close id k tag writer_gone s = record {
    session = release_stream k tag s;
    frames = result id ok_value ∷ closing_frames delivered others k (pos 0);
    stop = none;
  }
  after_close id k tag close_cancelled s = record {
    session = s;
    frames = result id ok_value ∷ [];
    stop = none;
  }

  -- From the acknowledgement on: where that is not delivered, the exception passes through before
  -- the `try` statement.
  unfoldable pub relay_session : Value → String → ℕ → WriterEnd → Session → Left
  relay_session id k tag closing s =
      if delivered (result id ok_value)
      then after_close id k tag closing (others s)
      else record { session = s; frames = []; stop = none }

  unfoldable pub after_dial : Value → String → ℕ → Dialled → WriterEnd → Session → Left
  unfolding relay_session
  after_dial id k tag dialled_up closing s = relay_session id k tag closing (others s)
  after_dial id k tag dial_cancelled closing s = record {
    session = others s;
    frames = [];
    stop = none;
  }
  after_dial id k tag (dial_failed message) closing s = record {
    session = release_stream k tag (others s);
    frames = sent_if delivered (error id not_started (reported message));
    stop = none;
  }

  -- `port` is how the conversion of `target_port` ends.
  unfoldable pub handle_tcp_tunnel_session :
      Value → String → ℕ → Sized → Dialled → WriterEnd → Session → Left
  unfolding after_dial with_size
  handle_tcp_tunnel_session id k tag port dialled closing s =
      with_size delivered others (after_dial id k tag dialled closing) id k tag port s

-- Where `_read_target_to_ws` stands: not begun, blocked in `not_paused.wait()` before a read or with a
-- chunk in its hands, in a read, in `ws.send`, or at its end. The flag of a wait says whether the
-- event was set meanwhile: then the wait ends even if the event is cleared again before.
pub data Phase : Type 0 where
  not_begun in_read read_ended : Phase
  waits_to_read : Bool → Phase
  waits_to_send : List ℕ → Bool → Phase
  in_send : List ℕ → Phase

pub record Relay : Type 0 where
  pub phase : Phase
  pub is_paused : Bool
  pub sent_chunks : List (List ℕ)

abbrev pub new_relay : Relay
new_relay = record { phase = not_begun; is_paused = false; sent_chunks = [] }

-- What the event loop does next for a tunnel: the reader's own moves, and the items of the control
-- queue that `_consume_ctrl` takes.
pub data Event : Type 0 where
  begins wakes end_of_data send_done send_fails pause_comes resume_comes : Event
  chunk_comes : List ℕ → Event

-- `await not_paused.wait()` goes on at once where the event is set.
abbrev pub gate_to_read : Bool → Phase
gate_to_read true = waits_to_read false
gate_to_read false = in_read

abbrev pub gate_to_send : List ℕ → Bool → Phase
gate_to_send b true = waits_to_send b false
gate_to_send b false = in_send b

abbrev pub woken : Phase → Phase
woken (waits_to_read _) = waits_to_read true
woken (waits_to_send b _) = waits_to_send b true
woken p = p

-- One move of the reader from where it stands, with none where it cannot happen
abbrev pub begin_from : Phase → Bool → Option Phase
begin_from not_begun paused = some (gate_to_read paused)
begin_from _ _ = none

abbrev pub wake_from : Phase → Option Phase
wake_from (waits_to_read true) = some in_read
wake_from (waits_to_send b true) = some (in_send b)
wake_from _ = none

abbrev pub chunk_from : List ℕ → Phase → Bool → Option Phase
chunk_from b in_read paused = some (gate_to_send b paused)
chunk_from b _ _ = none

abbrev pub end_from : Phase → Option Phase
end_from in_read = some read_ended
end_from _ = none

abbrev pub fail_from : Phase → Option Phase
fail_from (in_send b) = some read_ended
fail_from _ = none

abbrev pub to_phase : Relay → Option Phase → Option Relay
to_phase r none = none
to_phase r (some p) = some (record r { phase = p })

abbrev pub sent_from : Relay → Phase → Option Relay
sent_from r (in_send b) =
    some (record r { phase = gate_to_read r.is_paused; sent_chunks = r.sent_chunks ++ b ∷ [] })
sent_from r _ = none

unfoldable pub relay_step : Event → Relay → Option Relay
relay_step begins r = to_phase r (begin_from r.phase r.is_paused)
relay_step wakes r = to_phase r (wake_from r.phase)
relay_step (chunk_comes b) r = to_phase r (chunk_from b r.phase r.is_paused)
relay_step end_of_data r = to_phase r (end_from r.phase)
relay_step send_done r = sent_from r r.phase
relay_step send_fails r = to_phase r (fail_from r.phase)
relay_step pause_comes r = some (record r { is_paused = true })
relay_step resume_comes r = some (record r { is_paused = false; phase = woken r.phase })

-- The moves of a run, one after the other
unfoldable pub relay_run : List Event → Relay → Option Relay
unfolding relay_step
relay_run [] r = some r
relay_run (e ∷ es) r = elim (relay_step e r) [ none ↦ none | some r' ↦ relay_run es r' ]
