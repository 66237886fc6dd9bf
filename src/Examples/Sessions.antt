-- ===== src/Examples/Sessions.antt =====
-- agent/gateway.py: one session with a tunnel in it.
use relay_agent.Base.{All, List, [], arith, false, refl, some, true, ◌∷◌, ◌≡◌, ◌⊎◌}
use relay_agent.Base.Dict.{get, keys, put}
use relay_agent.Base.Int.{pos}
use relay_agent.Gateway.Closing.{close_session, close_session-Closes}
use relay_agent.Gateway.Frame.{ok_value, result, stream_closed}
use relay_agent.Gateway.Json.{integer}
use relay_agent.Gateway.Reconnect.{
  IsWithin, after_connect, broken, disconnected, doubled, invalid_status, is_rejection, round,
  waits, waits-IsWithin, waits_from,
}
use relay_agent.Gateway.Session.{Queue, Session, claim_stream, is_full, new, pause, resume}
use relay_agent.Gateway.Session.Accounting.{IsAccounted, new-IsAccounted}
use relay_agent.Gateway.Session.Claims.{claim_stream-IsAccounted}
use relay_agent.Gateway.Session.Sums.{IsBounded}
use relay_agent.Gateway.Tasks.{
  after_startup, code_of, exits_with, expired, has_close, passes, reply, run_pty_stream, serve,
  signalled, sized,
}
use relay_agent.Gateway.Tasks.Ends.{AnswersOnce, IsEnded, reply-AnswersOnce, run_pty_stream-IsEnded}
use relay_agent.Gateway.Tunnel.{
  Event, Relay, begins, chunk_comes, dialled_up, handle_tcp_tunnel_session, in_send, pause_comes,
  relay_run, resume_comes, send_done, waits_to_read, waits_to_send, wakes, writer_gone,
}
use relay_agent.Gateway.Tunnel.Closed.{handle_tcp_tunnel_session-IsEnded}
use relay_agent.Gateway.Tunnel.Pipe.{Keeps, received, relay_run-Keeps}

abbrev a_queue : Queue
a_queue = record { tag = 0; maxsize = 0; items = [] }

abbrev a_thread_queue : Queue
a_thread_queue = record { tag = 1; maxsize = 2; items = pause ∷ resume ∷ [] }

abbrev one_stream : Session
one_stream = (claim_stream "t1" a_queue new).1

a_queue-IsBounded : IsBounded a_queue
a_queue-IsBounded = ground arith

one_stream-IsAccounted : IsAccounted one_stream
one_stream-IsAccounted = claim_stream-IsAccounted "t1" a_queue a_queue-IsBounded new-IsAccounted

abbrev started_stream : Session
started_stream = record one_stream { stop_events = ("t1", false) ∷ ("t0", true) ∷ [] }

close_session-Closes_example :
    (keys (close_session started_stream).stop_events ≡ keys started_stream.stop_events)
    × All (λ e. e.1 ≡ true) (close_session started_stream).stop_events
    × ((q' : Queue) × (get "t1" (close_session started_stream).streams ≡ some q')
        × ((has_close q'.items ≡ true) ⊎ (is_full a_queue ≡ true)))
unfolding claim_stream get put
close_session-Closes_example = close_session-Closes started_stream "t1" a_queue refl

-- Two chunks; a pause comes while the first is being sent, so that the second is held.
abbrev two_chunks : List Event
two_chunks =
    begins
    ∷ chunk_comes (1 ∷ [])
    ∷ pause_comes
    ∷ send_done
    ∷ resume_comes
    ∷ wakes
    ∷ pause_comes
    ∷ chunk_comes (2 ∷ 3 ∷ [])
    ∷ []

abbrev one_held : Relay
one_held = record {
  phase = waits_to_send (2 ∷ 3 ∷ []) false;
  is_paused = true;
  sent_chunks = (1 ∷ []) ∷ [];
}

relay_run-Keeps_example : Keeps (received two_chunks) one_held
unfolding relay_run
relay_run-Keeps_example = relay_run-Keeps two_chunks one_held refl

abbrev sending_one : Relay
sending_one = record { phase = in_send (1 ∷ []); is_paused = true; sent_chunks = [] }

abbrev one_sent : Relay
one_sent = record { phase = waits_to_read false; is_paused = true; sent_chunks = (1 ∷ []) ∷ [] }

handle_tcp_tunnel_session-IsEnded_example : IsEnded (integer (pos 5)) "t1" 0 (
    handle_tcp_tunnel_session
      (λ _. true)
      (λ s. s)
      (integer (pos 5))
      "t1"
      0
      sized
      dialled_up
      writer_gone
      one_stream)
handle_tcp_tunnel_session-IsEnded_example =
    handle_tcp_tunnel_session-IsEnded (λ _. true) (λ s. s) (integer (pos 5)) "t1" 0 sized dialled_up
      writer_gone one_stream (λ t h. h) one_stream-IsAccounted (λ q. ground arith)
      (λ q. ground arith) refl (λ q. ground arith)

run_pty_stream-IsEnded_example : IsEnded (integer (pos 5)) "t1" 0 (
    run_pty_stream
      (λ _. true)
      (λ s. s)
      (integer (pos 5))
      "t1"
      0
      passes
      true
      signalled
      (exits_with (pos 3))
      one_stream)
run_pty_stream-IsEnded_example =
    run_pty_stream-IsEnded (λ _. true) (λ s. s) (integer (pos 5)) "t1" 0 passes true signalled
      (exits_with (pos 3)) one_stream (λ s h. h) one_stream-IsAccounted (λ q. ground arith) refl

-- A shell that exits with code 3.
served_frames :
    (run_pty_stream
      (λ _. true)
      (λ s. s)
      (integer (pos 5))
      "t1"
      0
      passes
      true
      signalled
      (exits_with (pos 3))
      one_stream).frames
    ≡ result (integer (pos 5)) ok_value ∷ stream_closed "t1" (pos 3) ∷ []
unfolding run_pty_stream after_startup serve code_of
served_frames = refl

reply-AnswersOnce_example :
    AnswersOnce (integer (pos 5)) (reply (λ _. true) "" (integer (pos 5)) 120000 expired)
reply-AnswersOnce_example =
    reply-AnswersOnce (λ _. true) "" (integer (pos 5)) 120000 expired (λ f. refl)
      (λ e. ground arith)

waits-IsWithin_example :
    IsWithin 60 (waits 60 (disconnected false ∷ invalid_status 502 ∷ broken true ∷ []))
waits-IsWithin_example =
    waits-IsWithin 60 (disconnected false ∷ invalid_status 502 ∷ broken true ∷ []) (omega arith)

-- The backoff doubles, and starts again after a connection that stood.
first_waits :
    waits 60 (disconnected false ∷ disconnected false ∷ invalid_status 4401 ∷ broken true ∷ [])
    ≡ some 2 ∷ some 4 ∷ some 8 ∷ some 2 ∷ []
unfolding waits waits_from round doubled after_connect is_rejection
first_waits = refl
