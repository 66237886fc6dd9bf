-- ===== src/Gateway/Tasks.antt =====
-- agent/gateway.py: the tasks that answer a request, `_execute_and_reply` and `_run_pty_stream`,
-- and `_offer`. What the waiting ends with is given; `delivered` says of a frame whether
-- `ws.send` returns, and is false where it raises.
pub mod Ends
use relay_agent.Base.{
  Bool, List, Option, String, [], false, if◌then◌else◌, none, some, true, ℕ, ◌++◌, ◌∷◌, ◌≡◌,
}
use relay_agent.Base.Dict.{put}
use relay_agent.Base.Int.{negsuc, pos, ℤ}
use relay_agent.Gateway.Dispatch.{size}
use relay_agent.Gateway.Frame.{
  Frame, error, failed, invalid_params, not_started, ok_value, refused, reported, result,
  stream_closed, timed_out,
}
use relay_agent.Gateway.Json.{Value}
use relay_agent.Gateway.Session.{Item, Queue, Session, close, put_nowait, release_stream, rest}

-- How `asyncio.wait_for` on a command's future ends.
pub data Waited : Type 0 where
  finished : Value → Waited
  expired cancelled : Waited
  raising : String → Waited

abbrev pub sent_if : (Frame → Bool) → Frame → List Frame
sent_if delivered f = if delivered f then f ∷ [] else []

module _ (delivered : Frame → Bool) (send_error : String) where
  -- `_execute_and_reply`: the frames that it sends. An error while the result is sent is answered
  -- like one of the command, with its own message `send_error`.
  unfoldable pub reply : Value → ℕ → Waited → List Frame
  reply id timeout (finished v) =
      if delivered (result id v)
      then result id v ∷ []
      else sent_if delivered (error id failed (reported send_error))
  reply id timeout expired = sent_if delivered (error id refused (timed_out timeout))
  reply id timeout (raising message) = sent_if delivered (error id failed (reported message))
  reply id timeout cancelled = []

-- What `asyncio.wait` brings within the startup timeout: the worker's signal, or the message of the
-- error that is raised, or the cancellation of the task.
pub data Startup : Type 0 where
  signalled start_cancelled : Startup
  start_failed : String → Startup

-- How the acknowledged stream ends: with the worker's exit code, an exception, or a cancellation.
pub data WorkerEnd : Type 0 where
  exits_with : ℤ → WorkerEnd
  crashed stream_cancelled : WorkerEnd

-- What the task leaves: the session, the frames it has sent, and the stop event, if it was made,
-- with whether it is set.
pub record Left : Type 0 where
  pub session : Session
  pub frames : List Frame
  pub stop : Option Bool

unfoldable pub code_of : WorkerEnd → ℤ
code_of (exits_with n) = n
code_of crashed = negsuc 0
code_of stream_cancelled = pos 0

-- What `validate` brings: none is given, or it returns without an error or with one; or it is
-- cancelled or raises, which nothing catches.
pub data Validated : Type 0 where
  not_asked passes cut_short : Validated
  rejects : String → Validated

-- `others` is what the rest of the session does between the start and the end of the task.
module _ (delivered : Frame → Bool) (others : Session → Session) where
  abbrev pub closing_frames : String → ℤ → List Frame
  closing_frames k code = sent_if delivered (stream_closed k code)

  abbrev pub started_event : String → Session → Session
  started_event k s = record s { stop_events = put k false s.stop_events }

  -- The second `try` statement, from the acknowledgement on
  unfoldable pub serve : Value → String → ℕ → WorkerEnd → Session → Left
  unfolding code_of
  serve id k tag worker s = record {
    session = release_stream k tag (others s);
    frames =
        if delivered (result id ok_value)
        then result id ok_value ∷ closing_frames k (code_of worker)
        else [];
    stop = some true;
  }

  unfoldable pub after_startup : Value → String → ℕ → Startup → WorkerEnd → Session → Left
  unfolding serve
  after_startup id k tag signalled worker s = serve id k tag worker s
  after_startup id k tag start_cancelled worker s = record {
    session = release_stream k tag s;
    frames = [];
    stop = some true;
  }
  after_startup id k tag (start_failed message) worker s = record {
    session = release_stream k tag s;
    frames = sent_if delivered (error id not_started (reported message));
    stop = some true;
  }

  -- `_run_pty_stream` once the worker is submitted, or has been refused with an exception, which
  -- comes before the `try` statements
  abbrev pub submit_worker : Value → String → ℕ → Bool → Startup → WorkerEnd → Session → Left
  submit_worker id k tag true startup worker s =
      after_startup id k tag startup worker (others (started_event k s))
  submit_worker id k tag false startup worker s = record {
    session = started_event k s;
    frames = [];
    stop = some false;
  }

  -- `_run_pty_stream`; `submits` is whether `_PTY_POOL.submit` returns.
  unfoldable pub run_pty_stream :
      Value → String → ℕ → Validated → Bool → Startup → WorkerEnd → Session → Left
  unfolding after_startup
  run_pty_stream id k tag not_asked submits startup worker s =
      submit_worker id k tag submits startup worker s
  run_pty_stream id k tag passes submits startup worker s =
      submit_worker id k tag submits startup worker (others s)
  run_pty_stream id k tag (rejects message) submits startup worker s = record {
    session = release_stream k tag (others s);
    frames = sent_if delivered (error id invalid_params (reported message));
    stop = none;
  }
  run_pty_stream id k tag cut_short submits startup worker s = record {
    session = others s;
    frames = [];
    stop = none;
  }

-- The conversion of `cols` and `rows`: two numbers, a TypeError or ValueError with its text, or an
-- OverflowError, which the handlers do not catch.
pub data Sized : Type 0 where
  sized size_overflows : Sized
  bad_size : String → Sized

module _ (delivered : Frame → Bool) (others : Session → Session) where
  -- The `try` statement at the head of both handlers, where `go` is the rest
  unfoldable pub with_size : (Session → Left) → Value → String → ℕ → Sized → Session → Left
  with_size go id k tag sized s = go s
  with_size go id k tag size_overflows s = record { session = s; frames = []; stop = none }
  with_size go id k tag (bad_size message) s = record {
    session = release_stream k tag s;
    frames = sent_if delivered (error id invalid_params (reported message));
    stop = none;
  }

  -- `_validate`: whether a name was given, and what the executor says of it, with none where the
  -- waiting for that is cancelled
  unfoldable pub validate_container : String → Bool → Option Bool → Validated
  validate_container not_found false exists = rejects not_found
  validate_container not_found true none = cut_short
  validate_container not_found true (some exists) = if exists then passes else rejects not_found

  -- `_handle_pty_session`
  unfoldable pub handle_pty_session :
      Value
      → String
      → ℕ
      → Sized
      → String
      → Bool
      → Option Bool
      → Bool
      → Startup
      → WorkerEnd
      → Session
      → Left
  unfolding with_size validate_container
  handle_pty_session id k tag size not_found named exists submits startup worker s =
      with_size
        (run_pty_stream delivered others id k tag (validate_container not_found named exists)
          submits startup worker)
        id k tag size s

  -- `_handle_host_pty_session`
  unfoldable pub handle_host_pty_session :
      Value → String → ℕ → Sized → Bool → Startup → WorkerEnd → Session → Left
  unfolding with_size
  handle_host_pty_session id k tag size submits startup worker s =
      with_size (run_pty_stream delivered others id k tag not_asked submits startup worker) id k tag
        size s

-- The oldest item is dropped for a `close`: `get_nowait` and then `put_nowait`.
unfoldable pub make_room : Queue → Item → Queue × Bool
make_room q close = (record q { items = rest q.items ++ close ∷ [] }, true)
make_room q _ = (q, false)

abbrev pub offered : Queue → Item → Option Queue → Queue × Bool
offered q item (some q') = (q', true)
offered q item none = make_room q item

-- `_offer`, on the queue of a PTY's thread, whose bound is 256
unfoldable pub offer : Queue → Item → Queue × Bool
unfolding put_nowait make_room
offer q item = offered q item (put_nowait item q)

abbrev pub has_close : List Item → Bool
has_close [] = false
has_close (close ∷ _) = true
has_close (_ ∷ items) = has_close items

-- The frames of a stream's task: nothing, one answer, or one answer and then the stream's end.
abbrev pub AreOrdered : Value → String → List Frame → Type 0
AreOrdered id k [] = Unit
AreOrdered id k (error i _ _ ∷ []) = i ≡ id
AreOrdered id k (result i _ ∷ []) = i ≡ id
AreOrdered id k (result i _ ∷ stream_closed j _ ∷ []) = (i ≡ id) × (j ≡ k)
AreOrdered id k _ = ⊥
