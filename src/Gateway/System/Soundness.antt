-- ===== src/Gateway/System/Soundness.antt =====
-- What holds of a connection whatever happens to it.
use relay_agent.Base.{
  Bool-cases, List, Option, Option-cases, [], arith, inl, inr, leb, length, length-append, refl,
  some, true, ℕ, ◌+◌, ◌∙◌, ◌∷◌, ◌≡◌, ◌≤◌,
}
use relay_agent.Gateway.Dispatch.{
  Conn, Env, Floated, answer_request, by_key, by_kind, control_frame, dispatch_message,
  handle_request, handle_resize, handle_stdin, is_one_of, milliseconds, open_stream, overflowed,
  params_of, rejected, route, send, size, stream_methods, stream_queue, submit, timed,
}
use relay_agent.Gateway.Frame.{Frame, pong, ready}
use relay_agent.Gateway.Json.{Fields, Value, is_hashable, lookup_or, object, text}
use relay_agent.Gateway.Session.{
  Item, Session, bytes, claim_stream, close, drain_stream_bytes, max_concurrent_commands, pause,
  resize, resume,
}
use relay_agent.Gateway.Session.Accounting.{
  IsAccounted, drain_stream_bytes-IsAccounted, new-IsAccounted, stream_ctrl-IsAccounted,
}
use relay_agent.Gateway.Session.Claims.{
  claim_stream-IsAccounted, pending-claim_stream, pending-release_stream, pending-stream_ctrl,
  pending-take_item, release_stream-IsAccounted, take_item-IsAccounted, touch-IsAccounted,
}
use relay_agent.Gateway.Session.Sums.{IsBounded}
use relay_agent.Gateway.System.{
  Reach, Step, complete, connected, drain, emit, has_future, next, receive, release, release_slot,
  remove_future, set_stop, take,
}

-- What holds of a connection at every moment.
pub record IsSound (c : Conn) : Type 0 where
  pub accounted : IsAccounted c.sess
  pub counted : c.sess.pending_commands ≡ length c.in_flight
  pub throttled : c.sess.pending_commands ≤ max_concurrent_commands

length-remove_future :
    (f : ℕ) (fs : List ℕ) → has_future f fs ≡ true → length (remove_future f fs) + 1 ≡ length fs
unfolding has_future remove_future
length-remove_future f [] h = ground arith
length-remove_future f (g ∷ fs) h = ground (arith, length-remove_future f fs)

-- Another session of the same commands.
with_session :
    {c : Conn} (s : Session)
    → IsSound c
    → IsAccounted s
    → s.pending_commands ≡ c.sess.pending_commands
    → IsSound (record c { sess = s })
with_session s h a e = record {
  accounted = a;
  counted = e ∙ h.counted;
  throttled = rw e h.throttled;
}

-- Frames, tasks and identities do not matter.
same_session : {c d : Conn} → IsSound c → d.sess ≡ c.sess → d.in_flight ≡ c.in_flight → IsSound d
same_session h e f = record {
  accounted = rw e h.accounted;
  counted = rw (e, f) h.counted;
  throttled = rw e h.throttled;
}

send-IsSound : (f : Frame) {c : Conn} → IsSound c → IsSound (send f c)
send-IsSound f h = same_session h refl refl

module _ {c : Conn} (h : IsSound c) where
  control_frame-IsSound : (m : Fields) (item : Item) → IsSound (control_frame m item c).0
  unfolding control_frame
  control_frame-IsSound m item = go (lookup_or "stream_id" (text "") m)
    where
      go : (v : Value) → IsSound (by_key item c v).0
      go (text k) =
          with_session _ h (stream_ctrl-IsAccounted k item h.accounted)
            (pending-stream_ctrl k c.sess item)
      go v = h

  handle_stdin-IsSound : (env : Env) (m : Fields) → IsSound (handle_stdin env m c).0
  unfolding handle_stdin
  handle_stdin-IsSound env m = elim (Option-cases (env.b64decode (lookup_or "data" (text "") m))) [
    | inl malformed ↦ rw (malformed, handle_stdin) h
    | inr (chunk, e) ↦ rw (e, handle_stdin) (control_frame-IsSound m (bytes chunk))
  ]

  handle_resize-IsSound : (env : Env) (m : Fields) → IsSound (handle_resize env m c).0
  unfolding handle_resize
  handle_resize-IsSound env m = elim (Option-cases (size env "cols" 80 m)) [
    | inl bad ↦ rw (bad, handle_resize) h
    | inr (cols, e) ↦ elim (Option-cases (size env "rows" 24 m)) [
      | inl bad ↦ rw (e, bad, handle_resize) h
      | inr (rows, f) ↦ rw (e, f, handle_resize) (control_frame-IsSound m (resize cols rows))
    ]
  ]

  queue-IsBounded : (method : Value) (tag : ℕ) → IsBounded (stream_queue method tag)
  unfolding stream_queue
  queue-IsBounded method tag = ground arith

  open_stream-IsSound :
      (id method : Value) (params : Fields) (v : Value) → IsSound (open_stream id method params v c)
  unfolding open_stream
  open_stream-IsSound id method params (text k) =
      elim (Option-cases (claim_stream k (stream_queue method c.serial) c.sess).0) [
        | inl granted ↦ rw (granted, open_stream) (same_session claimed refl refl)
        | inr (why, e) ↦ rw (e, open_stream) (same_session claimed refl refl)
      ]
    where
      claimed :
          IsSound (record c { sess = (claim_stream k (stream_queue method c.serial) c.sess).1 })
      claimed =
          with_session _ h
            (claim_stream-IsAccounted k (stream_queue method c.serial)
              (queue-IsBounded method c.serial) h.accounted)
            (pending-claim_stream k c.sess (stream_queue method c.serial))
  open_stream-IsSound id method params _ = same_session h refl refl

  submit-IsSound :
      (env : Env) (id method : Value) (params : Fields) (t : ℕ)
      → IsSound (submit env id method params t c).0
  unfolding submit
  submit-IsSound env id method params t =
      elim (Bool-cases (leb max_concurrent_commands c.sess.pending_commands)) [
        | inl busy ↦ rw busy (same_session h refl refl)
        | inr idle ↦ elim (Bool-cases env.submits) [
          | inl works ↦
              rw (idle, works)
                (record {
                  accounted = touch-IsAccounted _ _ h.accounted;
                  counted = omega (arith, h.counted, length-append c.in_flight (c.serial ∷ []));
                  throttled = ground (arith, idle);
                })
          | inr shut ↦ rw (idle, shut) h
        ]
      ]

  route-IsSound :
      (env : Env) (id method : Value) (params : Fields) (t : ℕ)
      → IsSound (route env id method params t c).0
  unfolding route
  route-IsSound env id method params t = elim (Bool-cases (is_hashable method)) [
    | inr key_error ↦ rw key_error h
    | inl key ↦ elim (Bool-cases (is_one_of stream_methods method)) [
      | inl streams ↦
          rw (key, streams)
            (open_stream-IsSound id method params (lookup_or "stream_id" (text "") params))
      | inr commands ↦ rw (key, commands) (submit-IsSound env id method params t)
    ]
  ]

  answer_request-IsSound : (env : Env) (m : Fields) (t : ℕ) → IsSound (answer_request env m t c).0
  unfolding answer_request
  answer_request-IsSound env m t = elim (Option-cases (params_of m)) [
    | inl wrong ↦ rw (wrong, answer_request) (same_session h refl refl)
    | inr (params, e) ↦ rw (e, answer_request) (route-IsSound env _ _ params _)
  ]

  timed-IsSound : (env : Env) (m : Fields) (f : Floated) → IsSound (timed env m c f).0
  unfolding timed
  timed-IsSound env m (milliseconds t) = answer_request-IsSound env m t
  timed-IsSound env m rejected = answer_request-IsSound env m 0
  timed-IsSound env m overflowed = h

  handle_request-IsSound : (env : Env) (m : Fields) → IsSound (handle_request env m c).0
  unfolding handle_request
  handle_request-IsSound env m = timed-IsSound env m _

  by_kind-IsSound : (env : Env) (m : Fields) (kind : Value) → IsSound (by_kind env m kind c).0
  unfolding by_kind
  by_kind-IsSound env m kind = ground (
    arith,
    send-IsSound (ready env.docker_version) h,
    send-IsSound pong h,
    handle_stdin-IsSound env m,
    handle_resize-IsSound env m,
    control_frame-IsSound m pause,
    control_frame-IsSound m resume,
    control_frame-IsSound m close,
    handle_request-IsSound env m,
  )

-- Any message, well-formed or not, keeps a sound connection sound.
pub dispatch_message-IsSound :
    (env : Env) (m : Option Value) {c : Conn} → IsSound c → IsSound (dispatch_message env m c).0
unfolding dispatch_message
dispatch_message-IsSound env (some (object m)) h = by_kind-IsSound h env m _
dispatch_message-IsSound env _ h = h

Step-IsSound : {env : Env} {c d : Conn} → Step env c d → IsSound c → IsSound d
unfolding release_slot
Step-IsSound {env} (receive m) h = dispatch_message-IsSound env m h
Step-IsSound (complete f {c} running) h = record {
  accounted = touch-IsAccounted _ _ h.accounted;
  counted = omega (arith, h.counted, length-remove_future f c.in_flight running);
  throttled = omega (arith, h.throttled);
}
Step-IsSound (take k tag {c}) h =
    with_session _ h (take_item-IsAccounted k tag h.accounted) (pending-take_item k c.sess tag)
Step-IsSound (drain k n) h =
    with_session _ h (drain_stream_bytes-IsAccounted k n h.accounted)
      (unfold drain_stream_bytes in refl)
Step-IsSound (release k tag {c}) h =
    with_session _ h (release_stream-IsAccounted k tag h.accounted)
      (pending-release_stream k c.sess tag)
Step-IsSound (set_stop k b) h = with_session _ h (touch-IsAccounted _ _ h.accounted) refl
Step-IsSound (emit f) h = send-IsSound f h

-- At every moment of a connection, whatever the control plane sends and however its tasks run:
-- the bytes counted in total are the sum over the streams, no stream counts more than 4 MiB and
-- all together not more than 16 MiB, at most 64 streams are open and no bounded queue is over its
-- bound, streams marked as closing are open ones, and the pending commands are those that workers
-- are busy with, at most 32.
pub Reach-IsSound : {env : Env} {c : Conn} → Reach env c → IsSound c
Reach-IsSound connected = record {
  accounted = new-IsAccounted;
  counted = refl;
  throttled = omega arith;
}
Reach-IsSound (next r s) = Step-IsSound s (Reach-IsSound r)
