-- ===== src/Gateway/Dispatch/Replies.antt =====
-- Every request is answered: at once by an error, or by the one task that it starts.
use relay_agent.Base.{
  Bool-cases, Option-cases, String, [], arith, inl, inr, leb, refl, ℕ, ◌++◌, ◌∷◌, ◌≡◌,
}
use relay_agent.Gateway.Dispatch.{
  Conn, Ending, Env, Floated, answer_request, handle_request, is_one_of, milliseconds, open_stream,
  overflowed, params_of, raised, rejected, returned, route, stream_methods, stream_queue,
  stream_task, submit, timed,
}
use relay_agent.Gateway.Frame.{
  ErrorCode, Reason, Task, error, invalid_params, params_not_object, refused, request_of,
  stream_refused, too_many_commands,
}
use relay_agent.Gateway.Json.{Fields, Value, is_hashable, lookup_or, text}
use relay_agent.Gateway.Session.{claim_stream, invalid_stream_id, max_concurrent_commands}

-- How a request with this id was taken: an exception left everything as it was; one error reply
-- went out and no task was started; or nothing was sent and one task has to answer it.
pub data Takes (id : Value) (c : Conn) : Conn × Ending → Type 0 where
  drops : Takes id c (c, raised)
  refuses :
      (code : ErrorCode) (why : Reason) {d : Conn}
      → d.sent ≡ c.sent ++ error id code why ∷ []
      → d.spawned ≡ c.spawned
      → Takes id c (d, returned)
  starts :
      (t : Task) {d : Conn}
      → d.sent ≡ c.sent
      → d.spawned ≡ c.spawned ++ t ∷ []
      → request_of t ≡ id
      → Takes id c (d, returned)

request_of-stream_task :
    (method id : Value) (params : Fields) (k : String) (tag : ℕ)
    → request_of (stream_task method id params k tag) ≡ id
unfolding stream_task request_of
request_of-stream_task method id params k tag = ground arith

open_stream-Takes :
    (id method : Value) (params : Fields) (v : Value) (c : Conn)
    → Takes id c (open_stream id method params v c, returned)
unfolding open_stream
open_stream-Takes id method params (text k) c =
    elim (Option-cases (claim_stream k (stream_queue method c.serial) c.sess).0) [
      | inl granted ↦
          rw (granted, open_stream)
            (starts (stream_task method id params k c.serial) refl refl
              (request_of-stream_task method id params k c.serial))
      | inr (why, e) ↦ rw (e, open_stream) (refuses invalid_params (stream_refused why) refl refl)
    ]
open_stream-Takes id method params _ c =
    refuses invalid_params (stream_refused invalid_stream_id) refl refl

submit-Takes :
    (env : Env) (id method : Value) (params : Fields) (t : ℕ) (c : Conn)
    → Takes id c (submit env id method params t c)
unfolding submit request_of
submit-Takes env id method params t c =
    elim (Bool-cases (leb max_concurrent_commands c.sess.pending_commands)) [
      | inl busy ↦ rw busy (refuses refused too_many_commands refl refl)
      | inr idle ↦ elim (Bool-cases env.submits) [
        | inl works ↦ rw (idle, works) (starts _ refl refl refl)
        | inr shut ↦ rw (idle, shut) drops
      ]
    ]

route-Takes :
    (env : Env) (id method : Value) (params : Fields) (t : ℕ) (c : Conn)
    → Takes id c (route env id method params t c)
unfolding route
route-Takes env id method params t c = elim (Bool-cases (is_hashable method)) [
  | inr key_error ↦ rw key_error drops
  | inl key ↦ elim (Bool-cases (is_one_of stream_methods method)) [
    | inl streams ↦
        rw (key, streams)
          (open_stream-Takes id method params (lookup_or "stream_id" (text "") params) c)
    | inr commands ↦ rw (key, commands) (submit-Takes env id method params t c)
  ]
]

answer_request-Takes :
    (env : Env) (m : Fields) (requested : ℕ) (c : Conn)
    → Takes (lookup_or "id" (text "") m) c (answer_request env m requested c)
unfolding answer_request
answer_request-Takes env m requested c = elim (Option-cases (params_of m)) [
  | inl wrong ↦ rw (wrong, answer_request) (refuses invalid_params params_not_object refl refl)
  | inr (params, e) ↦ rw (e, answer_request) (route-Takes env _ _ params _ c)
]

float_of-Takes :
    (env : Env) (m : Fields) (c : Conn) (f : Floated)
    → Takes (lookup_or "id" (text "") m) c (timed env m c f)
unfolding timed
float_of-Takes env m c (milliseconds t) = answer_request-Takes env m t c
float_of-Takes env m c rejected = answer_request-Takes env m 0 c
float_of-Takes env m c overflowed = drops

-- Whatever a request holds, its handler raises and changes nothing, or sends one error with the
-- request's id and starts no task, or sends nothing and starts one task that carries the id.
pub handle_request-Takes :
    (env : Env) (m : Fields) (c : Conn)
    → Takes (lookup_or "id" (text "") m) c (handle_request env m c)
unfolding handle_request
handle_request-Takes env m c = float_of-Takes env m c _
