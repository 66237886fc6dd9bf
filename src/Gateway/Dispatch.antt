-- ===== src/Gateway/Dispatch.antt =====
-- agent/gateway.py: `_dispatch_message`, and the read loop of `_handle_session` around it. Times
-- are in milliseconds.
pub mod Replies
pub mod Timeouts
use relay_agent.Base.{
  Bool, List, Option, String, [], false, if◌then◌else◌, leb, max, min, none, not, some, ℕ, ◌*◌,
  ◌++◌, ◌+◌, ◌||◌, ◌∷◌,
}
use relay_agent.Base.Int.{pos, ℤ}
use relay_agent.Gateway.Frame.{
  Frame, Task, container_pty, error, execute_and_reply, host_pty, invalid_params, params_not_object,
  pong, ready, refused, stream_refused, too_many_commands, tunnel,
}
use relay_agent.Gateway.Json.{
  Fields, Value, array, end, integer, is_hashable, is_text, lookup_or, null, object, or_else, text,
}
use relay_agent.Gateway.Session.{
  Item, Queue, Session, bytes, claim_stream, close, invalid_stream_id, max_concurrent_commands,
  pause, resize, resume, stream_ctrl,
}

-- What `float(v)` does: a time, an exception that the handler catches (TypeError, ValueError), or
-- one that it does not (OverflowError). A negative time reads as 0: only its maximum with the
-- session's own timeout is used.
pub data Floated : Type 0 where
  milliseconds : ℕ → Floated
  rejected overflowed : Floated

-- The connection's settings, and Python's conversions. `submits` says whether the thread pool
-- takes work: it does until the interpreter shuts down.
pub record Env : Type 0 where
  pub command_timeout : ℕ
  pub docker_version : String
  pub submits : Bool
  pub b64decode : Value → Option (List ℕ)
  pub int_of : Value → Option ℤ
  pub float_of : Value → Floated

-- A session with what surrounds it: the frames sent, the tasks spawned, the commands that a worker
-- is still busy with, and a supply of identities.
pub record Conn : Type 0 where
  pub sess : Session
  pub sent : List Frame
  pub spawned : List Task
  pub in_flight : List ℕ
  pub serial : ℕ

-- How a handler ended; an exception is logged by `_handle_session`, and the session goes on.
pub data Ending : Type 0 where
  returned raised : Ending

abbrev pub send : Frame → Conn → Conn
send f c = record c { sent = c.sent ++ f ∷ [] }

abbrev pub spawn : Task → Conn → Conn
spawn t c = record c { spawned = c.spawned ++ t ∷ [] }

abbrev pub max_timeout : ℕ
max_timeout = 1800 * 1000

abbrev pub postgres_recreate_timeout : ℕ
postgres_recreate_timeout = 360 * 1000

-- `min(max(command_timeout, _req_t), 1800.0)`
unfoldable pub effective_timeout : ℕ → ℕ → ℕ
effective_timeout command_timeout requested = min (max command_timeout requested) max_timeout

abbrev pub is_one_of : List String → Value → Bool
is_one_of [] v = false
is_one_of (t ∷ ts) v = is_text t v || is_one_of ts v

-- The methods that replace a database container and get more time.
abbrev pub slow_methods : List String
slow_methods =
    "saas.postgres.enable_pitr" ∷ "saas.postgres.retune" ∷ "saas.tenantdb.ensure"
    ∷ "saas.tenantdb.dump" ∷ "saas.tenantdb.restore" ∷ "berth.tenantdb.ensure"
    ∷ "berth.tenantdb.dump" ∷ "berth.tenantdb.restore" ∷ []

unfoldable pub reply_timeout : Value → ℕ → ℕ
reply_timeout method t =
    if is_one_of slow_methods method then max t postgres_recreate_timeout else t

abbrev pub stream_methods : List String
stream_methods = "docker.container.exec_pty" ∷ "saas.host.exec_pty" ∷ "tcp.tunnel.open" ∷ []

-- The params of a request: absent and null are no params; `none` is anything else but an object.
unfoldable pub params_of : Fields → Option Fields
params_of m = elim (lookup_or "params" (object end) m) [
  | null ↦ some end
  | object fs ↦ some fs
  | _ ↦ none
]

-- A tunnel's queue has no bound on its items, a PTY's holds 256.
unfoldable pub stream_queue : Value → ℕ → Queue
stream_queue method tag = record {
  tag = tag;
  maxsize = if is_text "tcp.tunnel.open" method then 0 else 256;
  items = [];
}

unfoldable pub stream_task : Value → Value → Fields → String → ℕ → Task
stream_task method id params k tag =
    if is_text "docker.container.exec_pty" method
    then container_pty id params k tag
    else if is_text "saas.host.exec_pty" method
    then host_pty id params k tag
    else tunnel id params k tag

-- The claim of a stream, made before the task is created.
unfoldable pub open_stream : Value → Value → Fields → Value → Conn → Conn
open_stream id method params (text k) c =
    let (refusal, sess) = claim_stream k (stream_queue method c.serial) c.sess in
    elim refusal [
      | some why ↦ send (error id invalid_params (stream_refused why)) (record c { sess = sess })
      | none ↦
          spawn (stream_task method id params k c.serial)
            (record c { sess = sess; serial = c.serial + 1 })
    ]
open_stream id method params _ c =
    send (error id invalid_params (stream_refused invalid_stream_id)) c

unfoldable pub submit : Env → Value → Value → Fields → ℕ → Conn → Conn × Ending
submit env id method params t c =
    if leb max_concurrent_commands c.sess.pending_commands
    then (send (error id refused too_many_commands) c, returned)
    else if env.submits
    then (
      spawn (execute_and_reply id method params (reply_timeout method t) c.serial) (record c {
        sess = record c.sess { pending_commands = c.sess.pending_commands + 1 };
        in_flight = c.in_flight ++ c.serial ∷ [];
        serial = c.serial + 1;
      }),
      returned,
    )
    else (c, raised)

unfoldable pub route : Env → Value → Value → Fields → ℕ → Conn → Conn × Ending
route env id method params t c =
    if not (is_hashable method)
    then (c, raised)
    else if is_one_of stream_methods method
    then (open_stream id method params (lookup_or "stream_id" (text "") params) c, returned)
    else submit env id method params t c

unfoldable pub answer_request : Env → Fields → ℕ → Conn → Conn × Ending
answer_request env m requested c =
    let id = lookup_or "id" (text "") m in
    elim (params_of m) [
      | none ↦ (send (error id invalid_params params_not_object) c, returned)
      | some params ↦
          route env id (lookup_or "method" (text "") m) params
            (effective_timeout env.command_timeout requested) c
    ]

unfoldable pub timed : Env → Fields → Conn → Floated → Conn × Ending
timed env m c (milliseconds t) = answer_request env m t c
timed env m c rejected = answer_request env m 0 c
timed env m c overflowed = (c, raised)

-- `msg_type == "request"`
unfoldable pub handle_request : Env → Fields → Conn → Conn × Ending
handle_request env m c =
    timed env m c (env.float_of (or_else (lookup_or "timeout" null m) (integer (pos 0))))

-- `_stream_ctrl` with the stream id as the message has it: only texts are keys of the table.
unfoldable pub by_key : Item → Conn → Value → Conn × Ending
by_key item c (text k) = (record c { sess = stream_ctrl k item c.sess }, returned)
by_key item c (array _) = (c, raised)
by_key item c (object _) = (c, raised)
by_key item c _ = (c, returned)

unfoldable pub control_frame : Fields → Item → Conn → Conn × Ending
unfolding by_key
control_frame m item c = by_key item c (lookup_or "stream_id" (text "") m)

unfoldable pub handle_stdin : Env → Fields → Conn → Conn × Ending
handle_stdin env m c = elim (env.b64decode (lookup_or "data" (text "") m)) [
  | none ↦ (c, returned)
  | some chunk ↦ control_frame m (bytes chunk) c
]

-- `int(message.get(key, default) or default)`
unfoldable pub size : Env → String → ℕ → Fields → Option ℤ
size env k default m =
    env.int_of (or_else (lookup_or k (integer (pos default)) m) (integer (pos default)))

unfoldable pub handle_resize : Env → Fields → Conn → Conn × Ending
handle_resize env m c = elim (size env "cols" 80 m) [
  | none ↦ (c, raised)
  | some cols ↦ elim (size env "rows" 24 m) [
    | none ↦ (c, raised)
    | some rows ↦ control_frame m (resize cols rows) c
  ]
]

-- The branches on the message's type.
unfoldable pub by_kind : Env → Fields → Value → Conn → Conn × Ending
by_kind env m kind c =
    if is_text "hello" kind
    then (send (ready env.docker_version) c, returned)
    else if is_text "ping" kind
    then (send pong c, returned)
    else if is_text "stream_stdin" kind
    then handle_stdin env m c
    else if is_text "stream_resize" kind
    then handle_resize env m c
    else if is_text "stream_pause" kind
    then control_frame m pause c
    else if is_text "stream_resume" kind
    then control_frame m resume c
    else if is_text "stream_close" kind
    then control_frame m close c
    else if is_text "request" kind
    then handle_request env m c
    else (c, returned)

-- `_dispatch_message` on what `json.loads` returned; `none` is a frame that is no JSON.
unfoldable pub dispatch_message : Env → Option Value → Conn → Conn × Ending
dispatch_message env (some (object m)) c = by_kind env m (lookup_or "type" null m) c
dispatch_message env _ c = (c, returned)
