-- ===== src/Gateway/Frame.antt =====
-- agent/gateway.py: the frames that the agent sends, and the tasks that a request starts.
use relay_agent.Base.{List, Option, String, none, some, true, ℕ}
use relay_agent.Base.Int.{ℤ}
use relay_agent.Gateway.Json.{Fields, Value, Values, boolean, end, field, object}
use relay_agent.Gateway.Session.{ClaimError}

-- The JSON-RPC codes that the gateway uses: -32602, -32000, -32001 and -32002.
pub data ErrorCode : Type 0 where
  invalid_params refused failed not_started : ErrorCode

pub data Reason : Type 0 where
  params_not_object too_many_commands : Reason
  stream_refused : ClaimError → Reason
  timed_out : ℕ → Reason
  reported : String → Reason

pub data Frame : Type 0 where
  ready : String → Frame
  pong : Frame
  metrics : Values → Frame
  result : Value → Value → Frame
  error : Value → ErrorCode → Reason → Frame
  stream_data : String → List ℕ → Frame
  stream_closed : String → ℤ → Frame

-- The request that a frame answers.
unfoldable pub answered : Frame → Option Value
answered (result id _) = some id
answered (error id _ _) = some id
answered _ = none

-- `{"ok": True}`
abbrev pub ok_value : Value
ok_value = object (field "ok" (boolean true) end)

-- A coroutine with its arguments. Streams carry the id and the queue that were claimed for them;
-- a command its timeout in milliseconds and the future that its worker completes.
pub data Task : Type 0 where
  container_pty host_pty tunnel : Value → Fields → String → ℕ → Task
  execute_and_reply : Value → Value → Fields → ℕ → ℕ → Task

-- The request that a task has to answer.
unfoldable pub request_of : Task → Value
request_of (container_pty id _ _ _) = id
request_of (host_pty id _ _ _) = id
request_of (tunnel id _ _ _) = id
request_of (execute_and_reply id _ _ _ _) = id
