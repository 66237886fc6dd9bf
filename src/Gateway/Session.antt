-- ===== src/Gateway/Session.antt =====
-- agent/gateway.py: `_Session`, its stream table and the byte accounting of what is buffered
-- between the WebSocket and a stream's target.
pub mod Sums
pub mod Accounting
pub mod Claims
use relay_agent.Base.{
  Bool, List, Option, String, [], discard, false, if◌then◌else◌, is_some, leb, length, ltb, member,
  min, none, some, str_eq, ℕ, ◌&&◌, ◌*◌, ◌++◌, ◌+◌, ◌-◌, ◌==◌, ◌||◌, ◌∷◌,
}
use relay_agent.Base.Dict.{Dict, get, pop, put}
use relay_agent.Base.Int.{ℤ}

abbrev pub max_concurrent_commands : ℕ
max_concurrent_commands = 32

abbrev pub max_active_streams : ℕ
max_active_streams = 64

abbrev pub tunnel_max_buffered_bytes : ℕ
tunnel_max_buffered_bytes = 4 * 1024 * 1024

abbrev pub session_max_buffered_bytes : ℕ
session_max_buffered_bytes = 16 * 1024 * 1024

-- The control tuples of a stream.
pub data Item : Type 0 where
  bytes : List ℕ → Item
  resize : ℤ → ℤ → Item
  pause resume close : Item

-- An `asyncio.Queue`. `tag` is the object's identity, which `is` compares; a maxsize of 0 is no
-- bound.
pub record Queue : Type 0 where
  pub tag : ℕ
  pub maxsize : ℕ
  pub items : List Item

-- `Queue.full`
unfoldable pub is_full : Queue → Bool
is_full q = ltb 0 q.maxsize && leb q.maxsize (length q.items)

-- `put_nowait`: `none` is QueueFull.
unfoldable pub put_nowait : Item → Queue → Option Queue
unfolding is_full
put_nowait item q = if is_full q then none else some (record q { items = q.items ++ item ∷ [] })

-- `with suppress(asyncio.QueueFull): q.put_nowait(item)`
unfoldable pub put_suppressed : Item → Queue → Queue
unfolding put_nowait
put_suppressed item q = elim (put_nowait item q) [ none ↦ q | some q' ↦ q' ]

-- The fields that the operations below read or write. Of the tasks only their number is kept.
pub record Session : Type 0 where
  pub streams : Dict Queue
  pub stop_events : Dict Bool
  pub stream_bytes : Dict ℕ
  pub total_stream_bytes : ℕ
  pub pending_commands : ℕ
  pub closing_streams : List String

-- `_Session.__init__`
abbrev pub new : Session
new = record {
  streams = [];
  stop_events = [];
  stream_bytes = [];
  total_stream_bytes = 0;
  pending_commands = 0;
  closing_streams = [];
}

abbrev pub or_zero : Option ℕ → ℕ
or_zero none = 0
or_zero (some n) = n

-- `stream_bytes.get(stream_id, 0)`
abbrev pub buffered : String → Session → ℕ
buffered k s = or_zero (get k s.stream_bytes)

-- `closing_streams.add`
unfoldable pub add : String → List String → List String
add k ks = if member k ks then ks else ks ++ k ∷ []

abbrev pub over_ceiling : ℕ → ℕ → Bool
over_ceiling held total = ltb tunnel_max_buffered_bytes held || ltb session_max_buffered_bytes total

-- The byte-bounded branch of `_stream_ctrl`, for a queue that is there and not closing.
unfoldable pub accept_bytes : String → List ℕ → Queue → Session → Session
unfolding add
accept_bytes k chunk q s =
    let n = length chunk in
    let held = buffered k s + n in
    let total = s.total_stream_bytes + n in
    if ltb tunnel_max_buffered_bytes held || ltb session_max_buffered_bytes total
    then (record s {
      closing_streams = add k s.closing_streams;
      streams = put k (put_suppressed close q) s.streams;
    })
    else elim (put_nowait (bytes chunk) q) [
      | none ↦ s
      | some q' ↦ record s {
        streams = put k q' s.streams;
        stream_bytes = put k held s.stream_bytes;
        total_stream_bytes = total;
      }
    ]

unfoldable pub control : String → Item → Queue → Session → Session
unfolding accept_bytes
control k (bytes chunk) q s = accept_bytes k chunk q s
control k item q s = record s { streams = put k (put_suppressed item q) s.streams }

-- `_stream_ctrl`
unfoldable pub stream_ctrl : String → Item → Session → Session
unfolding control
stream_ctrl k item s = elim (get k s.streams) [
  | none ↦ s
  | some q ↦ if member k s.closing_streams then s else control k item q s
]

-- `_drain_stream_bytes`
unfoldable pub drain_stream_bytes : String → ℕ → Session → Session
drain_stream_bytes k count s =
    let drained = min count (buffered k s) in
    record s {
      stream_bytes =
          if is_some (get k s.stream_bytes)
          then put k (buffered k s - drained) s.stream_bytes
          else s.stream_bytes;
      total_stream_bytes = s.total_stream_bytes - drained;
    }

pub data ClaimError : Type 0 where
  invalid_stream_id : ClaimError
  already_in_use : String → ClaimError
  too_many_streams : ClaimError

-- `_claim_stream`, for an id that is a text; any other id is `invalid_stream_id` too.
unfoldable pub claim_stream : String → Queue → Session → Option ClaimError × Session
claim_stream k q s =
    if str_eq k ""
    then (some invalid_stream_id, s)
    else if is_some (get k s.streams)
    then (some (already_in_use k), s)
    else if leb max_active_streams (length s.streams)
    then (some too_many_streams, s)
    else (none, record s { streams = put k q s.streams; stream_bytes = put k 0 s.stream_bytes })

-- `sess.streams.get(stream_id) is ctrl_q`
unfoldable pub owns : String → ℕ → Session → Bool
owns k tag s = elim (get k s.streams) [ none ↦ false | some q ↦ q.tag == tag ]

unfoldable pub drop_mapping : String → ℕ → Session → Session
unfolding owns
drop_mapping k tag s =
    if owns k tag s
    then (record s {
      streams = pop k s.streams;
      stream_bytes = pop k s.stream_bytes;
      total_stream_bytes = s.total_stream_bytes - buffered k s;
    })
    else s

-- `_release_stream`
unfoldable pub release_stream : String → ℕ → Session → Session
unfolding drop_mapping
release_stream k tag s =
    let s' = drop_mapping k tag s in
    record s' { stop_events = pop k s'.stop_events; closing_streams = discard k s'.closing_streams }

abbrev pub first : List Item → Option Item
first [] = none
first (item ∷ _) = some item

abbrev pub rest : List Item → List Item
rest [] = []
rest (_ ∷ items) = items

-- `await ctrl_q.get()` by the task that owns the queue: the oldest item, and the session with it
-- taken out. With `none` the task waits.
unfoldable pub take_item : String → ℕ → Session → Option Item × Session
take_item k tag s = elim (get k s.streams) [
  | none ↦ (none, s)
  | some q ↦
      if q.tag == tag
      then (
        first q.items,
        record s { streams = put k (record q { items = rest q.items }) s.streams },
      )
      else (none, s)
]
