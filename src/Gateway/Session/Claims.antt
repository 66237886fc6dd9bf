-- ===== src/Gateway/Session/Claims.antt =====
-- The accounting under claims and releases of streams, and under what the tasks do.
use relay_agent.Base.{
  Bool, Bool-cases, Option-cases, String, ap, arith, discard, eq_iff, false, inl, inr, is_some,
  length, member, member-discard_of, member-discard_self, same, str_eq, sym, true, ℕ, ◌-◌, ◌<◌,
  ◌==◌, ◌∙◌, ◌≡◌,
}
use relay_agent.Base.Dict.{
  Dict, get, get-keys, keys, keys-pop, keys-put, length-pop-le, length-put_new, member-pop_key_ne,
  member-put_key, pop, pop_key, pop_key-AreDistinct, put, put_key, put_key-AreDistinct,
}
use relay_agent.Gateway.Session.{
  Item, Queue, Session, accept_bytes, buffered, bytes, claim_stream, control, max_active_streams,
  owns, release_stream, rest, stream_ctrl, take_item,
}
use relay_agent.Gateway.Session.Accounting.{IsAccounted, replace-IsAccounted}
use relay_agent.Gateway.Session.Sums.{
  IsBounded, get-IsBounded, pop-AreBounded, pop-AreCapped, put-AreBounded, put-AreCapped,
  sum_bytes-pop, sum_bytes-put,
}

-- A claim of an id that is not in use, below the limit.
claim_new-IsAccounted :
    (k : String) (q : Queue) {s : Session}
    → IsBounded q
    → IsAccounted s
    → is_some (get k s.streams) ≡ false
    → length s.streams < max_active_streams
    → IsAccounted (record s { streams = put k q s.streams; stream_bytes = put k 0 s.stream_bytes })
claim_new-IsAccounted k q {s} b h fresh room = record {
  agree = keys-put k 0 s.stream_bytes ∙ ap (put_key k) h.agree ∙ sym (keys-put k q s.streams);
  distinct = rw (keys-put k q s.streams) (put_key-AreDistinct k (keys s.streams) h.distinct);
  exact = ground (arith, h.exact, sum_bytes-put k 0 s.stream_bytes, unknown);
  capped = put-AreCapped k 0 s.stream_bytes (omega arith) h.capped;
  session_capped = h.session_capped;
  admitted = omega (arith, length-put_new k q s.streams (ground arith));
  bounded = put-AreBounded k q s.streams b h.bounded;
  closing = λ j c.
      rw (keys-put k q s.streams, member-put_key k j (keys s.streams))
        (ground (arith, h.closing j));
}
  where
    unknown : is_some (get k s.stream_bytes) ≡ false
    unknown = get-keys k s.stream_bytes ∙ ap (member k) h.agree ∙ sym (get-keys k s.streams) ∙ fresh

-- Claiming a stream, with a queue within its bound, keeps the accounting, whether it is granted
-- or refused.
pub claim_stream-IsAccounted :
    (k : String) (q : Queue) {s : Session}
    → IsBounded q
    → IsAccounted s
    → IsAccounted (claim_stream k q s).1
unfolding claim_stream
claim_stream-IsAccounted k q {s} b h = ground (arith, claim_new-IsAccounted k q b h)

-- Releasing a stream takes its bytes off the total.
pub drop_mapping-IsAccounted :
    (k : String) (tag : ℕ) {s : Session}
    → IsAccounted s
    → owns k tag s ≡ true
    → IsAccounted (record s {
      streams = pop k s.streams;
      stream_bytes = pop k s.stream_bytes;
      total_stream_bytes = s.total_stream_bytes - buffered k s;
      stop_events = pop k s.stop_events;
      closing_streams = discard k s.closing_streams;
    })
drop_mapping-IsAccounted k tag {s} h own = record {
  agree = keys-pop k s.stream_bytes ∙ ap (pop_key k) h.agree ∙ sym (keys-pop k s.streams);
  distinct = rw (keys-pop k s.streams) (pop_key-AreDistinct k (keys s.streams) h.distinct);
  exact = omega (arith, h.exact, sum_bytes-pop k s.stream_bytes);
  capped = pop-AreCapped k s.stream_bytes h.capped;
  session_capped = omega (arith, h.session_capped);
  admitted = omega (arith, h.admitted, length-pop-le k s.streams);
  bounded = pop-AreBounded k s.streams h.bounded;
  closing = λ j c. rw (keys-pop k s.streams) (elim (Bool-cases (str_eq k j)) [
    | inl same ↦ ground (arith, eq_iff k j, member-discard_self k s.closing_streams)
    | inr other ↦
        rw (member-pop_key_ne k j (keys s.streams) other)
          (h.closing j (member-discard_of k j s.closing_streams c))
  ]);
}

forget-IsAccounted :
    (k : String) {s : Session}
    → IsAccounted s
    → IsAccounted (record s {
      stop_events = pop k s.stop_events;
      closing_streams = discard k s.closing_streams;
    })
forget-IsAccounted k {s} h = record {
  agree = h.agree;
  distinct = h.distinct;
  exact = h.exact;
  capped = h.capped;
  session_capped = h.session_capped;
  admitted = h.admitted;
  bounded = h.bounded;
  closing = λ j c. h.closing j (member-discard_of k j s.closing_streams c);
}

-- Releasing a stream keeps the accounting, whether the queue is the stream's own or not.
pub release_stream-IsAccounted :
    (k : String) (tag : ℕ) {s : Session} → IsAccounted s → IsAccounted (release_stream k tag s)
unfolding release_stream
release_stream-IsAccounted k tag {s} h = elim (Bool-cases (owns k tag s)) [
  | inl own ↦ rw (own, release_stream) (drop_mapping-IsAccounted k tag h own)
  | inr other ↦ rw (other, release_stream) (forget-IsAccounted k h)
]

rest-IsBounded : (q : Queue) → IsBounded q → IsBounded (record q { items = rest q.items })
rest-IsBounded q b = ground arith

-- A task that takes an item from its queue keeps the accounting.
pub take_item-IsAccounted :
    (k : String) (tag : ℕ) {s : Session} → IsAccounted s → IsAccounted (take_item k tag s).1
unfolding take_item
take_item-IsAccounted k tag {s} h = elim (Option-cases (get k s.streams)) [
  | inl missing ↦ rw (missing, take_item) h
  | inr (q, here) ↦ elim (Bool-cases (q.tag == tag)) [
    | inl own ↦
        rw (here, own, take_item)
          (replace-IsAccounted h k q here (record q { items = rest q.items })
            (rest-IsBounded q (get-IsBounded k s.streams {q = q} h.bounded here)))
    | inr other ↦ rw (here, other, take_item) h
  ]
]

-- The other fields may change freely.
pub touch-IsAccounted :
    {s : Session} (n : ℕ) (events : Dict Bool)
    → IsAccounted s
    → IsAccounted (record s { pending_commands = n; stop_events = events })
touch-IsAccounted n events h = record {
  agree = h.agree;
  distinct = h.distinct;
  exact = h.exact;
  capped = h.capped;
  session_capped = h.session_capped;
  admitted = h.admitted;
  bounded = h.bounded;
  closing = h.closing;
}

-- No stream operation counts as a command.
module _ (k : String) (s : Session) where
  pub pending-stream_ctrl :
      (item : Item) → (stream_ctrl k item s).pending_commands ≡ s.pending_commands
  unfolding stream_ctrl control accept_bytes
  pending-stream_ctrl (bytes chunk) = ground arith
  pending-stream_ctrl item = ground arith

  pub pending-claim_stream :
      (q : Queue) → (claim_stream k q s).1.pending_commands ≡ s.pending_commands
  unfolding claim_stream
  pending-claim_stream q = ground arith

  pub pending-release_stream :
      (tag : ℕ) → (release_stream k tag s).pending_commands ≡ s.pending_commands
  unfolding release_stream
  pending-release_stream tag = ground arith

  pub pending-take_item : (tag : ℕ) → (take_item k tag s).1.pending_commands ≡ s.pending_commands
  unfolding take_item
  pending-take_item tag = ground arith
