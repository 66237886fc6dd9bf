-- ===== src/Gateway/Session/Accounting.antt =====
-- The byte accounting of a session stays exact and within its ceilings under the operations on a
-- stream that is there.
use relay_agent.Base.{
  Bool, Bool-cases, List, Option-cases, String, [], ap, arith, eq_iff, false, inl, inr, is_some,
  length, member, member-append, min, some, str_eq, subst, sym, true, ℕ, ◌+◌, ◌-◌, ◌||◌, ◌∙◌, ◌∷◌,
  ◌≡◌, ◌≤◌,
}
use relay_agent.Base.Dict.{
  AreDistinct, get, get-keys, keys, keys-put, length-keys, put, put_key_old,
}
use relay_agent.Gateway.Dispatch.{open_stream}
use relay_agent.Gateway.Session.{
  Item, Queue, Session, accept_bytes, add, buffered, bytes, close, control, drain_stream_bytes,
  max_active_streams, new, over_ceiling, put_nowait, session_max_buffered_bytes, stream_ctrl,
  tunnel_max_buffered_bytes,
}
use relay_agent.Gateway.Session.Sums.{
  AreBounded, AreCapped, IsBounded, get-AreCapped, get-IsBounded, get-sum_bytes, put-AreBounded,
  put-AreCapped, put_nowait-IsBounded, put_suppressed-IsBounded, sum_bytes, sum_bytes-put,
}

-- What holds of a session between any two operations.
pub record IsAccounted (s : Session) : Type 0 where
  pub agree : keys s.stream_bytes ≡ keys s.streams
  pub distinct : AreDistinct (keys s.streams)
  pub exact : s.total_stream_bytes ≡ sum_bytes s.stream_bytes
  pub capped : AreCapped s.stream_bytes
  pub session_capped : s.total_stream_bytes ≤ session_max_buffered_bytes
  pub admitted : length s.streams ≤ max_active_streams
  pub bounded : AreBounded s.streams
  pub closing : (k : String) → member k s.closing_streams ≡ true → member k (keys s.streams) ≡ true

pub new-IsAccounted : IsAccounted new
unfolding member
new-IsAccounted = ground arith

pub member-add :
    (k j : String) (ks : List String) → member j (add k ks) ≡ (str_eq k j || member j ks)
unfolding add member
member-add k j ks = elim (Bool-cases (member k ks)) [
  | inl old ↦ ground (arith, eq_iff k j)
  | inr new_one ↦ rw (new_one, member-append j ks (k ∷ [])) (ground (arith, eq_iff k j))
]

-- Replacing the queue of a stream that is there, with the bytes untouched.
module _ {s : Session} (h : IsAccounted s) (k : String) (q : Queue)
    (here : get k s.streams ≡ some q) where
  known : member k (keys s.streams) ≡ true
  known = ground (arith, get-keys k s.streams)

  known_bytes : member k (keys s.stream_bytes) ≡ true
  known_bytes = rw h.agree known

  keys_kept : (q' : Queue) → keys (put k q' s.streams) ≡ keys s.streams
  keys_kept q' = keys-put k q' s.streams ∙ put_key_old k (keys s.streams) known

  keys_kept_bytes : (n : ℕ) → keys (put k n s.stream_bytes) ≡ keys s.stream_bytes
  keys_kept_bytes n = keys-put k n s.stream_bytes ∙ put_key_old k (keys s.stream_bytes) known_bytes

  length_kept : (q' : Queue) → length (put k q' s.streams) ≡ length s.streams
  length_kept q' =
      omega
        (arith, length-keys (put k q' s.streams), length-keys s.streams, ap length (keys_kept q'))

  pub replace-IsAccounted :
      (q' : Queue) → IsBounded q' → IsAccounted (record s { streams = put k q' s.streams })
  replace-IsAccounted q' b = record {
    agree = h.agree ∙ sym (keys_kept q');
    distinct = rw (keys_kept q') h.distinct;
    exact = h.exact;
    capped = h.capped;
    session_capped = h.session_capped;
    admitted = rw (length_kept q') h.admitted;
    bounded = put-AreBounded k q' s.streams b h.bounded;
    closing = λ j c. rw (keys_kept q') (h.closing j c);
  }

  close-IsAccounted :
      (q' : Queue)
      → IsBounded q'
      → IsAccounted
          (record s { closing_streams = add k s.closing_streams; streams = put k q' s.streams })
  close-IsAccounted q' b = record {
    agree = h.agree ∙ sym (keys_kept q');
    distinct = rw (keys_kept q') h.distinct;
    exact = h.exact;
    capped = h.capped;
    session_capped = h.session_capped;
    admitted = rw (length_kept q') h.admitted;
    bounded = put-AreBounded k q' s.streams b h.bounded;
    closing = λ j c.
        rw (keys_kept q')
          (ground (arith, member-add k j s.closing_streams, eq_iff k j, known, h.closing j));
  }

  count-IsAccounted :
      (q' : Queue)
      → IsBounded q'
      → (n : ℕ) → buffered k s + n ≤ tunnel_max_buffered_bytes
      → s.total_stream_bytes + n ≤ session_max_buffered_bytes
      → IsAccounted (record s {
        streams = put k q' s.streams;
        stream_bytes = put k (buffered k s + n) s.stream_bytes;
        total_stream_bytes = s.total_stream_bytes + n;
      })
  count-IsAccounted q' b n le le_all = record {
    agree = keys_kept_bytes (buffered k s + n) ∙ h.agree ∙ sym (keys_kept q');
    distinct = rw (keys_kept q') h.distinct;
    exact = omega (arith, h.exact, sum_bytes-put k (buffered k s + n) s.stream_bytes);
    capped = put-AreCapped k (buffered k s + n) s.stream_bytes le h.capped;
    session_capped = le_all;
    admitted = rw (length_kept q') h.admitted;
    bounded = put-AreBounded k q' s.streams b h.bounded;
    closing = λ j c. rw (keys_kept q') (h.closing j c);
  }

  -- The byte ceilings are tested before the bytes are counted.
  accept_bytes-IsAccounted : (chunk : List ℕ) → IsAccounted (accept_bytes k chunk q s)
  unfolding accept_bytes
  accept_bytes-IsAccounted chunk = elim (Bool-cases over) [
    | inl above ↦ rw above (close-IsAccounted _ (put_suppressed-IsBounded close q q_bounded))
    | inr below ↦ elim (Option-cases (put_nowait (bytes chunk) q)) [
      | inl full ↦ rw (below, full) h
      | inr (q', room) ↦
          rw (below, room)
            (count-IsAccounted q' (put_nowait-IsBounded (bytes chunk) q q' q_bounded room) _
              (ground arith) (ground arith))
    ]
  ]
    where
      over : Bool
      over = over_ceiling (buffered k s + length chunk) (s.total_stream_bytes + length chunk)

      q_bounded : IsBounded q
      q_bounded = get-IsBounded k s.streams {q = q} h.bounded here

  control-IsAccounted : (item : Item) → IsAccounted (control k item q s)
  unfolding control
  control-IsAccounted (bytes chunk) = accept_bytes-IsAccounted chunk
  control-IsAccounted item =
      replace-IsAccounted _
        (put_suppressed-IsBounded item q (get-IsBounded k s.streams {q = q} h.bounded here))

-- A control frame keeps the accounting, whatever its stream id and its payload.
pub stream_ctrl-IsAccounted :
    (k : String) (item : Item) {s : Session} → IsAccounted s → IsAccounted (stream_ctrl k item s)
unfolding stream_ctrl
stream_ctrl-IsAccounted k item {s} h = elim (Option-cases (get k s.streams)) [
  | inl missing ↦ rw (missing, stream_ctrl) h
  | inr (q, here) ↦ elim (Bool-cases (member k s.closing_streams)) [
    | inl closing ↦ rw (here, closing, stream_ctrl) h
    | inr open_stream ↦ rw (here, open_stream, stream_ctrl) (control-IsAccounted h k q here item)
  ]
]

-- Draining any number of bytes of any stream keeps the accounting.
pub drain_stream_bytes-IsAccounted :
    (k : String) (n : ℕ) {s : Session} → IsAccounted s → IsAccounted (drain_stream_bytes k n s)
unfolding drain_stream_bytes
drain_stream_bytes-IsAccounted k n {s} h = elim (Bool-cases (is_some (get k s.stream_bytes))) [
  | inl old ↦ rw old (record {
    agree = keys_same old ∙ h.agree;
    distinct = h.distinct;
    exact =
        omega (arith, h.exact, sum_bytes-put k left s.stream_bytes, get-sum_bytes k s.stream_bytes);
    capped =
        put-AreCapped k left s.stream_bytes (omega (arith, get-AreCapped k s.stream_bytes h.capped))
          h.capped;
    session_capped = omega (arith, h.session_capped);
    admitted = h.admitted;
    bounded = h.bounded;
    closing = h.closing;
  })
  | inr unknown ↦
      rw unknown (
        subst (λ t. IsAccounted (record s { total_stream_bytes = t })) (sym (total_same unknown)) h)
]
  where
    left : ℕ
    left = buffered k s - min n (buffered k s)

    keys_same :
        is_some (get k s.stream_bytes) ≡ true
        → keys (put k left s.stream_bytes) ≡ keys s.stream_bytes
    keys_same old =
        keys-put k left s.stream_bytes
        ∙ put_key_old k (keys s.stream_bytes) (sym (get-keys k s.stream_bytes) ∙ old)

    total_same :
        is_some (get k s.stream_bytes) ≡ false
        → s.total_stream_bytes - min n (buffered k s) ≡ s.total_stream_bytes
    total_same unknown = ground arith
