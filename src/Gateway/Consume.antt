-- ===== src/Gateway/Consume.antt =====
-- agent/gateway.py: the loop `_consume_ctrl` of `_handle_tcp_tunnel_session`, which takes the items
-- of a tunnel's control queue.
use relay_agent.Base.{
  Bool, Bool-cases, List, String, [], false, if◌then◌else◌, inl, inr, length, not, true, ℕ, ◌++◌,
  ◌∷◌,
}
use relay_agent.Gateway.Session.{
  Item, Session, bytes, close, drain_stream_bytes, pause, resize, resume,
}
use relay_agent.Gateway.Session.Accounting.{IsAccounted, drain_stream_bytes-IsAccounted}

-- The session, whether the reader is paused, what has been given to the target, and whether the
-- loop has ended
pub record Consumed : Type 0 where
  pub session : Session
  pub is_paused : Bool
  pub given : List (List ℕ)
  pub has_ended : Bool

-- `others` is what the rest of the program does to the session while the loop waits; an item comes
-- with whether the target takes its bytes.
module _ (others : Session → Session) (k : String) where
  abbrev pub take_bytes : Bool → List ℕ → Consumed → Consumed
  take_bytes taken b w = record w {
    session = drain_stream_bytes k (length b) (others w.session);
    given = if taken then w.given ++ b ∷ [] else w.given;
    has_ended = not taken;
  }

  abbrev pub consume : Item → Bool → Consumed → Consumed
  consume (bytes b) taken w = take_bytes taken b w
  consume (resize cols rows) taken w = w
  consume pause taken w = record w { is_paused = true }
  consume resume taken w = record w { is_paused = false }
  consume close taken w = record w { has_ended = true }

  abbrev pub wait : Consumed → Consumed
  wait w = record w { session = others w.session }

  unfoldable pub consume_ctrl : List (Item × Bool) → Consumed → Consumed
  consume_ctrl [] w = w
  consume_ctrl ((item, taken) ∷ items) w =
      let w' = consume item taken (wait w) in
      let later = consume_ctrl items w' in if w'.has_ended then w' else later

module _ (others : Session → Session) (k : String)
    (keeps : (s : Session) → IsAccounted s → IsAccounted (others s)) where
  consume-IsAccounted :
      (item : Item) (taken : Bool) (w : Consumed)
      → IsAccounted w.session
      → IsAccounted (consume others k item taken w).session
  consume-IsAccounted (bytes b) taken w h =
      drain_stream_bytes-IsAccounted k (length b) (keeps w.session h)
  consume-IsAccounted (resize cols rows) taken w h = h
  consume-IsAccounted pause taken w h = h
  consume-IsAccounted resume taken w h = h
  consume-IsAccounted close taken w h = h

  -- The loop keeps the accounting, whatever the items are and whatever writing fails, if the rest
  -- of the program keeps it.
  consume_ctrl-IsAccounted :
      (items : List (Item × Bool)) (w : Consumed)
      → IsAccounted w.session
      → IsAccounted (consume_ctrl others k items w).session
  unfolding consume_ctrl
  consume_ctrl-IsAccounted [] w h = h
  consume_ctrl-IsAccounted ((item, taken) ∷ items) w h =
      let w' = consume others k item taken (wait others k w) in
      let h' = consume-IsAccounted item taken (wait others k w) (keeps w.session h) in
      elim (Bool-cases w'.has_ended) [
        | inl over ↦ rw over h'
        | inr on ↦ rw on (consume_ctrl-IsAccounted items w' h')
      ]
