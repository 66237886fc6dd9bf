-- ===== src/Gateway/Tunnel/Closed.antt =====
-- How a tunnel's task ends.
use relay_agent.Base.{Bool, String, inl, none, refl, true, ℕ, ◌≡◌, ◌≢◌}
use relay_agent.Base.Int.{pos}
use relay_agent.Gateway.Frame.{Frame, ok_value, result}
use relay_agent.Gateway.Json.{Value}
use relay_agent.Gateway.Session.{Session}
use relay_agent.Gateway.Session.Accounting.{IsAccounted}
use relay_agent.Gateway.Tasks.{Sized, size_overflows}
use relay_agent.Gateway.Tasks.Ends.{
  IsEnded, closing-AreOrdered, error-AreOrdered, released-IsEnded, with_size-IsEnded,
}
use relay_agent.Gateway.Tunnel.{
  Dialled, WriterEnd, after_dial, close_cancelled, dial_cancelled, dial_failed, dialled_up,
  handle_tcp_tunnel_session, relay_session, writer_gone,
}

module _ (delivered : Frame → Bool) (others : Session → Session) where
  dialled-IsEnded :
      (id : Value) (k : String) (tag : ℕ) (dialled : Dialled) (closing : WriterEnd) (s : Session)
      → ((t : Session) → IsAccounted t → IsAccounted (others t))
      → IsAccounted s
      → dialled ≢ dial_cancelled
      → delivered (result id ok_value) ≡ true
      → closing ≢ close_cancelled
      → IsEnded id k tag (after_dial delivered others id k tag dialled closing s)
  unfolding after_dial relay_session
  dialled-IsEnded id k tag dialled_up close_cancelled s keep h dials acks closes =
      absurd (closes refl)
  dialled-IsEnded id k tag dialled_up writer_gone s keep h dials acks closes = rw acks (
      released-IsEnded id k tag (others (others s)) _ none (keep _ (keep _ h))
        (closing-AreOrdered delivered id k (pos 0)) (inl refl))
  dialled-IsEnded id k tag dial_cancelled closing s keep h dials acks closes = absurd (dials refl)
  dialled-IsEnded id k tag (dial_failed message) closing s keep h dials acks closes =
      released-IsEnded id k tag (others s) _ none (keep _ h) (error-AreOrdered delivered id k _ _)
        (inl refl)

  -- Whatever else happens in the session meanwhile, if that keeps the accounting, then
  -- `_handle_tcp_tunnel_session` gives its stream back and sends at most one answer, which
  -- `stream_closed` may only follow where the answer is a result; provided that the port does not
  -- overflow, the acknowledgement is delivered, and no cancellation comes while it dials or waits for
  -- its writer to close.
  pub handle_tcp_tunnel_session-IsEnded :
      (id : Value) (k : String) (tag : ℕ) (port : Sized) (dialled : Dialled) (closing : WriterEnd)
      (s : Session)
      → ((t : Session) → IsAccounted t → IsAccounted (others t))
      → IsAccounted s
      → port ≢ size_overflows
      → dialled ≢ dial_cancelled
      → delivered (result id ok_value) ≡ true
      → closing ≢ close_cancelled
      → IsEnded id k tag
          (handle_tcp_tunnel_session delivered others id k tag port dialled closing s)
  unfolding handle_tcp_tunnel_session
  handle_tcp_tunnel_session-IsEnded id k tag port dialled closing s keep h fits dials acks closes =
      with_size-IsEnded delivered others _ id k tag port s fits h
        (dialled-IsEnded id k tag dialled closing s keep h dials acks closes)
