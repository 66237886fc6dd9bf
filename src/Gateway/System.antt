-- ===== src/Gateway/System.antt =====
-- A connection over time: the control plane's messages, and the tasks, workers and callbacks that
-- run between them, in any order.
pub mod Soundness
use relay_agent.Base.{
  Bool, List, Option, String, [], false, if◌then◌else◌, true, ℕ, ◌-◌, ◌==◌, ◌||◌, ◌∷◌, ◌≡◌,
}
use relay_agent.Base.Dict.{put}
use relay_agent.Gateway.Dispatch.{Conn, Env, dispatch_message, send}
use relay_agent.Gateway.Frame.{Frame}
use relay_agent.Gateway.Json.{Value}
use relay_agent.Gateway.Session.{drain_stream_bytes, new, release_stream, take_item}

unfoldable pub remove_future : ℕ → List ℕ → List ℕ
remove_future f [] = []
remove_future f (g ∷ fs) = if g == f then fs else g ∷ remove_future f fs

unfoldable pub has_future : ℕ → List ℕ → Bool
has_future f [] = false
has_future f (g ∷ fs) = g == f || has_future f fs

-- `_decrement`, the callback of a future that has completed.
unfoldable pub release_slot : ℕ → Conn → Conn
release_slot f c = record c {
  sess = record c.sess { pending_commands = c.sess.pending_commands - 1 };
  in_flight = remove_future f c.in_flight;
}

-- What may happen to a connection. A worker completes once; the rest may come at any time, with
-- any stream id, also one that has been released and claimed again.
pub data Step (env : Env) : Conn → Conn → Type 0 where
  receive : (m : Option Value) {c : Conn} → Step env c (dispatch_message env m c).0
  complete : (f : ℕ) {c : Conn} → has_future f c.in_flight ≡ true → Step env c (release_slot f c)
  take :
      (k : String) (tag : ℕ) {c : Conn}
      → Step env c (record c { sess = (take_item k tag c.sess).1 })
  drain :
      (k : String) (n : ℕ) {c : Conn}
      → Step env c (record c { sess = drain_stream_bytes k n c.sess })
  release :
      (k : String) (tag : ℕ) {c : Conn}
      → Step env c (record c { sess = release_stream k tag c.sess })
  set_stop :
      (k : String) (b : Bool) {c : Conn}
      → Step env c (record c { sess = record c.sess { stop_events = put k b c.sess.stop_events } })
  emit : (f : Frame) {c : Conn} → Step env c (send f c)

pub data Reach (env : Env) : Conn → Type 0 where
  connected : Reach env (record { sess = new; sent = []; spawned = []; in_flight = []; serial = 0 })
  next : {c d : Conn} → Reach env c → Step env c d → Reach env d
