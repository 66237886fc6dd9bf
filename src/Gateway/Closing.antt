-- ===== src/Gateway/Closing.antt =====
-- agent/gateway.py: `_Session.close`, up to the cancellation of the tasks.
use relay_agent.Base.{
  All, Bool, Option, String, [], ap, arith, false, if-rule, if◌then◌else◌, inl, inr, none, refl,
  some, str_eq, true, ◌∷◌, ◌≡◌, ◌⊎◌,
}
use relay_agent.Base.Dict.{Dict, get, keys}
use relay_agent.Gateway.Session.{Queue, Session, close, is_full, put_nowait, put_suppressed}
use relay_agent.Gateway.Tasks.{has_close}
use relay_agent.Gateway.Tasks.Ends.{has_close-snoc}

unfoldable pub stop_all : Dict Bool → Dict Bool
stop_all [] = []
stop_all ((k, _) ∷ events) = (k, true) ∷ stop_all events

unfoldable pub close_all : Dict Queue → Dict Queue
unfolding put_suppressed
close_all [] = []
close_all ((k, q) ∷ streams) = (k, put_suppressed close q) ∷ close_all streams

unfoldable pub close_session : Session → Session
unfolding stop_all close_all
close_session s = record s { stop_events = stop_all s.stop_events; streams = close_all s.streams }

events_set : (events : Dict Bool) → All (λ e. e.1 ≡ true) (stop_all events)
unfolding stop_all
events_set [] = tt
events_set ((k, b) ∷ events) = (refl, events_set events)

keys-stop_all : (events : Dict Bool) → keys (stop_all events) ≡ keys events
unfolding stop_all
keys-stop_all [] = refl
keys-stop_all ((k, b) ∷ events) = ap (λ ks. k ∷ ks) (keys-stop_all events)

mapped : (Queue → Queue) → Option Queue → Option Queue
mapped f none = none
mapped f (some q) = some (f q)

first_mapped :
    (b : Bool) (f : Queue → Queue) (p q : Queue) (o o' : Option Queue)
    → (if b then some p else o) ≡ some q
    → (o ≡ some q → o' ≡ some (f q))
    → (if b then some (f p) else o') ≡ some (f q)
unfolding mapped
first_mapped true f p q o o' h k = ap (mapped f) h
first_mapped false f p q o o' h k = k h

get-close_all :
    (k : String) (q : Queue) (streams : Dict Queue)
    → get k streams ≡ some q
    → get k (close_all streams) ≡ some (put_suppressed close q)
unfolding get close_all
get-close_all k q [] h = ground (arith, h)
get-close_all k q ((j, p) ∷ streams) h =
    first_mapped (str_eq j k) (put_suppressed close) p q (get k streams) (get k (close_all streams))
      h (get-close_all k q streams)

abbrev kept_or : Queue → Option Queue → Queue
kept_or q none = q
kept_or q (some q') = q'

put_suppressed-close :
    (q : Queue) → (has_close (put_suppressed close q).items ≡ true) ⊎ (is_full q ≡ true)
unfolding put_suppressed put_nowait
put_suppressed-close q =
    if-rule {A = Option Queue} (λ o. (has_close (kept_or q o).items ≡ true) ⊎ (is_full q ≡ true))
      (is_full q) (λ full. inr full) (λ _. inl (has_close-snoc q.items))

-- The end of a connection keeps all stop events, under their streams, and sets every one of them; and
-- it leaves a `close` in the queue of every stream that is open, unless that queue is full.
pub close_session-Closes :
    (s : Session) (k : String) (q : Queue)
    → get k s.streams ≡ some q
    → (keys (close_session s).stop_events ≡ keys s.stop_events)
      × All (λ e. e.1 ≡ true) (close_session s).stop_events
      × ((q' : Queue) × (get k (close_session s).streams ≡ some q')
          × ((has_close q'.items ≡ true) ⊎ (is_full q ≡ true)))
unfolding close_session
close_session-Closes s k q h = (
  keys-stop_all s.stop_events,
  events_set s.stop_events,
  (put_suppressed close q, get-close_all k q s.streams h, put_suppressed-close q),
)
