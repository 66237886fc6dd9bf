-- ===== src/Gateway/Reconnect.antt =====
-- agent/gateway.py: `run`, the loop that connects again after every failure. Waits are in seconds.
use relay_agent.Base.{
  Bool, List, Option, [], arith, false, if-rule, if◌then◌else◌, min, none, some, true, ℕ, ◌*◌, ◌==◌,
  ◌||◌, ◌∷◌, ◌≤◌,
}
use relay_agent.Gateway.Consume.{wait}

-- How one round of the loop ends: the session ran and the connection closed without an exception,
-- the upgrade was answered with a status, the connection was lost before or after it stood, or
-- anything else was raised before or after.
pub data Attempt : Type 0 where
  session_ended : Attempt
  invalid_status : ℕ → Attempt
  disconnected broken : Bool → Attempt

-- The close codes for a refused token.
unfoldable pub is_rejection : ℕ → Bool
is_rejection code = code == 4401 || code == 4409

unfoldable pub doubled : ℕ → ℕ → ℕ
doubled max_backoff backoff = min (backoff * 2) max_backoff

-- The backoff as `async with` leaves it: a connection that stood has set it to 2.
unfoldable pub after_connect : Bool → ℕ → ℕ
after_connect true backoff = 2
after_connect false backoff = backoff

-- One round: the seconds slept, if any, and the next backoff.
unfoldable pub round : ℕ → Attempt → ℕ → Option ℕ × ℕ
unfolding doubled after_connect is_rejection
round max_backoff session_ended backoff = (none, 2)
round max_backoff (invalid_status code) backoff =
    if is_rejection code
    then (some backoff, backoff)
    else (some backoff, doubled max_backoff backoff)
round max_backoff (disconnected stood) backoff =
    let now = after_connect stood backoff in (some now, doubled max_backoff now)
round max_backoff (broken stood) backoff =
    let now = after_connect stood backoff in (some now, doubled max_backoff now)

-- The waits of `run`, from the initial backoff of 2, over the rounds that happen.
unfoldable pub waits_from : ℕ → ℕ → List Attempt → List (Option ℕ)
unfolding round
waits_from max_backoff backoff [] = []
waits_from max_backoff backoff (a ∷ attempts) =
    let (wait, next_backoff) = round max_backoff a backoff in
    wait ∷ waits_from max_backoff next_backoff attempts

unfoldable pub waits : ℕ → List Attempt → List (Option ℕ)
unfolding waits_from
waits max_backoff attempts = waits_from max_backoff 2 attempts

abbrev pub IsWithin : ℕ → List (Option ℕ) → Type 0
IsWithin bound [] = Unit
IsWithin bound (none ∷ ws) = IsWithin bound ws
IsWithin bound (some w ∷ ws) = (2 ≤ w) × (w ≤ bound) × IsWithin bound ws

abbrev WaitWithin : ℕ → Option ℕ → Type 0
WaitWithin bound none = Unit
WaitWithin bound (some w) = (2 ≤ w) × (w ≤ bound)

doubled-bounds : (m b : ℕ) → 2 ≤ m → 2 ≤ b → b ≤ m → (2 ≤ doubled m b) × (doubled m b ≤ m)
unfolding doubled
doubled-bounds m b hm lo hi = (ground arith, ground arith)

abbrev IsNext : ℕ → Option ℕ × ℕ → Type 0
IsNext m (w, b) = WaitWithin m w × (2 ≤ b) × (b ≤ m)

doubled-IsNext : (m b : ℕ) → 2 ≤ m → 2 ≤ b → b ≤ m → IsNext m (some b, doubled m b)
doubled-IsNext m b hm lo hi = let (lo', hi') = doubled-bounds m b hm lo hi in ((lo, hi), lo', hi')

round-IsNext : (m : ℕ) (a : Attempt) (b : ℕ) → 2 ≤ m → 2 ≤ b → b ≤ m → IsNext m (round m a b)
unfolding round after_connect
round-IsNext m session_ended b hm lo hi = (tt, omega arith, hm)
round-IsNext m (invalid_status code) b hm lo hi =
    if-rule (IsNext m) (is_rejection code) (λ _. ((lo, hi), lo, hi))
      (λ _. doubled-IsNext m b hm lo hi)
round-IsNext m (disconnected true) b hm lo hi = doubled-IsNext m 2 hm (omega arith) hm
round-IsNext m (disconnected false) b hm lo hi = doubled-IsNext m b hm lo hi
round-IsNext m (broken true) b hm lo hi = doubled-IsNext m 2 hm (omega arith) hm
round-IsNext m (broken false) b hm lo hi = doubled-IsNext m b hm lo hi

cons-IsWithin :
    (m : ℕ) (w : Option ℕ) (ws : List (Option ℕ))
    → WaitWithin m w
    → IsWithin m ws
    → IsWithin m (w ∷ ws)
cons-IsWithin m none ws h hs = hs
cons-IsWithin m (some w) ws (lo, hi) hs = (lo, hi, hs)

waits_from-IsWithin :
    (m : ℕ) (attempts : List Attempt) (b : ℕ)
    → 2 ≤ m
    → 2 ≤ b
    → b ≤ m
    → IsWithin m (waits_from m b attempts)
unfolding waits_from
waits_from-IsWithin m [] b hm lo hi = tt
waits_from-IsWithin m (a ∷ attempts) b hm lo hi =
    let (w, lo', hi') = round-IsNext m a b hm lo hi in
    cons-IsWithin m _ _ w (waits_from-IsWithin m attempts _ hm lo' hi')

-- With a maximum of at least 2 s, every wait between two attempts, over any run of attempts,
-- lasts from 2 s to that maximum.
pub waits-IsWithin :
    (max_backoff : ℕ) (attempts : List Attempt)
    → 2 ≤ max_backoff
    → IsWithin max_backoff (waits max_backoff attempts)
unfolding waits
waits-IsWithin max_backoff attempts m = waits_from-IsWithin max_backoff attempts 2 m (omega arith) m
