-- ===== src/Gateway/Session/Sums.antt =====
-- Sums and bounds over the tables of a session.
use relay_agent.Base.{String, [], arith, length, length-append, some, ℕ, ◌+◌, ◌<◌, ◌∷◌, ◌≡◌, ◌≤◌}
use relay_agent.Base.Dict.{Dict, get, pop, put}
use relay_agent.Gateway.Session.{
  Item, Queue, or_zero, put_nowait, put_suppressed, tunnel_max_buffered_bytes,
}

-- The bytes that all streams together have buffered.
abbrev pub sum_bytes : Dict ℕ → ℕ
sum_bytes [] = 0
sum_bytes ((_, n) ∷ d) = n + sum_bytes d

-- No stream has more buffered than its ceiling.
abbrev pub AreCapped : Dict ℕ → Type 0
AreCapped [] = Unit
AreCapped ((_, n) ∷ d) = (n ≤ tunnel_max_buffered_bytes) × AreCapped d

pub sum_bytes-put :
    (k : String) (n : ℕ) (d : Dict ℕ) → sum_bytes (put k n d) + or_zero (get k d) ≡ sum_bytes d + n
unfolding get put
sum_bytes-put k n [] = omega arith
sum_bytes-put k n ((j, m) ∷ d) = ground (arith, sum_bytes-put k n d)

pub sum_bytes-pop :
    (k : String) (d : Dict ℕ) → sum_bytes (pop k d) + or_zero (get k d) ≡ sum_bytes d
unfolding get pop
sum_bytes-pop k [] = omega arith
sum_bytes-pop k ((j, m) ∷ d) = ground (arith, sum_bytes-pop k d)

pub put-AreCapped :
    (k : String) (n : ℕ) (d : Dict ℕ)
    → n ≤ tunnel_max_buffered_bytes
    → AreCapped d
    → AreCapped (put k n d)
unfolding put
put-AreCapped k n [] le h = (le, tt)
put-AreCapped k n ((j, m) ∷ d) le h = ground (arith, put-AreCapped k n d le h.1)

pub pop-AreCapped : (k : String) (d : Dict ℕ) → AreCapped d → AreCapped (pop k d)
unfolding pop
pop-AreCapped k [] h = tt
pop-AreCapped k ((j, m) ∷ d) h = ground (arith, pop-AreCapped k d h.1)

pub get-AreCapped :
    (k : String) (d : Dict ℕ) → AreCapped d → or_zero (get k d) ≤ tunnel_max_buffered_bytes
unfolding get
get-AreCapped k [] h = omega arith
get-AreCapped k ((j, m) ∷ d) h = ground (arith, get-AreCapped k d h.1)

pub get-sum_bytes : (k : String) (d : Dict ℕ) → or_zero (get k d) ≤ sum_bytes d
get-sum_bytes k d = omega (arith, sum_bytes-pop k d)

-- A queue with a bound holds no more items than that.
abbrev pub IsBounded : Queue → Type 0
IsBounded q = 0 < q.maxsize → length q.items ≤ q.maxsize

abbrev pub AreBounded : Dict Queue → Type 0
AreBounded [] = Unit
AreBounded ((_, q) ∷ d) = IsBounded q × AreBounded d

pub put-AreBounded :
    (k : String) (q : Queue) (d : Dict Queue) → IsBounded q → AreBounded d → AreBounded (put k q d)
unfolding put
put-AreBounded k q [] b h = (b, tt)
put-AreBounded k q ((j, r) ∷ d) b h = ground (arith, put-AreBounded k q d b h.1)

pub pop-AreBounded : (k : String) (d : Dict Queue) → AreBounded d → AreBounded (pop k d)
unfolding pop
pop-AreBounded k [] h = tt
pop-AreBounded k ((j, r) ∷ d) h = ground (arith, pop-AreBounded k d h.1)

pub get-IsBounded :
    (k : String) (d : Dict Queue) {q : Queue} → AreBounded d → get k d ≡ some q → IsBounded q
unfolding get
get-IsBounded k [] h e = ground arith
get-IsBounded k ((j, r) ∷ d) {q} h e = ground (arith, get-IsBounded k d {q = q} h.1)

pub put_nowait-IsBounded :
    (item : Item) (q q' : Queue) → IsBounded q → put_nowait item q ≡ some q' → IsBounded q'
unfolding put_nowait
put_nowait-IsBounded item q q' b e = ground (arith, length-append q.items (item ∷ []))

pub put_suppressed-IsBounded :
    (item : Item) (q : Queue) → IsBounded q → IsBounded (put_suppressed item q)
unfolding put_suppressed
put_suppressed-IsBounded item q b = ground (arith, length-append q.items (item ∷ []))
