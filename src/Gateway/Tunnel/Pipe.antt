-- ===== src/Gateway/Tunnel/Pipe.antt =====
-- The relay of a tunnel keeps all chunks, in their order, and soon obeys a pause.
use mathlib.Core.List.{append_assoc, append-nil}
use relay_agent.Base.{
  Bool, List, Option, [], ap, arith, false, length, none, refl, some, some-inj, subst, sym, true, ℕ,
  ◌++◌, ◌∙◌, ◌∷◌, ◌≡◌, ◌≤◌,
}
use relay_agent.Gateway.Tunnel.{
  Event, Phase, Relay, begins, chunk_comes, end_of_data, in_read, in_send, new_relay, not_begun,
  pause_comes, read_ended, relay_run, relay_step, resume_comes, send_done, send_fails,
  waits_to_read, waits_to_send, wakes,
}

abbrev pub held_in : Phase → List (List ℕ)
held_in (waits_to_send b _) = b ∷ []
held_in (in_send b) = b ∷ []
held_in _ = []

abbrev pub chunk_of : Event → List (List ℕ)
chunk_of (chunk_comes b) = b ∷ []
chunk_of _ = []

-- The chunks that a run's reads have given
unfoldable pub received : List Event → List (List ℕ)
received [] = []
received (e ∷ es) = chunk_of e ++ received es

abbrev has_ended : Phase → Bool
has_ended read_ended = true
has_ended _ = false

-- What has come in has been sent, but for one chunk at most: the one that the reader holds, or one
-- with which it has ended.
pub record Keeps (came : List (List ℕ)) (r : Relay) : Type 0 where
  pub outstanding : List (List ℕ)
  pub in_order : came ≡ r.sent_chunks ++ outstanding
  pub one_at_most : length outstanding ≤ 1
  pub in_hand : has_ended r.phase ≡ false → outstanding ≡ held_in r.phase

abbrev KeepsAfter : List (List ℕ) → Option Relay → Type 0
KeepsAfter came none = Unit
KeepsAfter came (some r) = Keeps came r

module _ (came : List (List ℕ)) where
  same_hand :
      {sent : List (List ℕ)} {p p' : Phase} {paused paused' : Bool}
      → has_ended p ≡ has_ended p'
      → held_in p ≡ held_in p'
      → Keeps came (record { phase = p; is_paused = paused; sent_chunks = sent })
      → Keeps came (record { phase = p'; is_paused = paused'; sent_chunks = sent })
  same_hand e h k = record {
    outstanding = k.outstanding;
    in_order = k.in_order;
    one_at_most = k.one_at_most;
    in_hand = λ on. k.in_hand (e ∙ on) ∙ h;
  }

  ended :
      {sent : List (List ℕ)} {p : Phase} {paused paused' : Bool}
      → Keeps came (record { phase = p; is_paused = paused; sent_chunks = sent })
      → Keeps came (record { phase = read_ended; is_paused = paused'; sent_chunks = sent })
  ended k = record {
    outstanding = k.outstanding;
    in_order = k.in_order;
    one_at_most = k.one_at_most;
    in_hand = λ on. ground (arith, on);
  }

  sent_on :
      {b : List ℕ} {sent : List (List ℕ)} (p' : Phase) {paused : Bool}
      → held_in p' ≡ []
      → Keeps came (record { phase = in_send b; is_paused = paused; sent_chunks = sent })
      → Keeps came (record { phase = p'; is_paused = paused; sent_chunks = sent ++ b ∷ [] })
  sent_on {b} {sent} p' nothing k = record {
    outstanding = [];
    in_order =
        k.in_order ∙ ap (λ t. sent ++ t) (k.in_hand refl) ∙ sym (append-nil (sent ++ b ∷ []));
    one_at_most = omega arith;
    in_hand = λ _. sym nothing;
  }

  taken_in :
      (b : List ℕ) {sent : List (List ℕ)} (p' : Phase) {paused : Bool}
      → held_in p' ≡ b ∷ []
      → Keeps came (record { phase = in_read; is_paused = paused; sent_chunks = sent })
      → Keeps (came ++ b ∷ []) (record { phase = p'; is_paused = paused; sent_chunks = sent })
  taken_in b {sent} p' holds k = record {
    outstanding = b ∷ [];
    in_order =
        ap (λ t. t ++ b ∷ []) (k.in_order ∙ ap (λ t. sent ++ t) (k.in_hand refl) ∙ append-nil sent);
    one_at_most = omega arith;
    in_hand = λ _. sym holds;
  }

  abbrev At : Phase → Bool → List (List ℕ) → Type 0
  At p paused sent = Keeps came (record { phase = p; is_paused = paused; sent_chunks = sent })

  abbrev Then : Event → Phase → Bool → List (List ℕ) → Type 0
  Then e p paused sent =
      KeepsAfter came (relay_step e (record { phase = p; is_paused = paused; sent_chunks = sent }))

  begins-Keeps :
      (p : Phase) (paused : Bool) (sent : List (List ℕ))
      → At p paused sent
      → Then begins p paused sent
  unfolding relay_step
  begins-Keeps not_begun true sent k = same_hand refl refl k
  begins-Keeps not_begun false sent k = same_hand refl refl k
  begins-Keeps in_read paused sent k = tt
  begins-Keeps read_ended paused sent k = tt
  begins-Keeps (waits_to_read _) paused sent k = tt
  begins-Keeps (waits_to_send _ _) paused sent k = tt
  begins-Keeps (in_send _) paused sent k = tt

  wakes-Keeps :
      (p : Phase) (paused : Bool) (sent : List (List ℕ))
      → At p paused sent
      → Then wakes p paused sent
  unfolding relay_step
  wakes-Keeps not_begun paused sent k = tt
  wakes-Keeps in_read paused sent k = tt
  wakes-Keeps read_ended paused sent k = tt
  wakes-Keeps (waits_to_read true) paused sent k = same_hand refl refl k
  wakes-Keeps (waits_to_read false) paused sent k = tt
  wakes-Keeps (waits_to_send b true) paused sent k = same_hand refl refl k
  wakes-Keeps (waits_to_send b false) paused sent k = tt
  wakes-Keeps (in_send _) paused sent k = tt

  ends-Keeps :
      (p : Phase) (paused : Bool) (sent : List (List ℕ))
      → At p paused sent
      → Then end_of_data p paused sent × Then send_fails p paused sent
  unfolding relay_step
  ends-Keeps not_begun paused sent k = (tt, tt)
  ends-Keeps in_read paused sent k = (ended k, tt)
  ends-Keeps read_ended paused sent k = (tt, tt)
  ends-Keeps (waits_to_read _) paused sent k = (tt, tt)
  ends-Keeps (waits_to_send _ _) paused sent k = (tt, tt)
  ends-Keeps (in_send _) paused sent k = (tt, ended k)

  send_done-Keeps :
      (p : Phase) (paused : Bool) (sent : List (List ℕ))
      → At p paused sent
      → Then send_done p paused sent
  unfolding relay_step
  send_done-Keeps not_begun paused sent k = tt
  send_done-Keeps in_read paused sent k = tt
  send_done-Keeps read_ended paused sent k = tt
  send_done-Keeps (waits_to_read _) paused sent k = tt
  send_done-Keeps (waits_to_send _ _) paused sent k = tt
  send_done-Keeps (in_send b) true sent k = sent_on (waits_to_read false) refl k
  send_done-Keeps (in_send b) false sent k = sent_on in_read refl k

  resume-Keeps :
      (p : Phase) (paused : Bool) (sent : List (List ℕ))
      → At p paused sent
      → Then resume_comes p paused sent
  unfolding relay_step
  resume-Keeps not_begun paused sent k = same_hand refl refl k
  resume-Keeps in_read paused sent k = same_hand refl refl k
  resume-Keeps read_ended paused sent k = same_hand refl refl k
  resume-Keeps (waits_to_read _) paused sent k = same_hand refl refl k
  resume-Keeps (waits_to_send b _) paused sent k = same_hand refl refl k
  resume-Keeps (in_send b) paused sent k = same_hand refl refl k

  chunk-Keeps :
      (b : List ℕ) (p : Phase) (paused : Bool) (sent : List (List ℕ))
      → At p paused sent
      → KeepsAfter (came ++ b ∷ []) (
          relay_step (chunk_comes b) (record { phase = p; is_paused = paused; sent_chunks = sent }))
  unfolding relay_step
  chunk-Keeps b not_begun paused sent k = tt
  chunk-Keeps b in_read true sent k = taken_in b (waits_to_send b false) refl k
  chunk-Keeps b in_read false sent k = taken_in b (in_send b) refl k
  chunk-Keeps b read_ended paused sent k = tt
  chunk-Keeps b (waits_to_read _) paused sent k = tt
  chunk-Keeps b (waits_to_send _ _) paused sent k = tt
  chunk-Keeps b (in_send _) paused sent k = tt

  quiet-Keeps : (o : Option Relay) → KeepsAfter came o → KeepsAfter (came ++ []) o
  quiet-Keeps o k = subst (λ c. KeepsAfter c o) (sym (append-nil came)) k

  step-Keeps :
      (e : Event) (r : Relay) → Keeps came r → KeepsAfter (came ++ chunk_of e) (relay_step e r)
  unfolding relay_step
  step-Keeps begins r k = quiet-Keeps _ (begins-Keeps r.phase r.is_paused r.sent_chunks k)
  step-Keeps wakes r k = quiet-Keeps _ (wakes-Keeps r.phase r.is_paused r.sent_chunks k)
  step-Keeps end_of_data r k = quiet-Keeps _ (ends-Keeps r.phase r.is_paused r.sent_chunks k).0
  step-Keeps send_done r k = quiet-Keeps _ (send_done-Keeps r.phase r.is_paused r.sent_chunks k)
  step-Keeps send_fails r k = quiet-Keeps _ (ends-Keeps r.phase r.is_paused r.sent_chunks k).1
  step-Keeps pause_comes r k =
      quiet-Keeps (some (record r { is_paused = true })) (same_hand refl refl k)
  step-Keeps resume_comes r k =
      quiet-Keeps (relay_step resume_comes r) (resume-Keeps r.phase r.is_paused r.sent_chunks k)
  step-Keeps (chunk_comes b) r k = chunk-Keeps b r.phase r.is_paused r.sent_chunks k

run-Keeps :
    (came : List (List ℕ)) (es : List Event) (r r' : Relay)
    → Keeps came r
    → relay_run es r ≡ some r'
    → Keeps (came ++ received es) r'
unfolding relay_run received
run-Keeps came [] r r' k h =
    subst (λ c. Keeps c r') (sym (append-nil came)) (subst (Keeps came) (some-inj h) k)
run-Keeps came (e ∷ es) r r' k h =
    go (relay_step e r) (step-Keeps came e r k)
      (λ x i q. run-Keeps (came ++ chunk_of e) es x r' i q) h
  where
    go :
        (o : Option Relay)
        → KeepsAfter (came ++ chunk_of e) o
        → ((x : Relay)
            → Keeps (came ++ chunk_of e) x
            → relay_run es x ≡ some r'
            → Keeps ((came ++ chunk_of e) ++ received es) r')
        → (elim o [ none ↦ none | some x ↦ relay_run es x ]) ≡ some r'
        → Keeps (came ++ (chunk_of e ++ received es)) r'
    go none _ f q = ground (arith, q)
    go (some x) i f q =
        subst (λ c. Keeps c r') (append_assoc came (chunk_of e) (received es)) (f x i q)

-- Whatever the order of the event loop, from the start of a relay: the chunks sent are those that the
-- target gave, in their order, each one whole and once, but for at most one at the end; and unless the
-- reader has ended, that is the one it holds.
pub relay_run-Keeps :
    (es : List Event) (r' : Relay) → relay_run es new_relay ≡ some r' → Keeps (received es) r'
relay_run-Keeps es r' h =
    run-Keeps [] es new_relay r'
      (record { outstanding = []; in_order = refl; one_at_most = omega arith; in_hand = λ _. refl })
      h
