-- ===== src/TcpTunnel/Joins.antt =====
-- Which networks the agent's container asks to join.
use relay_agent.Base.{
  All, Bool, Bool-cases, List, String, [], any, arith, eq_iff, false, inl, inr, member, refl, subst,
  sym, true, ◌∷◌, ◌≡◌, ◌≢◌, ◌⊎◌,
}
use relay_agent.TcpTunnel.{
  Attempt, Found, Joined, after_ask, api_error, attach, attach_to_container_network, breaks, broken,
  goes_on, is_passed_over, joins, networks, raises, refused,
}

abbrev pub IsWanted : List String → String → Type 0
IsWanted mine n = (member n mine ≡ false) × (n ≢ "host") × (n ≢ "none")

abbrev pub AreRefusedFirst : (String → Joined) → List String → Type 0
AreRefusedFirst join [] = Unit
AreRefusedFirst join (n ∷ []) = Unit
AreRefusedFirst join (n ∷ m ∷ ns) = (join n ≡ refused) × AreRefusedFirst join (m ∷ ns)

abbrev pub is_join : Joined → Bool
is_join joins = true
is_join _ = false

pub record IsAttempt (join : String → Joined) (target mine : List String) (a : Attempt)
    : Type 0 where
  pub wanted : All (λ n. (member n target ≡ true) × IsWanted mine n) a.0
  pub refused_first : AreRefusedFirst join a.0
  pub joined_or_all :
      a.1 ≡ goes_on
      → (any (λ n. is_join (join n)) a.0 ≡ true)
        ⊎ ((n : String) → member n target ≡ true → IsWanted mine n → member n a.0 ≡ true)

wider :
    (mine target ns : List String) (n : String)
    → All (λ m. (member m target ≡ true) × IsWanted mine m) ns
    → All (λ m. (member m (n ∷ target) ≡ true) × IsWanted mine m) ns
unfolding member
wider mine target [] n h = tt
wider mine target (m ∷ ns) n ((k, w), h) = ((ground (arith, k), w), wider mine target ns n h)

passed_over-not_wanted :
    (mine : List String) (n : String) → is_passed_over mine n ≡ true → IsWanted mine n → ⊥
passed_over-not_wanted mine n h (fresh, not_host, not_none) =
    ground (arith, h, fresh, eq_iff n "host", eq_iff n "none")

stays-IsWanted : (mine : List String) (n : String) → is_passed_over mine n ≡ false → IsWanted mine n
stays-IsWanted mine n h =
    (ground (arith, h), ground (arith, h, eq_iff n "host"), ground (arith, h, eq_iff n "none"))

member-cons :
    (n m : String) (ns : List String) → member m (n ∷ ns) ≡ true → (n ≡ m) ⊎ (member m ns ≡ true)
unfolding member
member-cons n m ns h = ground (arith, h, eq_iff n m)

member_head : (n : String) (ns : List String) → member n (n ∷ ns) ≡ true
unfolding member
member_head n ns = ground (arith, eq_iff n n)

member_tail : (n m : String) (ns : List String) → member m ns ≡ true → member m (n ∷ ns) ≡ true
unfolding member
member_tail n m ns h = ground (arith, h)

module _ (join : String → Joined) (target mine : List String) (n : String) (rest : Attempt)
    (h : IsAttempt join target mine rest) where
  passes-IsAttempt : is_passed_over mine n ≡ true → IsAttempt join (n ∷ target) mine rest
  passes-IsAttempt over = record {
    wanted = wider mine target rest.0 n h.wanted;
    refused_first = h.refused_first;
    joined_or_all = λ e. elim (h.joined_or_all e) [
      | inl joined ↦ inl joined
      | inr every ↦ inr λ m k w. elim (member-cons n m target k) [
        | inl same_name ↦
            absurd (passed_over-not_wanted mine n over (subst (IsWanted mine) (sym same_name) w))
        | inr later ↦ every m later w
      ]
    ];
  }

  after_ask-IsAttempt :
      (j : Joined)
      → join n ≡ j
      → is_passed_over mine n ≡ false
      → IsAttempt join (n ∷ target) mine (after_ask j n rest)
  after_ask-IsAttempt joins e stays = record {
    wanted = ((member_head n target, stays-IsWanted mine n stays), tt);
    refused_first = tt;
    joined_or_all = λ _. inl (rw e refl);
  }
  after_ask-IsAttempt breaks e stays = record {
    wanted = ((member_head n target, stays-IsWanted mine n stays), tt);
    refused_first = tt;
    joined_or_all = λ r. ground (arith, r);
  }
  after_ask-IsAttempt refused e stays = record {
    wanted =
        ((member_head n target, stays-IsWanted mine n stays), wider mine target rest.0 n h.wanted);
    refused_first = one_more rest.0 h.refused_first;
    joined_or_all = λ r. elim (h.joined_or_all r) [
      | inl joined ↦ inl (ground (arith, joined))
      | inr every ↦ inr λ m k w. elim (member-cons n m target k) [
        | inl same_name ↦ subst (λ x. member x (n ∷ rest.0) ≡ true) same_name (member_head n rest.0)
        | inr later ↦ member_tail n m rest.0 (every m later w)
      ]
    ];
  }
    where
      one_more : (ns : List String) → AreRefusedFirst join ns → AreRefusedFirst join (n ∷ ns)
      one_more [] k = tt
      one_more (m ∷ ns) k = (e, k)

attach-IsAttempt :
    (join : String → Joined) (mine target : List String)
    → IsAttempt join target mine (attach join mine target)
unfolding attach
attach-IsAttempt join mine [] = record {
  wanted = tt;
  refused_first = tt;
  joined_or_all = λ _. inr (λ n k w. k);
}
attach-IsAttempt join mine (n ∷ target) =
    let rest = attach-IsAttempt join mine target in
    elim (Bool-cases (is_passed_over mine n)) [
      | inl over ↦ rw over (passes-IsAttempt join target mine n (attach join mine target) rest over)
      | inr stays ↦ rw stays (
          after_ask-IsAttempt join target mine n (attach join mine target) rest (join n) refl stays)
    ]

-- The container of the target is not known to the daemon, or it is and the agent's own is not.
abbrev pub IsUnknown : Found → Found → Type 0
IsUnknown target me =
    (target ≡ api_error) ⊎ ((ns : List String) × (target ≡ networks ns) × (me ≡ api_error))

-- The search for one of the two breaks off with another exception.
abbrev pub IsBroken : Found → Found → Type 0
IsBroken target me =
    (target ≡ broken) ⊎ ((ns : List String) × (target ≡ networks ns) × (me ≡ broken))

pub data Attaches (join : String → Joined) : Found → Found → Attempt → Type 0 where
  attaches :
      {ts ms : List String} {a : Attempt}
      → IsAttempt join ts ms a
      → Attaches join (networks ts) (networks ms) a
  leaves_alone : {target me : Found} → IsUnknown target me → Attaches join target me ([], goes_on)
  breaks_off : {target me : Found} → IsBroken target me → Attaches join target me ([], raises)

-- `_attach_to_container_network`, whatever the daemon answers. Where it finds both containers, the
-- agent asks to join only networks that the target is in and it is not, never `host` or `none`; all
-- requests but the last were refused; and where it does not raise, one has succeeded, or all such
-- networks were asked for. Where the target or the agent's own container is not found, it asks for
-- nothing, and it raises just when that was not an APIError.
pub attach_to_container_network-Attaches :
    (join : String → Joined) (target me : Found)
    → Attaches join target me (attach_to_container_network join target me)
unfolding attach_to_container_network
attach_to_container_network-Attaches join (networks ts) (networks ms) =
    attaches (attach-IsAttempt join ms ts)
attach_to_container_network-Attaches join (networks ts) api_error =
    leaves_alone (inr (ts, refl, refl))
attach_to_container_network-Attaches join (networks ts) broken = breaks_off (inr (ts, refl, refl))
attach_to_container_network-Attaches join api_error me = leaves_alone (inl refl)
attach_to_container_network-Attaches join broken me = breaks_off (inl refl)
