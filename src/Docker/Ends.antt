-- ===== src/Docker/Ends.antt =====
-- What an action has achieved where it returns, and where it raises, in terms of the calls made.
use relay_agent.Base.{Bool, Bool-cases, List, false, if◌then◌else◌, inl, inr, refl, true, ◌∷◌, ◌≡◌}
use relay_agent.Docker.{
  Action, Call, Daemon, Done, Error, Result, continue, err, ok, perform, ◌>>=◌,
}
use relay_agent.Docker.Extends.{Extends, Makes}

pub data Ends {ℓ} {A : Type ℓ} (Q : A → List Call → Type 0) (E : List Call → Type 0)
    : Result A × List Call → Type ℓ where
  returns : {a : A} {l : List Call} → Q a l → Ends Q E (ok a, l)
  raises : {e : Error} {l : List Call} → E l → Ends Q E (err e, l)

module _ {ℓ κ} {A : Type ℓ} {B : Type κ} {Q : A → List Call → Type 0} {R : B → List Call → Type 0}
    {E : List Call → Type 0} where
  Ends-continue :
      (f : A → Action B) {p : Result A × List Call}
      → Ends Q E p
      → ((a : A) (l : List Call) → Q a l → Ends R E (f a l))
      → Ends R E (continue f p.0 p.1)
  Ends-continue f (returns {a} {l} q) k = k a l q
  Ends-continue f (raises e) k = raises e

  pub Ends-bind :
      (m : Action A) (f : A → Action B) (log : List Call)
      → Ends Q E (m log)
      → ((a : A) (l : List Call) → Q a l → Ends R E (f a l))
      → Ends R E ((m >>= f) log)
  unfolding ◌>>=◌
  Ends-bind m f log h k = Ends-continue f h k

module _ {ℓ} {A : Type ℓ} {Q : A → List Call → Type 0} {E : List Call → Type 0} where
  pub Ends-if :
      (b : Bool) (m n : Action A) (l : List Call)
      → (b ≡ true → Ends Q E (m l))
      → (b ≡ false → Ends Q E (n l))
      → Ends Q E ((if b then m else n) l)
  Ends-if true m n l h k = h refl
  Ends-if false m n l h k = k refl

module _ {Q : Done → List Call → Type 0} {E : List Call → Type 0} where
  pub Ends-perform :
      (d : Daemon) (c : Call) (l : List Call)
      → (d.succeeds l c ≡ true → Q tt (c ∷ l))
      → (d.succeeds l c ≡ false → E (c ∷ l))
      → Ends Q E (perform d c l)
  unfolding perform
  Ends-perform d c l h k = elim (Bool-cases (d.succeeds l c)) [
    | inl done ↦ rw done (returns (h done))
    | inr failed ↦ rw failed (raises (k failed))
  ]

pub Ends-map {ℓ} :
    {A : Type ℓ} {Q R : A → List Call → Type 0} {E F : List Call → Type 0}
    {p : Result A × List Call}
    → ((a : A) (l : List Call) → Q a l → R a l)
    → ((l : List Call) → E l → F l)
    → Ends Q E p
    → Ends R F p
Ends-map f g (returns {a} {l} q) = returns (f a l q)
Ends-map f g (raises {l} e) = raises (g l e)

-- An action with the calls that it may make, and nothing said of its result.
pub Makes-Ends {ℓ} :
    {A : Type ℓ} {P : Call → Type 0} {m : Action A} (log : List Call)
    → Makes P m
    → Ends (λ _ l. Extends P log l) (λ l. Extends P log l) (m log)
Makes-Ends {A} {P} {m} log h = go (m log).0 (m log).1 (h.at log)
  where
    go :
        (r : Result A) (l : List Call)
        → Extends P log l
        → Ends (λ _ l'. Extends P log l') (λ l'. Extends P log l') (r, l)
    go (ok a) l e = returns e
    go (err x) l e = raises e

-- Any action, with nothing said.
pub Ends-any {ℓ} : {A : Type ℓ} (p : Result A × List Call) → Ends (λ _ _. Unit) (λ _. Unit) p
Ends-any (ok a, l) = returns tt
Ends-any (err e, l) = raises tt
