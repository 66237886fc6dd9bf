-- ===== src/Docker/Refuses.antt =====
-- Actions that raise before they make any call.
use relay_agent.Base.{Bool, List, ap, false, refl, true, ◌≡◌}
use relay_agent.Docker.{Action, Call, Error, Result, bad_value, continue, err, ◌>>=◌, ◌>>◌}
use relay_agent.Docker.Objects.{require}

module _ {ℓ} {A : Type ℓ} where
  abbrev pub Refuses : List Call → Result A × List Call → Type ℓ
  Refuses log p = (e : Error) × (p ≡ (err e, log))

  pub require-Refuses :
      (b : Bool) (m : Action A) (log : List Call)
      → (b ≡ true → Refuses log (m log))
      → Refuses log ((require b >> m) log)
  unfolding ◌>>=◌
  require-Refuses true m log h = h refl
  require-Refuses false m log h = (bad_value, refl)

  pub bind-Refuses :
      {B : Type 0} (m : Action B) (f : B → Action A) (log : List Call)
      → (e : Error) × (m log ≡ (err e, log))
      → Refuses log ((m >>= f) log)
  unfolding ◌>>=◌
  bind-Refuses m f log (e, eq) = (e, ap (λ p. continue f p.0 p.1) eq)
