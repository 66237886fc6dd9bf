-- ===== src/Docker/Yields.antt =====
-- What an action that makes only certain calls answers with.
use relay_agent.Base.{
  Bool, Bool-cases, List, Option-cases, String, false, if◌then◌else◌, inl, inr, refl, some, true,
  ◌≡◌,
}
use relay_agent.Docker.{
  Action, Call, Daemon, Error, Result, Spec, catch, continue, create, err, get_container, handle,
  not_found, ok, pure, raise, ◌>>=◌,
}
use relay_agent.Docker.Ends.{Ends, raises, returns}
use relay_agent.Docker.Extends.{Extends, Extends-trans, Makes, after, unchanged}
use relay_agent.Docker.Objects.{catch_missing, create_container, look_up, on_missing}

pub record Yields {ℓ} {A : Type ℓ} (P : Call → Type 0) (R : A → Type 0) (m : Action A)
    : Type ℓ where
  pub at : (log : List Call) → Ends (λ a l. R a × Extends P log l) (λ l. Extends P log l) (m log)

module _ {ℓ} {A : Type ℓ} {P : Call → Type 0} {R : A → Type 0} where
  pub Yields-pure : (a : A) → R a → Yields P R (pure a)
  Yields-pure a r = record { at = λ log. returns (r, unchanged) }

  pub Yields-raise : (e : Error) → Yields P R (raise {A = A} e)
  Yields-raise e = record { at = λ log. raises unchanged }

  pub Yields-if :
      (b : Bool) (m n : Action A) → Yields P R m → Yields P R n → Yields P R (if b then m else n)
  Yields-if true m n h k = h
  Yields-if false m n h k = k

  weaker :
      {S : A → Type 0} {log : List Call} {p : Result A × List Call}
      → ((a : A) → R a → S a)
      → Ends (λ a l. R a × Extends P log l) (λ l. Extends P log l) p
      → Ends (λ a l. S a × Extends P log l) (λ l. Extends P log l) p
  weaker w (returns {a} (r, e)) = returns (w a r, e)
  weaker w (raises e) = raises e

  pub Yields-weaken :
      {S : A → Type 0} {m : Action A} → ((a : A) → R a → S a) → Yields P R m → Yields P S m
  Yields-weaken w h = record { at = λ log. weaker w (h.at log) }

  from_there :
      {log l : List Call} {p : Result A × List Call}
      → Extends P log l
      → Ends (λ a l'. R a × Extends P l l') (λ l'. Extends P l l') p
      → Ends (λ a l'. R a × Extends P log l') (λ l'. Extends P log l') p
  from_there e (returns (r, f)) = returns (r, Extends-trans e f)
  from_there e (raises f) = raises (Extends-trans e f)

  missing_case :
      (n : Action A) (e : Error) {log l : List Call}
      → Extends P log l
      → Yields P R n
      → Ends (λ a l'. R a × Extends P log l') (λ l'. Extends P log l') (on_missing n e l)
  missing_case n not_found {l} f k = from_there f (k.at l)
  missing_case n e f k = raises f

  missing_too :
      (n : Action A) {log : List Call} {p : Result A × List Call}
      → Ends (λ a l. R a × Extends P log l) (λ l. Extends P log l) p
      → Yields P R n
      → Ends (λ a l. R a × Extends P log l) (λ l. Extends P log l) (handle (on_missing n) p.0 p.1)
  missing_too n (returns q) k = returns q
  missing_too n (raises {e} f) k = missing_case n e f k

  pub Yields-catch_missing :
      (m n : Action A) → Yields P R m → Yields P R n → Yields P R (catch_missing m n)
  unfolding catch_missing catch
  Yields-catch_missing m n h k = record { at = λ log. missing_too n (h.at log) k }

module _ {ℓ κ} {A : Type ℓ} {B : Type κ} {P : Call → Type 0} {R : A → Type 0} where
  chained_calls :
      (f : A → Action B) {log : List Call} {p : Result A × List Call}
      → Ends (λ a l. R a × Extends P log l) (λ l. Extends P log l) p
      → ((a : A) → R a → Makes P (f a))
      → Extends P log (continue f p.0 p.1).1
  chained_calls f (returns {a} {l} (r, e)) k = Extends-trans e ((k a r).at l)
  chained_calls f (raises e) k = e

  -- What follows an action knows what it has answered.
  pub Makes-after :
      (m : Action A) (f : A → Action B)
      → Yields P R m
      → ((a : A) → R a → Makes P (f a))
      → Makes P (m >>= f)
  unfolding ◌>>=◌
  Makes-after m f h k = record { at = λ log. chained_calls f (h.at log) k }

  module _ {S : B → Type 0} where
    chained :
        (f : A → Action B) {log : List Call} {p : Result A × List Call}
        → Ends (λ a l. R a × Extends P log l) (λ l. Extends P log l) p
        → ((a : A) → R a → Yields P S (f a))
        → Ends (λ b l. S b × Extends P log l) (λ l. Extends P log l) (continue f p.0 p.1)
    chained f (returns {a} {l} (r, e)) k = from_there e ((k a r).at l)
    chained f (raises e) k = raises e

    pub Yields-bind :
        (m : Action A) (f : A → Action B)
        → Yields P R m
        → ((a : A) → R a → Yields P S (f a))
        → Yields P S (m >>= f)
    unfolding ◌>>=◌
    Yields-bind m f h k = record { at = λ log. chained f (h.at log) k }

-- An action of which only the calls are known
module _ {ℓ} {A : Type ℓ} {P : Call → Type 0} where
  known :
      {log : List Call} (r : Result A) (l : List Call)
      → Extends P log l
      → Ends (λ _ l'. Unit × Extends P log l') (λ l'. Extends P log l') (r, l)
  known (ok a) l e = returns (tt, e)
  known (err x) l e = raises e

  pub Yields-any : (m : Action A) → Makes P m → Yields P (λ _. Unit) m
  Yields-any m h = record { at = λ log. known (m log).0 (m log).1 (h.at log) }

module _ {P : Call → Type 0} (d : Daemon) where
  pub Yields-look_up :
      (name : String)
      → P (get_container name)
      → Yields P (λ h. (l : List Call) × (d.finds l name ≡ some h)) (look_up d name)
  unfolding look_up
  Yields-look_up name p = record {
    at = λ log. elim (Option-cases (d.finds log name)) [
      | inl nothing ↦ rw nothing (raises (after p unchanged))
      | inr (h, some_h) ↦ rw some_h (returns ((log, some_h), after p unchanged))
    ];
  }

  pub Yields-create_container :
      (s : Spec)
      → P (create s)
      → Yields P (λ h. (l : List Call) × (d.started_as l s ≡ h)) (create_container d s)
  unfolding create_container
  Yields-create_container s p = record {
    at = λ log. elim (Bool-cases (d.succeeds log (create s))) [
      | inl done ↦ rw done (returns ((log, refl), after p unchanged))
      | inr refused ↦ rw refused (raises (after p unchanged))
    ];
  }
