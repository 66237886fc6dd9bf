-- ===== src/Docker/Objects/Rules.antt =====
-- Which calls these actions may make.
use relay_agent.Base.{Bool, List, Option, String, arith, false, none, refl, some, true, ℕ, ◌≡◌}
use relay_agent.Docker.{
  Action, Call, Daemon, Done, Error, Result, Spec, catch, continue, create, err, exec_with,
  get_container, not_found, ok, pure, ◌>>=◌, ◌>>◌,
}
use relay_agent.Docker.Extends.{
  Extends, Extends-trans, Makes, Makes-bind, Makes-catch, Makes-clock, Makes-exec, Makes-handle,
  Makes-if, Makes-perform, Makes-pure, Makes-raise, Makes-reload_status, Makes-suppress, Makes-when,
  after, unchanged,
}
use relay_agent.Docker.Objects.{
  ask, catch_missing, create_container, ending, exec_env, finally, found, look_up, on_missing,
  require, suppress_missing,
}

module _ {P : Call → Type 0} where
  pub Makes-ask : (d : Daemon) (c : Call) → P c → Makes P (ask d c)
  unfolding ask
  Makes-ask d c h = record { at = λ log. after h unchanged }

  pub Makes-look_up :
      (d : Daemon) (name : String) → P (get_container name) → Makes P (look_up d name)
  unfolding look_up
  Makes-look_up d name h = record { at = λ log. after h unchanged }

  pub Makes-create_container :
      (d : Daemon) (s : Spec) → P (create s) → Makes P (create_container d s)
  unfolding create_container
  Makes-create_container d s h = record { at = λ log. after h unchanged }

  pub Makes-exec_env :
      (d : Daemon) (h : ℕ) (cmd : List String) (environment : List (String × String))
      → P (exec_with h cmd environment)
      → Makes P (exec_env d h cmd environment)
  unfolding exec_env
  Makes-exec_env d h cmd environment p = record { at = λ log. after p unchanged }

module _ {ℓ} {A : Type ℓ} {P : Call → Type 0} where
  ending-Extends :
      (r : Result A) {log : List Call} (p : Result Done × List Call)
      → Extends P log p.1
      → Extends P log (ending r p).1
  ending-Extends r (ok tt, l) e = e
  ending-Extends r (err x, l) e = e

  pub Makes-finally :
      (m : Action A) (n : Action Done) → Makes P m → Makes P n → Makes P (finally m n)
  unfolding finally
  Makes-finally m n h k = record {
    at = λ log. ending-Extends (m log).0 (n (m log).1) (Extends-trans (h.at log) (k.at (m log).1));
  }

  on_missing_rule : (n : Action A) (e : Error) → Makes P n → Makes P (on_missing n e)
  on_missing_rule n not_found h = h
  on_missing_rule n e h = Makes-raise e

  pub Makes-catch_missing : (m n : Action A) → Makes P m → Makes P n → Makes P (catch_missing m n)
  unfolding catch_missing
  Makes-catch_missing m n h k = Makes-catch m _ h (λ e. on_missing_rule n e k)

pub Makes-suppress_missing :
    {P : Call → Type 0} (m : Action Done) → Makes P m → Makes P (suppress_missing m)
unfolding suppress_missing
Makes-suppress_missing m h = Makes-catch_missing m _ h (Makes-pure tt)

-- The same of one run, from the calls of the action in that run
pub suppress_missing-Extends :
    {P : Call → Type 0} (m : Action Done) (log : List Call)
    → Extends P log (m log).1
    → Extends P log (suppress_missing m log).1
unfolding suppress_missing catch_missing catch
suppress_missing-Extends m log e =
    Extends-trans e
      ((Makes-handle _ (m log).0 (λ x. on_missing_rule (pure tt) x (Makes-pure tt))).at (m log).1)

module _ {ℓ κ} {A : Type ℓ} {B : Type κ} {P : Call → Type 0} where
  continue-Extends :
      (f : A → Action B) (r : Result A) (l : List Call)
      → ((a : A) → r ≡ ok a → Makes P (f a))
      → Extends P l (continue f r l).1
  continue-Extends f (ok a) l h = (h a refl).at l
  continue-Extends f (err e) l h = unchanged

  pub bind-Extends :
      (m : Action A) (f : A → Action B) (log : List Call)
      → Extends P log (m log).1
      → ((a : A) → (m log).0 ≡ ok a → Makes P (f a))
      → Extends P log ((m >>= f) log).1
  unfolding ◌>>=◌
  bind-Extends m f log e h = Extends-trans e (continue-Extends f (m log).0 (m log).1 h)

pub look_up-finds :
    (d : Daemon) (name : String) (log : List Call) (h : ℕ)
    → (look_up d name log).0 ≡ ok h
    → d.finds log name ≡ some h
unfolding look_up
look_up-finds d name log h eq = from_found _ (d.finds log name) eq
  where
    from_found : (e : Error) (o : Option ℕ) → found d e o ≡ ok h → o ≡ some h
    from_found e none q = ground (arith, q)
    from_found e (some g) q = ground (arith, q)

-- What follows a check may rely on it.
pub Makes-require {ℓ} :
    {A : Type ℓ} {P : Call → Type 0} (b : Bool) (n : Action A)
    → (b ≡ true → Makes P n)
    → Makes P (require b >> n)
unfolding ◌>>=◌
Makes-require true n h = record { at = λ log. (h refl).at log }
Makes-require false n h = record { at = λ log. unchanged }

pub ruleset object_rules = (
  Makes-pure, Makes-raise, Makes-if, Makes-bind, Makes-when, Makes-clock, Makes-reload_status,
  Makes-exec, Makes-perform, Makes-ask, Makes-look_up, Makes-create_container, Makes-catch_missing,
  Makes-suppress_missing, Makes-exec_env, Makes-finally, Makes-suppress,
)
