-- ===== src/Docker/Extends.antt =====
-- Which calls an action may make: one rule for each way to build an action.
use relay_agent.Base.{Bool, List, String, false, if◌then◌else◌, true, ℕ, ◌∷◌}
use relay_agent.Docker.{
  Action, Call, Daemon, Done, Error, Result, Spec, catch, clock, continue, err, exec, exec_run,
  find, get_container, handle, monotonic, ok, perform, pure, raise, reload, reload_status, run,
  run_container_spec, suppress, when, ◌>>=◌,
}

-- The calls of `log` and then only calls that satisfy `P`.
pub data Extends (P : Call → Type 0) (log : List Call) : List Call → Type 0 where
  unchanged : Extends P log log
  after : {c : Call} {l : List Call} → P c → Extends P log l → Extends P log (c ∷ l)

pub Extends-trans :
    {P : Call → Type 0} {a b c : List Call} → Extends P a b → Extends P b c → Extends P a c
Extends-trans p unchanged = p
Extends-trans p (after h q) = after h (Extends-trans p q)

-- An action that makes no other calls.
pub record Makes {ℓ} {A : Type ℓ} (P : Call → Type 0) (m : Action A) : Type 0 where
  pub at : (log : List Call) → Extends P log (m log).1

Extends-map :
    {P Q : Call → Type 0} {log l : List Call}
    → ((c : Call) → P c → Q c)
    → Extends P log l
    → Extends Q log l
Extends-map f unchanged = unchanged
Extends-map f (after {c} h e) = after (f c h) (Extends-map f e)

pub Makes-map {ℓ} :
    {A : Type ℓ} {P Q : Call → Type 0} {m : Action A}
    → ((c : Call) → P c → Q c)
    → Makes P m
    → Makes Q m
Makes-map f h = record { at = λ log. Extends-map f (h.at log) }

module _ {ℓ} {A : Type ℓ} {P : Call → Type 0} where
  pub Makes-pure : (a : A) → Makes P (pure a)
  Makes-pure a = record { at = λ log. unchanged }

  pub Makes-raise : (e : Error) → Makes P (raise {A = A} e)
  Makes-raise e = record { at = λ log. unchanged }

  pub Makes-if : (b : Bool) (m n : Action A) → Makes P m → Makes P n → Makes P (if b then m else n)
  Makes-if true m n h k = h
  Makes-if false m n h k = k

  pub Makes-handle :
      (f : Error → Action A) (r : Result A) → ((e : Error) → Makes P (f e)) → Makes P (handle f r)
  Makes-handle f (ok a) h = record { at = λ log. unchanged }
  Makes-handle f (err e) h = record { at = λ log. (h e).at log }

  pub Makes-catch :
      (m : Action A) (f : Error → Action A)
      → Makes P m
      → ((e : Error) → Makes P (f e))
      → Makes P (catch m f)
  unfolding catch
  Makes-catch m f h k = record {
    at = λ log. Extends-trans (h.at log) ((Makes-handle f (m log).0 k).at (m log).1);
  }

module _ {ℓ κ} {A : Type ℓ} {B : Type κ} {P : Call → Type 0} where
  pub Makes-continue :
      (f : A → Action B) (r : Result A) → ((a : A) → Makes P (f a)) → Makes P (continue f r)
  Makes-continue f (ok a) h = record { at = λ log. (h a).at log }
  Makes-continue f (err e) h = record { at = λ log. unchanged }

  pub Makes-bind :
      (m : Action A) (f : A → Action B) → Makes P m → ((a : A) → Makes P (f a)) → Makes P (m >>= f)
  unfolding ◌>>=◌
  Makes-bind m f h k = record {
    at = λ log. Extends-trans (h.at log) ((Makes-continue f (m log).0 k).at (m log).1);
  }

module _ {P : Call → Type 0} where
  pub Makes-when : (b : Bool) (m : Action Done) → Makes P m → Makes P (when b m)
  unfolding when
  Makes-when true m h = h
  Makes-when false m h = record { at = λ log. unchanged }

  pub Makes-suppress : (m : Action Done) → Makes P m → Makes P (suppress m)
  unfolding suppress
  Makes-suppress m h = Makes-catch m _ h (λ e. Makes-pure tt)

  pub Makes-perform : (d : Daemon) (c : Call) → P c → Makes P (perform d c)
  unfolding perform
  Makes-perform d c h = record { at = λ log. after h unchanged }

  pub Makes-find : (d : Daemon) (name : String) → P (get_container name) → Makes P (find d name)
  unfolding find
  Makes-find d name h = record { at = λ log. after h unchanged }

  pub Makes-clock : (d : Daemon) → P monotonic → Makes P (clock d)
  unfolding clock
  Makes-clock d h = record { at = λ log. after h unchanged }

  pub Makes-reload_status : (d : Daemon) (h : ℕ) → P (reload h) → Makes P (reload_status d h)
  unfolding reload_status
  Makes-reload_status d h p = record { at = λ log. after p unchanged }

  pub Makes-run_container_spec :
      (d : Daemon) (s : Spec) → P (run s) → Makes P (run_container_spec d s)
  unfolding run_container_spec
  Makes-run_container_spec d s p = record { at = λ log. after p unchanged }

  pub Makes-exec :
      (d : Daemon) (h : ℕ) (cmd : List String) → P (exec_run h cmd) → Makes P (exec d h cmd)
  unfolding exec
  Makes-exec d h cmd p = record { at = λ log. after p unchanged }

pub ruleset makes_rules = (
  Makes-pure, Makes-raise, Makes-if, Makes-catch, Makes-bind, Makes-when, Makes-suppress,
  Makes-perform, Makes-find, Makes-clock, Makes-reload_status, Makes-run_container_spec, Makes-exec,
)
