-- ===== src/Docker/Rounds.antt =====
-- How many rounds a loop takes that asks `pg_isready` and sleeps.
-- Whether a loop has used up its rounds.
use relay_agent.Base.{
  Bool, List, String, arith, false, if-rule, if◌then◌else◌, leb, true, ℕ, ◌+◌, ◌==◌, ◌∷◌, ◌≡◌, ◌≢◌,
  ◌≤◌,
}
use relay_agent.Docker.{
  Action, Call, Daemon, Done, Error, Result, continue, docker_error, err, exec, exec_run, ok,
  out_of_rounds, perform, pure, sleep, ◌>>=◌, ◌>>◌,
}

abbrev pub HasRounds : Result Done × List Call → Type 0
HasRounds p = p.0 ≢ err out_of_rounds

pub done-HasRounds : (l : List Call) → HasRounds (ok tt, l)
done-HasRounds l q = ground arith

failed_with : Error → Result Done
failed_with e = err e

error-inj : (e e' : Error) → failed_with e ≡ failed_with e' → e ≡ e'
unfolding failed_with
error-inj e e' q = ground arith

pub other-HasRounds : (e : Error) (l : List Call) → e ≢ out_of_rounds → HasRounds (err e, l)
unfolding failed_with
other-HasRounds e l h q = h (error-inj e out_of_rounds q)

-- What a call answers or raises.
pub answered-HasRounds :
    {A : Type 0} (f : A → Action Done) (b : Bool) (a : A) (l : List Call)
    → HasRounds (f a l)
    → HasRounds (continue f (if b then ok a else err docker_error) l)
answered-HasRounds f true a l h = h
answered-HasRounds f false a l h = other-HasRounds docker_error l (λ q. ground arith)

pub too_early : (deadline now : ℕ) → leb deadline now ≡ false → deadline ≤ now → ⊥
too_early deadline now h b = ground arith

module _ (d : Daemon) (go : Action Done) where
  abbrev pub on_code : ℕ → Action Done
  on_code code = if code == 0 then pure tt else (do perform d sleep; go)

  abbrev pub probe : ℕ → List String → Action Done
  probe h cmd = do code ← exec d h cmd; on_code code

module _ (d : Daemon) (steady : (l : List Call) (c : Call) → d.now l ≤ d.now (c ∷ l))
    (sleeps : (l : List Call) → d.now l + 1000 ≤ d.now (sleep ∷ l)) (go : Action Done)
    (start_time : ℕ)
    (later : (l : List Call) → start_time + 1000 ≤ d.now l → HasRounds (go l)) where
  retry-HasRounds : (l : List Call) → start_time ≤ d.now l → HasRounds ((perform d sleep >> go) l)
  unfolding ◌>>=◌ perform
  retry-HasRounds l h =
      answered-HasRounds (λ _. go) _ tt (sleep ∷ l) (later (sleep ∷ l) (omega (arith, sleeps l)))

  code-HasRounds :
      (code : ℕ) (l : List Call) → start_time ≤ d.now l → HasRounds (on_code d go code l)
  code-HasRounds code l h =
      if-rule {A = Action Done} (λ m. HasRounds (m l)) (code == 0) (λ _. done-HasRounds l)
        λ _. retry-HasRounds l h

  -- One more probe, and the rest of the loop after a second
  pub probe-HasRounds :
      (h : ℕ) (cmd : List String) (l : List Call)
      → start_time ≤ d.now l
      → HasRounds (probe d go h cmd l)
  unfolding ◌>>=◌ exec
  probe-HasRounds h cmd l t =
      answered-HasRounds (on_code d go) (d.succeeds l (exec_run h cmd)) (d.exit_code l h)
        (exec_run h cmd ∷ l)
        (code-HasRounds (d.exit_code l h) (exec_run h cmd ∷ l)
          (omega (arith, steady l (exec_run h cmd))))
