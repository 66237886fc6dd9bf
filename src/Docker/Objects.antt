-- ===== src/Docker/Objects.antt =====
-- Calls of the Docker client that tell a missing object from any other error, as the commands
-- outside `agent/commands/postgres.py` do.
pub mod Rules
use relay_agent.Base.{Bool, List, Option, String, if◌then◌else◌, none, some, ℕ, ◌∷◌}
use relay_agent.Docker.{
  Action, Call, Daemon, Done, Error, Result, Spec, bad_value, catch, create, docker_error, err,
  exec_with, get_container, not_found, ok, pure, raise,
}

-- `try: m` with `finally: n`
abbrev pub ending {ℓ} : {A : Type ℓ} → Result A → Result Done × List Call → Result A × List Call
ending r (ok _, log) = (r, log)
ending r (err e, log) = (err e, log)

unfoldable pub finally {ℓ} : {A : Type ℓ} → Action A → Action Done → Action A
finally m n log = ending (m log).0 (n (m log).1)

module _ (d : Daemon) where
  -- What a call raises that does not succeed: NotFound, with ImageNotFound under it, or another
  -- exception.
  unfoldable pub refusal : List Call → Call → Error
  refusal log c = if d.missing log c then not_found else docker_error

  -- A call whose answer is not used.
  unfoldable pub ask : Call → Action Done
  unfolding refusal
  ask c log = (if d.succeeds log c then ok tt else err (refusal log c), c ∷ log)

  abbrev pub found : Error → Option ℕ → Result ℕ
  found e (some h) = ok h
  found e none = err e

  -- `containers.get(name)`
  unfoldable pub look_up : String → Action ℕ
  unfolding refusal
  look_up name log =
      (found (refusal log (get_container name)) (d.finds log name), get_container name ∷ log)

  -- `containers.create(**spec)`
  unfoldable pub create_container : Spec → Action ℕ
  unfolding refusal
  create_container spec log = (
    if d.succeeds log (create spec)
        then ok (d.started_as log spec)
        else err (refusal log (create spec)),
    create spec ∷ log,
  )

  -- `container.exec_run(cmd, environment=environment).exit_code`
  unfoldable pub exec_env : ℕ → List String → List (String × String) → Action ℕ
  unfolding refusal
  exec_env h cmd environment log = (
    if d.succeeds log (exec_with h cmd environment)
        then ok (d.exit_code log h)
        else err (refusal log (exec_with h cmd environment)),
    exec_with h cmd environment ∷ log,
  )

-- `try: m` with `except NotFound: n`
abbrev pub on_missing {ℓ} : {A : Type ℓ} → Action A → Error → Action A
on_missing n not_found = n
on_missing n e = raise e

unfoldable pub catch_missing {ℓ} : {A : Type ℓ} → Action A → Action A → Action A
catch_missing m n = catch m (on_missing n)

-- `with suppress(NotFound): m`
unfoldable pub suppress_missing : Action Done → Action Done
unfolding catch_missing
suppress_missing m = catch_missing m (pure tt)

-- `if not b: raise ValueError`
abbrev pub require : Bool → Action Done
require b = if b then pure tt else raise bad_value
