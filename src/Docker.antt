-- ===== src/Docker.antt =====
-- What the commands ask of the Docker daemon, of the clock and of the file system. The daemon is
-- no code of the repository: its answers are a parameter, functions of all the calls before, so
-- that nothing is assumed of it. A command is an action that answers or raises, and leaves behind
-- the calls that it has made, newest first.
pub mod Extends
pub mod Ends
pub mod Aside
pub mod Objects
pub mod Yields
pub mod Rounds
pub mod Probed
pub mod Refuses
use Prim.Native.Char.{code}
use relay_agent.Base.{Bool, List, Option, String, Text, [], false, if◌then◌else◌, true, ℕ, ◌∷◌}
use relay_agent.Base.Int.{ℤ}

-- The code points of a text.
abbrev pub codes : String → Text
codes String.[] = []
codes (String.◌∷◌ c s) = code c ∷ codes s

-- The keyword arguments of `containers.run` and `containers.create`; what is always the same for
-- one caller (restart policy, log rotation, capabilities) stands in `options`.
pub record Spec : Type 0 where
  pub image : String
  pub name : String
  pub command : List Text
  pub environment : List (String × Text)
  pub volumes : List (Text × String × String)
  pub network : String
  pub mem_limit : Option String
  pub pids_limit : Option ℤ
  pub options : List (String × String)

-- A container object is the number of its container.
pub data Call : Type 0 where
  get_container get_image pull_image pull_build get_network create_network : String → Call
  create_internal_network reload_network remove_network : String → Call
  get_volume remove_volume : String → Call
  connect : String → ℕ → Call
  disconnect : String → String → Call
  reload stop start wait logs : ℕ → Call
  rename : ℕ → String → Call
  remove : ℕ → Bool → Call
  run create : Spec → Call
  exec_run exec_root : ℕ → List String → Call
  exec_with : ℕ → List String → List (String × String) → Call
  get_archive put_archive : ℕ → Text → Call
  make_dirs remove_tree unlink remove_dir write_file extract_into : Text → Call
  write_text : Text → Text → Call
  move : Text → Text → Call
  monotonic sleep : Call

pub data Status : Type 0 where
  running exited dead removing another : Status

-- What is answered, after the calls of a list, to one more. `succeeds` is false where the call
-- raises, and `missing` is true where that is a NotFound; `now` is `time.monotonic()` in milliseconds;
-- `archived_file` is true where the archive just fetched begins with a regular file.
pub record Daemon : Type 0 where
  pub finds : List Call → String → Option ℕ
  pub succeeds : List Call → Call → Bool
  pub missing : List Call → Call → Bool
  pub has_mount : List Call → ℕ → String → Bool
  pub endpoints : List Call → String → List String
  pub is_file : List Call → Text → Bool
  pub is_dir : List Call → Text → Bool
  pub entries : List Call → Text → List Text
  pub archived_file : List Call → Bool
  pub status_of : List Call → ℕ → Status
  pub command_of : List Call → ℕ → List Text
  pub started_as : List Call → Spec → ℕ
  pub exit_code : List Call → ℕ → ℕ
  pub now : List Call → ℕ

-- The exceptions that the code tells apart, or raises itself. `out_of_rounds` stands for a loop
-- that has used up the rounds it was given.
pub data Error : Type 0 where
  docker_error deadline_exceeded insufficient_margin replacement_stopped not_ready : Error
  image_unavailable already_running out_of_rounds not_found bad_value failed_command : Error
  missing_file missing_key : Error

pub data Result {ℓ} (A : Type ℓ) : Type ℓ where
  ok : A → Result A
  err : Error → Result A

abbrev pub Action {ℓ} : Type ℓ → Type ℓ
Action A = List Call → Result A × List Call

abbrev pub Done : Type 0
Done = Unit

abbrev pub pure {ℓ} : {A : Type ℓ} → A → Action A
pure a log = (ok a, log)

abbrev pub raise {ℓ} : {A : Type ℓ} → Error → Action A
raise e log = (err e, log)

abbrev pub continue {ℓ κ} : {A : Type ℓ} {B : Type κ} → (A → Action B) → Result A → Action B
continue f (ok a) log = f a log
continue f (err e) log = (err e, log)

infixl 5 ◌>>=◌ ◌>>◌
unfoldable pub ◌>>=◌ {ℓ κ} : {A : Type ℓ} {B : Type κ} → Action A → (A → Action B) → Action B
◌>>=◌ m f log = continue f (m log).0 (m log).1

abbrev pub ◌>>◌ {ℓ κ} : {A : Type ℓ} {B : Type κ} → Action A → Action B → Action B
m >> n = m >>= λ _. n

abbrev pub handle {ℓ} : {A : Type ℓ} → (Error → Action A) → Result A → Action A
handle f (ok a) log = (ok a, log)
handle f (err e) log = f e log

-- `try: m` with `except Exception as e: f(e)`
unfoldable pub catch {ℓ} : {A : Type ℓ} → Action A → (Error → Action A) → Action A
catch m f log = handle f (m log).0 (m log).1

-- `with suppress(Exception): m`
unfoldable pub suppress : Action Done → Action Done
suppress m = catch m (λ _. pure tt)

unfoldable pub when : Bool → Action Done → Action Done
when true m = m
when false m = pure tt

module _ (d : Daemon) where
  -- A call whose answer is not used.
  unfoldable pub perform : Call → Action Done
  perform c log = (if d.succeeds log c then ok tt else err docker_error, c ∷ log)

  -- `containers.get(name)`, with `none` for every exception
  unfoldable pub find : String → Action (Option ℕ)
  find name log = (ok (d.finds log name), get_container name ∷ log)

  unfoldable pub clock : Action ℕ
  clock log = (ok (d.now log), monotonic ∷ log)

  -- `container.reload()` and then `container.status`
  unfoldable pub reload_status : ℕ → Action Status
  reload_status h log = (
    if d.succeeds log (reload h) then ok (d.status_of (reload h ∷ log) h) else err docker_error,
    reload h ∷ log,
  )

  -- `containers.run(**spec)`
  unfoldable pub run_container_spec : Spec → Action ℕ
  run_container_spec spec log = (
    if d.succeeds log (run spec) then ok (d.started_as log spec) else err docker_error,
    run spec ∷ log,
  )

  -- `container.exec_run(cmd).exit_code`
  unfoldable pub exec : ℕ → List String → Action ℕ
  exec h cmd log = (
    if d.succeeds log (exec_run h cmd) then ok (d.exit_code log h) else err docker_error,
    exec_run h cmd ∷ log,
  )

  -- `container.attrs["Config"]["Cmd"]`, as the last reload left it.
  unfoldable pub started_command : ℕ → Action (List Text)
  started_command h log = (ok (d.command_of log h), log)
