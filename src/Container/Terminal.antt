-- ===== src/Container/Terminal.antt =====
-- agent/commands/container.py: `run_pty_blocking` around the loop over its input.
use relay_agent.Base.{List, Option, [], none, refl, some, suc, ℕ, ◌-◌, ◌∷◌, ◌≡◌}
use relay_agent.Container.Pty.{Effect, Round, pump}

data TerminalEvent : Type 0 where
  exec_created socket_opened size_given announced stop_noted socket_closed reader_joined :
      TerminalEvent
  input_pumped : List Effect → TerminalEvent

-- What fails before the loop: the container, `exec_create`, `exec_start`, `exec_resize`, or the
-- report of the start
data Begin : Type 0 where
  no_container no_exec no_socket no_size no_report begins_well : Begin

-- `info.get("ExitCode") or 0`, and 0 where `exec_inspect` raises
abbrev exit_code_of : Option (Option ℕ) → ℕ
exit_code_of none = 0
exit_code_of (some none) = 0
exit_code_of (some (some n)) = n

abbrev closing : List TerminalEvent
closing = stop_noted ∷ socket_closed ∷ reader_joined ∷ []

-- The events, and the exit code where no exception is raised
unfoldable run_pty : Begin → List Round → Option (Option ℕ) → List TerminalEvent × Option ℕ
unfolding pump
run_pty no_container rounds info = ([], none)
run_pty no_exec rounds info = ([], none)
run_pty no_socket rounds info = (exec_created ∷ [], none)
run_pty no_size rounds info = (exec_created ∷ socket_opened ∷ [], none)
run_pty no_report rounds info = (exec_created ∷ socket_opened ∷ size_given ∷ [], none)
run_pty begins_well rounds info = (
  exec_created ∷ socket_opened ∷ size_given ∷ announced ∷ input_pumped (pump rounds).0 ∷ closing,
  some (exit_code_of info),
)

unfoldable open_sockets : ℕ → List TerminalEvent → ℕ
open_sockets n [] = n
open_sockets n (socket_opened ∷ es) = open_sockets (suc n) es
open_sockets n (socket_closed ∷ es) = open_sockets (n - 1) es
open_sockets n (_ ∷ es) = open_sockets n es

abbrev left_open : Begin → ℕ
left_open no_size = 1
left_open no_report = 1
left_open _ = 0

-- A session that gets as far as its loop closes its socket, whatever is typed; one that fails
-- between `exec_start` and the loop leaves the socket open.
open_sockets-run_pty :
    (b : Begin) (rounds : List Round) (info : Option (Option ℕ))
    → open_sockets 0 (run_pty b rounds info).0 ≡ left_open b
unfolding open_sockets run_pty
open_sockets-run_pty no_container rounds info = refl
open_sockets-run_pty no_exec rounds info = refl
open_sockets-run_pty no_socket rounds info = refl
open_sockets-run_pty no_size rounds info = refl
open_sockets-run_pty no_report rounds info = refl
open_sockets-run_pty begins_well rounds info = refl
