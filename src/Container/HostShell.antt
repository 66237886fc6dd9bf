-- ===== src/Container/HostShell.antt =====
-- agent/commands/host_shell.py: `run_pty_blocking` from the opening of the terminal to its end,
-- around the loop over the input.
use relay_agent.Base.{List, Option, [], none, refl, some, ◌∷◌, ◌≡◌}
use relay_agent.Base.Int.{pos, ℤ}
use relay_agent.Container.HostPty.{HostRound, host_pump}
use relay_agent.Container.Pty.{Effect}

-- `pty_opened` opens both ends of the terminal; `shell_hung_up` is the signal to the shell's process
-- group, `shell_waited` the wait for the reader and for the shell.
pub data ShellEvent : Type 0 where
  pty_opened shell_spawned slave_closed start_reported stop_set shell_hung_up master_closed
        shell_waited :
      ShellEvent
  on_input : List Effect → ShellEvent

-- What goes wrong before the loop: `openpty`, the start of the shell, or the report of the start
pub data Start : Type 0 where
  no_pty no_shell no_report all_well : Start

-- `proc.returncode or 0`; a signal that ends the shell is a negative number.
abbrev pub exit_status : Option ℤ → ℤ
exit_status none = pos 0
exit_status (some n) = n

abbrev pub tear_down : List ShellEvent
tear_down = stop_set ∷ shell_hung_up ∷ master_closed ∷ shell_waited ∷ []

-- The events, and the exit status where no exception is raised
unfoldable pub run_host_pty : Start → List HostRound → Option ℤ → List ShellEvent × Option ℤ
unfolding host_pump
run_host_pty no_pty rounds status = ([], none)
run_host_pty no_shell rounds status = (pty_opened ∷ [], none)
run_host_pty no_report rounds status = (pty_opened ∷ shell_spawned ∷ slave_closed ∷ [], none)
run_host_pty all_well rounds status = (
  pty_opened
      ∷ shell_spawned
      ∷ slave_closed
      ∷ start_reported
      ∷ on_input (host_pump rounds)
      ∷ tear_down,
  some (exit_status status),
)

data End : Type 0 where
  master slave : End

unfoldable without : End → List End → List End
without end [] = []
without master (master ∷ ends) = ends
without slave (slave ∷ ends) = ends
without master (slave ∷ ends) = slave ∷ without master ends
without slave (master ∷ ends) = master ∷ without slave ends

-- The ends of the terminal that are open after some events
unfoldable open_ends : List End → List ShellEvent → List End
unfolding without
open_ends ends [] = ends
open_ends ends (pty_opened ∷ es) = open_ends (master ∷ slave ∷ ends) es
open_ends ends (slave_closed ∷ es) = open_ends (without slave ends) es
open_ends ends (master_closed ∷ es) = open_ends (without master ends) es
open_ends ends (_ ∷ es) = open_ends ends es

abbrev left_open : Start → List End
left_open no_pty = []
left_open no_shell = master ∷ slave ∷ []
left_open no_report = master ∷ []
left_open all_well = []

-- Both ends of the terminal are closed where the shell and the report of its start go well,
-- whatever is typed; where the shell does not start both stay open, and where the start cannot be
-- reported the agent's own end does.
open_ends-run_host_pty :
    (begins : Start) (rounds : List HostRound) (status : Option ℤ)
    → open_ends [] (run_host_pty begins rounds status).0 ≡ left_open begins
unfolding open_ends run_host_pty
open_ends-run_host_pty no_pty rounds status = refl
open_ends-run_host_pty no_shell rounds status = refl
open_ends-run_host_pty no_report rounds status = refl
open_ends-run_host_pty all_well rounds status = refl
