-- ===== src/Examples/Commands.antt =====
-- agent/commands/postgres.py: a recreation on a daemon where every call succeeds.
use relay_agent.Base.{List, String, [], arith, false, none, refl, some, true, ℕ, ◌+◌, ◌∷◌, ◌≡◌, ◌≤◌}
use relay_agent.Docker.{Call, Daemon, codes, running, sleep}
use relay_agent.Docker.Ends.{Ends}
use relay_agent.Docker.Rounds.{HasRounds}
use relay_agent.Postgres.Actions.{Settings, recreate_with_rollback, wait_ready}
use relay_agent.Postgres.Command.{
  archives, flagged, install_wrapper, pg_args, postgres_command_line,
}
use relay_agent.Postgres.Idempotence.{archives-install_wrapper, words-postgres_command_line}
use relay_agent.Postgres.Rollback.{Committed, Kept, recreate_with_rollback-Ends}
use relay_agent.Postgres.Rounds.{wait_ready-HasRounds}
use relay_agent.Shell.{words}

abbrev pub steady : Daemon
steady = record {
  finds = λ log n. some 9;
  succeeds = λ log c. true;
  missing = λ log c. false;
  has_mount = λ log h path. true;
  endpoints = λ log n. [];
  is_file = λ log p. true;
  is_dir = λ log p. true;
  entries = λ log p. [];
  archived_file = λ log. true;
  status_of = λ log h. running;
  command_of = λ log h. [];
  started_as = λ log s. 9;
  exit_code = λ log h. 0;
  now = λ log. 1000;
}

abbrev old_name : ℕ → String
old_name h = "berth_postgres_rollback_0123456789ab"

abbrev some_settings : Settings
some_settings = record {
  pg_user = "odoo";
  pg_password = "secret";
  network = "berth_platform_proxy";
  image = "postgres:16";
  pg_extra_args = codes "log_line_prefix='%m'" ∷ [];
}

recreate_with_rollback-Ends_example :
    Ends
      (λ _ l. Committed steady (codes "/data") old_name 7 true some_settings false 300000 [] l)
      (λ l. Kept steady (codes "/data") old_name 7 true [] l)
      (recreate_with_rollback steady
        (codes "/data")
        old_name
        2
        7
        true
        some_settings
        false
        300000
        [])
recreate_with_rollback-Ends_example =
    recreate_with_rollback-Ends steady (codes "/data") old_name 7 true (λ l a e. ground arith) 2
      some_settings false 300000 [] refl

words-postgres_command_line_example :
    words (postgres_command_line (codes "log_line_prefix='%m'" ∷ []))
    ≡ some (codes "postgres" ∷ flagged (codes "log_line_prefix='%m'" ∷ []))
words-postgres_command_line_example =
    words-postgres_command_line (codes "log_line_prefix='%m'" ∷ [])

archives-install_wrapper_example :
    archives (
      install_wrapper
        (codes "postgres:16")
        (postgres_command_line (pg_args true (codes "work_mem=4MB" ∷ []))))
    ≡ true
archives-install_wrapper_example =
    archives-install_wrapper (codes "postgres:16") (codes "work_mem=4MB" ∷ [])

abbrev pub slept : List Call → ℕ
slept [] = 0
slept (sleep ∷ l) = slept l + 1000
slept (_ ∷ l) = slept l

-- A daemon whose clock only moves while the code sleeps, and where Postgres never answers.
abbrev pub silent : Daemon
silent = record {
  finds = λ log n. none;
  succeeds = λ log c. true;
  missing = λ log c. false;
  has_mount = λ log h path. true;
  endpoints = λ log n. [];
  is_file = λ log p. true;
  is_dir = λ log p. true;
  entries = λ log p. [];
  archived_file = λ log. true;
  status_of = λ log h. running;
  command_of = λ log h. [];
  started_as = λ log s. 9;
  exit_code = λ log h. 2;
  now = slept;
}

pub silent-steady : (l : List Call) (c : Call) → slept l ≤ slept (c ∷ l)
silent-steady l sleep = omega arith
silent-steady l _ = omega arith

pub silent-sleeps : (l : List Call) → slept l + 1000 ≤ slept (sleep ∷ l)
silent-sleeps l = omega arith

wait_ready-HasRounds_example :
    HasRounds (wait_ready silent (codes "/data") old_name 121 9 "odoo" 120000 [])
wait_ready-HasRounds_example =
    wait_ready-HasRounds silent (codes "/data") old_name silent-steady silent-sleeps 120 9 "odoo"
      120000 [] (omega arith)
