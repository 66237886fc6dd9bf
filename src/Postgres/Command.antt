-- ===== src/Postgres/Command.antt =====
-- agent/commands/postgres.py: the server's arguments, the line that starts it, and the test by
-- which a later command recognises WAL archiving.
use relay_agent.Base.{
  Bool, List, Text, [], any, false, if◌then◌else◌, true, ◌&&◌, ◌++◌, ◌==◌, ◌||◌, ◌∷◌,
}
use relay_agent.Docker.{codes}
use relay_agent.Shell.{quote}

-- `_BASELINE_POSTGRES_ARGS`
abbrev pub baseline_args : List Text
baseline_args =
    codes "shared_preload_libraries=pg_stat_statements,pgaudit,auto_explain"
    ∷ codes "log_line_prefix=%m [%p] user=%u,db=%d "
    ∷ codes "auto_explain.log_min_duration=1000"
    ∷ []

abbrev pub archive_settings : List Text
archive_settings =
    codes "archive_command=test ! -f /wal_archive/%f && cp %p /wal_archive/%f"
    ∷ codes "wal_level=replica"
    ∷ codes "archive_timeout=300"
    ∷ []

abbrev pub archive_args : List Text
archive_args = codes "archive_mode=on" ∷ archive_settings

-- The arguments that `_run_container` puts together.
unfoldable pub pg_args : Bool → List Text → List Text
pg_args wal_archiving extra =
    baseline_args ++ ((if wal_archiving then archive_args else []) ++ extra)

-- `" ".join(f"-c {shlex.quote(arg)}" for arg in pg_args)`
unfoldable pub join_flags : List Text → Text
join_flags [] = []
join_flags (a ∷ []) = codes "-c " ++ quote a
join_flags (a ∷ b ∷ args) = codes "-c " ++ (quote a ++ (codes " " ++ join_flags (b ∷ args)))

-- `_postgres_command_line`
unfoldable pub postgres_command_line : List Text → Text
unfolding join_flags
postgres_command_line args = codes "postgres " ++ join_flags args

-- `image.rsplit(":", 1)[-1]`, read from the left: what stands behind the last colon so far.
unfoldable pub last_part : Text → Text → Text
last_part part [] = part
last_part part (c ∷ s) = last_part (if c == b':' then [] else part ++ c ∷ []) s

-- The script of `_postgres_extensions_install_wrapper`
unfoldable pub install_script : Text → Text → Text
unfolding last_part
install_script image postgres_command =
    let pg_major = quote (last_part [] image) in
    codes "apt-get update -qq && DEBIAN_FRONTEND=noninteractive apt-get install -y -qq postgresql-"
    ++ (pg_major
        ++ (codes "-pgaudit postgresql-"
            ++ (pg_major
                ++ (codes "-hypopg postgresql-"
                    ++ (pg_major
                        ++ (codes "-repack >/dev/null && exec docker-entrypoint.sh "
                            ++ postgres_command))))))

-- `_postgres_extensions_install_wrapper`
unfoldable pub install_wrapper : Text → Text → List Text
unfolding install_script
install_wrapper image postgres_command =
    codes "sh" ∷ codes "-c" ∷ install_script image postgres_command ∷ []

unfoldable pub is_prefix : Text → Text → Bool
is_prefix [] s = true
is_prefix (c ∷ p) [] = false
is_prefix (c ∷ p) (b ∷ s) = c == b && is_prefix p s

-- `p in s`
unfoldable pub contains : Text → Text → Bool
unfolding is_prefix
contains p [] = is_prefix p []
contains p (c ∷ s) = is_prefix p (c ∷ s) || contains p s

-- `any("archive_mode=on" in str(part) for part in cmd)`
unfoldable pub archives : List Text → Bool
unfolding contains
archives cmd = any (contains (codes "archive_mode=on")) cmd

-- The words that the shell has to make of the line.
abbrev pub flagged : List Text → List Text
flagged [] = []
flagged (a ∷ args) = codes "-c" ∷ a ∷ flagged args
