-- ===== src/Lib.antt =====
-- The agent that runs on a server and does what its control plane asks: it keeps one WebSocket to
-- the gateway, dispatches requests to Docker, Postgres and file commands, and carries streams of
-- terminals and tunnels. Paths are from the repository's root.
--
-- - Base: Boolean tests, lists and texts, and Python dictionaries.
-- - Gateway (agent/gateway.py): Session is `_Session` with `_stream_ctrl`, `_drain_stream_bytes`,
--   `_claim_stream` and `_release_stream`; Dispatch is `_dispatch_message`; Frame has the frames
--   sent and the tasks started; System is a connection over time, a relation of steps that the read
--   loop, the workers' callbacks and the tasks may take in any order; Tasks has
--   `_execute_and_reply`, `_run_pty_stream`, its two callers and `_offer`; Tunnel is
--   `_handle_tcp_tunnel_session` and its reader, whose waits at the gate and in `ws.send` are moves
--   of their own, Consume its `_consume_ctrl`, Closing `_Session.close`; Reconnect is the loop of
--   `run`; Json has the values of messages.
-- - Executor (agent/executor.py): `Executor.dispatch`, from a method's name to a handler; Checks
--   has `docker_version` and `container_exists`.
-- - Fs (agent/commands/fs.py): Cursor is `_validate_list_cursor`, Walk is `list_dir`, Ranges is
--   `read_bytes`, Paths `_relative_parts`, `_open_dir` and `_parent_fd`, Lexical the paths of
--   posixpath; Writes has `write_text`, `write_bytes`, `mkdir`, `remove`, `remove_tree`, `archive`
--   and `read_bytes` over the calls of Disk, a parameter; Lawful says what is relied on of these.
-- - Shell: `shlex.quote`, and the words that a POSIX shell makes of a line.
-- - Docker: the daemon's answers, a parameter, and actions that keep the list of calls made.
-- - Postgres (agent/commands/postgres.py): Command has the command lines, Actions the private
--   methods of `PostgresCommands`, Mutations `bootstrap`, `enable_pitr` and `retune`.
-- - Slug: the patterns for slugs and identifiers of agent/commands/tenantdb.py and
--   agent/commands/instance.py.
-- - TenantDb (agent/commands/tenantdb.py): Names has the names and the checks of `ensure`, Ensure
--   that command, Lifecycle `status`, `stop`, `start` and `remove`, Patterns the patterns for
--   paths, Files `dump`, `restore`, `export` and `cleanup`; Commands is what agent/executor.py does
--   with the action that a method names.
-- - Container (agent/commands/container.py): Volumes is `_resolve_volumes`, Run has `run`,
--   `stop`, `start`, `remove` and `exec_run`, Terminal is `run_pty_blocking` and Pty its input
--   loop; Stats has `stats` and `metrics_samples`, Views `inspect`, `logs` and `list`. Of
--   agent/commands/host_shell.py HostShell has `run_pty_blocking`, HostPty its loops and ShellEnv
--   `_safe_shell_env`.
-- - Image (agent/commands/image.py): `pull`, `prune_unused`, `prune_dangling` and `extract_file`.
-- - Instance (agent/commands/instance.py): Command is the command line, Addons
--   `_merge_addon_paths`, Discovered the reading of the probe's output, Labels
--   `_build_traefik_labels`, Conf `_replace_addons_path`, Specs the arguments of its containers,
--   Provision `provision` and its helpers.
-- - TcpTunnel (agent/commands/tcp_tunnel.py): `open_connection` and the network joined for it.
-- - Metrics: `_metrics_loop` of agent/gateway.py, with `collect_metrics` of agent/executor.py.
-- - Config (agent/config.py): the settings; System (agent/commands/system.py): `metrics`.
-- - Examples: the theorems at concrete inputs.
--
-- The dispatcher works on the session's state alone; its tasks meet it again through the stream
-- queues, the byte counts and the release of streams and slots. The commands of Postgres,
-- TenantDb, Container and Instance meet the rest only through the calls to the daemon;
-- `provision` starts its container as `run` does.
--
-- What is not code of the repository is a parameter: the daemon's answers to all calls made so
-- far, which include those to the file system, whether a frame is delivered, how a wait ends, the
-- tree of files at each round, Python's conversions of numbers. Times are in milliseconds.
--
-- Loops: `list_dir` takes a number of rounds, and 40 128 are enough, since each round visits an
-- entry or leaves a directory. Both `_wait_ready` take a number of rounds too: for 120 s at most
-- 121 are enough, and 91 for the 90 s of a tenant's server.
--
-- Not modelled: the entry point agent/__main__.py, which only builds the parts and runs them; TLS
-- settings and registry credentials; how the tasks of a tunnel are cancelled; the methods of
-- `Executor` that only forward; floating-point numbers in messages and settings; rounding,
-- logging and redaction. A path is the text that the code joins, without the normalisation of
-- pathlib.
mod Base
pub mod Gateway
pub mod Shell
pub mod Executor
pub mod Docker
pub mod Postgres
pub mod Fs
mod Examples
pub mod Slug
pub mod TenantDb
pub mod Container
pub mod Instance
pub mod Image
pub mod TcpTunnel
pub mod Config
pub mod Metrics
pub mod System
