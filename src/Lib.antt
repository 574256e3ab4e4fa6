-- ===== src/Lib.antt =====
-- nexus-link: the agent that links a GPU machine to the Nexus backend. The service takes commands
-- over HTTP and from a queue, the agent sends telemetry, and the command line sets both up.
--
-- The parts, with the code that each file models (paths from the repository's root):
-- - Core/Token: crates/nexus-link-core/src/token.rs. Core/Config, Core/ConfigFile: config.rs there, the
--   records with the migration, and the paths with `load_from` and `save_to`. Core/Preflight,
--   Core/Network: preflight.rs and network.rs there.
-- - Service/State, Service/Auth, Service/CmdAuth: crates/nexus-link-service/src/state.rs,
--   and middleware/auth.rs and middleware/cmd_auth.rs beside it. `require_cmd_auth` has the nonce cache as a state
--   that it takes and returns, and the two readings of the clock as arguments.
-- - Service/Compose, Service/ExtraFiles, Service/Logs: handlers/compose.rs. Service/Poller,
--   Service/PollerFiles, Service/Command, Service/Logs: poller.rs and the command types of
--   crates/nexus-link-core/src/types.rs. Service/Files is what both channels share.
-- - Service/PollLoop: the poll loop of main.rs and the reconnection loop of pg_listener.rs. A loop is a
--   function of the list of the outcomes of its rounds; the seconds it returns are the limits of the
--   sleeps, which a wake-up may end early.
-- - Cli/ConfigCmd, Cli/Refresh, Cli/Register, Cli/Upgrade:
--   crates/nexus-link-cli/src/commands/config.rs, refresh.rs with refresh_cmd.rs, register.rs and upgrade.rs.
-- - Shell: the machine that commands work on. Core/Setup: setup.rs of the core crate, with the units in
--   Setup/Units and the binaries in Setup/Binaries. Cli/Reset, Cli/Unregister, Cli/AgentCmd: reset.rs,
--   unregister.rs and agent.rs of the commands. Cli/Main: main.rs of the command line, and status.rs.
-- - Service/NodeCommands, Service/Router: handlers/commands.rs, health.rs and mod.rs with the layers
--   of main.rs.
-- - Agent/Collector, Agent/Telemetry: crates/nexus-link-agent/src/collector.rs, the GPU metrics and the rest
--   with the payload. Agent/PushLoop: pusher.rs and the loop of main.rs there.
-- - Tests: concrete values, and instances of the theorems.
--
-- Base has the shared names, Text the operations of Rust's texts, Fs the file system and Process child
-- processes. The configuration reaches the service at its start through `AppState`, and the command
-- line by the file that `save_to` writes; both channels to the compose file write it in the same way.
--
-- A path is its text. A file system is a function from paths to contents; an operation that may fail
-- takes its failure as an argument, and a failed write may leave a part of its content. Processes,
-- answers of the backend, directory listings, random bytes and clock readings are arguments. Code of
-- other packages is a parameter: `Crypto` (sha2, base64, subtle), `SignatureLib` (ed25519-dalek, hex,
-- chrono, axum), `Toml` (toml), the errors of serde_yaml, the classes of characters that need Unicode's
-- tables, and floating-point numbers. Laws that are needed of them are the records `IsCrypto` and
-- `IsToml`. The machine `Os` gives to every
-- process and operation on files a result that may depend on the whole history of events before it; a
-- step takes a history and returns its value with the longer one. What `cp`, `chown`, `chmod` and `rm`
-- do is stated in `IsShell` and `IsRemoving`, and that git keeps to its own directory in `IsGit`; what git,
-- `docker compose up` and `tar` do to files is otherwise open. Numbers are natural numbers: a parsed number is bounded by its type's largest value, and
-- sums and products of sizes wrap around at 2 ^ 64. The only fuel is that of `to_string`, which is the
-- number itself: it has fewer digits than that plus one. All other loops recur on a list or a text.
--
-- Not modelled: printing and logging; the parsing of the command line and the table of its
-- commands; the requests and queries that libraries make, whose answers are arguments; and the start
-- of the HTTP server, the shutdown signals and the TLS connection.
pub mod Base
pub mod Text
pub mod Fs
pub mod Process
pub mod Shell
pub mod Core
pub mod Service
pub mod Agent
pub mod Cli
pub mod Tests
