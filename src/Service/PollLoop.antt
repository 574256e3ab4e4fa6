-- ===== src/Service/PollLoop.antt =====
-- The poll loop of crates/nexus-link-service/src/main.rs and the reconnection loop of
-- src/pg_listener.rs there. Intervals are seconds.
pub mod Laws
use nexus_link.Base.{
  List, Option, Result, String, [], eqb, err, if◌then◌else◌, is_some, ltb, min, none, not, ok, some,
  ℕ, ◌*◌, ◌∷◌,
}
use nexus_link.Core.Config.{Config, cmd_token}
use nexus_link.Service.Poller.{PollEnd, hinted, panicked, poll_error}

-- The arms of the `match` on a cycle: the next value of `current_interval`, from the default and the
-- current one. `none` where the task has panicked.
unfoldable pub next_interval : ℕ → ℕ → PollEnd → Option ℕ
next_interval default current (hinted none) = some current
next_interval default current (hinted (some hint_secs)) =
    if ltb 0 hint_secs
    then (if not (eqb hint_secs current) then some hint_secs else some current)
    else some current
next_interval default current (poll_error e) = some default
next_interval default current panicked = none

-- The timeouts of the sleeps before each cycle, as the cycles end in turn; a wake-up may end a sleep
-- early.
unfoldable pub poll_intervals : ℕ → ℕ → List PollEnd → List ℕ
poll_intervals default current [] = current ∷ []
poll_intervals default current (e ∷ es) = elim (next_interval default current e) [
  | none ↦ current ∷ []
  | some interval ↦ current ∷ poll_intervals default interval es
]

-- `config.compose.cmd_token.is_some()` starts the loop.
unfoldable pub poll_loop : Config → List PollEnd → List ℕ
unfolding poll_intervals next_interval
poll_loop config ends =
    if is_some config.compose.cmd_token
    then poll_intervals config.agent.poll_sec config.agent.poll_sec ends
    else []

abbrev pub max_backoff_secs : ℕ
max_backoff_secs = 30

-- One round of the listener: how `connect_and_listen` ended, to the seconds slept and the next backoff.
unfoldable pub reconnect : ℕ → Result (Unit {0}) String → ℕ × ℕ
reconnect backoff_secs (ok _) = (1, min (1 * 2) max_backoff_secs)
reconnect backoff_secs (err e) = (backoff_secs, min (backoff_secs * 2) max_backoff_secs)

-- The seconds slept after each connection.
unfoldable pub sleeps : ℕ → List (Result (Unit {0}) String) → List ℕ
sleeps backoff_secs [] = []
sleeps backoff_secs (r ∷ rs) =
    let (slept, backoff) = reconnect backoff_secs r in slept ∷ sleeps backoff rs

-- `pg_listener::run`: without a database URL it returns at once.
unfoldable pub run : Config → List (Result (Unit {0}) String) → List ℕ
unfolding sleeps reconnect
run config rs = if is_some config.api.database_url then sleeps 1 rs else []
