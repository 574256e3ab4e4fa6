-- ===== src/Service/Logs.antt =====
-- The logs of the services: the snapshot of crates/nexus-link-service/src/poller.rs and the stream
-- of src/handlers/compose.rs there, up to the arguments of `docker`.
pub mod Cut
pub mod Laws
use Prim.Native.Char.{Char, code}
use Prim.Native.String.{[], ◌∷◌, ◌++◌}
use nexus_link.Base.{
  Bool, List, Option, Result, String, [], eqb, err, if◌then◌else◌, length, ltb, min, none, not, ok,
  some, take, unwrap_or, ℕ, ◌&&◌, ◌||◌, ◌∷◌,
}
use nexus_link.Text.{all_chars, is_empty, starts_with}
use nexus_link.Text.Number.{to_string}
use nexus_link.Text.Split.{lines}
use nexus_link.Process.{Run, done, elapsed}
use nexus_link.Service.Command.{Args, ComposeCommandResult, failure, log_lines, success}

-- Letters, digits, `-` and `_`, not at first a `-`. `is_alphanumeric` is that of `char`, whose
-- Unicode tables are not modelled.
unfoldable pub is_valid_service : (Char → Bool) → String → Bool
is_valid_service is_alphanumeric svc =
    not (is_empty svc)
    && not (starts_with svc "-")
    && all_chars (λ c. is_alphanumeric c || eqb (code c) b'-' || eqb (code c) b'_') svc

abbrev snapshot_args : String → List String → List String
snapshot_args tail rest = "compose" ∷ "logs" ∷ "--no-color" ∷ "--tail" ∷ tail ∷ rest

-- The arguments of `docker`, or the refusal of the service name.
unfoldable pub logs_args : (Char → Bool) → Args → Result (List String) String
logs_args is_alphanumeric args =
    let tail = to_string (unwrap_or (args.number "tail") 100) in
    elim (args.text "service") [
      | none ↦ ok (snapshot_args tail ("--since" ∷ "5m" ∷ []))
      | some svc ↦
          if not (is_valid_service is_alphanumeric svc)
          then err ("Invalid service name: '" ++ (svc ++ "'"))
          else ok (snapshot_args tail (svc ∷ []))
    ]

abbrev pub max_lines : ℕ
max_lines = 500

logs_result : Option String → Run → ComposeCommandResult
logs_result service elapsed = failure "Timeout collecting log snapshot"
logs_result service (done (err e)) = failure ("Failed to run docker compose logs: " ++ e)
logs_result service (done (ok output)) =
    let all_lines = lines (output.stdout ++ output.stderr) in
    success (log_lines service (take max_lines all_lines) (ltb max_lines (length all_lines)))

-- `run` is the run of `docker` with the arguments.
unfoldable pub execute_logs_snapshot :
    (Char → Bool) → (List String → Run) → Args → ComposeCommandResult
unfolding logs_result logs_args
execute_logs_snapshot is_alphanumeric run args = elim (logs_args is_alphanumeric args) [
  | err e ↦ failure e
  | ok docker_args ↦ logs_result (args.text "service") (run docker_args)
]

pub record LogsQuery : Type 0 where
  pub service : Option String
  pub tail : ℕ  -- u32

abbrev follow_args : String → List String → List String
follow_args tail rest = "compose" ∷ "logs" ∷ "--follow" ∷ "--no-color" ∷ "--tail" ∷ tail ∷ rest

-- The arguments of `docker` for the stream, or the text of the one event that refuses the name.
unfoldable pub stream_args : (Char → Bool) → LogsQuery → Result (List String) String
stream_args is_alphanumeric params =
    let tail = to_string (min params.tail 10000) in
    elim params.service [
      | none ↦ ok (follow_args tail [])
      | some service ↦
          if not (is_valid_service is_alphanumeric service)
          then err ("error: invalid service name: '" ++ (service ++ "'"))
          else ok (follow_args tail (service ∷ []))
    ]

-- A line of the child's output, or an error of reading it.
abbrev pub StreamLine : Type 0
StreamLine = Result String String

-- The events of the stream from the lines of the child: an error ends it.
unfoldable pub stream_lines : List StreamLine → List String
stream_lines [] = []
stream_lines (ok l ∷ rest) = l ∷ stream_lines rest
stream_lines (err e ∷ rest) = []

-- `child` is what starting `docker` with the arguments gives: its lines, or an error.
unfoldable pub stream_compose_logs :
    (Char → Bool) → (List String → Result (List StreamLine) String) → LogsQuery → List String
unfolding stream_lines stream_args
stream_compose_logs is_alphanumeric child params = elim (stream_args is_alphanumeric params) [
  | err e ↦ e ∷ []
  | ok args ↦ elim (child args) [ err e ↦ ("error: " ++ e) ∷ [] | ok output ↦ stream_lines output ]
]
