-- ===== src/Service/Router.antt =====
-- The HTTP server: the routes of crates/nexus-link-service/src/handlers/mod.rs and the layers that
-- src/main.rs there puts around them. The path of a request is that below /api, which the nested
-- router hands on.
pub mod Laws
use nexus_link.Base.{
  Bool, List, Option, Result, String, err, false, if◌then◌else◌, none, ok, some, true, ℕ, ◌==◌,
}
use Prim.Native.Char.{Char}
use nexus_link.Fs.{Fs}
use nexus_link.Process.{Run}
use nexus_link.Core.Token.{Crypto}
use nexus_link.Service.State.{AppState}
use nexus_link.Service.Files.{PutFaults, Snapshot}
use nexus_link.Service.Auth.{require_auth}
use nexus_link.Service.CmdAuth.{
  Method, NonceCache, Outcome, Request, SignatureLib, get, head, next, post, put, reject,
  require_cmd_auth,
}
use nexus_link.Service.Compose.{
  ActivateComposeResponse, GetComposeFileResponse, Git, HttpError, PutComposeFileRequest,
  PutComposeFileResponse, activate_compose, get_compose_file, put_compose_file,
}
use nexus_link.Service.Logs.{LogsQuery, StreamLine, stream_compose_logs}
use nexus_link.Service.NodeCommands.{
  CommandResponse, HealthResponse, NodeCommand, execute_command, health_check,
}

-- What the handlers meet: the extractors of axum with their rejections, the errors of serde_yaml,
-- the processes and the failures of operations on files.
pub record Surroundings (Key Value : Type 0) : Type 0 where
  pub crypto : Crypto
  pub lib : SignatureLib Key
  pub state : AppState Key
  pub version : String
  pub no_lines : Value
  -- `Json<NodeCommand>`, `Json<PutComposeFileRequest>` and `Query<LogsQuery>`
  pub json_command : Request → Result (NodeCommand Value) ℕ
  pub json_put : Request → Result PutComposeFileRequest ℕ
  pub query : Request → Result LogsQuery ℕ
  pub yaml_error : String → Option String
  pub git : Git
  pub faults : PutFaults
  pub snap : Snapshot
  pub read_fault : Option String
  -- `docker compose up -d` with the files that it leaves
  pub compose_up : Fs → Run × Fs
  pub is_alphanumeric : Char → Bool
  pub child : List String → Result (List StreamLine) String
  -- what the layers of the merged routers do to the cache for a path without a route
  pub unmatched : Request → NonceCache → NonceCache

pub data Answer (Value : Type 0) : Type 0 where
  healthy : HealthResponse → Answer Value
  commanded : CommandResponse Value → Answer Value
  got_file : GetComposeFileResponse → Answer Value
  put_file : PutComposeFileResponse → Answer Value
  activated : ActivateComposeResponse → Answer Value
  streamed : List String → Answer Value
  -- an error's status and text
  refused : ℕ → String → Answer Value

-- The handlers of the compose routes.
pub data ComposeHandler : Type 0 where
  get_handler put_handler activate_handler logs_handler : ComposeHandler

-- `get(...)` also takes HEAD.
abbrev is_get : Method → Bool
is_get get = true
is_get head = true
is_get _ = false

file_method : Method → Option ComposeHandler
file_method put = some put_handler
file_method m = if is_get m then some get_handler else none

activate_method : Method → Option ComposeHandler
activate_method post = some activate_handler
activate_method _ = none

logs_method : Method → Option ComposeHandler
logs_method m = if is_get m then some logs_handler else none

-- The route of the path, and the handler of the method in it.
unfoldable pub compose_routes : String → Method → Option (Option ComposeHandler)
unfolding file_method activate_method logs_method
compose_routes path m =
    if path == "/compose/file"
    then some (file_method m)
    else if path == "/compose/activate"
    then some (activate_method m)
    else if path == "/compose/logs"
    then some (logs_method m)
    else none

abbrev is_post : Method → Bool
is_post post = true
is_post _ = false

module _ {Key Value : Type 0} (s : Surroundings Key Value) where
  of_result : {A : Type 0} → (A → Answer Value) → Result A HttpError → Answer Value
  of_result f (ok a) = f a
  of_result f (err (status, text)) = refused status text

  put_answer : Result PutComposeFileRequest ℕ → Fs → Answer Value × Fs
  put_answer (err status) fs = (refused status "", fs)
  put_answer (ok body) fs =
      let dir = s.state.config.compose.dir in
      let (result, after) = put_compose_file s.yaml_error s.git s.faults dir body fs in
      (of_result put_file result, after)

  logs_answer : Result LogsQuery ℕ → Answer Value
  logs_answer (err status) = refused status ""
  logs_answer (ok params) = streamed (stream_compose_logs s.is_alphanumeric s.child params)

  compose_answer : Option ComposeHandler → Request → Fs → Answer Value × Fs
  compose_answer none req fs = (refused 405 "", fs)
  compose_answer (some get_handler) req fs =
      let compose = s.state.config.compose in
      (
        of_result got_file
            (get_compose_file fs s.snap s.read_fault compose.dir compose.extra_extensions),
        fs,
      )
  compose_answer (some put_handler) req fs = put_answer (s.json_put req) fs
  compose_answer (some activate_handler) req fs =
      let (run, after) = s.compose_up fs in (of_result activated (activate_compose run), after)
  compose_answer (some logs_handler) req fs = (logs_answer (s.query req), fs)

  -- The layer of `require_cmd_auth` around a route.
  unfoldable pub after_cmd_auth : Option ComposeHandler → Outcome → Fs → Answer Value × Fs
  unfolding compose_answer put_answer logs_answer of_result
  after_cmd_auth handler (next passed) fs = compose_answer handler passed fs
  after_cmd_auth handler (reject status text) fs = (refused status text, fs)

  command_answer : Result (NodeCommand Value) ℕ → Answer Value
  command_answer (err status) = refused status ""
  command_answer (ok command) = commanded (execute_command s.no_lines command)

  -- The layer of `require_auth` around the route of the commands.
  unfoldable pub after_auth : Request → Result (Unit {0}) ℕ → Answer Value
  unfolding command_answer
  after_auth req (err status) = refused status ""
  after_auth req (ok u) =
      if is_post req.method then command_answer (s.json_command req) else refused 405 ""

  unfoldable pub health_answer : Method → Answer Value
  health_answer m = if is_get m then healthy (health_check s.version) else refused 405 ""

  serve_route :
      Option (Option ComposeHandler)
      → Request
      → ℕ
      → ℕ
      → NonceCache
      → Fs
      → Answer Value × NonceCache × Fs
  serve_route none req now₁ now₂ cache fs = (refused 404 "", s.unmatched req cache, fs)
  serve_route (some handler) req now₁ now₂ cache fs =
      let (outcome, kept) = require_cmd_auth s.lib s.crypto s.state req now₁ now₂ cache in
      let (answer, after) = after_cmd_auth handler outcome fs in (answer, kept, after)

  -- The answer, the nonce cache and the files after a request.
  unfoldable pub serve : Request → ℕ → ℕ → NonceCache → Fs → Answer Value × NonceCache × Fs
  unfolding serve_route
  serve req now₁ now₂ cache fs =
      if req.path == "/health"
      then (health_answer req.method, cache, fs)
      else if req.path == "/commands"
      then (after_auth req (require_auth s.crypto s.state (req.header "authorization")), cache, fs)
      else serve_route (compose_routes req.path req.method) req now₁ now₂ cache fs
