-- ===== src/Agent/PushLoop.antt =====
-- The push of the telemetry: crates/nexus-link-agent/src/pusher.rs, and the loop of main.rs beside
-- it. The HTTP client is a third-party crate: its answers are arguments. Log lines are left out.
pub mod Laws
use Prim.Native.String.{◌++◌}
use nexus_link.Base.{
  Bool, List, Option, Result, String, [], eqb, err, if◌then◌else◌, leb, ltb, none, ok, some,
  unwrap_or, ℕ, ◌&&◌, ◌∷◌,
}
use nexus_link.Core.Config.{Config, node_token}

-- A POST with its bearer token and its body, before it is serialized.
pub record Post (Payload : Type 0) : Type 0 where
  pub url : String
  pub bearer : String
  pub json : Payload

-- A response of the backend; `none` is a body that cannot be read.
pub record Response : Type 0 where
  pub status : ℕ
  -- the code with its reason, as it is displayed
  pub status_text : String
  pub text : Option String

-- The answer to a request: it is not built or not sent, or the response.
abbrev pub Sent : Type 0
Sent = Result Response String

abbrev is_success : ℕ → Bool
is_success status = leb 200 status && ltb status 300

push_result : Sent → Result (Unit {0}) String
push_result (err e) = err e
push_result (ok resp) =
    if is_success resp.status
    then ok tt
    else err ("Telemetry push failed (" ++ (resp.status_text ++ ("): " ++ unwrap_or resp.text "")))

unfoldable pub telemetry_post : {Payload : Type 0} → Config → Payload → Post Payload
telemetry_post config payload = record {
  url = config.api.base_url ++ ("/api/nodes/" ++ (config.node.node_id ++ "/telemetry"));
  bearer = node_token config;
  json = payload;
}

-- The result with the request that `send` is called for, which may fail before it is built or sent;
-- `client` tells whether the client can be built.
unfoldable pub push_telemetry :
    {Payload : Type 0}
    → Config
    → Payload
    → Result (Unit {0}) String
    → Sent
    → Result (Unit {0}) String × Option (Post Payload)
unfolding push_result
push_telemetry config payload (err e) sent = (err e, none)
push_telemetry config payload (ok u) sent = (push_result sent, some (telemetry_post config payload))

-- What one turn of the loop meets.
pub record Tick (Payload : Type 0) : Type 0 where
  pub collected : Result Payload String
  pub client : Result (Unit {0}) String
  pub sent : Sent

-- The request that a turn hands to the client, if it comes to one.
unfoldable pub turn : {Payload : Type 0} → Config → Tick Payload → Option (Post Payload)
turn config tick = elim tick.collected [
  | err e ↦ none
  | ok payload ↦ (push_telemetry config payload tick.client tick.sent).1
]

abbrev pub with_post : {A : Type 0} → Option A → List A → List A
with_post none posts = posts
with_post (some post) posts = post ∷ posts

unfoldable pub turns : {Payload : Type 0} → Config → List (Tick Payload) → List (Post Payload)
turns config [] = []
turns config (t ∷ ts) = with_post (turn config t) (turns config ts)

-- The requests over the ticks of `tokio::time::interval`; `none` is its panic on a period of zero.
unfoldable pub push_loop :
    {Payload : Type 0} → Config → List (Tick Payload) → Option (List (Post Payload))
push_loop config ticks = if eqb config.agent.push_sec 0 then none else some (turns config ticks)
