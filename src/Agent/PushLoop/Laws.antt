-- ===== src/Agent/PushLoop/Laws.antt =====
-- The requests of the push loop.
use Prim.Native.String.{◌++◌}
use nexus_link.Base.{
  List, Result, String, [], ap, eqb, err, if◌then◌else◌, is_ok, map, none, ok, refl, some, ◌∷◌, ◌≡◌,
}
use nexus_link.Core.Config.{Config, node_token}
use nexus_link.Agent.PushLoop.{
  Sent, Tick, push_loop, push_telemetry, telemetry_post, turn, turns, with_post,
}

-- The payloads of the ticks at which telemetry was collected and a client built.
abbrev pub payloads : {Payload : Type 0} → List (Tick Payload) → List Payload
payloads [] = []
payloads (t ∷ ts) = elim t.collected [
  | err e ↦ payloads ts
  | ok payload ↦ if is_ok t.client then payload ∷ payloads ts else payloads ts
]

module _ {Payload : Type 0} (config : Config) where
  turn-posts :
      (collected : Result Payload String) (client : Result (Unit {0}) String) (sent : Sent)
      (ts : List (Tick Payload))
      → turns config ts ≡ map (telemetry_post config) (payloads ts)
      → with_post
          (turn config (record { collected = collected; client = client; sent = sent }))
          (turns config ts)
        ≡ map
            (telemetry_post config)
            (payloads (record { collected = collected; client = client; sent = sent } ∷ ts))
  unfolding turn push_telemetry
  turn-posts (err e) client sent ts h = h
  turn-posts (ok payload) (err e) sent ts h = h
  turn-posts (ok payload) (ok u) sent ts h = ap (λ ps. telemetry_post config payload ∷ ps) h

  turns-posts :
      (ts : List (Tick Payload)) → turns config ts ≡ map (telemetry_post config) (payloads ts)
  unfolding turns
  turns-posts [] = refl
  turns-posts (t ∷ ts) = turn-posts t.collected t.client t.sent ts (turns-posts ts)

  -- The loop keeps on pushing: with a period that is not zero it has handed to the HTTP client,
  -- after any ticks, one request with the node's token for each tick at which telemetry was collected and a client built,
  -- in order, whatever the backend answered or collecting failed before, and
  -- whether or not it can then be sent. A period of zero ends it
  -- before the first.
  pub push_loop-posts :
      (ts : List (Tick Payload))
      → push_loop config ts ≡ (
          if eqb config.agent.push_sec 0
          then none
          else some (
              map
                (λ payload. record {
                  url =
                      config.api.base_url
                      ++ ("/api/nodes/" ++ (config.node.node_id ++ "/telemetry"));
                  bearer = node_token config;
                  json = payload;
                })
                (payloads ts)))
  unfolding push_loop telemetry_post
  push_loop-posts ts = rw (turns-posts ts) refl
