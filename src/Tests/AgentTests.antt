-- ===== src/Tests/AgentTests.antt =====
-- The agent's telemetry and its push loop at concrete values.
use Prim.Native.String.{◌++◌}
use nexus_link.Base.{
  List, Option, Result, String, [], err, false, if◌then◌else◌, none, ok, refl, some, true, ℕ, ◌-◌,
  ◌==◌, ◌^◌, ◌∷◌, ◌≡◌, ◌⊎◌,
}
use nexus_link.Text.{take_chars, trim_start_matches}
use nexus_link.Core.Config.{Config, node_token}
use nexus_link.Agent.Telemetry.{
  ContainerMetrics, ContainerSummary, Float, Stats, calculate_cpu_percent,
  collect_container_metrics, container_metrics, container_name, get_container_stats, metrics_of,
}
use nexus_link.Agent.Telemetry.Bounds.{AllMetrics, collect_container_metrics-AllMetrics}
use nexus_link.Agent.PushLoop.{Post, Sent, Tick, push_loop}
use nexus_link.Agent.PushLoop.Laws.{push_loop-posts}
use nexus_link.Tests.Samples.{config_of}

-- Floating-point numbers are left out: one value for all.
abbrev no_float : Float (Unit {0})
no_float = record {
  of_u64 = λ n. tt;
  sub = λ a b. tt;
  mul = λ a b. tt;
  div = λ a b. tt;
  is_positive = λ a. false;
  zero_f64 = tt;
  hundred = tt;
}

abbrev web : ContainerSummary
web = record {
  id = some "0123456789abcdef";
  names = some ("/web" ∷ []);
  image = none;
  status = some "Up";
}

abbrev unknown : ContainerSummary
unknown = record { id = none; names = none; image = none; status = none }

-- Two interfaces, of which one sum wraps around.
abbrev two_nets : Stats
two_nets = record {
  total_usage = 2;
  pre_total_usage = 1;
  system_cpu_usage = none;
  pre_system_cpu_usage = none;
  online_cpus = none;
  usage = some 7;
  limit = none;
  networks =
      some (
        record { rx_bytes = 3; tx_bytes = 2 ^ 64 - 1 }
        ∷ record { rx_bytes = 4; tx_bytes = 2 }
        ∷ []);
}

abbrev answer_of : String → Option (Result Stats String)
answer_of id = if id == "" then some (err "no such container") else some (ok two_nets)

abbrev metric : String → String → String → ℕ → ℕ → ℕ → ContainerMetrics (Unit {0})
metric id name status usage rx tx = record {
  id = id;
  name = name;
  image = "";
  status = status;
  cpu_percent = tt;
  memory_usage_bytes = usage;
  memory_limit_bytes = 0;
  network_rx_bytes = rx;
  network_tx_bytes = tx;
}

abbrev metrics : List (ContainerMetrics (Unit {0}))
metrics = metric "0123456789ab" "web" "Up" 7 7 1 ∷ metric "" "" "" 0 0 0 ∷ []

are_collected :
    collect_container_metrics no_float false true (ok (web ∷ unknown ∷ [])) answer_of
    ≡ some (ok metrics)
unfolding collect_container_metrics metrics_of container_metrics get_container_stats
    calculate_cpu_percent container_name take_chars trim_start_matches
are_collected = refl

collect_container_metrics-AllMetrics_example :
    ((true ≡ false) × (metrics ≡ []))
    ⊎ ((containers : List ContainerSummary) × (Path
          (Result (List ContainerSummary) String)
          (ok (web ∷ unknown ∷ []))
          (ok containers))
        × AllMetrics no_float answer_of containers metrics)
collect_container_metrics-AllMetrics_example =
    collect_container_metrics-AllMetrics no_float false true (ok (web ∷ unknown ∷ [])) answer_of
      metrics are_collected

abbrev a_config : Config
a_config = config_of "nxs_node_1" none none none

abbrev a_tick : Result String String → Sent → Tick String
a_tick collected sent = record { collected = collected; client = ok tt; sent = sent }

abbrev ticks : List (Tick String)
ticks =
    a_tick (ok "p1") (err "timeout")
    ∷ a_tick (err "docker") (err "")
    ∷ a_tick (ok "p2") (ok (record { status = 200; status_text = "200 OK"; text = none }))
    ∷ []

abbrev posted_to : String → Post String
posted_to payload = record {
  url = "" ++ ("/api/nodes/" ++ ("" ++ "/telemetry"));
  bearer = node_token a_config;
  json = payload;
}

push_loop-posts_example : push_loop a_config ticks ≡ some (posted_to "p1" ∷ posted_to "p2" ∷ [])
push_loop-posts_example = push_loop-posts a_config ticks
