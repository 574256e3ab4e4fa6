-- ===== src/Agent/Telemetry.antt =====
-- crates/nexus-link-agent/src/collector.rs: the metrics of the system and of the containers, and the
-- payload, whose types are in crates/nexus-link-core/src/telemetry.rs. The answers of sysinfo and of
-- Docker are arguments; `Float` has the operations on f64, and `Time` is the type of timestamps.
-- Sums and differences on u64 wrap around. Log lines are left out.
pub mod Bounds
use Prim.Native.Char.{Char, code}
use nexus_link.Base.{
  Bool, List, Option, Result, String, [], and_then, eqb, err, false, head?, if◌then◌else◌, leb, len,
  none, not, ok, option_map, some, true, unwrap_or, ℕ, ◌&&◌, ◌+◌, ◌-◌, ◌^◌, ◌∷◌,
}
use nexus_link.Text.{can_cut, take_chars, trim_start_matches}
use nexus_link.Agent.Collector.{GpuDevice, mod_u64}

pub record Float (F : Type 0) : Type 0 where
  pub of_u64 : ℕ → F
  pub sub : F → F → F
  pub mul : F → F → F
  pub div : F → F → F
  -- `x > 0.0`
  pub is_positive : F → Bool
  pub zero_f64 : F
  pub hundred : F

pub record Disk : Type 0 where
  pub total_space : ℕ  -- u64
  pub available_space : ℕ  -- u64

-- What sysinfo reports.
pub record SystemInfo (F : Type 0) : Type 0 where
  pub disks : List Disk
  pub global_cpu_usage : F
  pub total_memory : ℕ  -- u64
  pub used_memory : ℕ  -- u64
  pub uptime : ℕ  -- u64

pub record SystemMetrics (F : Type 0) : Type 0 where
  pub cpu_usage_percent : F
  pub memory_total_bytes : ℕ  -- u64
  pub memory_used_bytes : ℕ  -- u64
  pub disk_total_bytes : ℕ  -- u64
  pub disk_used_bytes : ℕ  -- u64
  pub uptime_secs : ℕ  -- u64

-- `a - b`
abbrev pub sub_u64 : ℕ → ℕ → ℕ
sub_u64 a b = if leb b a then a - b else (2 ^ 64 + a) - b

sum_from : (Disk → ℕ) → ℕ → List Disk → ℕ
sum_from f acc [] = acc
sum_from f acc (d ∷ ds) = sum_from f (mod_u64 (acc + f d)) ds

unfoldable pub collect_system_metrics : {F : Type 0} → SystemInfo F → SystemMetrics F
unfolding sum_from
collect_system_metrics sys = record {
  cpu_usage_percent = sys.global_cpu_usage;
  memory_total_bytes = sys.total_memory;
  memory_used_bytes = sys.used_memory;
  disk_total_bytes = sum_from (λ d. d.total_space) 0 sys.disks;
  disk_used_bytes = sum_from (λ d. sub_u64 d.total_space d.available_space) 0 sys.disks;
  uptime_secs = sys.uptime;
}

pub record NetworkStats : Type 0 where
  pub rx_bytes : ℕ  -- u64
  pub tx_bytes : ℕ  -- u64

-- One snapshot of bollard, without what is not read.
pub record Stats : Type 0 where
  pub total_usage : ℕ  -- u64
  pub pre_total_usage : ℕ  -- u64
  pub system_cpu_usage : Option ℕ  -- u64
  pub pre_system_cpu_usage : Option ℕ  -- u64
  pub online_cpus : Option ℕ  -- u64
  pub usage : Option ℕ  -- u64
  pub limit : Option ℕ  -- u64
  pub networks : Option (List NetworkStats)

pub record ContainerStats (F : Type 0) : Type 0 where
  pub cpu_percent : F
  pub memory_usage : ℕ  -- u64
  pub memory_limit : ℕ  -- u64
  pub network_rx : ℕ  -- u64
  pub network_tx : ℕ  -- u64

-- A container of `list_containers`.
pub record ContainerSummary : Type 0 where
  pub id : Option String
  pub names : Option (List String)
  pub image : Option String
  pub status : Option String

pub record ContainerMetrics (F : Type 0) : Type 0 where
  pub id : String
  pub name : String
  pub image : String
  pub status : String
  pub cpu_percent : F
  pub memory_usage_bytes : ℕ  -- u64
  pub memory_limit_bytes : ℕ  -- u64
  pub network_rx_bytes : ℕ  -- u64
  pub network_tx_bytes : ℕ  -- u64

unfoldable pub sum_networks : ℕ → ℕ → List NetworkStats → ℕ × ℕ
sum_networks rx tx [] = (rx, tx)
sum_networks rx tx (net ∷ nets) =
    sum_networks (mod_u64 (rx + net.rx_bytes)) (mod_u64 (tx + net.tx_bytes)) nets

pub is_slash : Char → Bool
is_slash c = eqb (code c) b'/'

-- The first name without the slashes before it, or else the short identifier.
unfoldable pub container_name : ContainerSummary → String → String
unfolding is_slash
container_name container short_id =
    trim_start_matches is_slash
      (unwrap_or (and_then container.names (λ names. head? names)) short_id)

module _ {F : Type 0} (float : Float F) where
  unfoldable pub calculate_cpu_percent : Stats → F
  calculate_cpu_percent stats =
      let cpu_delta =
        float.sub (float.of_u64 stats.total_usage) (float.of_u64 stats.pre_total_usage) in
      let system_delta =
        float.sub (float.of_u64 (unwrap_or stats.system_cpu_usage 0))
          (float.of_u64 (unwrap_or stats.pre_system_cpu_usage 0)) in
      if float.is_positive system_delta && float.is_positive cpu_delta
      then float.mul
          (float.mul (float.div cpu_delta system_delta)
            (float.of_u64 (unwrap_or stats.online_cpus 1)))
          float.hundred
      else float.zero_f64

  abbrev no_stats : ContainerStats F
  no_stats = record {
    cpu_percent = float.zero_f64;
    memory_usage = 0;
    memory_limit = 0;
    network_rx = 0;
    network_tx = 0;
  }

  -- The answer of the stream: a snapshot, an error, or its end. Where debug lines are logged, that of
  -- an error slices the identifier at its twelfth byte; `none` is the panic where it has none there.
  unfoldable pub get_container_stats :
      Bool → String → Option (Result Stats String) → Option (ContainerStats F)
  unfolding sum_networks
  get_container_stats debug container_id (some (ok stats)) =
      let sums = sum_networks 0 0 (unwrap_or stats.networks []) in
      some (record {
        cpu_percent = calculate_cpu_percent stats;
        memory_usage = unwrap_or stats.usage 0;
        memory_limit = unwrap_or stats.limit 0;
        network_rx = sums.0;
        network_tx = sums.1;
      })
  get_container_stats debug container_id (some (err e)) =
      if debug && not (leb 12 (len container_id) && can_cut 12 container_id)
      then none
      else some no_stats
  get_container_stats debug container_id none = some no_stats

  unfoldable pub container_metrics :
      Bool
      → (String → Option (Result Stats String))
      → ContainerSummary
      → Option (ContainerMetrics F)
  container_metrics debug answer container =
      let container_id = unwrap_or container.id "" in
      let short_id = take_chars 12 container_id in
      option_map
        (λ stats. record {
          id = short_id;
          name = container_name container short_id;
          image = unwrap_or container.image "";
          status = unwrap_or container.status "";
          cpu_percent = stats.cpu_percent;
          memory_usage_bytes = stats.memory_usage;
          memory_limit_bytes = stats.memory_limit;
          network_rx_bytes = stats.network_rx;
          network_tx_bytes = stats.network_tx;
        })
        (get_container_stats debug container_id (answer container_id))

  -- The loop over the containers.
  unfoldable pub metrics_of :
      Bool
      → (String → Option (Result Stats String))
      → List ContainerSummary
      → Option (List (ContainerMetrics F))
  metrics_of debug answer [] = some []
  metrics_of debug answer (container ∷ containers) =
      let rest = metrics_of debug answer containers in
      and_then (container_metrics debug answer container) λ m. option_map (λ ms. m ∷ ms) rest

  -- `debug` is whether debug lines are logged, `connected` whether Docker can be reached, and `listed`
  -- its list of containers.
  unfoldable pub collect_container_metrics :
      Bool
      → Bool
      → Result (List ContainerSummary) String
      → (String → Option (Result Stats String))
      → Option (Result (List (ContainerMetrics F)) String)
  collect_container_metrics debug false listed answer = some (ok [])
  collect_container_metrics debug true (err e) answer = some (err e)
  collect_container_metrics debug true (ok containers) answer =
      option_map (λ ms. ok ms) (metrics_of debug answer containers)

pub record TelemetryPayload (F Time : Type 0) : Type 0 where
  pub node_id : String
  pub timestamp : Time
  pub system : SystemMetrics F
  pub containers : List (ContainerMetrics F)
  pub gpu : Option (List (GpuDevice F))
  pub private_ip : Option String

unfoldable pub collect_telemetry :
    {F Time : Type 0}
    → String
    → Time
    → SystemInfo F
    → Result (List (ContainerMetrics F)) String
    → Option (List (GpuDevice F))
    → Option String
    → Result (TelemetryPayload F Time) String
collect_telemetry node_id now sys (err e) gpu ip = err e
collect_telemetry node_id now sys (ok containers) gpu ip = ok (record {
  node_id = node_id;
  timestamp = now;
  system = collect_system_metrics sys;
  containers = containers;
  gpu = gpu;
  private_ip = ip;
})
