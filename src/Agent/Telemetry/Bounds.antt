-- ===== src/Agent/Telemetry/Bounds.antt =====
-- The container metrics: one for each container, with the totals over its networks.
use nexus_link.Base.{
  Bool, List, Option, Result, String, [], and_then, ap, arith, err, false, head?, inl, inr, map,
  none, ok, option_map, refl, some, true, unwrap_or, ℕ, ◌%◌, ◌+◌, ◌<◌, ◌^◌, ◌∙◌, ◌∷◌, ◌≡◌, ◌⊎◌,
}
use nexus_link.Text.{take_chars, trim_start_matches}
use nexus_link.Agent.Telemetry.{
  ContainerMetrics, ContainerStats, ContainerSummary, Float, NetworkStats, Stats,
  collect_container_metrics, container_metrics, container_name, get_container_stats, is_slash,
  metrics_of, sum_networks,
}
use nexus_link.Agent.Collector.{mod_u64}

abbrev pub total : List ℕ → ℕ
total [] = 0
total (n ∷ ns) = n + total ns

-- The numbers of a container with a snapshot: the counters of all its networks, added up without a
-- bound, are reported modulo 2 ^ 64. Without a snapshot all are zero.
abbrev pub IsCounted :
    {F : Type 0} → Float F → Option (Result Stats String) → ContainerMetrics F → Type 0
IsCounted float (some (ok stats)) m =
    (m.memory_usage_bytes ≡ unwrap_or stats.usage 0)
    × (m.memory_limit_bytes ≡ unwrap_or stats.limit 0)
    × (m.network_rx_bytes ≡ total (map (λ n. n.rx_bytes) (unwrap_or stats.networks [])) % 2 ^ 64)
    × (m.network_tx_bytes ≡ total (map (λ n. n.tx_bytes) (unwrap_or stats.networks [])) % 2 ^ 64)
IsCounted float _ m =
    (m.memory_usage_bytes ≡ 0)
    × (m.memory_limit_bytes ≡ 0)
    × (m.network_rx_bytes ≡ 0)
    × (m.network_tx_bytes ≡ 0)
    × (m.cpu_percent ≡ float.zero_f64)

-- What docker lists of a container: twelve characters of its identifier, its first name without the
-- slashes before it or else those characters, its image and its status.
abbrev pub IsListed : {F : Type 0} → ContainerSummary → ContainerMetrics F → Type 0
IsListed container m =
    (m.id ≡ take_chars 12 (unwrap_or container.id ""))
    × (m.name
        ≡ trim_start_matches is_slash (unwrap_or (and_then container.names (λ ns. head? ns)) m.id))
    × (m.image ≡ unwrap_or container.image "")
    × (m.status ≡ unwrap_or container.status "")

-- One entry for each container, in order.
abbrev pub AllMetrics :
    {F : Type 0}
    → Float F
    → (String → Option (Result Stats String))
    → List ContainerSummary
    → List (ContainerMetrics F)
    → Type 0
AllMetrics float answer [] [] = Unit
AllMetrics float answer [] (m ∷ ms) = ⊥
AllMetrics float answer (c ∷ cs) [] = ⊥
AllMetrics float answer (c ∷ cs) (m ∷ ms) =
    (IsListed c m × IsCounted float (answer (unwrap_or c.id "")) m) × AllMetrics float answer cs ms

add_mod : (a b c : ℕ) → (mod_u64 (a + b) + c) % 2 ^ 64 ≡ (a + (b + c)) % 2 ^ 64
add_mod a b c = omega arith

sum_networks-total :
    (rx tx : ℕ) (nets : List NetworkStats)
    → rx < 2 ^ 64
    → tx < 2 ^ 64
    → ((sum_networks rx tx nets).0 ≡ (rx + total (map (λ n. n.rx_bytes) nets)) % 2 ^ 64)
      × ((sum_networks rx tx nets).1 ≡ (tx + total (map (λ n. n.tx_bytes) nets)) % 2 ^ 64)
unfolding sum_networks
sum_networks-total rx tx [] h k = (omega arith, omega arith)
sum_networks-total rx tx (net ∷ nets) h k =
    let (p, q) =
      sum_networks-total (mod_u64 (rx + net.rx_bytes)) (mod_u64 (tx + net.tx_bytes)) nets
        (omega arith) (omega arith) in
    (
      p ∙ add_mod rx net.rx_bytes (total (map (λ n. n.rx_bytes) nets)),
      q ∙ add_mod tx net.tx_bytes (total (map (λ n. n.tx_bytes) nets)),
    )

module _ {F : Type 0} (float : Float F) (debug : Bool) where
  abbrev IsOne :
      (String → Option (Result Stats String)) → ContainerSummary → ContainerMetrics F → Type 0
  IsOne answer c m = IsListed c m × IsCounted float (answer (unwrap_or c.id "")) m

  get_container_stats-IsCounted :
      (id : String) (r : Option (Result Stats String)) (s : ContainerStats F)
      (m : ContainerMetrics F)
      → get_container_stats float debug id r ≡ some s
      → m.cpu_percent ≡ s.cpu_percent
      → m.memory_usage_bytes ≡ s.memory_usage
      → m.memory_limit_bytes ≡ s.memory_limit
      → m.network_rx_bytes ≡ s.network_rx
      → m.network_tx_bytes ≡ s.network_tx
      → IsCounted float r m
  unfolding get_container_stats
  get_container_stats-IsCounted id (some (ok stats)) s m e cpu usage limit rx tx =
      let (p, q) =
        sum_networks-total 0 0 (unwrap_or stats.networks []) (omega arith) (omega arith) in
      (ground arith, ground arith, ground (arith, p), ground (arith, q))
  get_container_stats-IsCounted id (some (err x)) s m e cpu usage limit rx tx =
      (ground arith, ground arith, ground arith, ground arith, ground arith)
  get_container_stats-IsCounted id none s m e cpu usage limit rx tx =
      (ground arith, ground arith, ground arith, ground arith, ground arith)

  container_metrics-IsOne :
      (answer : String → Option (Result Stats String)) (c : ContainerSummary)
      (m : ContainerMetrics F)
      → container_metrics float debug answer c ≡ some m
      → IsOne answer c m
  unfolding container_metrics container_name
  container_metrics-IsOne answer c m e =
      at (get_container_stats float debug (unwrap_or c.id "") (answer (unwrap_or c.id ""))) refl
    where
      at :
          (o : Option (ContainerStats F))
          → get_container_stats float debug (unwrap_or c.id "") (answer (unwrap_or c.id "")) ≡ o
          → IsOne answer c m
      at none q = absurd (ground arith)
      at (some s) q = (
        (ground arith, ground arith, ground arith, ground arith),
        get_container_stats-IsCounted (unwrap_or c.id "") (answer (unwrap_or c.id "")) s m q
            (ground arith) (ground arith) (ground arith) (ground arith) (ground arith),
      )

  metrics_of-AllMetrics :
      (answer : String → Option (Result Stats String)) (cs : List ContainerSummary)
      (ms : List (ContainerMetrics F))
      → metrics_of float debug answer cs ≡ some ms
      → AllMetrics float answer cs ms
  unfolding metrics_of
  metrics_of-AllMetrics answer [] [] e = tt
  metrics_of-AllMetrics answer [] (m ∷ ms) e = absurd (ground arith)
  metrics_of-AllMetrics answer (c ∷ cs) ms e =
      go (metrics_of-AllMetrics answer cs) (container_metrics float debug answer c) refl
        (metrics_of float debug answer cs) refl ms e
    where
      go :
          ((rest : List (ContainerMetrics F))
            → metrics_of float debug answer cs ≡ some rest
            → AllMetrics float answer cs rest)
          → (o : Option (ContainerMetrics F)) → container_metrics float debug answer c ≡ o
          → (r : Option (List (ContainerMetrics F))) → metrics_of float debug answer cs ≡ r
          → (found : List (ContainerMetrics F))
          → and_then o (λ m. option_map (λ rest. m ∷ rest) r) ≡ some found
          → AllMetrics float answer (c ∷ cs) found
      go ih none p r q found h = absurd (ground arith)
      go ih (some m) p none q found h = absurd (ground arith)
      go ih (some m) p (some rest) q [] h = absurd (ground arith)
      go ih (some m) p (some rest) q (x ∷ xs) h = (
        container_metrics-IsOne answer c x (p ∙ ap some (ground arith)),
        ih xs (q ∙ ap some (ground arith)),
      )

  -- Where the container metrics are given, Docker could not be reached and they are an empty list, or
  -- it listed its containers: then there is one entry for each, in order, also for one without
  -- statistics, with what is listed of it and with the totals over its networks modulo 2 ^ 64.
  pub collect_container_metrics-AllMetrics :
      (connected : Bool) (listed : Result (List ContainerSummary) String)
      (answer : String → Option (Result Stats String)) (ms : List (ContainerMetrics F))
      → collect_container_metrics float debug connected listed answer ≡ some (ok ms)
      → ((connected ≡ false) × (ms ≡ []))
        ⊎ ((containers : List ContainerSummary) × (listed ≡ ok containers)
            × AllMetrics float answer containers ms)
  unfolding collect_container_metrics
  collect_container_metrics-AllMetrics false listed answer ms e = inl (refl, ground arith)
  collect_container_metrics-AllMetrics true (err x) answer ms e = absurd (ground arith)
  collect_container_metrics-AllMetrics true (ok containers) answer ms e =
      inr (containers, refl, metrics_of-AllMetrics answer containers ms (ground arith))
