-- ===== src/Agent/Collector.antt =====
-- crates/nexus-link-agent/src/collector.rs: the metrics of the GPUs from nvidia-smi, and those of
-- the containers. Floating-point numbers are a type `F` with `parse` and a zero. Arithmetic on u64
-- wraps around, as in a release build. Processes and answers of Docker are arguments.
use Prim.Native.Char.{Char, code}
use nexus_link.Base.{
  Bool, List, Option, String, [], and_then, eqb, err, get_elem?, if◌then◌else◌, length, ltb, none,
  ok, some, suc, unwrap_or, ℕ, ◌%◌, ◌&&◌, ◌*◌, ◌+◌, ◌^◌, ◌∷◌,
}
use nexus_link.Text.{is_empty, starts_with, trim}
use nexus_link.Text.Split.{lines, split, split_whitespace}
use nexus_link.Text.Number.{parse, u32_max, u64_max}
use nexus_link.Process.{Spawned}

abbrev pub mod_u64 : ℕ → ℕ
mod_u64 n = n % 2 ^ 64

-- MiB in bytes: `n * 1024 * 1024`
abbrev pub mib : ℕ → ℕ
mib n = mod_u64 (mod_u64 (n * 1024) * 1024)

pub record GpuDevice (F : Type 0) : Type 0 where
  pub index : ℕ  -- u32
  pub name : String
  pub temperature_celsius : F
  pub utilization_percent : F
  pub memory_total_bytes : ℕ  -- u64
  pub memory_used_bytes : ℕ  -- u64
  pub power_draw_watts : F

pub is_comma : Char → Bool
is_comma c = eqb (code c) b','

pub trim_all : List String → List String
trim_all [] = []
trim_all (s ∷ ss) = trim s ∷ trim_all ss

field : List String → ℕ → String
field fields i = unwrap_or (get_elem? fields i) ""

module _ {F : Type 0} (parse_f64 : String → Option F) (zero_f64 : F) where
  pub device_of : List String → GpuDevice F
  device_of fields = record {
    index = unwrap_or (parse u32_max (field fields 0)) 0;
    name = field fields 1;
    temperature_celsius = unwrap_or (parse_f64 (field fields 2)) zero_f64;
    utilization_percent = unwrap_or (parse_f64 (field fields 3)) zero_f64;
    memory_total_bytes = mib (unwrap_or (parse u64_max (field fields 4)) 0);
    memory_used_bytes = mib (unwrap_or (parse u64_max (field fields 5)) 0);
    power_draw_watts = unwrap_or (parse_f64 (field fields 6)) zero_f64;
  }

  -- One turn of the loop over the lines; `none` is `continue`.
  pub device_of_line : String → Option (GpuDevice F)
  device_of_line line =
      let trimmed = trim line in
      let fields = trim_all (split is_comma trimmed) in
      if is_empty trimmed
      then none
      else if ltb (length fields) 7
      then none
      else some (device_of fields)

  pub devices_of : List String → List (GpuDevice F)
  devices_of [] = []
  devices_of (line ∷ rest) =
      let devices = devices_of rest in
      elim (device_of_line line) [ none ↦ devices | some d ↦ d ∷ devices ]

  unfoldable pub parse_nvidia_smi_output : String → List (GpuDevice F)
  unfolding devices_of device_of_line device_of field trim_all is_comma
  parse_nvidia_smi_output output = devices_of (lines output)

parsed_sum : List String → ℕ
parsed_sum [] = 0
parsed_sum (line ∷ rest) =
    let total = parsed_sum rest in
    elim (parse u64_max (trim line)) [ none ↦ total | some n ↦ n + total ]

-- The MiB of all processes, in bytes.
unfoldable pub query_process_gpu_memory : Spawned → ℕ
unfolding parsed_sum
query_process_gpu_memory (err e) = 0
query_process_gpu_memory (ok o) =
    if o.success then mib (mod_u64 (parsed_sum (lines o.stdout))) else 0

meminfo_kb : String → ℕ
meminfo_kb line = unwrap_or (and_then (get_elem? (split_whitespace line) 1) (parse u64_max)) 0

abbrev pub fallback_memory : ℕ
fallback_memory = 128 * 1024 * 1024 * 1024

meminfo_total : List String → ℕ
meminfo_total [] = fallback_memory
meminfo_total (line ∷ rest) =
    let total = meminfo_total rest in
    if starts_with line "MemTotal:" then mod_u64 (meminfo_kb line * 1024) else total

-- `content` is /proc/meminfo, where it can be read.
unfoldable pub get_system_memory_total : Option String → ℕ
unfolding meminfo_total meminfo_kb
get_system_memory_total none = fallback_memory
get_system_memory_total (some content) = meminfo_total (lines content)

-- What the queries of one device with unified memory see: the processes, and /proc/meminfo.
pub record MemoryQuery : Type 0 where
  pub compute_apps : Spawned
  pub meminfo : Option String

module _ {F : Type 0} where
  unified : MemoryQuery → GpuDevice F → GpuDevice F
  unified q d = record d {
    memory_used_bytes = query_process_gpu_memory q.compute_apps;
    memory_total_bytes = get_system_memory_total q.meminfo;
  }

  -- The loop over the devices.
  unfoldable pub fill_memory : (ℕ → MemoryQuery) → ℕ → List (GpuDevice F) → List (GpuDevice F)
  unfolding unified
  fill_memory queries i [] = []
  fill_memory queries i (d ∷ devices) =
      let rest = fill_memory queries (suc i) devices in
      if eqb d.memory_total_bytes 0 && eqb d.memory_used_bytes 0
      then unified (queries i) d ∷ rest
      else d ∷ rest

  some_devices : List (GpuDevice F) → Option (List (GpuDevice F))
  some_devices [] = none
  some_devices (d ∷ ds) = some (d ∷ ds)

module _ {F : Type 0} (parse_f64 : String → Option F) (zero_f64 : F) where
  unfoldable pub collect_gpu_metrics : Spawned → (ℕ → MemoryQuery) → Option (List (GpuDevice F))
  unfolding some_devices
  collect_gpu_metrics (err e) queries = none
  collect_gpu_metrics (ok o) queries =
      if o.success
      then some_devices
          (fill_memory queries 0 (parse_nvidia_smi_output parse_f64 zero_f64 o.stdout))
      else none
