-- ===== src/Core/Preflight.antt =====
-- crates/nexus-link-core/src/preflight.rs: the checks of a device and their verdict. Processes are
-- arguments, and so is `to_lowercase`, which follows Unicode's tables.
use Prim.Native.Char.{Char, code}
use Prim.Native.String.{◌++◌}
use nexus_link.Base.{
  Bool, List, Option, String, [], eqb, err, false, get_elem?, head?, if◌then◌else◌, is_some, leb,
  length, none, ok, or_else, some, true, unwrap_or, ℕ, ◌==◌, ◌||◌, ◌∷◌,
}
use nexus_link.Text.{contains, trim, trim_end_matches}
use nexus_link.Text.Split.{lines}
use nexus_link.Text.Number.{parse, to_string, u64_max}
use nexus_link.Process.{Spawned, ran}

pub data CheckStatus : Type 0 where
  pass warn fail : CheckStatus

pub data PreflightVerdict : Type 0 where
  compatible not_recommended incompatible : PreflightVerdict

pub record PreflightCheck : Type 0 where
  pub name : String
  pub status : CheckStatus
  pub detail : String

pub record KnownDevice : Type 0 where
  pub name : String
  pub identifier : String
  pub notes : String

pub record PreflightReport : Type 0 where
  pub checks : List PreflightCheck
  pub verdict : PreflightVerdict
  pub device_match : Option KnownDevice

abbrev pub known_devices : List KnownDevice
known_devices =
    record {
      name = "NVIDIA DGX Spark";
      identifier = "gb10";
      notes = "GB10 Grace Blackwell, 128 GB unified memory, aarch64";
    }
    ∷ record {
      name = "NVIDIA DGX Station A100";
      identifier = "a100";
      notes = "4x A100 80GB, AMD EPYC, x86_64";
    }
    ∷ record {
      name = "NVIDIA DGX A100";
      identifier = "dgx-a100";
      notes = "8x A100 80GB, AMD EPYC, x86_64";
    }
    ∷ record { name = "NVIDIA DGX H100"; identifier = "dgx-h100"; notes = "8x H100 80GB, x86_64" }
    ∷ []

-- What the checks ask of the machine.
pub record Machine : Type 0 where
  pub os : String
  pub arch : String
  pub nvidia_smi : Spawned
  pub docker_info : Spawned
  pub curl : Spawned
  pub df : Spawned
  pub df_macos : Spawned
  -- the files device-tree/base/model and dmi/id/product_name, where they can be read
  pub model : Option String
  pub product_name : Option String
  pub gpu_names : Spawned

check : String → CheckStatus → String → PreflightCheck
check name status detail = record { name = name; status = status; detail = detail }

platform : Machine → String
platform m = m.os ++ ("/" ++ m.arch)

pub check_architecture : Machine → PreflightCheck
check_architecture m =
    if m.os == "linux"
    then (if m.arch == "aarch64"
        then check "architecture" pass (platform m ++ " (ARM64 Linux)")
        else if m.arch == "x86_64"
        then check "architecture" pass (platform m ++ " (x86_64 Linux)")
        else check "architecture" warn (platform m ++ " (uncommon architecture)"))
    else check "architecture" warn (platform m ++ " (non-Linux -- development use only)")

gpu_found : String → PreflightCheck
gpu_found stdout =
    let first_line = unwrap_or (head? (lines stdout)) "unknown GPU" in
    check "gpu" pass
      (to_string (length (lines stdout)) ++ (" GPU(s) detected: " ++ trim first_line))

unfoldable pub check_gpu : Spawned → PreflightCheck
unfolding gpu_found check
check_gpu (ok output) =
    if output.success
    then gpu_found output.stdout
    else check "gpu" fail "nvidia-smi found but returned error (no NVIDIA GPU or driver issue)"
check_gpu (err e) = check "gpu" fail "nvidia-smi not found -- no NVIDIA GPU detected"

pub check_docker : Spawned → PreflightCheck
check_docker (ok output) =
    if output.success
    then check "docker" pass "Docker daemon accessible"
    else check "docker" warn "Docker found but daemon not accessible (permission issue?)"
check_docker (err e) =
    check "docker" warn "Docker not found (container metrics will be unavailable)"

network_answer : String → PreflightCheck
network_answer status_code =
    if status_code == "200"
    then check "network" pass "Nexus API reachable"
    else check "network" warn ("Nexus API returned HTTP " ++ status_code)

pub check_network : Spawned → PreflightCheck
check_network (ok output) =
    if output.success
    then network_answer (trim output.stdout)
    else check "network" warn "Cannot reach Nexus API (offline or firewall)"
check_network (err e) = check "network" warn "Cannot reach Nexus API (offline or firewall)"

is_upper_g : Char → Bool
is_upper_g c = eqb (code c) b'G'

-- The number of gigabytes in the second line of the output of `df`.
unfoldable pub available_gb : String → ℕ
unfolding is_upper_g
available_gb stdout =
    let avail_str =
      trim_end_matches is_upper_g (trim (unwrap_or (get_elem? (lines stdout) 1) "0G")) in
    unwrap_or (parse u64_max avail_str) 0

disk_of : ℕ → PreflightCheck
disk_of avail_gb =
    if leb 10 avail_gb
    then check "disk" pass (to_string avail_gb ++ "G available")
    else check "disk" warn ("Only " ++ (to_string avail_gb ++ "G available (recommend >= 10G)"))

disk_macos : Spawned → PreflightCheck
disk_macos r =
    if ran r
    then check "disk" pass "Disk space check passed (macOS)"
    else check "disk" warn "Could not determine available disk space"

unfoldable pub check_disk_space : Spawned → Spawned → PreflightCheck
unfolding disk_of disk_macos check
check_disk_space (ok output) macos =
    if output.success then disk_of (available_gb output.stdout) else disk_macos macos
check_disk_space (err e) macos = disk_macos macos

module _ (to_lowercase : String → String) where
  -- The first known device whose identifier or name is in the text.
  unfoldable pub match_device : String → List KnownDevice → Option KnownDevice
  match_device lower [] = none
  match_device lower (d ∷ ds) =
      let rest = match_device lower ds in
      if contains lower (to_lowercase d.identifier) || contains lower (to_lowercase d.name)
      then some d
      else rest

  match_file : Option String → Option KnownDevice
  match_file none = none
  match_file (some text) = match_device (to_lowercase text) known_devices

  match_gpu : String → Option KnownDevice
  match_gpu gpu_name =
      if contains gpu_name "blackwell" || contains gpu_name "gb10" || contains gpu_name "gb202"
      then some (record {
        name = "NVIDIA DGX Spark";
        identifier = "gb10";
        notes = "GB10 Grace Blackwell, 128 GB unified memory, aarch64";
      })
      else if contains gpu_name "a100"
      then some (record {
        name = "NVIDIA DGX Station A100";
        identifier = "a100";
        notes = "A100 GPU detected";
      })
      else if contains gpu_name "h100"
      then some (record {
        name = "NVIDIA DGX H100";
        identifier = "dgx-h100";
        notes = "H100 GPU detected";
      })
      else none

  match_gpus : Spawned → Option KnownDevice
  match_gpus (ok output) = if output.success then match_gpu (to_lowercase output.stdout) else none
  match_gpus (err e) = none

  unfoldable pub detect_known_device : Machine → Option KnownDevice
  unfolding match_gpus match_gpu match_file
  detect_known_device m =
      or_else (match_file m.model) (or_else (match_file m.product_name) (match_gpus m.gpu_names))

  is_pass : CheckStatus → Bool
  is_pass pass = true
  is_pass _ = false

  unfoldable pub run_preflight : Machine → PreflightReport
  unfolding is_pass
  run_preflight m =
      let gpu_check = check_gpu m.nvidia_smi in
      let has_gpu = is_pass gpu_check.status in
      let device_match = detect_known_device m in
      record {
        checks =
            check_architecture m
            ∷ gpu_check
            ∷ check_docker m.docker_info
            ∷ check_network m.curl
            ∷ check_disk_space m.df m.df_macos
            ∷ [];
        verdict =
            if is_some device_match
            then compatible
            else if has_gpu
            then not_recommended
            else incompatible;
        device_match = device_match;
      }
