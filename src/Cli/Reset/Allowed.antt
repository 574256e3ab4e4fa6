-- ===== src/Cli/Reset/Allowed.antt =====
-- What `reset` may do to the machine.
use nexus_link.Base.{
  All, Bool, List, String, [], false, get_elem?, not, refl, some, true, ℕ, ◌∷◌, ◌≡◌,
}
use nexus_link.Process.{ran}
use nexus_link.Shell.{Event, Os, Step, asked, is_yes, removed_tree, run_ignored, started}
use nexus_link.Shell.Extends.{
  Extends, Only, Only-ask, Only-bind, Only-exists, Only-io, Only-proceed, Only-pure, Only-run,
  Only-run_ignored, Only-seq, nothing,
}
use nexus_link.Cli.Reset.{
  disable_service, execute, for_each, installed_binaries, is_installed, is_no_user, remove_binary,
  remove_dir_if_exists, remove_if, remove_installed_binaries, remove_system_dir, remove_system_user,
  remove_systemd_units, remove_tree_if, remove_unit, reset_all, reset_if, services,
  stop_and_disable_services, stop_service, stopped_system, stopped_user, unit_files,
}
use nexus_link.Core.ConfigFile.{dirs_home, system_config_dir, system_state_dir}

-- All that a reset may run, remove or ask, with `home` for ~/.nexus-link.
unfoldable pub allowed_events : String → List Event
allowed_events home =
    asked
    ∷ started ("systemctl" ∷ "--user" ∷ "stop" ∷ "nexus-link-agent" ∷ [])
    ∷ started ("systemctl" ∷ "--user" ∷ "disable" ∷ "nexus-link-agent" ∷ [])
    ∷ started ("sudo" ∷ "systemctl" ∷ "stop" ∷ "nexus-link-agent" ∷ [])
    ∷ started ("sudo" ∷ "systemctl" ∷ "disable" ∷ "nexus-link-agent" ∷ [])
    ∷ started ("pkill" ∷ "-f" ∷ "nexus-link-agent" ∷ [])
    ∷ started ("systemctl" ∷ "--user" ∷ "stop" ∷ "nexus-link-service" ∷ [])
    ∷ started ("systemctl" ∷ "--user" ∷ "disable" ∷ "nexus-link-service" ∷ [])
    ∷ started ("sudo" ∷ "systemctl" ∷ "stop" ∷ "nexus-link-service" ∷ [])
    ∷ started ("sudo" ∷ "systemctl" ∷ "disable" ∷ "nexus-link-service" ∷ [])
    ∷ started ("pkill" ∷ "-f" ∷ "nexus-link-service" ∷ [])
    ∷ started ("sudo" ∷ "rm" ∷ "-f" ∷ "/etc/systemd/system/nexus-link-agent.service" ∷ [])
    ∷ started ("sudo" ∷ "rm" ∷ "-f" ∷ "/etc/systemd/system/nexus-link-service.service" ∷ [])
    ∷ started ("sudo" ∷ "systemctl" ∷ "daemon-reload" ∷ [])
    ∷ removed_tree home
    ∷ started ("sudo" ∷ "rm" ∷ "-rf" ∷ "/etc/nexus-link" ∷ [])
    ∷ started ("sudo" ∷ "rm" ∷ "-rf" ∷ "/var/lib/nexus-link" ∷ [])
    ∷ started ("sudo" ∷ "rm" ∷ "-f" ∷ "/usr/local/bin/nexus-link" ∷ [])
    ∷ started ("sudo" ∷ "rm" ∷ "-f" ∷ "/usr/local/bin/nexus-link-agent" ∷ [])
    ∷ started ("sudo" ∷ "rm" ∷ "-f" ∷ "/usr/local/bin/nexus-link-service" ∷ [])
    ∷ started ("id" ∷ "nexus-link" ∷ [])
    ∷ started ("sudo" ∷ "userdel" ∷ "nexus-link" ∷ [])
    ∷ []

abbrev pub IsAllowed : String → Event → Type 0
IsAllowed home e = (i : ℕ) × (get_elem? (allowed_events home) i ≡ some e)

module _ {P : Event → Type 0} (os : Os) where
  pub remove_if-Only :
      (args : List String) → P (started args) → (there : Bool) → Only P (remove_if os args there)
  unfolding remove_if
  remove_if-Only args p true = Only-run_ignored os args p
  remove_if-Only args p false = Only-pure tt

  disable_service-Only :
      (service : String)
      → P (started ("systemctl" ∷ "--user" ∷ "disable" ∷ service ∷ []))
      → P (started ("sudo" ∷ "systemctl" ∷ "disable" ∷ service ∷ []))
      → (user : Bool) → Only P (disable_service os service user)
  unfolding disable_service
  disable_service-Only service p q true = Only-run_ignored os _ p
  disable_service-Only service p q false = Only-run_ignored os _ q

  -- The five commands of one service.
  stop_service-Only :
      (service : String)
      → P (started ("systemctl" ∷ "--user" ∷ "stop" ∷ service ∷ []))
      → P (started ("systemctl" ∷ "--user" ∷ "disable" ∷ service ∷ []))
      → P (started ("sudo" ∷ "systemctl" ∷ "stop" ∷ service ∷ []))
      → P (started ("sudo" ∷ "systemctl" ∷ "disable" ∷ service ∷ []))
      → P (started ("pkill" ∷ "-f" ∷ service ∷ []))
      → Only P (stop_service os service)
  unfolding stop_service
  stop_service-Only service user_stop user_disable stop disable kill =
      Only-bind _ _ (Only-run os _ user_stop) λ r. user (ran r)
    where
      system : (there : Bool) → Only P (stopped_system os service there)
      system true = disable_service-Only service user_disable disable false
      system false = Only-run_ignored os _ kill

      user : (there : Bool) → Only P (stopped_user os service there)
      user true = disable_service-Only service user_disable disable true
      user false = Only-bind _ _ (Only-run os _ stop) λ r. system (ran r)

  remove_tree_if-Only :
      (dir : String) → P (removed_tree dir) → (there : Bool) → Only P (remove_tree_if os dir there)
  unfolding remove_tree_if
  remove_tree_if-Only dir p true = Only-seq _ _ (Only-io os _ p) (Only-pure tt)
  remove_tree_if-Only dir p false = Only-pure tt

  pub for_each-Only :
      (f : String → Step (Unit {0})) (xs : List String)
      → All (λ x. Only P (f x)) xs
      → Only P (for_each f xs)
  unfolding for_each
  for_each-Only f [] p = Only-pure tt
  for_each-Only f (x ∷ xs) (p, q) = Only-seq _ _ p (for_each-Only f xs q)

pub stop_all-Only : (os : Os) (home : String) → Only (IsAllowed home) (stop_and_disable_services os)
unfolding stop_and_disable_services allowed_events
stop_all-Only os home = for_each-Only os _ services (
  stop_service-Only os _ (1, refl) (2, refl) (3, refl) (4, refl) (5, refl),
  (stop_service-Only os _ (6, refl) (7, refl) (8, refl) (9, refl) (10, refl), tt),
)

pub remove_unit-Only :
    (os : Os) (home : String) → All (λ unit. Only (IsAllowed home) (remove_unit os unit)) unit_files
unfolding remove_unit allowed_events
remove_unit-Only os home = (
  Only-bind _ _ (Only-exists os _) (remove_if-Only os _ (11, refl)),
  (Only-bind _ _ (Only-exists os _) (remove_if-Only os _ (12, refl)), tt),
)

pub reload-Only :
    (os : Os) (home : String)
    → Only (IsAllowed home) (run_ignored os ("sudo" ∷ "systemctl" ∷ "daemon-reload" ∷ []))
unfolding allowed_events
reload-Only os home = Only-run_ignored os _ (13, refl)

pub remove_dir_if_exists-Only :
    (os : Os) (home : String) → Only (IsAllowed home) (remove_dir_if_exists os home)
unfolding remove_dir_if_exists allowed_events
remove_dir_if_exists-Only os home =
    Only-bind _ _ (Only-exists os _) (remove_tree_if-Only os home (14, refl))

pub remove_config_dir-Only :
    (os : Os) (home : String) → Only (IsAllowed home) (remove_system_dir os system_config_dir)
unfolding remove_system_dir allowed_events
remove_config_dir-Only os home = Only-bind _ _ (Only-exists os _) (remove_if-Only os _ (15, refl))

pub remove_state_dir-Only :
    (os : Os) (home : String) → Only (IsAllowed home) (remove_system_dir os system_state_dir)
unfolding remove_system_dir allowed_events
remove_state_dir-Only os home = Only-bind _ _ (Only-exists os _) (remove_if-Only os _ (16, refl))

is_installed-Only : {P : Event → Type 0} (os : Os) (bin : String) → Only P (is_installed os bin)
unfolding is_installed
is_installed-Only os bin h = nothing

pub remove_binary-Only :
    (os : Os) (home : String)
    → All (λ bin. Only (IsAllowed home) (remove_binary os bin)) installed_binaries
unfolding remove_binary allowed_events
remove_binary-Only os home = (
  Only-bind _ _ (is_installed-Only os _) (remove_if-Only os _ (17, refl)),
  (
    Only-bind _ _ (is_installed-Only os _) (remove_if-Only os _ (18, refl)),
    (Only-bind _ _ (is_installed-Only os _) (remove_if-Only os _ (19, refl)), tt),
  ),
)

pub remove_system_user-Only :
    (os : Os) (home : String) → Only (IsAllowed home) (remove_system_user os)
unfolding remove_system_user allowed_events
remove_system_user-Only os home =
    Only-bind _ _ (Only-run os _ (20, refl))
      λ r. remove_if-Only os _ (21, refl) (not (is_no_user r))

pub remove_systemd_units-Only :
    (os : Os) (home : String) → Only (IsAllowed home) (remove_systemd_units os)
unfolding remove_systemd_units
remove_systemd_units-Only os home =
    Only-seq _ _ (for_each-Only os _ unit_files (remove_unit-Only os home)) (reload-Only os home)

reset_all-Only : (os : Os) → Only (IsAllowed (dirs_home os.env)) (reset_all os)
unfolding reset_all remove_installed_binaries
reset_all-Only os =
    let home = dirs_home os.env in
    Only-seq _ _
      (Only-seq _ _
        (Only-seq _ _
          (Only-seq _ _
            (Only-seq _ _ (Only-seq _ _ (stop_all-Only os home) (remove_systemd_units-Only os home))
              (remove_dir_if_exists-Only os home))
            (remove_config_dir-Only os home))
          (remove_state_dir-Only os home))
        (for_each-Only os _ installed_binaries (remove_binary-Only os home)))
      (remove_system_user-Only os home)

reset_if-Only :
    (os : Os) (confirmed : Bool) → Only (IsAllowed (dirs_home os.env)) (reset_if os confirmed)
unfolding reset_if
reset_if-Only os true = Only-seq _ _ (reset_all-Only os) (Only-pure _)
reset_if-Only os false = Only-pure _

-- A reset, confirmed or not, runs and removes only what the list of allowed events names.
pub execute-IsAllowed :
    (os : Os) (force : Bool) (h : List Event)
    → Extends (IsAllowed (dirs_home os.env)) h (execute os force h).1
unfolding execute allowed_events
execute-IsAllowed os true h = reset_if-Only os true h
execute-IsAllowed os false h =
    Only-bind _ _ (Only-ask os (0, refl)) (Only-proceed _ λ line. reset_if-Only os (is_yes line)) h
