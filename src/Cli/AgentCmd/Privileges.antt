-- ===== src/Cli/AgentCmd/Privileges.antt =====
-- For a user that is neither root nor may use `sudo`, the commands of `agent` stay unprivileged.
use mathlib.Core.Path.{subst}
use nexus_link.Base.{
  Bool, List, Option, Result, String, [], err, false, inl, inr, is_ok, none, ok, refl, some, sym,
  true, ℕ, ◌==◌, ◌||◌, ◌∷◌, ◌≡◌, ◌⊎◌,
}
use nexus_link.Process.{Output, Spawned, ran}
use nexus_link.Shell.{
  Event, Os, Step, Try, files, proceed, pure, run, run_ignored, started, teed, ◌>>=◌, ◌>>◌,
}
use nexus_link.Shell.Extends.{
  Extends, Extends-trans, Only, Only-bind, Only-chain, Only-exists, Only-io, Only-proceed,
  Only-pure, Only-run, Only-run_ignored, Only-seq, add, nothing,
}
use nexus_link.Core.ConfigFile.{Toml, load}
use nexus_link.Cli.AgentCmd.{
  SystemdMode, detect_systemd_mode, found_or_which, has_sudo, mode_of, mode_unless_root,
  reload_again, reload_args, reload_systemd, retry, retry_unless, sudo_probe, systemctl,
  systemctl_args, systemd_unit_exists, user_mode, which_binary,
}
use nexus_link.Cli.AgentCmd.Units.{
  generate_systemd_units, make_parent, prepare_unit_dir, write_unit_file, write_units,
}
use nexus_link.Cli.AgentCmd.Commands.{
  check_linger, ensure_units, generate_unless, journal_args, kill_unless, logs, restart, restart_in,
  start, start_both, start_in, start_unless, stop, stop_in,
}
use nexus_link.Core.Config.{Config}

-- What runs with `sudo`.
unfoldable pub is_privileged : Event → Bool
is_privileged (started []) = false
is_privileged (started (program ∷ args)) = program == "sudo"
is_privileged (teed path content) = true
is_privileged _ = false

-- Without `sudo`, but for the question whether it may be used.
abbrev pub IsUnprivileged : Event → Type 0
IsUnprivileged e = (is_privileged e ≡ false) ⊎ (e ≡ started sudo_probe)

-- The user mode keeps a step unprivileged.
detect_systemd_mode-user :
    (os : Os) (h : List Event)
    → os.is_root ≡ false
    → ran (os.run h sudo_probe) ≡ false
    → detect_systemd_mode os h ≡ (user_mode, started sudo_probe ∷ h)
unfolding detect_systemd_mode mode_unless_root has_sudo mode_of run pure ◌>>=◌
detect_systemd_mode-user os h root sudo = rw root (rw sudo refl)

module _ (os : Os) where
  run-IsUnprivileged :
      (program : String) (args : List String)
      → (program == "sudo") ≡ false
      → Only IsUnprivileged (run os (program ∷ args))
  unfolding is_privileged
  run-IsUnprivileged program args p = Only-run os _ (inl p)

  run_ignored-IsUnprivileged :
      (program : String) (args : List String)
      → (program == "sudo") ≡ false
      → Only IsUnprivileged (run_ignored os (program ∷ args))
  unfolding is_privileged
  run_ignored-IsUnprivileged program args p = Only-run_ignored os _ (inl p)

  systemctl-IsUnprivileged :
      (command service : String) → Only IsUnprivileged (systemctl os command service user_mode)
  unfolding systemctl systemctl_args
  systemctl-IsUnprivileged command service =
      Only-bind _ _ (run-IsUnprivileged "systemctl" _ refl) (again)
    where
      again_unless :
          (o : Output) (b : Bool)
          → Only IsUnprivileged (retry_unless os command service user_mode o b)
      again_unless o true = Only-pure _
      again_unless o false = Only-pure _

      again : (r : Spawned) → Only IsUnprivileged (retry os command service user_mode r)
      again (ok o) = again_unless o o.success
      again (err e) = Only-pure _

  reload_again-IsUnprivileged : (done : Bool) → Only IsUnprivileged (reload_again os user_mode done)
  unfolding reload_again
  reload_again-IsUnprivileged true = Only-pure tt
  reload_again-IsUnprivileged false = Only-pure tt

  reload-IsUnprivileged : Only IsUnprivileged (reload_systemd os user_mode)
  unfolding reload_systemd reload_args
  reload-IsUnprivileged =
      Only-bind _ _ (run-IsUnprivileged "systemctl" _ refl) λ r. reload_again-IsUnprivileged (ran r)

  found_or_which-IsUnprivileged :
      (name : String) (found : Option String) → Only IsUnprivileged (found_or_which os name found)
  unfolding found_or_which
  found_or_which-IsUnprivileged name (some p) = Only-pure _
  found_or_which-IsUnprivileged name none =
      Only-bind _ _ (run-IsUnprivileged "which" _ refl) λ r. Only-pure _

  which_binary-IsUnprivileged : (name : String) → Only IsUnprivileged (which_binary os name)
  unfolding which_binary files
  which_binary-IsUnprivileged name =
      Only-bind _ _ (λ h. nothing) (found_or_which-IsUnprivileged name)

  write_unit_file-IsUnprivileged :
      (path content : String) → Only IsUnprivileged (write_unit_file os path content user_mode)
  unfolding write_unit_file is_privileged
  write_unit_file-IsUnprivileged path content =
      Only-bind _ _ (Only-io os _ (inl refl)) λ r. Only-pure _

  make_parent-IsUnprivileged :
      (parent : Option String) → Only IsUnprivileged (make_parent os parent)
  unfolding make_parent is_privileged
  make_parent-IsUnprivileged none = Only-pure _
  make_parent-IsUnprivileged (some parent) =
      Only-bind _ _ (Only-io os _ (inl refl)) λ r. Only-pure _

  prepare_unit_dir-IsUnprivileged :
      (path : String) → Only IsUnprivileged (prepare_unit_dir os path user_mode)
  unfolding prepare_unit_dir
  prepare_unit_dir-IsUnprivileged path = make_parent-IsUnprivileged (os.parent path)

  generate-IsUnprivileged :
      (t : Toml) (fault : Option String)
      → Only IsUnprivileged (generate_systemd_units os t fault user_mode)
  unfolding generate_systemd_units write_units
  generate-IsUnprivileged t fault = Only-bind _ _ (which_binary-IsUnprivileged _) (
      Only-proceed _ λ agent_bin. Only-bind _ _ (which_binary-IsUnprivileged _) (
        Only-proceed _ λ service_bin h.
          Only-chain _ _
            (Only-chain _ _ (prepare_unit_dir-IsUnprivileged _)
              (write_unit_file-IsUnprivileged _ _))
            (write_unit_file-IsUnprivileged _ _) h))

  generate_unless-IsUnprivileged :
      (t : Toml) (fault : Option String) (there : Bool)
      → Only IsUnprivileged (generate_unless os t fault user_mode there)
  unfolding generate_unless
  generate_unless-IsUnprivileged t fault true = Only-pure _
  generate_unless-IsUnprivileged t fault false =
      Only-chain _ _ (generate-IsUnprivileged t fault)
        (Only-seq _ _ reload-IsUnprivileged (Only-pure _))

  start_in-IsUnprivileged :
      (t : Toml) (fault : Option String) → Only IsUnprivileged (start_in os t fault user_mode)
  unfolding start_in start_both check_linger ensure_units systemd_unit_exists
  start_in-IsUnprivileged t fault =
      Only-chain _ _
        (Only-chain _ _ (Only-bind _ _ (Only-exists os _) (generate_unless-IsUnprivileged t fault))
          (Only-chain _ _
            (Only-chain _ _
              (Only-chain _ _ (systemctl-IsUnprivileged _ _) (systemctl-IsUnprivileged _ _))
              (systemctl-IsUnprivileged _ _))
            (systemctl-IsUnprivileged _ _)))
        (Only-seq _ _ (run_ignored-IsUnprivileged "loginctl" _ refl) (Only-pure _))

  start_unless-IsUnprivileged :
      (service : String) (restarted : Bool)
      → Only IsUnprivileged (start_unless os service user_mode restarted)
  unfolding start_unless
  start_unless-IsUnprivileged service true = Only-pure tt
  start_unless-IsUnprivileged service false =
      Only-bind _ _ (systemctl-IsUnprivileged _ _) λ r. Only-pure tt

  restart_in-IsUnprivileged : Only IsUnprivileged (restart_in os user_mode)
  unfolding restart_in
  restart_in-IsUnprivileged = Only-bind _ _ (systemctl-IsUnprivileged _ _) λ a.
      Only-bind _ _ (systemctl-IsUnprivileged _ _) λ s.
        Only-seq _ _ (start_unless-IsUnprivileged _ (is_ok a))
          (start_unless-IsUnprivileged _ (is_ok s))

  kill_unless-IsUnprivileged : (stopped : Bool) → Only IsUnprivileged (kill_unless os stopped)
  unfolding kill_unless
  kill_unless-IsUnprivileged true = Only-pure tt
  kill_unless-IsUnprivileged false =
      Only-seq _ _ (run_ignored-IsUnprivileged "pkill" _ refl)
        (run_ignored-IsUnprivileged "pkill" _ refl)

  stop_in-IsUnprivileged : Only IsUnprivileged (stop_in os user_mode)
  unfolding stop_in
  stop_in-IsUnprivileged = Only-bind _ _ (systemctl-IsUnprivileged _ _) λ a.
      Only-bind _ _ (systemctl-IsUnprivileged _ _)
        λ s. kill_unless-IsUnprivileged (is_ok a || is_ok s)

  -- What follows the choice of the mode, in user mode.
  in_user_mode :
      {A : Type 0} (f : SystemdMode → Step A) (h : List Event)
      → os.is_root ≡ false
      → ran (os.run h sudo_probe) ≡ false
      → Only IsUnprivileged (f user_mode)
      → Extends IsUnprivileged h ((detect_systemd_mode os >>= f) h).1
  unfolding ◌>>=◌
  in_user_mode f h root sudo only =
      subst (λ r. Extends IsUnprivileged h (f r.0 r.1).1)
        (sym (detect_systemd_mode-user os h root sudo))
        (Extends-trans (add _ (inr refl) nothing) (only (started sudo_probe ∷ h)))

  loaded-IsUnprivileged :
      {A : Type 0} (k : Config → Try A) (r : Result Config String) (h : List Event)
      → ((c : Config) → Extends IsUnprivileged h (k c h).1)
      → Extends IsUnprivileged h (proceed k r h).1
  unfolding proceed
  loaded-IsUnprivileged k (ok c) h p = p c
  loaded-IsUnprivileged k (err e) h p = nothing

-- For a user that is not root and may not use `sudo` without a password, start, restart, stop and
-- logs run nothing with `sudo` but that question.
pub commands-IsUnprivileged :
    (os : Os) (t : Toml) (fault : Option String) (tail : ℕ) (h : List Event)
    → os.is_root ≡ false
    → ran (os.run h sudo_probe) ≡ false
    → Extends IsUnprivileged h (start os t fault h).1
      × Extends IsUnprivileged h (restart os t fault h).1
      × Extends IsUnprivileged h (stop os h).1
      × Extends IsUnprivileged h (logs os tail h).1
unfolding start restart stop logs files ◌>>=◌ ◌>>◌ pure journal_args
commands-IsUnprivileged os t fault tail h root sudo = (
  loaded-IsUnprivileged os _ (load t fault os.env (os.fs h)) h
      (λ c. in_user_mode os (start_in os t fault) h root sudo (start_in-IsUnprivileged os t fault)),
  loaded-IsUnprivileged os _ (load t fault os.env (os.fs h)) h
      (λ c. in_user_mode os (restart_in os) h root sudo (restart_in-IsUnprivileged os)),
  in_user_mode os (stop_in os) h root sudo (stop_in-IsUnprivileged os),
  in_user_mode os (λ mode. run_ignored os (journal_args tail mode)) h root sudo
      (run_ignored-IsUnprivileged os "journalctl" _ refl),
)
