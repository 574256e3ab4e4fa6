-- ===== src/Core/Setup/Skipped.antt =====
-- What a step of the setup does where it reports that it was skipped.
use Prim.Native.String.{◌++◌}
use nexus_link.Base.{
  All, All-get_elem?, Bool, Bool-cases, List, Option, Result, String, [], ap, arith, err, false,
  get_elem?, inl, inr, none, ok, refl, some, true, ℕ, ◌==◌, ◌∷◌, ◌≡◌, ◌≢◌, ◌⊎◌,
}
use nexus_link.Shell.{Event, Os, Step, Try, exists, files, proceed, pure, started, ◌>>=◌, ◌>>◌}
use nexus_link.Shell.Extends.{Extends, Extends-trans, Only, Only-exists, Only-run, nothing}
use nexus_link.Core.ConfigFile.{
  service_user, system_config_dir, system_config_path, system_state_dir,
}
use nexus_link.Core.Setup.{
  SetupStep, add_docker_group, copy_config, create_config_dir, create_system_user,
  create_user_unless, dirs_step, ensure_dir, is_member, join_group_if, join_group_unless, made,
  make_dir_unless, migrate_from, migrate_legacy_config, migrate_unless, push, report_step, skip,
  skipped,
}
use nexus_link.Process.{ran}
use nexus_link.Fs.{path_exists}
use nexus_link.Core.Setup.Binaries.Nothing.{install_each-nothing, installed_step-skipped}
use nexus_link.Core.Setup.Binaries.{
  cannot, install_binaries, install_dir, install_from_dir, install_unless_same, of_current,
  of_parent, of_real, shipped,
}
use nexus_link.Core.Setup.Steps.{setup_steps}
use nexus_link.Core.Setup.Units.{enable_services, install_systemd_units}

-- The queries of the setup: processes that change nothing, without `sudo`.
abbrev pub IsQuery : Event → Type 0
IsQuery e =
    (e ≡ started ("id" ∷ service_user ∷ []))
    ⊎ (e ≡ started ("id" ∷ "-nG" ∷ service_user ∷ []))
    ⊎ (e ≡ started ("getent" ∷ "group" ∷ "docker" ∷ []))

-- A step that reports that it was skipped has only made queries.
abbrev pub SkipsQuietly : Step SetupStep → Type 0
SkipsQuietly m = (h : List Event) → (m h).0.status ≡ skipped → Extends IsQuery h (m h).1

pub report_step-ne_skipped :
    (name message failure : String) (r : Result (Unit {0}) String)
    → (report_step name message failure r).status ≢ skipped
unfolding report_step
report_step-ne_skipped name message failure (ok u) e = ground arith
report_step-ne_skipped name message failure (err x) e = ground arith

-- A step that ends in a report is never skipped.
reported-SkipsQuietly :
    (m : Try (Unit {0})) (name message failure : String)
    → SkipsQuietly (m >>= λ r. pure (report_step name message failure r))
unfolding ◌>>=◌ pure
reported-SkipsQuietly m name message failure h e =
    absurd (report_step-ne_skipped name message failure (m h).0 e)

skip-SkipsQuietly : (name message : String) → SkipsQuietly (skip name message)
unfolding pure
skip-SkipsQuietly name message h e = nothing

pub after-SkipsQuietly :
    {A : Type 0} (m : Step A) (f : A → Step SetupStep)
    → Only IsQuery m
    → ((a : A) → SkipsQuietly (f a))
    → SkipsQuietly (m >>= f)
unfolding ◌>>=◌
after-SkipsQuietly m f p q h e = Extends-trans (p h) (q (m h).0 (m h).1 e)

create_user_unless-SkipsQuietly :
    (os : Os) (there : Bool) → SkipsQuietly (create_user_unless os there)
unfolding create_user_unless
create_user_unless-SkipsQuietly os true = skip-SkipsQuietly _ _
create_user_unless-SkipsQuietly os false = reported-SkipsQuietly _ _ _ _

create_system_user-SkipsQuietly : (os : Os) → SkipsQuietly (create_system_user os)
unfolding create_system_user
create_system_user-SkipsQuietly os =
    after-SkipsQuietly _ _ (Only-run os _ (inl refl))
      λ check. create_user_unless-SkipsQuietly os (ran check)

join_group_unless-SkipsQuietly :
    (os : Os) (there : Bool) → SkipsQuietly (join_group_unless os there)
unfolding join_group_unless
join_group_unless-SkipsQuietly os true = skip-SkipsQuietly _ _
join_group_unless-SkipsQuietly os false = reported-SkipsQuietly _ _ _ _

join_group_if-SkipsQuietly : (os : Os) (there : Bool) → SkipsQuietly (join_group_if os there)
unfolding join_group_if
join_group_if-SkipsQuietly os true =
    after-SkipsQuietly _ _ (Only-run os _ (inr (inl refl)))
      λ groups. join_group_unless-SkipsQuietly os (is_member groups)
join_group_if-SkipsQuietly os false = skip-SkipsQuietly _ _

add_docker_group-SkipsQuietly : (os : Os) → SkipsQuietly (add_docker_group os)
unfolding add_docker_group
add_docker_group-SkipsQuietly os =
    after-SkipsQuietly _ _ (Only-run os _ (inr (inr refl)))
      λ group. join_group_if-SkipsQuietly os (ran group)

made-ne_empty :
    (before : List String) (dir : String) (r : Result (Unit {0}) String) → made before dir r ≢ ok []
unfolding made push
made-ne_empty before dir (err e) h = ground arith
made-ne_empty [] dir (ok u) h = ground arith
made-ne_empty (d ∷ ds) dir (ok u) h = ground arith

ok_injective : (a b : List String) (r : Result (List String) String) → r ≡ ok a → r ≡ ok b → a ≡ b
ok_injective a b r e f = ground arith

-- Without a directory made, nothing is run.
ensure_dir-nothing :
    (os : Os) (dir owner mode : String) (before : List String) (h : List Event)
    → (ensure_dir os dir owner mode before h).0 ≡ ok []
    → (before ≡ []) × ((ensure_dir os dir owner mode before h).1 ≡ h)
unfolding ensure_dir make_dir_unless exists ◌>>=◌ pure
ensure_dir-nothing os dir owner mode before h e = elim (Bool-cases (path_exists (os.fs h) dir)) [
  | inl p ↦ rw p (ok_injective before [] (ok before) refl (rw p at e), refl)
  | inr p ↦ absurd (made-ne_empty before dir _ (rw p at e))
]

dirs_step-skipped : (r : Result (List String) String) → (dirs_step r).status ≡ skipped → r ≡ ok []
unfolding dirs_step
dirs_step-skipped (ok []) e = refl
dirs_step-skipped (ok (d ∷ ds)) e = ground arith
dirs_step-skipped (err x) e = ground arith

second_dir-nothing :
    (os : Os) (dir owner mode : String) (first : Result (List String) String) (h : List Event)
    → (proceed (ensure_dir os dir owner mode) first h).0 ≡ ok []
    → (first ≡ ok []) × ((proceed (ensure_dir os dir owner mode) first h).1 ≡ h)
unfolding proceed
second_dir-nothing os dir owner mode (ok ds) h e =
    let (p, q) = ensure_dir-nothing os dir owner mode ds h e in (ap ok p, q)
second_dir-nothing os dir owner mode (err x) h e = ground arith

create_config_dir-SkipsQuietly : (os : Os) → SkipsQuietly (create_config_dir os)
unfolding create_config_dir ◌>>=◌ pure
create_config_dir-SkipsQuietly os h e =
    let (p, q) =
      second_dir-nothing os system_state_dir _ _
        (ensure_dir os system_config_dir "root:root" "755" [] h).0
        (ensure_dir os system_config_dir "root:root" "755" [] h).1 (dirs_step-skipped _ e) in
    let (_, r) = ensure_dir-nothing os system_config_dir "root:root" "755" [] h p in
    rw (q, r) nothing

migrate_from-SkipsQuietly :
    (os : Os) (source : Option String) → SkipsQuietly (migrate_from os source)
unfolding migrate_from ◌>>=◌ ◌>>◌ pure
migrate_from-SkipsQuietly os none = λ h e. nothing
migrate_from-SkipsQuietly os (some source) = λ h e. absurd (
    report_step-ne_skipped "Config migration"
      ("Migrated " ++ (source ++ (" → " ++ system_config_path))) "Failed: "
      (copy_config os source h).0 e)

migrate_unless-SkipsQuietly : (os : Os) (there : Bool) → SkipsQuietly (migrate_unless os there)
unfolding migrate_unless files
migrate_unless-SkipsQuietly os true = skip-SkipsQuietly _ _
migrate_unless-SkipsQuietly os false =
    after-SkipsQuietly _ _ (λ h. nothing) (migrate_from-SkipsQuietly os)

migrate_legacy_config-SkipsQuietly : (os : Os) → SkipsQuietly (migrate_legacy_config os)
unfolding migrate_legacy_config
migrate_legacy_config-SkipsQuietly os =
    after-SkipsQuietly _ _ (Only-exists os _) (migrate_unless-SkipsQuietly os)

install_unless_same-SkipsQuietly :
    (os : Os) (dir : String) (same : Bool) → SkipsQuietly (install_unless_same os dir same)
unfolding install_unless_same ◌>>=◌ pure
install_unless_same-SkipsQuietly os dir true = λ h e. nothing
install_unless_same-SkipsQuietly os dir false = λ h e.
    let (_, q) = install_each-nothing os dir shipped _ h (installed_step-skipped _ e) in
    rw q nothing

of_parent-SkipsQuietly : (os : Os) (dir : Option String) → SkipsQuietly (of_parent os dir)
unfolding of_parent cannot files install_from_dir pure
of_parent-SkipsQuietly os none = λ h e. nothing
of_parent-SkipsQuietly os (some dir) =
    after-SkipsQuietly _ _ (λ h. nothing)
      (λ d. install_unless_same-SkipsQuietly os d (d == install_dir))

of_real-SkipsQuietly : (os : Os) (r : Result String String) → SkipsQuietly (of_real os r)
unfolding of_real cannot pure
of_real-SkipsQuietly os (ok exe) = of_parent-SkipsQuietly os (os.parent exe)
of_real-SkipsQuietly os (err x) = λ h e. nothing

of_current-SkipsQuietly : (os : Os) (r : Result String String) → SkipsQuietly (of_current os r)
unfolding of_current cannot pure
of_current-SkipsQuietly os (ok exe) = λ h. of_real-SkipsQuietly os (os.canonicalize h exe) h
of_current-SkipsQuietly os (err x) = λ h e. nothing

install_binaries-SkipsQuietly : (os : Os) → SkipsQuietly (install_binaries os)
unfolding install_binaries
install_binaries-SkipsQuietly os = of_current-SkipsQuietly os os.current_exe

setup_steps-SkipsQuietly : (os : Os) → All SkipsQuietly (setup_steps os)
unfolding setup_steps install_systemd_units enable_services
setup_steps-SkipsQuietly os = (
  create_system_user-SkipsQuietly os,
  (
    add_docker_group-SkipsQuietly os,
    (
      create_config_dir-SkipsQuietly os,
      (
        migrate_legacy_config-SkipsQuietly os,
        (
          install_binaries-SkipsQuietly os,
          (reported-SkipsQuietly _ _ _ _, (reported-SkipsQuietly _ _ _ _, tt)),
        ),
      ),
    ),
  ),
)

-- A step of `run_setup` that reports that it was skipped has run nothing but the three queries for
-- the user and the groups.
pub setup_steps-skipped :
    (os : Os) (i : ℕ) (s : Step SetupStep) (h : List Event)
    → get_elem? (setup_steps os) i ≡ some s
    → (s h).0.status ≡ skipped
    → Extends IsQuery h (s h).1
setup_steps-skipped os i s h e p =
    All-get_elem? SkipsQuietly (setup_steps os) i s (setup_steps-SkipsQuietly os) e h p
