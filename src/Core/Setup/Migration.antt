-- ===== src/Core/Setup/Migration.antt =====
-- The migration of the old configuration, where `cp`, `chown` and `chmod` do what their
-- documentation states.
use Prim.Native.String.{◌++◌}
use nexus_link.Base.{
  Bool, List, Option, Result, String, [], ap, arith, err, false, if◌then◌else◌, inl, inr, is_ok,
  is_some, none, ok, or-false_right, refl, some, true, ◌∙◌, ◌∷◌, ◌≡◌, ◌⊎◌,
}
use nexus_link.Text.{starts_with}
use nexus_link.Fs.{Fs, join, path_exists, read_to_string}
use nexus_link.Shell.{Event, Os, Step, exists, files, pure, ◌>>=◌, ◌>>◌}
use nexus_link.Shell.Extends.{Extends-keeps, Only, Only-bind, Only-chain, Only-exists, Only-pure}
use nexus_link.Core.ConfigFile.{
  Env, Toml, default_config_path, dirs_home, effective_config_path, legacy_system_path, load,
  load_from, parsed, service_group, service_user, system_config_path,
}
use nexus_link.Core.Setup.{
  copy_config, copy_key, copy_key_from, copy_key_unless, created, migrate_from,
  migrate_legacy_config, migrate_unless, migration_source, report_step, state_key,
}
use nexus_link.Core.Setup.Commands.{IsShell, Only-sudo, Same, chown, cp, is_beside, sudo-chain}

beside : is_beside system_config_path state_key ≡ true
unfolding system_config_path state_key join starts_with
beside = refl

IsKeyEvent : Event → Type 0
IsKeyEvent e =
    ((source : String) × (e ≡ cp source state_key))
    ⊎ (e ≡ chown (service_user ++ (":" ++ service_group)) state_key)

copy_key_from-Only :
    (os : Os) (place : String) (rest : Step (Unit {0}))
    → Only IsKeyEvent rest
    → (there : Bool) → Only IsKeyEvent (copy_key_from os place rest there)
unfolding copy_key_from IsKeyEvent
copy_key_from-Only os place rest p true =
    Only-bind _ _ (Only-chain _ _ (Only-sudo os _ (inl (place, refl))) (Only-sudo os _ (inr refl)))
      (λ r. Only-pure tt)
copy_key_from-Only os place rest p false = p

copy_key-Only : (os : Os) (places : List String) → Only IsKeyEvent (copy_key os places)
unfolding copy_key
copy_key-Only os [] = Only-pure tt
copy_key-Only os (place ∷ places) =
    Only-bind _ _ (Only-exists os place) (copy_key_from-Only os place _ (copy_key-Only os places))

copy_key_unless-Only : (os : Os) (there : Bool) → Only IsKeyEvent (copy_key_unless os there)
unfolding copy_key_unless
copy_key_unless-Only os true = Only-pure tt
copy_key_unless-Only os false = copy_key-Only os _

copy_config-ok :
    (os : Os) (source : String) (h : List Event)
    → IsShell os
    → (os.fs h).dir system_config_path ≡ false
    → is_ok (copy_config os source h).0 ≡ true
    → ((os.fs (copy_config os source h).1).file system_config_path ≡ (os.fs h).file source)
      × (is_some ((os.fs h).file source) ≡ true)
      × ((os.fs (copy_config os source h).1).mode system_config_path ≡ 0o644)
unfolding copy_config
copy_config-ok os source h shell no_dir e =
    let (p, q, r) = sudo-chain os _ _ _ h e in
    let (content, there) = shell.cp-content h source system_config_path p no_dir in
    rw r (
      shell.chmod-file _ "644" _ _ ∙ shell.chown-file _ "root:root" _ _ ∙ content,
      there,
      shell.chmod-mode _ _ q,
    )

key_event-Same :
    (os : Os) (h : List Event)
    → IsShell os
    → (e : Event) (k : List Event) → IsKeyEvent e
    → Same (os.fs k) (os.fs h) system_config_path
    → Same (os.fs (e ∷ k)) (os.fs h) system_config_path
unfolding IsKeyEvent
key_event-Same os h shell e k (inl (source, is_cp)) (p, q) =
    let (p₁, q₁) = shell.cp-beside k source state_key system_config_path beside in
    rw is_cp (p₁ ∙ p, q₁ ∙ q)
key_event-Same os h shell e k (inr is_chown) (p, q) =
    let (p₁, q₁) = shell.chown-beside k _ state_key system_config_path beside in
    rw is_chown (p₁ ∙ p, q₁ ∙ q)

-- The copy of the signing key leaves the configuration as it is.
copy_key-Same :
    (os : Os) (h : List Event) (there : Bool)
    → IsShell os
    → Same (os.fs (copy_key_unless os there h).1) (os.fs h) system_config_path
copy_key-Same os h there shell =
    Extends-keeps (λ k. Same (os.fs k) (os.fs h) system_config_path) (key_event-Same os h shell)
      (copy_key_unless-Only os there h) (refl, refl)

report_step-created :
    (name message failure : String) (r : Result (Unit {0}) String)
    → (report_step name message failure r).status ≡ created
    → is_ok r ≡ true
unfolding report_step
report_step-created name message failure (ok u) e = refl
report_step-created name message failure (err x) e = ground arith

migrate_from-created :
    (os : Os) (source : String) (h : List Event)
    → IsShell os
    → (os.fs h).dir system_config_path ≡ false
    → (migrate_from os (some source) h).0.status ≡ created
    → ((os.fs (migrate_from os (some source) h).1).file system_config_path ≡ (os.fs h).file source)
      × (is_some ((os.fs h).file source) ≡ true)
      × ((os.fs (migrate_from os (some source) h).1).mode system_config_path ≡ 0o644)
unfolding migrate_from ◌>>=◌ ◌>>◌ pure exists
migrate_from-created os source h shell no_dir e =
    let (p, there, q) = copy_config-ok os source h shell no_dir (
      report_step-created "Config migration"
        ("Migrated " ++ (source ++ (" → " ++ system_config_path))) "Failed: "
        (copy_config os source h).0 e) in
    let (p₁, q₁) =
      copy_key-Same os (copy_config os source h).1
        (path_exists (os.fs (copy_config os source h).1) state_key) shell in
    (p₁ ∙ p, there, q₁ ∙ q)

effective_config_path-source :
    (env : Env) (fs : Fs) (source : String)
    → env.nexus_link_config ≡ none
    → path_exists fs system_config_path ≡ false
    → migration_source env fs ≡ some source
    → effective_config_path env fs ≡ source
unfolding effective_config_path migration_source default_config_path dirs_home
effective_config_path-source env fs source unset gone e =
    rw (unset, gone)
      (go (path_exists fs legacy_system_path) (path_exists fs (default_config_path env)) e)
  where
    go :
        (a b : Bool)
        → (if a
            then some legacy_system_path
            else (if b then some (default_config_path env) else none))
          ≡ some source
        → (if a then legacy_system_path else default_config_path env) ≡ source
    go true b e = ground arith
    go false true e = ground arith
    go false false e = ground arith

effective_config_path-system :
    (env : Env) (fs : Fs)
    → env.nexus_link_config ≡ none
    → path_exists fs system_config_path ≡ true
    → effective_config_path env fs ≡ system_config_path
unfolding effective_config_path
effective_config_path-system env fs unset there = rw (unset, there) refl

read_to_string-same :
    (fs gs : Fs) (p q : String)
    → gs.file p ≡ fs.file q
    → read_to_string none p gs ≡ read_to_string none q fs
unfolding read_to_string
read_to_string-same fs gs p q e = rw (e, read_to_string) refl

load_from-same :
    (t : Toml) (fs gs : Fs) (p q : String)
    → gs.file p ≡ fs.file q
    → load_from t none p gs ≡ load_from t none q fs
unfolding load_from
load_from-same t fs gs p q e = ap (parsed t) (read_to_string-same fs gs p q e)

exists-of_file : (fs : Fs) (p : String) → is_some (fs.file p) ≡ true → path_exists fs p ≡ true
exists-of_file fs p h = rw h refl

load-copied :
    (t : Toml) (env : Env) (fs gs : Fs) (source : String)
    → env.nexus_link_config ≡ none
    → effective_config_path env fs ≡ source
    → gs.file system_config_path ≡ fs.file source
    → is_some (fs.file source) ≡ true
    → load t none env gs ≡ load t none env fs
unfolding load
load-copied t env fs gs source unset effective copied there =
    let system =
      effective_config_path-system env gs unset
        (exists-of_file gs system_config_path (ap is_some copied ∙ there)) in
    rw (effective, system) (load_from-same t fs gs system_config_path source copied)

-- The configuration is loaded as before, and its file can be read by all users.
abbrev pub IsMigratedFrom : Toml → Env → Fs → Fs → Type 0
IsMigratedFrom t env fs gs =
    (load t none env gs ≡ load t none env fs) × (gs.mode system_config_path ≡ 0o644)

migrate_from-load :
    (t : Toml) (os : Os) (h : List Event) (o : Option String)
    → IsShell os
    → os.env.nexus_link_config ≡ none
    → path_exists (os.fs h) system_config_path ≡ false
    → migration_source os.env (os.fs h) ≡ o
    → (migrate_from os o h).0.status ≡ created
    → IsMigratedFrom t os.env (os.fs h) (os.fs (migrate_from os o h).1)
unfolding migrate_from pure
migrate_from-load t os h none shell unset gone from e = ground arith
migrate_from-load t os h (some source) shell unset gone from e =
    let (copied, there, mode) =
      migrate_from-created os source h shell (or-false_right _ _ gone) e in
    let effective = effective_config_path-source os.env (os.fs h) source unset gone from in
    (load-copied t os.env (os.fs h) _ source unset effective copied there, mode)

migrate_unless-load :
    (t : Toml) (os : Os) (h : List Event) (there : Bool)
    → IsShell os
    → os.env.nexus_link_config ≡ none
    → path_exists (os.fs h) system_config_path ≡ there
    → (migrate_unless os there h).0.status ≡ created
    → IsMigratedFrom t os.env (os.fs h) (os.fs (migrate_unless os there h).1)
unfolding migrate_unless pure files ◌>>=◌
migrate_unless-load t os h true shell unset is_there e = ground arith
migrate_unless-load t os h false shell unset is_there e =
    migrate_from-load t os h _ shell unset is_there refl e

-- After a migration that was made, with NEXUS_LINK_CONFIG unset, the configuration is loaded as it
-- was before, and its file can be read by all users.
pub load-migrate_legacy_config :
    (t : Toml) (os : Os) (h : List Event)
    → IsShell os
    → os.env.nexus_link_config ≡ none
    → (migrate_legacy_config os h).0.status ≡ created
    → IsMigratedFrom t os.env (os.fs h) (os.fs (migrate_legacy_config os h).1)
unfolding migrate_legacy_config exists ◌>>=◌
load-migrate_legacy_config t os h shell unset e = migrate_unless-load t os h _ shell unset refl e
