-- ===== src/Core/ConfigFile/Laws.antt =====
-- Saving and loading a configuration.
use nexus_link.Base.{
  Option, Result, String, ap, arith, eq_refl, err, none, ok, refl, some, sym, ◌∙◌, ◌≡◌,
}
use nexus_link.Fs.{Fs, create_dir_all, read_to_string, set_permissions, write}
use nexus_link.Core.Config.{Config, migrate_legacy_fields}
use nexus_link.Core.ConfigFile.{IsToml, SaveFaults, Toml, load_from, save_to, serialized}

migrate-serialized-migrate :
    (d : Config)
    → migrate_legacy_fields (serialized (migrate_legacy_fields d)) ≡ migrate_legacy_fields d
unfolding migrate_legacy_fields
migrate-serialized-migrate d = ground arith

loaded_by :
    (t : Toml) (fault : Option String) (source : String) (before : Fs) (c : Config)
    → load_from t fault source before ≡ ok c
    → (d : Config) × (migrate_legacy_fields d ≡ c)
unfolding load_from
loaded_by t fault source before c l = go (read_to_string fault source before) refl
  where
    go :
        (r : Result String String)
        → read_to_string fault source before ≡ r
        → (d : Config) × (migrate_legacy_fields d ≡ c)
    go (err x) q = absurd (ground arith)
    go (ok text) q = parsed_to (t.parse text) refl
      where
        parsed_to :
            (r : Result Config String)
            → t.parse text ≡ r
            → (d : Config) × (migrate_legacy_fields d ≡ c)
        parsed_to (err x) p = absurd (ground arith)
        parsed_to (ok d) p = (d, ground arith)

migrate-serialized_loaded :
    (t : Toml) (fault : Option String) (source : String) (before : Fs) (c : Config)
    → load_from t fault source before ≡ ok c
    → migrate_legacy_fields (serialized c) ≡ c
migrate-serialized_loaded t fault source before c l =
    let (d, p) = loaded_by t fault source before c l in rw (sym p) (migrate-serialized-migrate d)

module _ (t : Toml) (law : IsToml t) where
  saved_file :
      (faults : SaveFaults) (parent : Option String) (path : String) (c : Config) (fs fs' : Fs)
      → save_to t faults parent path c fs ≡ (ok tt, fs')
      → (content : String) × (t.print c ≡ ok content)
        × (fs'.file path ≡ some content)
        × (fs'.mode path ≡ 0o600)
  unfolding save_to create_dir_all write set_permissions
  saved_file faults parent path c fs fs' e = go (t.print c) refl
    where
      go :
          (r : Result String String)
          → t.print c ≡ r
          → (content : String) × (t.print c ≡ ok content)
            × (fs'.file path ≡ some content)
            × (fs'.mode path ≡ 0o600)
      go (err x) q = absurd (ground arith)
      go (ok content) q = (content, q, ground (arith, eq_refl path), ground (arith, eq_refl path))

  -- A configuration that was saved with success is loaded back as it was, up to the migration, and
  -- its file can be read by its owner only.
  pub load_from-save_to :
      (faults : SaveFaults) (parent : Option String) (path : String) (c : Config) (fs fs' : Fs)
      → save_to t faults parent path c fs ≡ (ok tt, fs')
      → (load_from t none path fs' ≡ ok (migrate_legacy_fields (serialized c)))
        × (fs'.mode path ≡ 0o600)
  unfolding load_from read_to_string
  load_from-save_to faults parent path c fs fs' e =
      let (content, printed_as, stored, mode) = saved_file faults parent path c fs fs' e in
      (ground (arith, law.parse-print c content printed_as), mode)

  -- What was loaded is loaded again as it is after a save.
  pub load_from-save_to_loaded :
      (fault : Option String) (source : String) (before : Fs) (faults : SaveFaults)
      (parent : Option String) (path : String) (c : Config) (fs fs' : Fs)
      → load_from t fault source before ≡ ok c
      → save_to t faults parent path c fs ≡ (ok tt, fs')
      → load_from t none path fs' ≡ ok c
  load_from-save_to_loaded fault source before faults parent path c fs fs' l e =
      (load_from-save_to faults parent path c fs fs' e).0
      ∙ ap ok (migrate-serialized_loaded t fault source before c l)
