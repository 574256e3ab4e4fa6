-- ===== src/Cli/ConfigCmd/Laws.antt =====
-- `config set` and `config get` against each other, and the effective command token.
use nexus_link.Base.{
  Bool, Option, Option-cases, Result, String, arith, eq_iff, err, if◌then◌else◌, inl, inr, none, ok,
  refl, some, sym, ℕ, ◌∙◌, ◌≡◌,
}
use nexus_link.Text.{is_empty, join_texts}
use nexus_link.Text.Number.{parse, parse-le, parse-to_string, to_string, u16_max, u64_max}
use nexus_link.Fs.{Fs, create_dir_all, write}
use nexus_link.Core.ConfigFile.{
  Env, IsToml, SaveFaults, Toml, dirs_home, effective_config_path, load, load_from, save,
  serialized,
}
use nexus_link.Core.ConfigFile.Laws.{load_from-save_to}
use nexus_link.Core.Config.{Config, migrate_legacy_fields}
use nexus_link.Cli.ConfigCmd.{
  Key, KeyFaults, apply, apply_key, base_url_key, bool_text, cmd_token_key, command_token_key,
  compose_dir_key, is_comma, key_of, listen_addr_key, name_key, node_id_key, not_configured,
  parse_bool, poll_sec_key, port_key, push_sec_key, read, require_signatures_key, set,
  signing_public_key_key, tags_key, telemetry_token_key, token_key, trimmed,
}
use nexus_link.Text.Split.{split}

-- How a text that `get` prints answers to the text that was set in a configuration: an empty key or
-- command token is shown as missing, an empty telemetry token as the node token that the migration
-- puts in its place, a number is the one that was read, tags are trimmed, and other texts are kept.
abbrev or_missing : String → String
or_missing value = if is_empty value then not_configured else value

abbrev pub IsAnswer : Config → Key → String → String → Type 0
IsAnswer c push_sec_key value t = (parse u64_max t ≡ parse u64_max value)
IsAnswer c poll_sec_key value t = (parse u64_max t ≡ parse u64_max value)
IsAnswer c port_key value t = (parse u16_max t ≡ parse u16_max value)
IsAnswer c tags_key value t = (t ≡ join_texts "," (trimmed (split is_comma value)))
IsAnswer c telemetry_token_key value t =
    (t ≡ (if is_empty value then or_missing c.node.token else value))
IsAnswer c command_token_key value t = (t ≡ or_missing value)
IsAnswer c cmd_token_key value t = (t ≡ or_missing value)
IsAnswer c signing_public_key_key value t = (t ≡ or_missing value)
IsAnswer c _ value t = (t ≡ value)

parsed_text :
    (most : ℕ) (value : String) (n : ℕ)
    → parse most value ≡ some n
    → parse most (to_string n) ≡ parse most value
parsed_text most value n h = parse-to_string most n (parse-le most value n h) ∙ sym h

bool_text-parse_bool : (s : String) (v : Bool) → parse_bool s ≡ some v → bool_text v ≡ s
unfolding parse_bool bool_text
bool_text-parse_bool s v h = ground (arith, eq_iff s "true", eq_iff s "false")

-- A configuration as it is loaded after a save.
abbrev reloaded : Config → Config
reloaded c = migrate_legacy_fields (serialized c)

read-apply :
    (faults : KeyFaults) (key_dir : String) (k : Key) (value : String) (c c' : Config) (fs fs' : Fs)
    → apply faults key_dir k value c fs ≡ (ok c', fs')
    → IsAnswer c k value (read k (reloaded c'))
unfolding apply read create_dir_all write migrate_legacy_fields
read-apply faults key_dir base_url_key value c c' fs fs' e = ground arith
read-apply faults key_dir push_sec_key value c c' fs fs' e =
    elim (Option-cases (parse u64_max value)) [
      | inl p ↦ absurd (ground arith)
      | inr (n, p) ↦ ground (arith, parsed_text u64_max value n p)
    ]
read-apply faults key_dir poll_sec_key value c c' fs fs' e =
    elim (Option-cases (parse u64_max value)) [
      | inl p ↦ absurd (ground arith)
      | inr (n, p) ↦ ground (arith, parsed_text u64_max value n p)
    ]
read-apply faults key_dir telemetry_token_key value c c' fs fs' e = ground arith
read-apply faults key_dir command_token_key value c c' fs fs' e = ground arith
read-apply faults key_dir listen_addr_key value c c' fs fs' e = ground arith
read-apply faults key_dir port_key value c c' fs fs' e = elim (Option-cases (parse u16_max value)) [
  | inl p ↦ absurd (ground arith)
  | inr (n, p) ↦ ground (arith, parsed_text u16_max value n p)
]
read-apply faults key_dir name_key value c c' fs fs' e = ground arith
read-apply faults key_dir node_id_key value c c' fs fs' e = ground arith
read-apply faults key_dir tags_key value c c' fs fs' e = ground arith
read-apply faults key_dir token_key value c c' fs fs' e = ground arith
read-apply faults key_dir compose_dir_key value c c' fs fs' e = ground arith
read-apply faults key_dir cmd_token_key value c c' fs fs' e = ground arith
read-apply faults key_dir require_signatures_key value c c' fs fs' e =
    elim (Option-cases (parse_bool value)) [
      | inl p ↦ absurd (ground arith)
      | inr (v, p) ↦ ground (arith, bool_text-parse_bool value v p)
    ]
read-apply faults key_dir signing_public_key_key value c c' fs fs' e = ground arith

-- Where `set` of a key succeeds, the file at the path that was the effective one at its save is loaded
-- again, and what `get` prints of that configuration for the key answers to the value that was set.
pub read-set :
    (t : Toml) (law : IsToml t) (read_fault : Option String) (save_faults : SaveFaults)
    (key_faults : KeyFaults) (parent : String → Option String) (env : Env) (key value : String)
    (k : Key) (fs fs' : Fs)
    → key_of key ≡ some k
    → set t read_fault save_faults key_faults parent env key value fs ≡ (ok tt, fs')
    → (c c' saved : Config) × (m : Fs) × (load t read_fault env fs ≡ ok c)
      × (apply key_faults (dirs_home env) k value c fs ≡ (ok c', m))
      × (load_from t none (effective_config_path env m) fs' ≡ ok saved)
      × IsAnswer c k value (read k saved)
unfolding set apply_key
read-set t law read_fault save_faults key_faults parent env key value k fs fs' q e =
    loaded (load t read_fault env fs) refl
  where
    Answered : Type 0
    Answered =
        (c c' saved : Config) × (m : Fs) × (load t read_fault env fs ≡ ok c)
        × (apply key_faults (dirs_home env) k value c fs ≡ (ok c', m))
        × (load_from t none (effective_config_path env m) fs' ≡ ok saved)
        × IsAnswer c k value (read k saved)

    changed :
        (c : Config) (r : Result Config String × Fs)
        → load t read_fault env fs ≡ ok c
        → apply key_faults (dirs_home env) k value c fs ≡ r
        → Answered
    changed c (ok c', m) p a =
        let saved : save t save_faults parent env c' m ≡ (ok tt, fs') = ground arith in
        (
          c,
          c',
          reloaded c',
          m,
          p,
          a,
          (load_from-save_to t law save_faults (parent (effective_config_path env m))
              (effective_config_path env m) c' m fs' (unfold save in saved)).0,
          read-apply key_faults (dirs_home env) k value c c' fs m a,
        )
    changed c (err x, m) p a = absurd (ground arith)

    loaded : (r : Result Config String) → load t read_fault env fs ≡ r → Answered
    loaded (ok c) p = changed c (apply key_faults (dirs_home env) k value c fs) p refl
    loaded (err x) p = absurd (ground arith)
