-- ===== src/Core/Config/Migration.antt =====
-- The migration of old configuration layouts: it runs at each load, and must not change what a
-- configuration means.
use nexus_link.Base.{arith, ◌≡◌}
use nexus_link.Core.Config.{Config, cmd_token, migrate_legacy_fields, node_token}

-- A second migration changes nothing.
pub migrate_legacy_fields_idempotent :
    (c : Config) → migrate_legacy_fields (migrate_legacy_fields c) ≡ migrate_legacy_fields c
unfolding migrate_legacy_fields
migrate_legacy_fields_idempotent c = ground arith

-- The effective tokens are those from before the migration.
pub tokens-migrate_legacy_fields :
    (c : Config)
    → (node_token (migrate_legacy_fields c) ≡ node_token c)
      × (cmd_token (migrate_legacy_fields c) ≡ cmd_token c)
unfolding migrate_legacy_fields node_token cmd_token
tokens-migrate_legacy_fields c = ground arith
