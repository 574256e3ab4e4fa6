-- ===== src/Service/State.antt =====
-- crates/nexus-link-service/src/state.rs: the state that the handlers share. The Docker client is
-- not used by them and left out. `ed25519_dalek` and `base64` are third-party crates: the type `Key`
-- of verifying keys and their decoding are parameters.
use nexus_link.Base.{
  List, Option, String, and_then, eqb, if◌then◌else◌, length, none, option_map, or_else, ℕ,
}
use nexus_link.Text.{trim}
use nexus_link.Core.Token.{Crypto, hash_token}
use nexus_link.Core.Config.{Config, cmd_token, node_token}

pub record AppState (Key : Type 0) : Type 0 where
  pub config : Config
  pub signing_pubkey : Option Key
  pub node_token_hash : String
  pub cmd_token_hash : Option String

module _ {Key : Type 0} where
  -- `decode` is `URL_SAFE_NO_PAD.decode`, and `from_bytes` is `VerifyingKey::from_bytes`, of 32 bytes.
  unfoldable pub decode_verifying_key :
      (String → Option (List ℕ)) → (List ℕ → Option Key) → String → Option Key
  decode_verifying_key decode from_bytes b64 =
      and_then (decode b64) λ bytes. if eqb (length bytes) 32 then from_bytes bytes else none

  -- `decode_key` is `decode_verifying_key`; `key_file` is the content of `signing_key.pub`, if it
  -- can be read.
  unfoldable pub load_signing_pubkey : (String → Option Key) → Option String → Config → Option Key
  load_signing_pubkey decode_key key_file config =
      or_else (and_then key_file (λ content. decode_key (trim content)))
        (and_then config.compose.signing_public_key (λ b64. decode_key (trim b64)))

  -- `AppState::new`
  unfoldable pub new : Crypto → (String → Option Key) → Option String → Config → AppState Key
  new c decode_key key_file config = record {
    config = config;
    signing_pubkey = load_signing_pubkey decode_key key_file config;
    node_token_hash = hash_token c (node_token config);
    cmd_token_hash = option_map (hash_token c) (cmd_token config);
  }
