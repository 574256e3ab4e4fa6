-- ===== src/Core/Token.antt =====
-- crates/nexus-link-core/src/token.rs: the node and command tokens, their format, hash and check.
-- `sha2`, `base64` and `subtle` are third-party crates: a `Crypto` holds their functions, and
-- `IsCrypto` what their documentation states of them. Random bytes are an argument.
pub mod Hashing
use Prim.Native.Char.{Char}
use Prim.Native.String.{[], ◌∷◌, ◌++◌}
use nexus_link.Base.{
  All, Bool, List, String, [], false, get_elem?, len, length, ltb, true, unwrap_or, ℕ, ◌%◌, ◌&&◌,
  ◌/◌, ◌<◌, ◌↔◌, ◌∷◌, ◌≡◌,
}
use nexus_link.Text.{is_empty, starts_with}

pub record Crypto : Type 0 where
  -- `Sha256::digest`, of the text's bytes
  pub sha256 : String → List ℕ
  -- `URL_SAFE_NO_PAD.encode`
  pub base64url : List ℕ → String
  -- `ConstantTimeEq::ct_eq`, on the texts' bytes
  pub ct_eq : String → String → Bool

pub record IsCrypto (c : Crypto) : Type 0 where
  pub sha256-length : (s : String) → length (c.sha256 s) ≡ 32
  pub sha256-IsByte : (s : String) → All (λ b. b < 256) (c.sha256 s)
  pub base64url-ne-empty : (b : ℕ) (bs : List ℕ) → is_empty (c.base64url (b ∷ bs)) ≡ false
  pub ct_eq_iff : (s t : String) → (c.ct_eq s t ≡ true) ↔ (s ≡ t)

abbrev pub token_prefix : String
token_prefix = "nxs_node_"

abbrev pub cmd_token_prefix : String
cmd_token_prefix = "nxs_cmd_"

-- `bytes` are the 32 random bytes.
pub generate_token : Crypto → List ℕ → String
generate_token c bytes = token_prefix ++ c.base64url bytes

unfoldable pub validate_token_format : String → Bool
validate_token_format token = starts_with token token_prefix && ltb (len token_prefix) (len token)

pub generate_cmd_token : Crypto → List ℕ → String
generate_cmd_token c bytes = cmd_token_prefix ++ c.base64url bytes

unfoldable pub validate_cmd_token_format : String → Bool
validate_cmd_token_format token =
    starts_with token cmd_token_prefix && ltb (len cmd_token_prefix) (len token)

-- A hexadecimal digit, `{:x}` of a number below 16.
abbrev hex_digits : List Char
hex_digits =
    "0" ∷ "1" ∷ "2" ∷ "3" ∷ "4" ∷ "5" ∷ "6" ∷ "7" ∷ "8" ∷ "9" ∷ "a" ∷ "b" ∷ "c" ∷ "d" ∷ "e" ∷ "f"
    ∷ []

hex_digit : ℕ → Char
hex_digit n = unwrap_or (get_elem? hex_digits n) "0"

-- `hex::encode`: `{:02x}` of each byte.
unfoldable pub hex_encode : List ℕ → String
unfolding hex_digit
hex_encode [] = []
hex_encode (b ∷ bs) = hex_digit (b / 16) ∷ (hex_digit (b % 16) ∷ hex_encode bs)

unfoldable pub hash_token : Crypto → String → String
hash_token c token = hex_encode (c.sha256 token)

unfoldable pub verify_token : Crypto → String → String → Bool
verify_token c token stored_hash = let computed = hash_token c token in c.ct_eq computed stored_hash
