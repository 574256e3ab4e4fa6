-- ===== src/Service/CmdAuth.antt =====
-- crates/nexus-link-service/src/middleware/cmd_auth.rs: the command token, and for writes the
-- Ed25519 signature, the timestamp window and the nonce cache. Times are nanoseconds.
pub mod Cache
pub mod Signed
pub mod Gates
pub mod Replay
pub mod Bounds
pub mod Refinement
pub mod Canonical
use Prim.Native.String.{◌++◌}
use nexus_link.Base.{
  Bool, List, Option, String, [], eqb, false, if◌then◌else◌, length, ltb, none, not, some, true, ℕ,
  ◌&&◌, ◌*◌, ◌+◌, ◌-◌, ◌==◌, ◌||◌, ◌∷◌,
}
use nexus_link.Core.Token.{Crypto, hex_encode, validate_cmd_token_format, verify_token}
use nexus_link.Service.State.{AppState}
use nexus_link.Service.Auth.{bearer_token, unauthorized}

abbrev pub minutes : ℕ → ℕ
minutes n = n * 60000000000

-- HTTP methods; `other` has the name of any other method.
pub data Method : Type 0 where
  get head post put delete : Method
  other : String → Method

abbrev pub method_text : Method → String
method_text get = "GET"
method_text head = "HEAD"
method_text post = "POST"
method_text put = "PUT"
method_text delete = "DELETE"
method_text (other name) = name

abbrev pub is_write : Method → Bool
is_write put = true
is_write post = true
is_write _ = false

-- `header` gives the text of a header, `none` where it is missing or not visible ASCII.
pub record Request : Type 0 where
  pub method : Method
  pub path : String
  pub header : String → Option String
  pub body : List ℕ

-- The third-party functions that the middleware calls.
pub record SignatureLib (Key : Type 0) : Type 0 where
  -- `str::parse::<DateTime<Utc>>`
  pub parse_time : String → Option ℕ
  -- `hex::decode`
  pub hex_decode : String → Option (List ℕ)
  -- `Sha256::digest` of the body's bytes
  pub sha256_bytes : List ℕ → List ℕ
  -- `axum::body::to_bytes` with its limit; `none` is its error
  pub to_bytes : List ℕ → ℕ → Option (List ℕ)
  -- `VerifyingKey::verify`
  pub verify : Key → String → List ℕ → Bool

-- `NONCE_CACHE`: nonces with their expiry.
abbrev pub NonceCache : Type 0
NonceCache = List (String × ℕ)

-- `cache.retain(|_, exp| *exp > now)`
unfoldable pub retain : ℕ → NonceCache → NonceCache
retain now [] = []
retain now ((nonce, exp) ∷ cache) =
    let rest = retain now cache in if ltb now exp then (nonce, exp) ∷ rest else rest

unfoldable pub contains_key : String → NonceCache → Bool
contains_key nonce [] = false
contains_key nonce ((k, exp) ∷ cache) = k == nonce || contains_key nonce cache

-- `next` hands the request on; `reject` answers with a status and the text of "error".
pub data Outcome : Type 0 where
  next : Request → Outcome
  reject : ℕ → String → Outcome

abbrev pub forbidden : ℕ
forbidden = 403

abbrev pub body_limit : ℕ
body_limit = 2 * 1024 * 1024

abbrev pub abs_diff : ℕ → ℕ → ℕ
abs_diff a b = (a - b) + (b - a)

-- METHOD\nPATH\nTIMESTAMP\nNONCE\nSHA256_HEX(body)
pub canonical : String → String → String → String → String → String
canonical method path ts nonce body_hash =
    method ++ ("\n" ++ (path ++ ("\n" ++ (ts ++ ("\n" ++ (nonce ++ ("\n" ++ body_hash)))))))

module _ {Key : Type 0} (lib : SignatureLib Key) where
  -- From the buffered body to the answer.
  pub check_signature : Key → Request → String → String → String → List ℕ → Outcome
  check_signature pubkey req sig_hex ts_str nonce body_bytes =
      let body_hash = hex_encode (lib.sha256_bytes body_bytes) in
      let message = canonical (method_text req.method) req.path ts_str nonce body_hash in
      elim (lib.hex_decode sig_hex) [
        | none ↦ reject forbidden "Invalid X-Nexus-Signature"
        | some sig ↦
            if eqb (length sig) 64
            then (if lib.verify pubkey message sig
                then next (record req { body = body_bytes })
                else reject forbidden "Invalid request signature")
            else reject forbidden "Invalid X-Nexus-Signature"
      ]

  check_body : Key → Request → String → String → String → Outcome
  check_body pubkey req sig_hex ts_str nonce = elim (lib.to_bytes req.body body_limit) [
    | none ↦ reject 400 "Failed to buffer request body"
    | some body_bytes ↦ check_signature pubkey req sig_hex ts_str nonce body_bytes
  ]

  -- The block under the lock of the cache, and what follows it. `now` is the second clock reading.
  check_nonce : Key → Request → String → String → String → ℕ → NonceCache → Outcome × NonceCache
  check_nonce pubkey req sig_hex ts_str nonce now cache =
      let expiry = now + minutes 6 in
      let live = retain now cache in
      if contains_key nonce live
      then (reject forbidden "Duplicate nonce — possible replay", live)
      else (check_body pubkey req sig_hex ts_str nonce, (nonce, expiry) ∷ live)

  -- The time window. `now₁` and `now₂` are the two readings of the clock.
  check_timestamp :
      Key → Request → String → String → String → ℕ → ℕ → NonceCache → Outcome × NonceCache
  check_timestamp pubkey req sig_hex ts_str nonce now₁ now₂ cache = elim (lib.parse_time ts_str) [
    | none ↦ (reject forbidden "Invalid X-Nexus-Timestamp format", cache)
    | some ts ↦
        if ltb (minutes 5) (abs_diff now₁ ts)
        then (reject forbidden "Request timestamp outside ±5 minute replay window", cache)
        else check_nonce pubkey req sig_hex ts_str nonce now₂ cache
  ]

  -- The `match` on the three signature headers.
  check_headers :
      Key
      → Request
      → Option String
      → Option String
      → Option String
      → ℕ
      → ℕ
      → NonceCache
      → Outcome × NonceCache
  check_headers pubkey req (some sig_hex) (some ts_str) (some nonce) now₁ now₂ cache =
      check_timestamp pubkey req sig_hex ts_str nonce now₁ now₂ cache
  check_headers pubkey req _ _ _ now₁ now₂ cache =
      (reject forbidden "Signature required for write operations", cache)

  -- Gate 2.
  unfoldable pub signature_gate : AppState Key → Request → ℕ → ℕ → NonceCache → Outcome × NonceCache
  unfolding check_headers check_timestamp check_nonce check_body check_signature
  signature_gate state req now₁ now₂ cache =
      if is_write req.method && state.config.compose.require_signatures
      then elim state.signing_pubkey [
        | none ↦ (
          reject forbidden "Signature enforcement enabled but no Ed25519 key is configured",
          cache,
        )
        | some pubkey ↦
            check_headers pubkey req (req.header "x-nexus-signature")
              (req.header "x-nexus-timestamp") (req.header "x-nexus-nonce") now₁ now₂ cache
      ]
      else (next req, cache)

  -- Gate 1b.
  token_gate : Crypto → AppState Key → String → Request → ℕ → ℕ → NonceCache → Outcome × NonceCache
  token_gate c state expected_hash req now₁ now₂ cache =
      elim (bearer_token (req.header "authorization")) [
        | none ↦ (reject unauthorized "", cache)
        | some token ↦
            if not (validate_cmd_token_format token)
            then (reject unauthorized "", cache)
            else if not (verify_token c token expected_hash)
            then (reject unauthorized "", cache)
            else signature_gate state req now₁ now₂ cache
      ]

  unfoldable pub require_cmd_auth :
      Crypto → AppState Key → Request → ℕ → ℕ → NonceCache → Outcome × NonceCache
  unfolding token_gate
  require_cmd_auth c state req now₁ now₂ cache = elim state.cmd_token_hash [
    | none ↦ (reject forbidden "C&C channel not configured on this node", cache)
    | some expected_hash ↦ token_gate c state expected_hash req now₁ now₂ cache
  ]
