-- ===== src/Tests/AuthTests.antt =====
-- The middleware at concrete values.
use nexus_link.Base.{
  List, Option, String, [], arith, if◌then◌else◌, none, ok, refl, some, suc, true, zero, ℕ, ◌==◌,
  ◌↔◌, ◌∷◌, ◌≡◌, ◌≢◌,
}
use nexus_link.Text.{contains_char, starts_with, strip}
use nexus_link.Core.Token.{
  hash_token, hex_encode, validate_cmd_token_format, validate_token_format, verify_token,
}
use nexus_link.Service.State.{AppState}
use nexus_link.Service.Auth.{bearer_token, require_auth}
use nexus_link.Service.Auth.Laws.{require_auth_iff}
use nexus_link.Service.CmdAuth.{
  NonceCache, Request, SignatureLib, contains_key, get, minutes, next, put, require_cmd_auth,
  retain, signature_gate,
}
use nexus_link.Service.CmdAuth.Cache.{IsBounded}
use nexus_link.Service.CmdAuth.Signed.{IsSigned}
use nexus_link.Service.CmdAuth.Gates.{
  HasCmdToken, require_cmd_auth-unsigned_iff, require_cmd_auth-write_iff,
}
use nexus_link.Service.CmdAuth.Replay.{
  Arrival, IsWrite, check, future_replay_accepted, replay_rejected, serve,
}
use nexus_link.Service.CmdAuth.Bounds.{serve-IsBounded}
use nexus_link.Service.CmdAuth.Canonical.{IsLine, canonical_injective}
use nexus_link.Tests.Samples.{compose_of, config_of, crypto, crypto-IsCrypto, zero_hash}

abbrev replicate : ℕ → List ℕ
replicate zero = []
replicate (suc n) = 1 ∷ replicate n

-- A timestamp is read as a minute; each text is a signature, and each signature is good.
abbrev pub lib : SignatureLib (Unit {0})
lib = record {
  parse_time = λ s.
      if s == "early" then some (minutes 10) else if s == "future" then some (minutes 14) else none;
  hex_decode = λ s. some (replicate 64);
  sha256_bytes = λ bs. 0 ∷ [];
  to_bytes = λ bs n. some bs;
  verify = λ k message sig. true;
}

abbrev pub state : AppState (Unit {0})
state = record {
  config = record (config_of "nxs_node_1" none none none) {
    compose = record (compose_of (some "nxs_cmd_1")) { require_signatures = true };
  };
  signing_pubkey = some tt;
  node_token_hash = zero_hash;
  cmd_token_hash = some zero_hash;
}

abbrev headers : String → String → String → Option String
headers ts nonce name =
    if name == "authorization"
    then some "Bearer nxs_cmd_1"
    else if name == "x-nexus-timestamp"
    then some ts
    else if name == "x-nexus-nonce"
    then some nonce
    else if name == "x-nexus-signature"
    then some "ab"
    else none

abbrev pub write_request : String → String → Request
write_request ts nonce = record {
  method = put;
  path = "/compose/file";
  header = headers ts nonce;
  body = 5 ∷ [];
}

abbrev read_request : Request
read_request = record { method = get; path = "/compose/file"; header = headers "" ""; body = [] }

require_auth_iff_example : (require_auth crypto state (some "Bearer nxs_node_9") ≡ ok tt) ↔ (
    (token : String) × (bearer_token (some "Bearer nxs_node_9") ≡ some token)
    × (validate_token_format token ≡ true)
    × (hash_token crypto token ≡ zero_hash))
require_auth_iff_example = require_auth_iff crypto crypto-IsCrypto state (some "Bearer nxs_node_9")

abbrev early_cache : NonceCache
early_cache = ("n1", minutes 16) ∷ []

require_cmd_auth-write_iff_example :
    (require_cmd_auth lib crypto state (write_request "early" "n1") (minutes 10) (minutes 10) []
      ≡ (next (write_request "early" "n1"), early_cache))
    ↔ (HasCmdToken lib crypto state (write_request "early" "n1")
        × IsSigned lib state
            (write_request "early" "n1")
            (minutes 10)
            (minutes 10)
            []
            early_cache
            (write_request "early" "n1"))
require_cmd_auth-write_iff_example =
    require_cmd_auth-write_iff lib crypto state (write_request "early" "n1") (minutes 10)
      (minutes 10) [] early_cache (write_request "early" "n1") refl refl

abbrev no_nonces : NonceCache
no_nonces = []

require_cmd_auth-unsigned_iff_example :
    (require_cmd_auth lib crypto state read_request 0 0 [] ≡ (next read_request, no_nonces)) ↔ (
      HasCmdToken lib crypto state read_request
      × (read_request ≡ read_request)
      × (no_nonces ≡ no_nonces))
require_cmd_auth-unsigned_iff_example =
    require_cmd_auth-unsigned_iff lib crypto state read_request 0 0 [] no_nonces read_request refl

abbrev first_write : Arrival
first_write = record { request = write_request "early" "n1"; now₁ = minutes 10; now₂ = minutes 10 }

abbrev other_write : Arrival
other_write = record { request = write_request "early" "n2"; now₁ = minutes 11; now₂ = minutes 11 }

abbrev replayed_write : Arrival
replayed_write = record {
  request = write_request "early" "n1";
  now₁ = minutes 12;
  now₂ = minutes 12;
}

is_let_through :
    check lib crypto state first_write [] ≡ (next (write_request "early" "n1"), early_cache)
unfolding require_cmd_auth signature_gate retain contains_key bearer_token starts_with strip
    validate_cmd_token_format verify_token hash_token hex_encode
is_let_through = refl

is_early-IsWrite : (n : String) → IsWrite lib crypto state (minutes 10) n (write_request "early" n)
is_early-IsWrite n = record { write = refl; has_nonce = refl; has_timestamp = refl }

replay_rejected_example :
    (check lib crypto state replayed_write
      (serve lib crypto state (other_write ∷ []) early_cache)).0
    ≢ next (write_request "early" "n1")
replay_rejected_example =
    replay_rejected lib crypto state (minutes 10) "n1" first_write replayed_write (other_write ∷ [])
      [] early_cache (write_request "early" "n1") refl (is_early-IsWrite "n1")
      (is_early-IsWrite "n1") is_let_through (omega arith) (omega arith, tt) (omega arith)
      (write_request "early" "n1")

abbrev future_write : Arrival
future_write = record {
  request = write_request "future" "n3";
  now₁ = minutes 10;
  now₂ = minutes 10;
}

is_let_through_early :
    check lib crypto state future_write []
    ≡ (next (write_request "future" "n3"), ("n3", minutes 16) ∷ [])
unfolding require_cmd_auth signature_gate retain contains_key bearer_token starts_with strip
    validate_cmd_token_format verify_token hash_token hex_encode
is_let_through_early = refl

is_future-IsWrite : IsWrite lib crypto state (minutes 14) "n3" (write_request "future" "n3")
is_future-IsWrite = record { write = refl; has_nonce = refl; has_timestamp = refl }

future_replay_accepted_example :
    (check lib crypto state
      (record { request = write_request "future" "n3"; now₁ = minutes 17; now₂ = minutes 17 })
      (("n3", minutes 16) ∷ [])).0
    ≡ next (write_request "future" "n3")
future_replay_accepted_example =
    future_replay_accepted lib crypto state (minutes 14) "n3" future_write (minutes 17) []
      (("n3", minutes 16) ∷ []) (write_request "future" "n3") refl is_future-IsWrite
      is_let_through_early (omega arith) (omega arith) (omega arith)

serve-IsBounded_example :
    IsBounded
      (minutes 20)
      (serve lib crypto state (first_write ∷ other_write ∷ replayed_write ∷ []) [])
serve-IsBounded_example =
    serve-IsBounded lib crypto state (minutes 9) (minutes 20)
      (first_write ∷ other_write ∷ replayed_write ∷ []) []
      (omega arith, (omega arith, (omega arith, omega arith))) tt

are_lines : IsLine "PUT" × IsLine "/compose/file" × IsLine "early" × IsLine "n1"
unfolding contains_char
are_lines = (refl, refl, refl, refl)

abbrev line_of_put : String
line_of_put = "PUT"

abbrev line_of_path : String
line_of_path = "/compose/file"

abbrev line_of_time : String
line_of_time = "early"

abbrev line_of_nonce : String
line_of_nonce = "n1"

abbrev digest : String
digest = "00"

canonical_injective_example :
    (line_of_put ≡ line_of_put)
    × (line_of_path ≡ line_of_path)
    × (line_of_time ≡ line_of_time)
    × (line_of_nonce ≡ line_of_nonce)
    × (digest ≡ digest)
canonical_injective_example =
    canonical_injective "PUT" "/compose/file" "early" "n1" "00" "PUT" "/compose/file" "early" "n1"
      "00" are_lines are_lines refl
