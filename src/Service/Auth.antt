-- ===== src/Service/Auth.antt =====
-- crates/nexus-link-service/src/middleware/auth.rs: node tokens on the routes of the backend.
pub mod Laws
use nexus_link.Base.{Option, Result, String, err, if◌then◌else◌, none, not, ok, some, ℕ}
use nexus_link.Text.{starts_with, strip}
use nexus_link.Core.Token.{Crypto, validate_token_format, verify_token}
use nexus_link.Service.State.{AppState}

abbrev pub bearer : String
bearer = "Bearer "

-- The token of an `Authorization` header.
unfoldable pub bearer_token : Option String → Option String
bearer_token none = none
bearer_token (some h) = if starts_with h bearer then some (strip h bearer) else none

abbrev pub unauthorized : ℕ
unauthorized = 401

-- `ok` hands the request on to the handler; an error is the status of the answer.
unfoldable pub require_auth :
    {Key : Type 0} → Crypto → AppState Key → Option String → Result (Unit {0}) ℕ
unfolding bearer_token
require_auth c state auth_header = elim (bearer_token auth_header) [
  | none ↦ err unauthorized
  | some token ↦
      if not (validate_token_format token)
      then err unauthorized
      else if not (verify_token c token state.node_token_hash)
      then err unauthorized
      else ok tt
]
