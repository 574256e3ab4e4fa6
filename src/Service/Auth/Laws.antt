-- ===== src/Service/Auth/Laws.antt =====
-- Which requests the node-token middleware lets through.
use nexus_link.Base.{Option, Option-cases, String, arith, inl, inr, ok, some, true, ◌↔◌, ◌≡◌}
use nexus_link.Core.Token.{Crypto, IsCrypto, hash_token, validate_token_format}
use nexus_link.Core.Token.Hashing.{verify_token_iff}
use nexus_link.Service.State.{AppState}
use nexus_link.Service.Auth.{bearer_token, require_auth}

-- A request is let through exactly if its header has a bearer token of the format of node tokens
-- whose hash is that of the state.
pub require_auth_iff :
    {Key : Type 0} (c : Crypto) (law : IsCrypto c) (state : AppState Key)
    (auth_header : Option String)
    → (require_auth c state auth_header ≡ ok tt) ↔ (
        (token : String) × (bearer_token auth_header ≡ some token)
        × (validate_token_format token ≡ true)
        × (hash_token c token ≡ state.node_token_hash))
unfolding require_auth
require_auth_iff c law state auth_header = elim (Option-cases (bearer_token auth_header)) [
  | inl p ↦ (λ e. absurd (ground arith), λ (u, q, v, h). absurd (ground arith))
  | inr (t, p) ↦ (
    λ e. (t, p, ground arith, (verify_token_iff c law t state.node_token_hash).0 (ground arith)),
    λ (u, q, v, h).
        let verified = (verify_token_iff c law u state.node_token_hash).1 h in ground arith,
  )
]
