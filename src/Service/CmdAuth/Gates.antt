-- ===== src/Service/CmdAuth/Gates.antt =====
-- What a request that the middleware lets through has shown.
use nexus_link.Base.{
  Option-cases, String, arith, false, inl, inr, some, true, ℕ, ◌&&◌, ◌↔◌, ◌∙◌, ◌≡◌,
}
use nexus_link.Core.Token.{Crypto, validate_cmd_token_format, verify_token}
use nexus_link.Service.State.{AppState}
use nexus_link.Service.Auth.{bearer_token}
use nexus_link.Service.CmdAuth.{
  NonceCache, Request, SignatureLib, is_write, next, require_cmd_auth, signature_gate,
}
use nexus_link.Service.CmdAuth.Signed.{IsSigned, IsSigned-signature_gate, signature_gate-IsSigned}

module _ {Key : Type 0} (lib : SignatureLib Key) where
  signature_gate_skipped :
      (state : AppState Key) (req : Request) (now₁ now₂ : ℕ) (cache : NonceCache)
      → (is_write req.method && state.config.compose.require_signatures) ≡ false
      → signature_gate lib state req now₁ now₂ cache ≡ (next req, cache)
  unfolding signature_gate
  signature_gate_skipped state req now₁ now₂ cache h = rw h

  -- The bearer token of the request is a command token with the stored hash.
  pub record HasCmdToken (c : Crypto) (state : AppState Key) (req : Request) : Type 0 where
    pub hash : String
    pub token : String
    pub configured : state.cmd_token_hash ≡ some hash
    pub carried : bearer_token (req.header "authorization") ≡ some token
    pub valid : validate_cmd_token_format token ≡ true
    pub verified : verify_token c token hash ≡ true

  -- A request that reaches the second gate has a command token, and the gate decides.
  pub require_cmd_auth-HasCmdToken :
      (c : Crypto) (state : AppState Key) (req : Request) (now₁ now₂ : ℕ)
      (cache cache' : NonceCache) (passed : Request)
      → require_cmd_auth lib c state req now₁ now₂ cache ≡ (next passed, cache')
      → HasCmdToken c state req
        × (signature_gate lib state req now₁ now₂ cache ≡ (next passed, cache'))
  unfolding require_cmd_auth
  require_cmd_auth-HasCmdToken c state req now₁ now₂ cache cache' passed h =
      elim (Option-cases state.cmd_token_hash) [
        | inl e ↦ absurd (ground arith)
        | inr (hash, configured) ↦ elim (Option-cases (bearer_token (req.header "authorization"))) [
          | inl e ↦ absurd (ground arith)
          | inr (token, carried) ↦ (
            record {
              hash = hash;
              token = token;
              configured = configured;
              carried = carried;
              valid = ground arith;
              verified = ground arith;
            },
            ground arith,
          )
        ]
      ]

  HasCmdToken-require_cmd_auth :
      (c : Crypto) (state : AppState Key) (req : Request) (now₁ now₂ : ℕ) (cache : NonceCache)
      → HasCmdToken c state req
      → require_cmd_auth lib c state req now₁ now₂ cache
        ≡ signature_gate lib state req now₁ now₂ cache
  unfolding require_cmd_auth
  HasCmdToken-require_cmd_auth c state req now₁ now₂ cache h =
      ground (arith, h.configured, h.carried, h.valid, h.verified)

  -- While signatures are required, a write is let through exactly when the request carries the
  -- command token of the node and is signed.
  pub require_cmd_auth-write_iff :
      (c : Crypto) (state : AppState Key) (req : Request) (now₁ now₂ : ℕ)
      (cache cache' : NonceCache) (passed : Request)
      → is_write req.method ≡ true
      → state.config.compose.require_signatures ≡ true
      → (require_cmd_auth lib c state req now₁ now₂ cache ≡ (next passed, cache'))
        ↔ (HasCmdToken c state req × IsSigned lib state req now₁ now₂ cache cache' passed)
  require_cmd_auth-write_iff c state req now₁ now₂ cache cache' passed w r = (
    λ e.
        let (has, gate) =
          require_cmd_auth-HasCmdToken c state req now₁ now₂ cache cache' passed e in
        (has, signature_gate-IsSigned lib state req now₁ now₂ cache cache' passed w r gate),
    λ h.
        HasCmdToken-require_cmd_auth c state req now₁ now₂ cache h.0
        ∙ IsSigned-signature_gate lib state req now₁ now₂ cache cache' passed w r h.1,
  )

  -- A request that is no write, or comes while signatures are not required, is let through exactly
  -- when it carries the command token; it is handed on as it came, and the nonce cache is left alone.
  pub require_cmd_auth-unsigned_iff :
      (c : Crypto) (state : AppState Key) (req : Request) (now₁ now₂ : ℕ)
      (cache cache' : NonceCache) (passed : Request)
      → (is_write req.method && state.config.compose.require_signatures) ≡ false
      → (require_cmd_auth lib c state req now₁ now₂ cache ≡ (next passed, cache'))
        ↔ (HasCmdToken c state req × (passed ≡ req) × (cache' ≡ cache))
  require_cmd_auth-unsigned_iff c state req now₁ now₂ cache cache' passed skipped = (
    λ e.
        let (has, gate) =
          require_cmd_auth-HasCmdToken c state req now₁ now₂ cache cache' passed e in
        let skip = signature_gate_skipped state req now₁ now₂ cache skipped in
        (has, ground (arith, gate, skip), ground (arith, gate, skip)),
    λ h.
        HasCmdToken-require_cmd_auth c state req now₁ now₂ cache h.0
        ∙ signature_gate_skipped state req now₁ now₂ cache skipped
        ∙ cc (h.1, h.2),
  )
