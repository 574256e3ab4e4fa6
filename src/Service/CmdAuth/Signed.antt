-- ===== src/Service/CmdAuth/Signed.antt =====
-- What the second gate of the middleware asks of a write.
use nexus_link.Base.{
  List, Option-cases, String, arith, false, inl, inr, length, some, true, ℕ, ◌+◌, ◌∷◌, ◌≡◌, ◌≤◌,
}
use nexus_link.Core.Token.{hex_encode}
use nexus_link.Service.State.{AppState}
use nexus_link.Service.CmdAuth.{
  NonceCache, Request, SignatureLib, body_limit, canonical, check_body, check_nonce,
  check_signature, check_timestamp, contains_key, is_write, method_text, minutes, next, retain,
  signature_gate,
}

module _ {Key : Type 0} (lib : SignatureLib Key) where
  -- The signature covers the method, path, timestamp, nonce and body of the request; the timestamp
  -- lies within five minutes of the clock, no live nonce is used again, and the nonce is remembered for
  -- six minutes.
  pub record IsSigned (state : AppState Key) (req : Request) (now₁ now₂ : ℕ)
      (cache cache' : NonceCache) (passed : Request) : Type 0 where
    pub pubkey : Key
    pub sig_hex : String
    pub ts_str : String
    pub nonce : String
    pub ts : ℕ
    pub sig : List ℕ
    pub body : List ℕ
    pub has_key : state.signing_pubkey ≡ some pubkey
    pub has_signature : req.header "x-nexus-signature" ≡ some sig_hex
    pub has_timestamp : req.header "x-nexus-timestamp" ≡ some ts_str
    pub has_nonce : req.header "x-nexus-nonce" ≡ some nonce
    pub parsed : lib.parse_time ts_str ≡ some ts
    pub not_old : now₁ ≤ ts + minutes 5
    pub not_early : ts ≤ now₁ + minutes 5
    pub fresh : contains_key nonce (retain now₂ cache) ≡ false
    pub buffered : lib.to_bytes req.body body_limit ≡ some body
    pub decoded : lib.hex_decode sig_hex ≡ some sig
    pub sig_length : length sig ≡ 64
    pub verified :
        lib.verify pubkey
          (canonical
            (method_text req.method)
            req.path
            ts_str
            nonce
            (hex_encode (lib.sha256_bytes body)))
          sig
        ≡ true
    pub same : passed ≡ record req { body = body }
    pub remembered : cache' ≡ (nonce, now₂ + minutes 6) ∷ retain now₂ cache

  -- What the buffered body and the signature have shown.
  record IsVerified (pubkey : Key) (req : Request) (sig_hex ts_str nonce : String)
      (passed : Request) : Type 0 where
    body : List ℕ
    sig : List ℕ
    buffered : lib.to_bytes req.body body_limit ≡ some body
    decoded : lib.hex_decode sig_hex ≡ some sig
    sig_length : length sig ≡ 64
    verified :
        lib.verify pubkey
          (canonical
            (method_text req.method)
            req.path
            ts_str
            nonce
            (hex_encode (lib.sha256_bytes body)))
          sig
        ≡ true
    same : passed ≡ record req { body = body }

  check_body-IsVerified :
      (pubkey : Key) (req : Request) (sig_hex ts_str nonce : String) (passed : Request)
      → check_body lib pubkey req sig_hex ts_str nonce ≡ next passed
      → IsVerified pubkey req sig_hex ts_str nonce passed
  unfolding check_body check_signature
  check_body-IsVerified pubkey req sig_hex ts_str nonce passed h =
      elim (Option-cases (lib.to_bytes req.body body_limit)) [
        | inl e ↦ absurd (ground arith)
        | inr (body, buffered) ↦ elim (Option-cases (lib.hex_decode sig_hex)) [
          | inl e ↦ absurd (ground arith)
          | inr (sig, decoded) ↦ record {
            body = body;
            sig = sig;
            buffered = buffered;
            decoded = decoded;
            sig_length = ground arith;
            verified = ground arith;
            same = ground arith;
          }
        ]
      ]

  check_timestamp-IsSigned :
      (state : AppState Key) (pubkey : Key) (req : Request) (sig_hex ts_str nonce : String)
      (now₁ now₂ : ℕ) (cache cache' : NonceCache) (passed : Request)
      → state.signing_pubkey ≡ some pubkey
      → req.header "x-nexus-signature" ≡ some sig_hex
      → req.header "x-nexus-timestamp" ≡ some ts_str
      → req.header "x-nexus-nonce" ≡ some nonce
      → check_timestamp lib pubkey req sig_hex ts_str nonce now₁ now₂ cache ≡ (next passed, cache')
      → IsSigned state req now₁ now₂ cache cache' passed
  unfolding check_timestamp check_nonce
  check_timestamp-IsSigned state pubkey req sig_hex ts_str nonce now₁ now₂ cache cache' passed k s t
        n h =
      elim (Option-cases (lib.parse_time ts_str)) [
        | inl e ↦ absurd (ground arith)
        | inr (ts, parsed) ↦
            let v = check_body-IsVerified pubkey req sig_hex ts_str nonce passed (ground arith) in
            record {
              pubkey = pubkey;
              sig_hex = sig_hex;
              ts_str = ts_str;
              nonce = nonce;
              ts = ts;
              sig = v.sig;
              body = v.body;
              has_key = k;
              has_signature = s;
              has_timestamp = t;
              has_nonce = n;
              parsed = parsed;
              not_old = ground arith;
              not_early = ground arith;
              fresh = ground arith;
              buffered = v.buffered;
              decoded = v.decoded;
              sig_length = v.sig_length;
              verified = v.verified;
              same = v.same;
              remembered = ground arith;
            }
      ]

  pub signature_gate-IsSigned :
      (state : AppState Key) (req : Request) (now₁ now₂ : ℕ) (cache cache' : NonceCache)
      (passed : Request)
      → is_write req.method ≡ true
      → state.config.compose.require_signatures ≡ true
      → signature_gate lib state req now₁ now₂ cache ≡ (next passed, cache')
      → IsSigned state req now₁ now₂ cache cache' passed
  unfolding signature_gate
  signature_gate-IsSigned state req now₁ now₂ cache cache' passed w r h =
      elim (Option-cases state.signing_pubkey) [
        | inl e ↦ absurd (ground arith)
        | inr (pubkey, has_key) ↦ elim (Option-cases (req.header "x-nexus-signature")) [
          | inl e ↦ absurd (ground arith)
          | inr (sig_hex, s) ↦ elim (Option-cases (req.header "x-nexus-timestamp")) [
            | inl e ↦ absurd (ground arith)
            | inr (ts_str, t) ↦ elim (Option-cases (req.header "x-nexus-nonce")) [
              | inl e ↦ absurd (ground arith)
              | inr (nonce, n) ↦
                  check_timestamp-IsSigned state pubkey req sig_hex ts_str nonce now₁ now₂ cache
                    cache' passed has_key s t n (ground arith)
            ]
          ]
        ]
      ]

  pub IsSigned-signature_gate :
      (state : AppState Key) (req : Request) (now₁ now₂ : ℕ) (cache cache' : NonceCache)
      (passed : Request)
      → is_write req.method ≡ true
      → state.config.compose.require_signatures ≡ true
      → IsSigned state req now₁ now₂ cache cache' passed
      → signature_gate lib state req now₁ now₂ cache ≡ (next passed, cache')
  unfolding signature_gate
  IsSigned-signature_gate state req now₁ now₂ cache cache' passed w r s =
      rw (w, r, s.has_key, s.has_signature, s.has_timestamp, s.has_nonce)
        (ground (
          arith, s.parsed, s.fresh, s.buffered, s.decoded, s.verified, s.sig_length, s.same,
          s.remembered, s.not_old, s.not_early,
        ))
