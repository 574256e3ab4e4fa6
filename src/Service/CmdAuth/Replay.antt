-- ===== src/Service/CmdAuth/Replay.antt =====
-- Replays: a request that was let through is not let through again while its nonce is remembered,
-- which covers the time window of its timestamp unless the timestamp lay in the future.
use nexus_link.Base.{
  All, List, String, [], and_then, ap, arith, eq_refl, false, refl, some, true, ℕ, ◌+◌, ◌<◌, ◌∷◌,
  ◌≡◌, ◌≢◌, ◌≤◌,
}
use nexus_link.Core.Token.{Crypto}
use nexus_link.Service.State.{AppState}
use nexus_link.Service.CmdAuth.{
  NonceCache, Outcome, Request, SignatureLib, contains_key, is_write, minutes, next,
  require_cmd_auth, retain, signature_gate,
}
use nexus_link.Service.CmdAuth.Cache.{
  contains_key-retain_absent, contains_key-retain_of_expires_after, expires_after,
  expires_after-retain,
}
use nexus_link.Service.CmdAuth.Signed.{IsSigned}
use nexus_link.Service.CmdAuth.Gates.{require_cmd_auth-write_iff}

-- A request with the two readings of the clock during its check.
pub record Arrival : Type 0 where
  pub request : Request
  pub now₁ : ℕ
  pub now₂ : ℕ

module _ {Key : Type 0} (lib : SignatureLib Key) (c : Crypto) (state : AppState Key) where
  abbrev pub check : Arrival → NonceCache → Outcome × NonceCache
  check a cache = require_cmd_auth lib c state a.request a.now₁ a.now₂ cache

  -- The cache after a series of requests.
  unfoldable pub serve : List Arrival → NonceCache → NonceCache
  serve [] cache = cache
  serve (a ∷ arrivals) cache = serve arrivals (check a cache).1

  -- A nonce that is remembered past a time stays so through any request up to that time.
  check-expires_after :
      (nonce : String) (t : ℕ) (a : Arrival) (cache : NonceCache)
      → a.now₂ ≤ t
      → expires_after nonce t cache ≡ true
      → expires_after nonce t (check a cache).1 ≡ true
  unfolding require_cmd_auth signature_gate
  check-expires_after nonce t a cache h k =
      ground (arith, expires_after-retain nonce t a.now₂ cache)

  serve-expires_after :
      (nonce : String) (t : ℕ) (arrivals : List Arrival) (cache : NonceCache)
      → All (λ a. a.now₂ ≤ t) arrivals
      → expires_after nonce t cache ≡ true
      → expires_after nonce t (serve arrivals cache) ≡ true
  unfolding serve
  serve-expires_after nonce t [] cache h k = k
  serve-expires_after nonce t (a ∷ arrivals) cache (h, hs) k =
      serve-expires_after nonce t arrivals _ hs (check-expires_after nonce t a cache h k)

  -- A request is a signed write, with this timestamp and nonce.
  pub record IsWrite (ts : ℕ) (nonce : String) (req : Request) : Type 0 where
    pub write : is_write req.method ≡ true
    pub has_nonce : req.header "x-nexus-nonce" ≡ some nonce
    pub has_timestamp : and_then (req.header "x-nexus-timestamp") lib.parse_time ≡ some ts

  signed_ts :
      (ts : ℕ) (nonce : String) (a : Arrival) (cache cache' : NonceCache) (passed : Request)
      → IsWrite ts nonce a.request
      → (s : IsSigned lib state a.request a.now₁ a.now₂ cache cache' passed)
      → (s.ts ≡ ts) × (s.nonce ≡ nonce)
  signed_ts ts nonce a cache cache' passed w s =
      ground (arith, w.has_timestamp, w.has_nonce, s.has_timestamp, s.parsed, s.has_nonce)

  signed :
      (a : Arrival) (cache : NonceCache) (passed : Request)
      → state.config.compose.require_signatures ≡ true
      → is_write a.request.method ≡ true
      → (check a cache).0 ≡ next passed
      → IsSigned lib state a.request a.now₁ a.now₂ cache (check a cache).1 passed
  signed a cache passed r w e =
      ((require_cmd_auth-write_iff lib c state a.request a.now₁ a.now₂ cache (check a cache).1
          passed w r).0
        (ap (λ o. (o, (check a cache).1)) e)).1

  expires_after_signed :
      (t : ℕ) (a : Arrival) (cache cache' : NonceCache) (passed : Request)
      → (s : IsSigned lib state a.request a.now₁ a.now₂ cache cache' passed)
      → t < a.now₂ + minutes 6
      → expires_after s.nonce t cache' ≡ true
  expires_after_signed t a cache cache' passed s h =
      rw s.remembered (ground (arith, eq_refl s.nonce))

  forgotten_nonce :
      (t : ℕ) (a : Arrival) (cache cache' : NonceCache) (passed : Request)
      → (s : IsSigned lib state a.request a.now₁ a.now₂ cache cache' passed)
      → a.now₂ + minutes 6 ≤ t
      → contains_key s.nonce (retain t cache') ≡ false
  unfolding retain
  forgotten_nonce t a cache cache' passed s h =
      rw s.remembered
        (ground (arith, contains_key-retain_absent s.nonce t (retain a.now₂ cache) s.fresh))

  -- While signatures are required: once a write has been let through, no write with its timestamp
  -- and nonce is let through again, whatever arrives between the two, if the timestamp did not lie
  -- after the second reading of the clock at the first check, the clock does not run backwards, and
  -- the second check takes less than a minute between its two readings.
  pub replay_rejected :
      (ts : ℕ) (nonce : String) (first again : Arrival) (between : List Arrival)
      (cache cache' : NonceCache) (passed : Request)
      → state.config.compose.require_signatures ≡ true
      → IsWrite ts nonce first.request
      → IsWrite ts nonce again.request
      → check first cache ≡ (next passed, cache')
      → ts ≤ first.now₂
      → All (λ a. a.now₂ ≤ again.now₂) between
      → again.now₂ < again.now₁ + minutes 1
      → (passed' : Request) → (check again (serve between cache')).0 ≢ next passed'
  replay_rejected ts nonce first again between cache cache' passed r w w' e early ordered quick
        passed' e' =
      let s = signed first cache passed r w.write (ap (λ p. p.0) e) in
      let s' = signed again (serve between cache') passed' r w'.write e' in
      let (ts₁, nonce₁) = signed_ts ts nonce first cache _ passed w s in
      let (ts₂, nonce₂) = signed_ts ts nonce again _ _ passed' w' s' in
      let kept =
        serve-expires_after s.nonce again.now₂ between (check first cache).1 ordered (
          expires_after_signed again.now₂ first cache _ passed s
            (omega (arith, s'.not_old, ts₂))) in
      let found =
        contains_key-retain_of_expires_after s.nonce again.now₂
          (serve between (check first cache).1) kept in
      cc (found, s'.fresh, nonce₁, nonce₂, ap (λ (p : Outcome × NonceCache). p.1) e)

  -- The signature of a write stands at any other time in its window, if the nonce is not live.
  IsSigned-again :
      (later : ℕ) (a : Arrival) (cache cache' : NonceCache) (passed : Request)
      → (s : IsSigned lib state a.request a.now₁ a.now₂ cache cache' passed)
      → later ≤ s.ts + minutes 5
      → a.now₁ ≤ later
      → contains_key s.nonce (retain later cache') ≡ false
      → IsSigned lib state a.request later later cache'
          ((s.nonce, later + minutes 6) ∷ retain later cache')
          passed
  IsSigned-again later a cache cache' passed s window after free = record {
    pubkey = s.pubkey;
    sig_hex = s.sig_hex;
    ts_str = s.ts_str;
    nonce = s.nonce;
    ts = s.ts;
    sig = s.sig;
    body = s.body;
    has_key = s.has_key;
    has_signature = s.has_signature;
    has_timestamp = s.has_timestamp;
    has_nonce = s.has_nonce;
    parsed = s.parsed;
    not_old = window;
    not_early = omega (arith, s.not_early);
    fresh = free;
    buffered = s.buffered;
    decoded = s.decoded;
    sig_length = s.sig_length;
    verified = s.verified;
    same = s.same;
    remembered = refl;
  }

  -- A write that was let through with a timestamp more than a minute ahead of the clock is let
  -- through a second time, while its window is open, once its nonce has been forgotten after six
  -- minutes; the clock does not run backwards.
  pub future_replay_accepted :
      (ts : ℕ) (nonce : String) (first : Arrival) (later : ℕ) (cache cache' : NonceCache)
      (passed : Request)
      → state.config.compose.require_signatures ≡ true
      → IsWrite ts nonce first.request
      → check first cache ≡ (next passed, cache')
      → first.now₁ ≤ first.now₂
      → first.now₂ + minutes 6 ≤ later
      → later ≤ ts + minutes 5
      → (check (record { request = first.request; now₁ = later; now₂ = later }) cache').0
        ≡ next passed
  future_replay_accepted ts nonce first later cache cache' passed r w e ordered forgotten window =
      let (has, s) =
        (require_cmd_auth-write_iff lib c state first.request first.now₁ first.now₂ cache cache'
            passed w.write r).0
          e in
      let (same_ts, _) = signed_ts ts nonce first cache cache' passed w s in
      let s' =
        IsSigned-again later first cache cache' passed s (omega (arith, same_ts)) (omega arith)
          (forgotten_nonce later first cache cache' passed s forgotten) in
      ap (λ (p : Outcome × NonceCache). p.0)
        ((require_cmd_auth-write_iff lib c state first.request later later cache' _ passed w.write
            r).1
          (has, s'))
