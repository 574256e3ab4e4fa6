-- ===== src/Service/CmdAuth/Bounds.antt =====
-- The nonce cache over a run of requests.
use nexus_link.Base.{List, [], arith, false, inl, inr, unwrap_or, ℕ, ◌+◌, ◌∷◌, ◌≡◌, ◌≤◌, ◌⊎◌}
use nexus_link.Core.Token.{Crypto}
use nexus_link.Service.State.{AppState}
use nexus_link.Service.CmdAuth.{
  NonceCache, SignatureLib, contains_key, minutes, require_cmd_auth, retain, signature_gate,
}
use nexus_link.Service.CmdAuth.Cache.{IsBounded, IsBounded-IsFresh, retain-IsFresh}
use nexus_link.Service.CmdAuth.Replay.{Arrival, check, serve}

-- The clock at the lock does not go back over the requests; the last reading is the end.
abbrev pub IsClock : ℕ → List Arrival → ℕ → Type 0
IsClock now [] last = (now ≤ last)
IsClock now (a ∷ arrivals) last = (now ≤ a.now₂) × IsClock a.now₂ arrivals last

IsBounded-later :
    (now later : ℕ) (cache : NonceCache) → now ≤ later → IsBounded now cache → IsBounded later cache
IsBounded-later now later [] h k = tt
IsBounded-later now later ((n, exp) ∷ cache) h (e, u, b) =
    (omega arith, u, IsBounded-later now later cache h b)

module _ {Key : Type 0} (lib : SignatureLib Key) (c : Crypto) (state : AppState Key) where
  -- What a check leaves in the cache.
  check-cases :
      (a : Arrival) (cache : NonceCache)
      → let nonce = unwrap_or (a.request.header "x-nexus-nonce") "" in
        ((check lib c state a cache).1 ≡ cache)
        ⊎ (((check lib c state a cache).1 ≡ retain a.now₂ cache)
            ⊎ ((contains_key nonce (retain a.now₂ cache) ≡ false)
                × ((check lib c state a cache).1
                    ≡ (nonce, a.now₂ + minutes 6) ∷ retain a.now₂ cache)))
  unfolding require_cmd_auth signature_gate
  check-cases a cache = ground arith

  check-IsBounded :
      (now : ℕ) (a : Arrival) (cache : NonceCache)
      → now ≤ a.now₂
      → IsBounded now cache
      → IsBounded a.now₂ (check lib c state a cache).1
  check-IsBounded now a cache h k =
      let live =
        IsBounded-IsFresh a.now₂ (retain a.now₂ cache) (retain-IsFresh now a.now₂ cache h k) in
      elim (check-cases a cache) [
        | inl same ↦ rw same (IsBounded-later now a.now₂ cache h k)
        | inr (inl kept) ↦ rw kept live
        | inr (inr (absent, added)) ↦ rw added (omega arith, absent, live)
      ]

  -- Over any run of requests whose readings of the clock at the lock never go back, from a cache with
  -- this property: each nonce has one entry at most, which expires within six minutes of the last
  -- request.
  pub serve-IsBounded :
      (now last : ℕ) (arrivals : List Arrival) (cache : NonceCache)
      → IsClock now arrivals last
      → IsBounded now cache
      → IsBounded last (serve lib c state arrivals cache)
  unfolding serve
  serve-IsBounded now last [] cache h k = IsBounded-later now last cache h k
  serve-IsBounded now last (a ∷ arrivals) cache (h, hs) k =
      serve-IsBounded a.now₂ last arrivals _ hs (check-IsBounded now a cache h k)
