-- ===== src/Service/CmdAuth/Cache.antt =====
-- The nonce cache: how long an entry is remembered, and what stays in the cache.
use nexus_link.Base.{
  Bool, Bool-cases, String, [], arith, false, inl, inr, ltb, ltb→lt, true, ℕ, ◌&&◌, ◌+◌, ◌<◌, ◌==◌,
  ◌||◌, ◌∷◌, ◌≡◌, ◌≤◌,
}
use nexus_link.Service.CmdAuth.{NonceCache, contains_key, minutes, retain}

-- An entry for the nonce expires after the time.
abbrev pub expires_after : String → ℕ → NonceCache → Bool
expires_after nonce t [] = false
expires_after nonce t ((k, exp) ∷ cache) = (k == nonce && ltb t exp) || expires_after nonce t cache

pub expires_after-retain :
    (nonce : String) (t now : ℕ) (cache : NonceCache)
    → now ≤ t
    → expires_after nonce t cache ≡ true
    → expires_after nonce t (retain now cache) ≡ true
unfolding retain
expires_after-retain nonce t now [] h k = ground arith
expires_after-retain nonce t now ((j, exp) ∷ cache) h k =
    ground (arith, expires_after-retain nonce t now cache h)

pub contains_key-retain_of_expires_after :
    (nonce : String) (now : ℕ) (cache : NonceCache)
    → expires_after nonce now cache ≡ true
    → contains_key nonce (retain now cache) ≡ true
unfolding retain contains_key
contains_key-retain_of_expires_after nonce now [] h = ground arith
contains_key-retain_of_expires_after nonce now ((j, exp) ∷ cache) h =
    ground (arith, contains_key-retain_of_expires_after nonce now cache)

pub contains_key-retain_absent :
    (nonce : String) (now : ℕ) (cache : NonceCache)
    → contains_key nonce cache ≡ false
    → contains_key nonce (retain now cache) ≡ false
unfolding retain contains_key
contains_key-retain_absent nonce now [] h = ground arith
contains_key-retain_absent nonce now ((j, exp) ∷ cache) h =
    ground (arith, contains_key-retain_absent nonce now cache)

-- At a time: each nonce has one entry, which has not expired and will within six minutes.
abbrev pub IsFresh : ℕ → NonceCache → Type 0
IsFresh now [] = Unit
IsFresh now ((k, exp) ∷ cache) =
    (now < exp) × (exp ≤ now + minutes 6) × (contains_key k cache ≡ false) × IsFresh now cache

-- What is known of a cache between two uses, at the time of the last one.
abbrev pub IsBounded : ℕ → NonceCache → Type 0
IsBounded now [] = Unit
IsBounded now ((k, exp) ∷ cache) =
    (exp ≤ now + minutes 6) × (contains_key k cache ≡ false) × IsBounded now cache

pub IsBounded-IsFresh : (now : ℕ) (cache : NonceCache) → IsFresh now cache → IsBounded now cache
IsBounded-IsFresh now [] h = tt
IsBounded-IsFresh now ((k, exp) ∷ cache) h = (h.1, h.2, IsBounded-IsFresh now cache h.3)

pub retain-IsFresh :
    (before now : ℕ) (cache : NonceCache)
    → before ≤ now
    → IsBounded before cache
    → IsFresh now (retain now cache)
unfolding retain
retain-IsFresh before now [] h k = tt
retain-IsFresh before now ((k, exp) ∷ cache) h (e, u, b) =
    let ih = retain-IsFresh before now cache h b in
    let absent = contains_key-retain_absent k now cache u in
    elim (Bool-cases (ltb now exp)) [
      | inl live ↦ rw live (ltb→lt now exp live, omega arith, absent, ih)
      | inr dead ↦ rw dead ih
    ]
