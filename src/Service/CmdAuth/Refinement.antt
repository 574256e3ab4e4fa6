-- ===== src/Service/CmdAuth/Refinement.antt =====
-- The nonce cache against its specification: a middleware without a cache, with the unbounded
-- history of the nonces of all writes that came as far as the nonce check.
use nexus_link.Base.{
  Bool, List, String, [], false, if◌then◌else◌, ltb, true, unwrap_or, ℕ, ◌&&◌, ◌+◌, ◌==◌, ◌||◌, ◌∷◌,
  ◌≡◌, ◌≤◌,
}
use nexus_link.Core.Token.{Crypto}
use nexus_link.Service.State.{AppState}
use nexus_link.Service.CmdAuth.{
  NonceCache, Outcome, SignatureLib, contains_key, forbidden, minutes, reject, retain,
}
use nexus_link.Service.CmdAuth.Replay.{Arrival, check}

-- The nonces with the times at which they were stored; none is ever dropped.
abbrev pub History : Type 0
History = List (String × ℕ)

-- The nonce was stored less than six minutes before the time.
unfoldable pub is_seen : String → ℕ → History → Bool
is_seen nonce now [] = false
is_seen nonce now ((k, stored) ∷ history) =
    (k == nonce && ltb now (stored + minutes 6)) || is_seen nonce now history

-- A nonce counts as seen, as the code and the specification tell it, at every later time.
abbrev pub Agree : ℕ → NonceCache → History → Type 0
Agree now cache history =
    (nonce : String) (later : ℕ)
    → now ≤ later
    → contains_key nonce (retain later cache) ≡ is_seen nonce later history

abbrev pub nonce_of : Arrival → String
nonce_of a = unwrap_or (a.request.header "x-nexus-nonce") ""

abbrev pub is_nil : NonceCache → Bool
is_nil [] = true
is_nil (x ∷ xs) = false

abbrev pub duplicate : Outcome
duplicate = reject forbidden "Duplicate nonce — possible replay"

module _ {Key : Type 0} (lib : SignatureLib Key) (c : Crypto) (state : AppState Key) where
  -- The specification: the answer without any cache, unless the request came as far as the nonce
  -- check and its nonce was seen.
  unfoldable pub spec_check : Arrival → History → Outcome × History
  spec_check a history =
      let fresh = check lib c state a [] in
      if is_nil fresh.1
      then (fresh.0, history)
      else if is_seen (nonce_of a) a.now₂ history
      then (duplicate, history)
      else (fresh.0, (nonce_of a, a.now₂) ∷ history)

  -- The answers to a series of requests, of the code and of the specification.
  unfoldable pub answers : List Arrival → NonceCache → List Outcome
  answers [] cache = []
  answers (a ∷ arrivals) cache =
      let (outcome, after) = check lib c state a cache in outcome ∷ answers arrivals after

  unfoldable pub spec_answers : List Arrival → History → List Outcome
  spec_answers [] history = []
  spec_answers (a ∷ arrivals) history =
      let (outcome, after) = spec_check a history in outcome ∷ spec_answers arrivals after

  -- One request keeps the agreement, and is answered as specified.
  abbrev IsSimulated : Arrival → Outcome × NonceCache → Outcome × History → Type 0
  IsSimulated a done spec = (done.0 ≡ spec.0) × Agree a.now₂ done.1 spec.1
