-- ===== src/Core/Token/Hashing.antt =====
-- Hashing and checking tokens: the hexadecimal text is injective, and a check compares digests.
use Prim.Native.Char.{Char, code}
use Prim.Native.String.{[], ◌∷◌}
use nexus_link.Base.{
  All, List, String, [], ap, arith, eqb, eqb_iff, if◌then◌else◌, leb, passes_up_to,
  passes_up_to_lem, refl, true, ℕ, ◌%◌, ◌*◌, ◌+◌, ◌-◌, ◌/◌, ◌<◌, ◌↔◌, ◌∷◌, ◌≡◌,
}
use nexus_link.Core.Token.{Crypto, IsCrypto, hash_token, hex_digit, hex_encode, verify_token}

-- The value of a hexadecimal digit.
hex_value : Char → ℕ
hex_value c = if leb b'a' (code c) then code c - b'a' + 10 else code c - b'0'

-- The bytes that a hexadecimal text stands for.
hex_decode : String → List ℕ
hex_decode (a ∷ (b ∷ s)) = (hex_value a * 16 + hex_value b) ∷ hex_decode s
hex_decode _ = []

hex_value-hex_digit : (n : ℕ) → n < 16 → hex_value (hex_digit n) ≡ n
unfolding hex_value hex_digit
hex_value-hex_digit n h =
    (eqb_iff _ n).0
      (passes_up_to_lem (λ x. eqb (hex_value (hex_digit x)) x) 16 (unfold passes_up_to in refl) n h)

hex_decode-hex_encode : (bs : List ℕ) → All (λ b. b < 256) bs → hex_decode (hex_encode bs) ≡ bs
unfolding hex_decode hex_encode
hex_decode-hex_encode [] h = refl
hex_decode-hex_encode (b ∷ bs) (h, hs) =
    ground
      (arith, hex_value-hex_digit (b / 16), hex_value-hex_digit (b % 16), hex_decode-hex_encode bs)

module _ (c : Crypto) (law : IsCrypto c) where
  -- A token passes the check against a stored hash exactly when the hash is the token's own.
  pub verify_token_iff :
      (token stored_hash : String)
      → (verify_token c token stored_hash ≡ true) ↔ (hash_token c token ≡ stored_hash)
  unfolding verify_token
  verify_token_iff token stored_hash = law.ct_eq_iff _ stored_hash

  -- Against another token's hash, a token passes exactly when both have one SHA-256 digest.
  pub verify_token-hash_token :
      (token other : String)
      → (verify_token c token (hash_token c other) ≡ true) ↔ (c.sha256 token ≡ c.sha256 other)
  unfolding hash_token
  verify_token-hash_token token other = (
    λ h. cc (
      (verify_token_iff token (hash_token c other)).0 h,
      hex_decode-hex_encode (c.sha256 token) (law.sha256-IsByte token),
      hex_decode-hex_encode (c.sha256 other) (law.sha256-IsByte other),
    ),
    λ e. (verify_token_iff token (hash_token c other)).1 (ap hex_encode e),
  )
