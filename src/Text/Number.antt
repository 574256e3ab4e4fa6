-- ===== src/Text/Number.antt =====
-- Decimal numbers: `to_string` of an unsigned number, and `parse` into one of w bits.
use Prim.Native.Char.{Char, code}
use Prim.Native.String.{[], ◌∷◌}
use nexus_link.Text.{all_chars}
use nexus_link.Base.{
  Bool, List, Option, String, [], arith, eqb, eqb_iff, false, get_elem?, if◌then◌else◌, leb, ltb,
  none, passes_up_to, passes_up_to_lem, refl, some, suc, true, unwrap_or, zero, ℕ, ◌%◌, ◌&&◌, ◌*◌,
  ◌+◌, ◌-◌, ◌/◌, ◌<◌, ◌^◌, ◌∙◌, ◌∷◌, ◌≡◌, ◌≤◌,
}

abbrev pub u16_max : ℕ
u16_max = 2 ^ 16 - 1

abbrev pub u32_max : ℕ
u32_max = 2 ^ 32 - 1

abbrev pub u64_max : ℕ
u64_max = 2 ^ 64 - 1

abbrev decimal_digits : List Char
decimal_digits = "0" ∷ "1" ∷ "2" ∷ "3" ∷ "4" ∷ "5" ∷ "6" ∷ "7" ∷ "8" ∷ "9" ∷ []

digit : ℕ → Char
digit n = unwrap_or (get_elem? decimal_digits n) "0"

digits_onto : ℕ → ℕ → String → String
digits_onto zero n acc = acc
digits_onto (suc fuel) n acc =
    let more = digits_onto fuel (n / 10) (digit (n % 10) ∷ acc) in
    if ltb n 10 then digit n ∷ acc else more

-- `n.to_string()`
unfoldable pub to_string : ℕ → String
unfolding digits_onto digit
to_string n = digits_onto (suc n) n []

-- The digits' value on top of `acc`; `none` at another character, or past `most`.
parse_digits : ℕ → ℕ → String → Option ℕ
parse_digits most acc [] = some acc
parse_digits most acc (c ∷ s) =
    let n = code c in
    let acc' = acc * 10 + (n - b'0') in
    let rest = parse_digits most acc' s in
    if leb b'0' n && leb n b'9' && leb acc' most then rest else none

parse_unsigned : ℕ → String → Option ℕ
parse_unsigned most [] = none
parse_unsigned most (c ∷ []) = parse_digits most 0 (c ∷ [])
parse_unsigned most (c ∷ (d ∷ s)) =
    if eqb (code c) b'+' then parse_digits most 0 (d ∷ s) else parse_digits most 0 (c ∷ (d ∷ s))

-- `s.parse::<uN>()`, where `most` is the type's largest number: one `+` may stand before the digits.
unfoldable pub parse : ℕ → String → Option ℕ
unfolding parse_unsigned parse_digits
parse most s = parse_unsigned most s

parse_digits-le :
    (most acc : ℕ) (s : String) (n : ℕ) → acc ≤ most → parse_digits most acc s ≡ some n → n ≤ most
unfolding parse_digits
parse_digits-le most acc [] n k h = ground arith
parse_digits-le most acc (c ∷ s) n k h =
    ground (arith, parse_digits-le most (acc * 10 + (code c - b'0')) s n)

parse_unsigned-le : (most : ℕ) (s : String) (n : ℕ) → parse_unsigned most s ≡ some n → n ≤ most
unfolding parse_unsigned
parse_unsigned-le most [] n h = ground arith
parse_unsigned-le most (c ∷ []) n h = parse_digits-le most 0 (c ∷ []) n (omega arith) h
parse_unsigned-le most (c ∷ (d ∷ s)) n h =
    ground (arith, parse_digits-le most 0 (d ∷ s) n, parse_digits-le most 0 (c ∷ (d ∷ s)) n)

-- A parsed number fits its type.
pub parse-le : (most : ℕ) (s : String) (n : ℕ) → parse most s ≡ some n → n ≤ most
parse-le most s n h = parse_unsigned-le most s n (unfold parse in h)

code-digit : (n : ℕ) → n < 10 → code (digit n) ≡ b'0' + n
unfolding digit
code-digit n h =
    (eqb_iff _ _).0
      (passes_up_to_lem (λ x. eqb (code (digit x)) (b'0' + x)) 10 (unfold passes_up_to in refl) n h)

parse_digits-digit :
    (most acc n : ℕ) (s : String)
    → n < 10
    → acc * 10 + n ≤ most
    → parse_digits most acc (digit n ∷ s) ≡ parse_digits most (acc * 10 + n) s
unfolding parse_digits
parse_digits-digit most acc n s h k = ground (arith, code-digit n h)

parse_digits-digits_onto :
    (most fuel n : ℕ) (s : String)
    → n < fuel
    → n ≤ most
    → parse_digits most 0 (digits_onto fuel n s) ≡ parse_digits most n s
unfolding digits_onto
parse_digits-digits_onto most zero n s h k = absurd (omega arith)
parse_digits-digits_onto most (suc fuel) n s h k = ground (
  arith,
  parse_digits-digit most 0 n s,
  parse_digits-digits_onto most fuel (n / 10) (digit (n % 10) ∷ s),
  parse_digits-digit most (n / 10) (n % 10) s,
)

-- The text begins with a digit.
abbrev starts_digit : String → Bool
starts_digit [] = false
starts_digit (c ∷ s) = leb b'0' (code c)

starts_digit-digits_onto :
    (fuel n : ℕ) (s : String) → starts_digit s ≡ true → starts_digit (digits_onto fuel n s) ≡ true
unfolding digits_onto
starts_digit-digits_onto zero n s h = h
starts_digit-digits_onto (suc fuel) n s h = ground (
  arith,
  code-digit n,
  code-digit (n % 10),
  starts_digit-digits_onto fuel (n / 10) (digit (n % 10) ∷ s),
)

parse_unsigned_of_digit :
    (most : ℕ) (s : String) → starts_digit s ≡ true → parse_unsigned most s ≡ parse_digits most 0 s
unfolding parse_unsigned
parse_unsigned_of_digit most [] h = ground arith
parse_unsigned_of_digit most (c ∷ []) h = refl
parse_unsigned_of_digit most (c ∷ (d ∷ s)) h = ground arith

starts_digit-digits_onto-suc :
    (fuel n : ℕ) (s : String) → starts_digit (digits_onto (suc fuel) n s) ≡ true
unfolding digits_onto
starts_digit-digits_onto-suc fuel n s = ground (
  arith,
  code-digit n,
  code-digit (n % 10),
  starts_digit-digits_onto fuel (n / 10) (digit (n % 10) ∷ s),
)

parse_of_digit :
    (most : ℕ) (s : String) → starts_digit s ≡ true → parse most s ≡ parse_digits most 0 s
unfolding parse
parse_of_digit most s h = parse_unsigned_of_digit most s h

parse-digits_onto :
    (most fuel n : ℕ) → n ≤ fuel → n ≤ most → parse most (digits_onto (suc fuel) n []) ≡ some n
parse-digits_onto most fuel n h k =
    parse_of_digit most _ (starts_digit-digits_onto-suc fuel n [])
    ∙ parse_digits-digits_onto most (suc fuel) n [] (omega arith) k
    ∙ (unfold parse_digits in refl)

-- A number that fits is parsed back from its text.
pub parse-to_string : (most n : ℕ) → n ≤ most → parse most (to_string n) ≡ some n
unfolding to_string
parse-to_string most n h = parse-digits_onto most n n (omega arith) h

abbrev pub is_digit : Char → Bool
is_digit c = leb b'0' (code c) && leb (code c) b'9'

all_chars-digits_onto :
    (fuel n : ℕ) (s : String)
    → all_chars is_digit s ≡ true
    → all_chars is_digit (digits_onto fuel n s) ≡ true
unfolding digits_onto all_chars
all_chars-digits_onto zero n s h = h
all_chars-digits_onto (suc fuel) n s h = ground (
  arith,
  code-digit n,
  code-digit (n % 10),
  all_chars-digits_onto fuel (n / 10) (digit (n % 10) ∷ s),
)

-- The text of a number has no character but digits.
pub all_chars-to_string : (n : ℕ) → all_chars is_digit (to_string n) ≡ true
unfolding to_string
all_chars-to_string n = all_chars-digits_onto (suc n) n [] (unfold all_chars in refl)
