-- ===== src/Decimal.antt =====
-- `%u`: the decimal digits of a `uint32_t`.
pub mod RoundTrip
use trust_chain.Base.{
  ℕ, zero, suc, ◌+◌, ◌-◌, ◌*◌, ◌/◌, ◌%◌, ◌==◌, leb, ◌&&◌, if◌then◌else◌, Bytes, [], ◌∷◌,
}

-- The digits of `n` in front of `out`, one for each unit of fuel at most.
unfoldable pub digits : ℕ → ℕ → Bytes → Bytes
digits zero n out = out
digits (suc fuel) n out =
    let rest = digits fuel (n / 10) ((b'0' + n % 10) ∷ out) in
    if n / 10 == 0 then (b'0' + n % 10) ∷ out else rest

-- A `uint32_t` has ten digits at most.
unfoldable pub decimal : ℕ → Bytes
unfolding digits
decimal n = digits 10 n []

-- The value of the digits at the start of a text.
unfoldable pub digits_value : ℕ → Bytes → ℕ
digits_value n [] = n
digits_value n (c ∷ s) =
    let rest = digits_value (n * 10 + (c - b'0')) s in if leb b'0' c && leb c b'9' then rest else n
