-- ===== src/Decimal/RoundTrip.antt =====
-- A printed number reads back, so it determines the number.
use trust_chain.Base.{
  ℕ, zero, suc, ◌+◌, ◌/◌, ◌%◌, ◌^◌, ◌≤◌, ◌<◌, ◌≡◌, refl, sym, ap, ◌∙◌, ◌⊎◌, inl, inr, Bytes, [],
  ◌∷◌, ◌++◌, All, length, arith,
}
use trust_chain.Decimal.{digits, decimal, digits_value}

-- `fuel` rounds are enough for `n`.
abbrev Fits : ℕ → ℕ → Type 0
Fits zero n = ⊥
Fits (suc fuel) n = (n < 10) ⊎ Fits fuel (n / 10)

digits_value-digits :
    (fuel n : ℕ) (out : Bytes)
    → Fits fuel n
    → digits_value 0 (digits fuel n out) ≡ digits_value n out
unfolding digits digits_value
digits_value-digits zero n out fits = absurd fits
digits_value-digits (suc fuel) n out (inl small) = ground arith
digits_value-digits (suc fuel) n out (inr fits) =
    ground (arith, digits_value-digits fuel (n / 10) ((b'0' + n % 10) ∷ out) fits)

digits-append :
    (fuel n : ℕ) (out more : Bytes) → digits fuel n (out ++ more) ≡ digits fuel n out ++ more
unfolding digits
digits-append zero n out more = refl
digits-append (suc fuel) n out more =
    ground (arith, digits-append fuel (n / 10) ((b'0' + n % 10) ∷ out) more)

-- Ten rounds are enough for a `uint32_t`.
decimal-Fits : (n : ℕ) → n < 2 ^ 32 → Fits 10 n
decimal-Fits n small = inr (inr (inr (inr (inr (inr (inr (inr (inr (inl (omega arith))))))))))

-- The ten rounds of `decimal` print all digits of a `uint32_t`: reading digits up to a character
-- that is none gives the number back.
pub digits_value-decimal :
    (n c : ℕ) (rest : Bytes)
    → n < 2 ^ 32
    → (c < b'0') ⊎ (b'9' < c)
    → digits_value 0 (decimal n ++ c ∷ rest) ≡ n
unfolding decimal digits_value
digits_value-decimal n c rest small stop =
    ap (digits_value 0) (sym (digits-append 10 n [] (c ∷ rest)))
    ∙ digits_value-digits 10 n (c ∷ rest) (decimal-Fits n small)
    ∙ ground arith

abbrev pub IsDigit : ℕ → Type 0
IsDigit c = (b'0' ≤ c) × (c ≤ b'9')

digits-IsDigit : (fuel n : ℕ) (out : Bytes) → All IsDigit out → All IsDigit (digits fuel n out)
unfolding digits
digits-IsDigit zero n out h = h
digits-IsDigit (suc fuel) n out h =
    ground (
      arith,
      h,
      digits-IsDigit fuel (n / 10) ((b'0' + n % 10) ∷ out) ((omega arith, omega arith), h),
    )

pub decimal-IsDigit : (n : ℕ) → All IsDigit (decimal n)
unfolding decimal
decimal-IsDigit n = digits-IsDigit 10 n [] tt

length-digits : (fuel n : ℕ) (out : Bytes) → length (digits fuel n out) ≤ fuel + length out
unfolding digits
length-digits zero n out = omega arith
length-digits (suc fuel) n out = ground (arith, length-digits fuel (n / 10) ((b'0' + n % 10) ∷ out))

pub length-decimal : (n : ℕ) → length (decimal n) ≤ 10
unfolding decimal
length-decimal n = length-digits 10 n []

pub decimal-injective : (n m : ℕ) → n < 2 ^ 32 → m < 2 ^ 32 → decimal n ≡ decimal m → n ≡ m
decimal-injective n m hn hm same =
    sym (digits_value-decimal n b':' [] hn (omega arith))
    ∙ ap (λ s. digits_value 0 (s ++ b':' ∷ [])) same
    ∙ digits_value-decimal m b':' [] hm (omega arith)
