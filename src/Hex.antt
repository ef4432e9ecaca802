-- ===== src/Hex.antt =====
-- ta/utils/utils.c: `bytes_to_hex_string`, `hex_char_to_int` and `hex_string_to_bytes`.
pub mod RoundTrip
pub mod Print
use trust_chain.Base.{
  ℕ, zero, suc, ◌+◌, ◌-◌, ◌*◌, ◌/◌, ◌%◌, Bool, ◌&&◌, Bytes, [], ◌∷◌, Option, none, some, length,
  ltb, leb, ◌==◌, if◌then◌else◌, Outcome, ok, err, fault, bad_parameters,
}
use trust_chain.Memory.{Buffer, store}

-- One digit of `%02x`.
unfoldable pub hex_digit : ℕ → ℕ
hex_digit n = if ltb n 10 then b'0' + n else b'a' + (n - 10)

-- The text that the loop prints.
unfoldable pub hex : Bytes → Bytes
hex [] = []
hex (x ∷ xs) = hex_digit (x / 16) ∷ hex_digit (x % 16) ∷ hex xs

-- Each round of the loop prints two digits and a NUL, which the next round overwrites. Nothing is
-- written for no bytes, not even a NUL.
unfoldable pub bytes_to_hex_string : Bytes → Buffer → ℕ → Option Buffer
bytes_to_hex_string [] b off = some b
bytes_to_hex_string (x ∷ xs) b off =
    elim (store b off (hex_digit (x / 16) ∷ hex_digit (x % 16) ∷ 0 ∷ [])) [
      | none ↦ none
      | some b' ↦ bytes_to_hex_string xs b' (off + 2)
    ]

-- `none` is the source's -1.
unfoldable pub hex_char_to_int : ℕ → Option ℕ
hex_char_to_int c =
    if leb b'0' c && leb c b'9'
    then some (c - b'0')
    else if leb b'a' c && leb c b'f'
    then some (c - b'a' + 10)
    else if leb b'A' c && leb c b'F'
    then some (c - b'A' + 10)
    else none

-- `(high << 4) | low`, if both characters are digits.
unfoldable pub hex_pair : ℕ → ℕ → Option ℕ
unfolding hex_char_to_int
hex_pair h l = elim (hex_char_to_int h) [
  | none ↦ none
  | some high ↦ elim (hex_char_to_int l) [ none ↦ none | some low ↦ some (high * 16 + low) ]
]

abbrev pub cons_outcome : ℕ → Outcome Bytes → Outcome Bytes
cons_outcome x (ok s) = ok (x ∷ s)
cons_outcome x (err e) = err e
cons_outcome x fault = fault

-- The loop of `hex_string_to_bytes`, with `room` bytes left in the caller's array: the source
-- does not look at that room.
unfoldable pub decode_pairs : ℕ → Bytes → Outcome Bytes
decode_pairs room [] = ok []
decode_pairs room (h ∷ []) = ok []
decode_pairs zero (h ∷ l ∷ s) = elim (hex_pair h l) [ none ↦ err bad_parameters | some x ↦ fault ]
decode_pairs (suc room) (h ∷ l ∷ s) =
    let rest = decode_pairs room s in
    elim (hex_pair h l) [ none ↦ err bad_parameters | some x ↦ cons_outcome x rest ]

unfoldable pub hex_string_to_bytes : ℕ → Bytes → Outcome Bytes
unfolding decode_pairs
hex_string_to_bytes room s = if length s % 2 == 0 then decode_pairs room s else err bad_parameters
