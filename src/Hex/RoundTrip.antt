-- ===== src/Hex/RoundTrip.antt =====
-- What `hex_string_to_bytes` does with a text: printed bytes come back, every accepted text is the
-- print of its bytes up to case, and a text that is too long for the array is written past its end.
use trust_chain.Base.{
  ℕ, zero, suc, ◌+◌, ◌*◌, ◌/◌, ◌%◌, ◌≤◌, ◌<◌, ◌≡◌, ◌≢◌, refl, Bytes, [], ◌∷◌, some, none, subst,
  length, All, leb, ◌&&◌, if◌then◌else◌, map, Outcome, ok, err, fault, ok-injective, arith,
  Option-cases, inl, inr,
}
use trust_chain.Memory.Laws.{IsText}
use trust_chain.Hex.{
  hex_digit, hex, hex_char_to_int, hex_pair, cons_outcome, decode_pairs, hex_string_to_bytes,
}

abbrev pub IsByte : ℕ → Type 0
IsByte x = x < 256

pub length-hex : (xs : Bytes) → length (hex xs) ≡ 2 * length xs
unfolding hex
length-hex [] = refl
length-hex (x ∷ xs) = omega (arith, length-hex xs)

-- No digit is a NUL.
pub hex-IsText : (xs : Bytes) → IsText (hex xs)
unfolding hex hex_digit
hex-IsText [] = tt
hex-IsText (x ∷ xs) = (ground arith, (ground arith, hex-IsText xs))

hex_pair-hex_digit : (x : ℕ) → x < 256 → hex_pair (hex_digit (x / 16)) (hex_digit (x % 16)) ≡ some x
unfolding hex_pair hex_digit
hex_pair-hex_digit x h = ground arith

decode_pairs-hex :
    (room : ℕ) (xs : Bytes) → All IsByte xs → length xs ≤ room → decode_pairs room (hex xs) ≡ ok xs
unfolding decode_pairs hex
decode_pairs-hex room [] h fits = refl
decode_pairs-hex zero (x ∷ xs) h fits = absurd (omega arith)
decode_pairs-hex (suc room) (x ∷ xs) h fits =
    ground (arith, hex_pair-hex_digit x h.0, decode_pairs-hex room xs h.1)

-- Decoding the hexadecimal text of bytes that fit into the array gives the bytes.
pub hex_string_to_bytes-hex :
    (room : ℕ) (xs : Bytes)
    → All IsByte xs
    → length xs ≤ room
    → hex_string_to_bytes room (hex xs) ≡ ok xs
unfolding hex_string_to_bytes
hex_string_to_bytes-hex room xs h fits =
    ground (arith, length-hex xs, decode_pairs-hex room xs h fits)

-- `A` to `F` in lower case.
abbrev pub lower_digit : ℕ → ℕ
lower_digit c = if leb b'A' c && leb c b'F' then c + 32 else c

hex_pair_sound :
    (h l x : ℕ)
    → hex_pair h l ≡ some x
    → (x < 256) × (hex_digit (x / 16) ≡ lower_digit h) × (hex_digit (x % 16) ≡ lower_digit l)
unfolding hex_pair hex_digit
hex_pair_sound h l x e = ground arith

-- The bytes `xs` are what the text `s` stands for, and fill at most `room` places.
abbrev pub Decodes : ℕ → Bytes → Bytes → Type 0
Decodes room s xs = (hex xs ≡ map lower_digit s) × (length xs ≤ room) × All IsByte xs

cons_Decodes :
    (room h l x : ℕ) (s : Bytes) (r : Outcome Bytes) (xs : Bytes)
    → (x < 256) × (hex_digit (x / 16) ≡ lower_digit h) × (hex_digit (x % 16) ≡ lower_digit l)
    → ((ys : Bytes) → r ≡ ok ys → Decodes room s ys)
    → cons_outcome x r ≡ ok xs
    → Decodes (suc room) (h ∷ l ∷ s) xs
unfolding hex
cons_Decodes room h l x s (ok ys) xs digits rest e =
    subst (Decodes (suc room) (h ∷ l ∷ s)) (ok-injective e) (ground (arith, rest ys refl))
cons_Decodes room h l x s (err _) xs digits rest e = absurd (ground arith)
cons_Decodes room h l x s fault xs digits rest e = absurd (ground arith)

decode_pairs_sound :
    (room : ℕ) (s : Bytes) {xs : Bytes}
    → length s % 2 ≡ 0
    → decode_pairs room s ≡ ok xs
    → Decodes room s xs
unfolding decode_pairs hex
decode_pairs_sound room [] even e = ground arith
decode_pairs_sound room (h ∷ []) even e = absurd (omega arith)
decode_pairs_sound zero (h ∷ l ∷ s) even e = ground arith
decode_pairs_sound (suc room) (h ∷ l ∷ s) {xs} even e = elim (Option-cases (hex_pair h l)) [
  | inl bad ↦ absurd (ground arith)
  | inr (x, good) ↦
      cons_Decodes room h l x s (decode_pairs room s) xs (hex_pair_sound h l x good)
        (λ ys d. decode_pairs_sound room s {xs = ys} (omega arith) d) (ground arith)
]

-- The bytes of an accepted text are at most `room`, each below 256, and printing them gives the text
-- back in lower case.
pub hex_string_to_bytes_sound :
    (room : ℕ) (s : Bytes) {xs : Bytes} → hex_string_to_bytes room s ≡ ok xs → Decodes room s xs
unfolding hex_string_to_bytes
hex_string_to_bytes_sound room s {xs} e =
    decode_pairs_sound room s {xs = xs} (ground arith) (ground arith)

-- A text of hexadecimal digits only.
abbrev pub IsHex : Bytes → Type 0
IsHex = All (λ c. hex_char_to_int c ≢ none)

hex_pair-IsHex :
    (h l : ℕ) → hex_char_to_int h ≢ none → hex_char_to_int l ≢ none → hex_pair h l ≢ none
unfolding hex_pair
hex_pair-IsHex h l p q = ground arith

decode_pairs_overflow :
    (room : ℕ) (s : Bytes)
    → IsHex s
    → length s % 2 ≡ 0
    → 2 * room < length s
    → decode_pairs room s ≡ fault
unfolding decode_pairs
decode_pairs_overflow room [] d even long = absurd (omega arith)
decode_pairs_overflow room (h ∷ []) d even long = absurd (omega arith)
decode_pairs_overflow zero (h ∷ l ∷ s) d even long = ground (arith, hex_pair-IsHex h l d.0 d.1.0)
decode_pairs_overflow (suc room) (h ∷ l ∷ s) d even long =
    ground (arith, hex_pair-IsHex h l d.0 d.1.0, decode_pairs_overflow room s d.1.1)

-- A text of an even number of hexadecimal digits that stands for more than the `room` bytes of the
-- array makes `hex_string_to_bytes` write past the array.
pub hex_string_to_bytes_overflow :
    (room : ℕ) (s : Bytes)
    → IsHex s
    → length s % 2 ≡ 0
    → 2 * room < length s
    → hex_string_to_bytes room s ≡ fault
unfolding hex_string_to_bytes
hex_string_to_bytes_overflow room s d even long =
    ground (arith, decode_pairs_overflow room s d even long)
