-- ===== src/Utils/Pem/Lines.antt =====
-- The lines of a PEM text, and the room that `public_key_obj_to_pem` asks for.
use trust_chain.Base.{
  ℕ, zero, suc, ◌+◌, ◌-◌, ◌*◌, ◌/◌, ◌≤◌, ◌<◌, ◌≡◌, refl, ap, ◌∙◌, Bytes, List, [], ◌∷◌, ◌++◌,
  length, take, drop, length-append, length-take, ok, arith,
}
use trust_chain.Memory.{Buffer}
use trust_chain.Platform.{Platform, Handle}
use trust_chain.Utils.Pem.{
  pem_header, pem_footer, pem_lines, pem_body, pem_text, estimated_len, public_key_obj_to_pem,
}

-- The lines of a text: 64 characters in each but the last, and at least one in that.
abbrev pub AreLines : List Bytes → Type 0
AreLines [] = Unit
AreLines (l ∷ []) = (0 < length l) × (length l ≤ 64)
AreLines (l ∷ m ∷ ls) = (length l ≡ 64) × AreLines (m ∷ ls)

-- Lines one after the other, without and with a line end behind each.
abbrev pub joined : List Bytes → Bytes
joined [] = []
joined (l ∷ ls) = l ++ joined ls

abbrev pub ended : List Bytes → Bytes
ended [] = []
ended (l ∷ ls) = l ++ b'\n' ∷ ended ls

some_line : (l : Bytes) (ls : List Bytes) → AreLines (l ∷ ls) → 0 < length l
some_line l [] h = h.0
some_line l (m ∷ ls) h = omega (arith, h.0)

take-append-drop : (n : ℕ) (s : Bytes) → take n s ++ drop n s ≡ s
take-append-drop zero s = refl
take-append-drop (suc n) [] = refl
take-append-drop (suc n) (x ∷ s) = ap (λ t. x ∷ t) (take-append-drop n s)

length-drop : (n : ℕ) (s : Bytes) → length (drop n s) ≡ length s - n
length-drop zero s = omega arith
length-drop (suc n) [] = omega arith
length-drop (suc n) (x ∷ s) = omega (arith, length-drop n s)

-- One line more in front, where more than 64 characters are left, or nothing behind it.
line-AreLines :
    (l : Bytes) (ls : List Bytes)
    → AreLines ls
    → 0 < length l
    → length l ≤ 64
    → (0 < length (joined ls) → length l ≡ 64)
    → AreLines (l ∷ ls)
line-AreLines l [] h some fits full = (some, fits)
line-AreLines l (m ∷ ls) h some fits full =
    (full (omega (arith, some_line m ls h, length-append m (joined ls))), h)

pem_lines-lines :
    (fuel : ℕ) (s : Bytes)
    → length s ≤ fuel
    → (ls : List Bytes) × AreLines ls × (joined ls ≡ s) × (pem_lines fuel s ≡ ended ls)
unfolding pem_lines
pem_lines-lines zero [] fits = ([], tt, refl, refl)
pem_lines-lines zero (x ∷ s) fits = absurd (omega arith)
pem_lines-lines (suc fuel) [] fits = ([], tt, refl, refl)
pem_lines-lines (suc fuel) (x ∷ s) fits =
    let l = take 64 (x ∷ s) in
    let (ls, are, join, end) =
      pem_lines-lines fuel (drop 64 (x ∷ s)) (omega (arith, length-drop 64 (x ∷ s))) in
    (
      l ∷ ls,
      line-AreLines l ls are (omega (arith, length-take 64 (x ∷ s)))
          (omega (arith, length-take 64 (x ∷ s)))
          (λ more.
            omega (arith, more, ap length join, length-drop 64 (x ∷ s), length-take 64 (x ∷ s))),
      ap (λ t. l ++ t) join ∙ take-append-drop 64 (x ∷ s),
      ap (λ t. l ++ b'\n' ∷ t) end,
    )

-- The PEM text of a base64 text is the header, the characters of the base64 text in their order in
-- lines of 64 characters, the last of at least one and at most 64, each with a line end behind it,
-- and the footer.
pub pem_text-lines :
    (b64 : Bytes)
    → (ls : List Bytes) × AreLines ls
      × (joined ls ≡ b64)
      × (pem_text b64 ≡ pem_header ++ (ended ls ++ pem_footer))
unfolding pem_text
pem_text-lines b64 =
    let (ls, are, join, end) = pem_lines-lines (length b64) b64 (omega arith) in
    (ls, are, join, ap (λ t. pem_header ++ (t ++ pem_footer)) end)

-- A line end for each 64 characters begun.
length-pem_lines :
    (fuel : ℕ) (s : Bytes) → length (pem_lines fuel s) ≤ length s + (length s + 63) / 64
unfolding pem_lines
length-pem_lines zero s = omega arith
length-pem_lines (suc fuel) [] = omega arith
length-pem_lines (suc fuel) (x ∷ s) = omega (
  arith,
  length-append (take 64 (x ∷ s)) (b'\n' ∷ pem_lines fuel (drop 64 (x ∷ s))),
  length-take 64 (x ∷ s),
  length-drop 64 (x ∷ s),
  length-pem_lines fuel (drop 64 (x ∷ s)),
)

-- For a key of at most 1488 bytes in DER the estimate leaves room for the text and its NUL.
pem_text-estimated :
    (der b64 : Bytes)
    → length b64 ≡ (length der + 2) / 3 * 4
    → length der ≤ 1488
    → length (pem_text b64) < estimated_len (length der)
unfolding pem_text estimated_len
pem_text-estimated der b64 full small = omega (
  arith,
  length-append pem_header (pem_body b64),
  length-append (pem_lines (length b64) b64) pem_footer,
  length-pem_lines (length b64) b64,
)

-- The base64 text of a DER text of the platform, and its size.
pub record EncodesKeys {W : Type 0} (p : Platform W) : Type 0 where
  pub small : (key : Handle) (w : W) → length (p.pk_write_pubkey_der key w).0 ≤ 1488
  pub full :
      (der b64 : Bytes) (w : W)
      → (p.base64_encode der w).0 ≡ ok b64
      → length b64 ≡ (length der + 2) / 3 * 4

module _ {W : Type 0} (p : Platform W) (encodes : EncodesKeys p) where
  -- Where the platform writes keys of at most 1488 bytes in DER, and encodes every three bytes begun
  -- as four characters, the PEM text that `public_key_obj_to_pem` writes, with its NUL, fits into the
  -- room that the caller said it has.
  pub public_key_obj_to_pem-fits :
      (key : Handle) (b b' : Buffer) (pem_len n : ℕ) (w : W)
      → (public_key_obj_to_pem p key b pem_len w).0 ≡ ok (b', n)
      → n < pem_len
  unfolding public_key_obj_to_pem
  public_key_obj_to_pem-fits key b b' pem_len n w run =
      grind (arith, pem_text-estimated, encodes.small, encodes.full)
