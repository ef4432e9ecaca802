-- ===== src/Hex/Print.antt =====
-- The printing loop leaves what one `strcpy` of the whole text leaves.
use trust_chain.Base.{
  ℕ, suc, ◌+◌, ◌/◌, ◌%◌, ◌≤◌, ◌<◌, ◌≡◌, ◌⊎◌, ◌∙◌, Bytes, [], ◌∷◌, ◌++◌, some, length, arith,
}
use trust_chain.Memory.{Cells, Buffer, write, store}
use trust_chain.Memory.Laws.{write_out}
use trust_chain.Hex.{hex_digit, hex, bytes_to_hex_string}

-- A byte inside what is written does not depend on what was there.
write_ext :
    (c c' : Cells) (off : ℕ) (s : Bytes) (a : ℕ)
    → (c a ≡ c' a) ⊎ ((off ≤ a) × (a < off + length s))
    → write c off s a ≡ write c' off s a
unfolding write
write_ext c c' off [] a h = ground arith
write_ext c c' off (x ∷ s) a h = ground (arith, write_ext c c' (suc off) s a)

-- Writing on over the NUL of the digits before.
write_over :
    (c : Cells) (off d e : ℕ) (x : ℕ) (s : Bytes) (a : ℕ)
    → write (write c off (d ∷ e ∷ 0 ∷ [])) (off + 2) (x ∷ s) a ≡ write c off (d ∷ e ∷ x ∷ s) a
unfolding write
write_over c off d e x s a = ground (
  arith,
  write_out (write c off (d ∷ e ∷ 0 ∷ [])) (suc (off + 2)) s a,
  write_out c (suc (suc (suc off))) s a,
  write_ext (write c off (d ∷ e ∷ 0 ∷ [])) c (suc (off + 2)) s a,
)

-- If printing at least one byte at `off` stays inside the object, the loop leaves the whole hexadecimal
-- text and one NUL from `off` on, and every other byte as it was.
pub bytes_to_hex_string-write :
    (x : ℕ) (xs : Bytes) (b b' : Buffer) (off a : ℕ)
    → bytes_to_hex_string (x ∷ xs) b off ≡ some b'
    → b'.cell a ≡ write b.cell off (hex (x ∷ xs) ++ 0 ∷ []) a
unfolding bytes_to_hex_string store hex
bytes_to_hex_string-write x [] b b' off a run = ground arith
bytes_to_hex_string-write x (y ∷ ys) b b' off a run =
    let b₁ : Buffer = record b {
      cell = write b.cell off (hex_digit (x / 16) ∷ hex_digit (x % 16) ∷ 0 ∷ []);
    } in
    let over =
      write_over b.cell off (hex_digit (x / 16)) (hex_digit (x % 16)) (hex_digit (y / 16))
        (hex_digit (y % 16) ∷ hex ys ++ 0 ∷ []) a in
    bytes_to_hex_string-write y ys b₁ b' (off + 2) a (ground arith) ∙ over
