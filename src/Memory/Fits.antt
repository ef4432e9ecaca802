-- ===== src/Memory/Fits.antt =====
-- Writes that stay inside their object succeed, and leave its size.
use trust_chain.Base.{
  zero, suc, Bool-cases, inl, inr, ◌==◌, ℕ, ◌+◌, ◌≤◌, ◌<◌, ◌≡◌, refl, Bytes, [], ◌∷◌, ◌++◌, length,
  length-append, some, arith, ltb, if◌then◌else◌,
}
use trust_chain.Memory.{Buffer, Cells, store, strcpy, memcpy, write, scan}

pub store-fits :
    (b : Buffer) (off : ℕ) (s : Bytes)
    → off + length s ≤ b.size
    → (b' : Buffer) × (store b off s ≡ some b') × (b'.size ≡ b.size)
unfolding store
store-fits b off s fits = (record b { cell = write b.cell off s }, ground (arith, fits), refl)

pub strcpy-fits :
    (b : Buffer) (off : ℕ) (s : Bytes)
    → off + length s < b.size
    → (b' : Buffer) × (strcpy b off s ≡ some b') × (b'.size ≡ b.size)
unfolding strcpy
strcpy-fits b off s fits = store-fits b off (s ++ 0 ∷ []) (ground (arith, length-append s (0 ∷ [])))

pub memcpy-fits :
    (dst : Buffer) (src : Cells) (n : ℕ)
    → n ≤ dst.size
    → (b' : Buffer) × (memcpy dst src n ≡ some b') × (b'.size ≡ dst.size)
unfolding memcpy
memcpy-fits dst src n fits =
    (record dst { cell = λ a. if ltb a n then src a else dst.cell a }, ground (arith, fits), refl)

-- A text ends where a NUL stands, or before.
pub scan_ends :
    (n k : ℕ) (c : Cells) (off : ℕ)
    → k < n
    → c (off + k) ≡ 0
    → (s : Bytes) × (scan n c off ≡ some s) × (length s ≤ k)
unfolding scan
scan_ends zero k c off lt nul = absurd (omega arith)
scan_ends (suc n) zero c off lt nul = ([], ground (arith, nul), omega arith)
scan_ends (suc n) (suc k) c off lt nul =
    let (s, e, short) = scan_ends n k c (suc off) (omega arith) (ground (arith, nul)) in
    elim (Bool-cases (c off == 0)) [
      | inl ended ↦ ([], ground (arith, ended), omega arith)
      | inr more ↦ (c off ∷ s, ground (arith, more, e), omega arith)
    ]

pub write_nul : (c : Cells) (off : ℕ) (s : Bytes) → write c off (s ++ 0 ∷ []) (off + length s) ≡ 0
unfolding write
write_nul c off [] = ground arith
write_nul c off (x ∷ s) = ground (arith, write_nul c (suc off) s)
