-- ===== src/Memory/Nul.antt =====
-- Where a C string ends that was put together from pieces, some of which may hold a NUL.
use trust_chain.Base.{
  ℕ, zero, suc, ◌+◌, ◌<◌, ◌≡◌, refl, Bytes, [], ◌∷◌, ◌++◌, some, length, arith, ap, ◌∙◌, ℕ_discrete,
}
use trust_chain.Memory.{Cells, write, scan, before_nul}
use trust_chain.Memory.Laws.{write_head, scan-write_tail, write_out}

-- A C string is what stands before the first NUL that was written.
pub scan-before_nul :
    (n : ℕ) (c : Cells) (off : ℕ) (s : Bytes)
    → length s < n
    → scan n (write c off (s ++ 0 ∷ [])) off ≡ some (before_nul s)
unfolding scan before_nul
scan-before_nul zero c off s fits = absurd (omega arith)
scan-before_nul (suc n) c off [] fits = ground (arith, write_head c off 0 [])
scan-before_nul (suc n) c off (x ∷ s) fits = ground (
  arith,
  write_head c off x (s ++ 0 ∷ []),
  scan-write_tail n c off x (s ++ 0 ∷ []) (suc off),
  scan-before_nul n c (suc off) s,
)

-- A byte depends on what the same byte was before.
write-cell :
    (c d : Cells) (off : ℕ) (s : Bytes) (a : ℕ) → c a ≡ d a → write c off s a ≡ write d off s a
unfolding write
write-cell c d off [] a e = e
write-cell c d off (x ∷ s) a e = ground (arith, write-cell c d (suc off) s a e)

-- Two writes, one behind the other, are one.
pub write-append :
    (c : Cells) (off : ℕ) (s t : Bytes) (a : ℕ)
    → write (write c off s) (off + length s) t a ≡ write c off (s ++ t) a
unfolding write
write-append c off [] t a =
    let here : off + 0 ≡ off = omega arith in
    ap (λ k. write (write c off []) k t a) here ∙ write-cell (write c off []) c off t a refl
write-append c off (x ∷ s) t a =
    let behind : off + suc (length s) ≡ suc off + length s = omega arith in
    ap (λ k. write (write c off (x ∷ s)) k t a) behind ∙ elim (ℕ_discrete a off) [
      | yes here ↦ ground (
        arith,
        here,
        write_out (write c off (x ∷ s)) (suc off + length s) t a,
        write_head c off x s,
      )
      | no other ↦
          write-cell (write c off (x ∷ s)) (write c (suc off) s) (suc off + length s) t a
            (ground (arith, other))
          ∙ write-append c (suc off) s t a
          ∙ ground (arith, other)
    ]
