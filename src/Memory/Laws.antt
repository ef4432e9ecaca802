-- ===== src/Memory/Laws.antt =====
-- What a read gives after a write: at the same place, and elsewhere.
use trust_chain.Base.{
  ℕ, zero, suc, ◌+◌, ◌^◌, ◌≤◌, ◌<◌, ◌≡◌, ◌≢◌, refl, ◌⊎◌, Bytes, [], ◌∷◌, ◌++◌, some, length, take,
  All, ==_refl, arith,
}
use trust_chain.Memory.{Cells, write, scan, prefix, read_u32, write_u32}

-- The contents of a C string.
abbrev pub IsText : Bytes → Type 0
IsText = All (λ x. x ≢ 0)

-- A range of `n` bytes at `off` and one of `k` bytes at `at` have no byte in common.
abbrev pub Apart : ℕ → ℕ → ℕ → ℕ → Type 0
Apart off n at k = (off + n ≤ at) ⊎ (at + k ≤ off)

pub write_out :
    (c : Cells) (off : ℕ) (s : Bytes) (a : ℕ)
    → (a < off) ⊎ (off + length s ≤ a)
    → write c off s a ≡ c a
unfolding write
write_out c off [] a h = refl
write_out c off (x ∷ s) a h = ground (arith, write_out c (suc off) s a)

pub prefix-write_out :
    (n : ℕ) (c : Cells) (off at : ℕ) (s : Bytes)
    → Apart off n at (length s)
    → prefix n (write c at s) off ≡ prefix n c off
unfolding prefix
prefix-write_out zero c off at s h = refl
prefix-write_out (suc n) c off at s h =
    ground (arith, write_out c at s off, prefix-write_out n c (suc off) at s)

pub scan-write_out :
    (n : ℕ) (c : Cells) (off at : ℕ) (s : Bytes)
    → Apart off n at (length s)
    → scan n (write c at s) off ≡ scan n c off
unfolding scan
scan-write_out zero c off at s h = refl
scan-write_out (suc n) c off at s h =
    ground (arith, write_out c at s off, scan-write_out n c (suc off) at s)

pub read_u32-write_out :
    (c : Cells) (off at : ℕ) (s : Bytes)
    → Apart off 4 at (length s)
    → read_u32 (write c at s) off ≡ read_u32 c off
unfolding read_u32
read_u32-write_out c off at s h = ground (
  arith,
  write_out c at s off,
  write_out c at s (off + 1),
  write_out c at s (off + 2),
  write_out c at s (off + 3),
)

pub write_head : (c : Cells) (off x : ℕ) (s : Bytes) → write c off (x ∷ s) off ≡ x
unfolding write
write_head c off x s = rw ==_refl

-- A write of `x ∷ s` is one of `s` behind it, for every later byte.
pub write_tail :
    (c : Cells) (off x : ℕ) (s : Bytes) (a : ℕ)
    → off < a
    → write c off (x ∷ s) a ≡ write c (suc off) s a
unfolding write
write_tail c off x s a h = ground arith

prefix-write_tail :
    (n : ℕ) (c : Cells) (off x : ℕ) (s : Bytes) (a : ℕ)
    → off < a
    → prefix n (write c off (x ∷ s)) a ≡ prefix n (write c (suc off) s) a
unfolding prefix
prefix-write_tail zero c off x s a h = refl
prefix-write_tail (suc n) c off x s a h =
    ground (arith, write_tail c off x s a h, prefix-write_tail n c off x s (suc a))

-- A string that was copied in prints as its first `n` bytes.
pub prefix-write :
    (n : ℕ) (c : Cells) (off : ℕ) (s : Bytes)
    → IsText s
    → prefix n (write c off (s ++ 0 ∷ [])) off ≡ take n s
unfolding prefix
prefix-write zero c off s h = refl
prefix-write (suc n) c off [] h = rw (write_head c off 0 [])
prefix-write (suc n) c off (x ∷ s) h = ground (
  arith,
  write_head c off x (s ++ 0 ∷ []),
  prefix-write_tail n c off x (s ++ 0 ∷ []) (suc off),
  prefix-write n c (suc off) s h.1,
)

pub scan-write_tail :
    (n : ℕ) (c : Cells) (off x : ℕ) (s : Bytes) (a : ℕ)
    → off < a
    → scan n (write c off (x ∷ s)) a ≡ scan n (write c (suc off) s) a
unfolding scan
scan-write_tail zero c off x s a h = refl
scan-write_tail (suc n) c off x s a h =
    ground (arith, write_tail c off x s a h, scan-write_tail n c off x s (suc a))

-- A string that was copied in, with its NUL inside the range, reads back whole, whatever was copied
-- behind it.
pub scan-write_padded :
    (n : ℕ) (c : Cells) (off : ℕ) (s r : Bytes)
    → IsText s
    → length s < n
    → scan n (write c off (s ++ 0 ∷ r)) off ≡ some s
unfolding scan
scan-write_padded zero c off s r h fits = absurd (omega arith)
scan-write_padded (suc n) c off [] r h fits = rw (write_head c off 0 r)
scan-write_padded (suc n) c off (x ∷ s) r h fits = ground (
  arith,
  write_head c off x (s ++ 0 ∷ r),
  scan-write_tail n c off x (s ++ 0 ∷ r) (suc off),
  scan-write_padded n c (suc off) s r h.1,
)

pub scan-write :
    (n : ℕ) (c : Cells) (off : ℕ) (s : Bytes)
    → IsText s
    → length s < n
    → scan n (write c off (s ++ 0 ∷ [])) off ≡ some s
scan-write n c off s h fits = scan-write_padded n c off s [] h fits

-- More room does not change what is read.
pub scan-more :
    (n m : ℕ) (c : Cells) (off : ℕ) (s : Bytes)
    → n ≤ m
    → scan n c off ≡ some s
    → scan m c off ≡ some s
unfolding scan
scan-more zero m c off s h run = absurd (ground arith)
scan-more (suc n) zero c off s h run = absurd (omega arith)
scan-more (suc n) (suc m) c off [] h run = ground arith
scan-more (suc n) (suc m) c off (x ∷ s) h run = ground (arith, scan-more n m c (suc off) s)

pub read_u32-write_u32 : (c : Cells) (off x : ℕ) → x < 2 ^ 32 → read_u32 (write_u32 c off x) off ≡ x
unfolding read_u32 write_u32
read_u32-write_u32 c off x h = ground arith
