-- ===== src/Memory.antt =====
-- The memory of one C object: structs and buffers as arrays of bytes, with the `strcpy`, `memcpy`,
-- `strlen` and `uint32_t` accesses that ta/ makes at offsets into them. A string that is longer
-- than its field runs into the next field, as it does in C.
pub mod Laws
pub mod Fits
pub mod Texts
pub mod Nul
pub mod Writes
use trust_chain.Base.{
  ℕ, zero, suc, ◌+◌, ◌-◌, ◌*◌, ◌/◌, ◌%◌, Bytes, [], ◌∷◌, ◌++◌, Option, none, some, length, ltb, leb,
  ◌==◌, if◌then◌else◌,
}
use mathlib.Core.Option

-- The byte at each offset. Offsets past the object's size hold nothing of the object.
abbrev pub Cells : Type 0
Cells = ℕ → ℕ

pub record Buffer : Type 0 where
  pub size : ℕ
  pub cell : Cells

-- `memcpy(p + off, s, strlen(s))`
unfoldable pub write : Cells → ℕ → Bytes → Cells
write c off [] a = c a
write c off (x ∷ s) a = let rest = write c (suc off) s a in if a == off then x else rest

-- What a C function reads from a `char *`: the bytes before the first NUL, which is among the
-- first `n` bytes, or none.
unfoldable pub scan : ℕ → Cells → ℕ → Option Bytes
scan zero c off = none
scan (suc n) c off =
    let rest = scan n c (suc off) in
    if c off == 0 then some [] else Option.map (λ s. c off ∷ s) rest

-- The bytes of an array before its first NUL.
unfoldable pub before_nul : Bytes → Bytes
before_nul [] = []
before_nul (c ∷ s) = if c == 0 then [] else c ∷ before_nul s

-- What `%.<n>s` prints: at most `n` bytes, up to the first NUL.
unfoldable pub prefix : ℕ → Cells → ℕ → Bytes
prefix zero c off = []
prefix (suc n) c off = let rest = prefix n c (suc off) in if c off == 0 then [] else c off ∷ rest

-- A little-endian `uint32_t`.
abbrev pub u32_bytes : ℕ → Bytes
u32_bytes x = x % 256 ∷ x / 256 % 256 ∷ x / 65536 % 256 ∷ x / 16777216 % 256 ∷ []

unfoldable pub read_u32 : Cells → ℕ → ℕ
read_u32 c off = c off + 256 * c (off + 1) + 65536 * c (off + 2) + 16777216 * c (off + 3)

unfoldable pub write_u32 : Cells → ℕ → ℕ → Cells
unfolding write
write_u32 c off x = write c off (u32_bytes x)

-- The same accesses, defined only inside the object.
unfoldable pub store : Buffer → ℕ → Bytes → Option Buffer
store b off s =
    if leb (off + length s) b.size then some (record b { cell = write b.cell off s }) else none

unfoldable pub strcpy : Buffer → ℕ → Bytes → Option Buffer
unfolding store
strcpy b off s = store b off (s ++ 0 ∷ [])

unfoldable pub load_str : Buffer → ℕ → Option Bytes
unfolding scan
load_str b off = scan (b.size - off) b.cell off

unfoldable pub load_u32 : Buffer → ℕ → Option ℕ
unfolding read_u32
load_u32 b off = if leb (off + 4) b.size then some (read_u32 b.cell off) else none

unfoldable pub store_u32 : Buffer → ℕ → ℕ → Option Buffer
unfolding store
store_u32 b off x = store b off (u32_bytes x)

-- `memcpy(dst, src, n)`
unfoldable pub memcpy : Buffer → Cells → ℕ → Option Buffer
memcpy dst src n =
    if leb n dst.size
    then some (record dst { cell = λ a. if ltb a n then src a else dst.cell a })
    else none
