-- ===== src/Memory/Texts.antt =====
-- A C string that is read from an object, and one that was copied into it.
use trust_chain.Base.{
  ℕ, zero, suc, ◌-◌, ◌≡◌, refl, Bytes, [], ◌∷◌, some, take, length-append, arith,
}
use trust_chain.Memory.{Cells, Buffer, scan, prefix, strcpy, store, load_str}
use trust_chain.Memory.Laws.{IsText, scan-write}

pub scan-IsText : (n : ℕ) (c : Cells) (off : ℕ) (s : Bytes) → scan n c off ≡ some s → IsText s
unfolding scan
scan-IsText zero c off s run = absurd (ground arith)
scan-IsText (suc n) c off [] run = tt
scan-IsText (suc n) c off (x ∷ s) run = (ground arith, scan-IsText n c (suc off) s (ground arith))

pub load_str-IsText : (b : Buffer) (off : ℕ) (s : Bytes) → load_str b off ≡ some s → IsText s
unfolding load_str
load_str-IsText b off s run = scan-IsText (b.size - off) b.cell off s run

pub load_str-strcpy :
    (b b' : Buffer) (off : ℕ) (s : Bytes)
    → IsText s
    → strcpy b off s ≡ some b'
    → load_str b' off ≡ some s
unfolding load_str strcpy store
load_str-strcpy b b' off s text run =
    ground (arith, length-append s (0 ∷ []), scan-write (b.size - off) b.cell off s text)

-- A string prints as its first bytes.
pub prefix-scan :
    (n m : ℕ) (c : Cells) (off : ℕ) (s : Bytes) → scan m c off ≡ some s → prefix n c off ≡ take n s
unfolding scan prefix
prefix-scan zero m c off s run = refl
prefix-scan (suc n) zero c off s run = absurd (ground arith)
prefix-scan (suc n) (suc m) c off [] run = ground arith
prefix-scan (suc n) (suc m) c off (x ∷ s) run = ground (arith, prefix-scan n m c (suc off) s)

pub prefix-load_str :
    (n : ℕ) (b : Buffer) (off : ℕ) (s : Bytes)
    → load_str b off ≡ some s
    → prefix n b.cell off ≡ take n s
unfolding load_str
prefix-load_str n b off s run = prefix-scan n (b.size - off) b.cell off s run
