-- ===== src/Block.antt =====
-- ta/block/block.h and block.c. A block is the bytes of its struct, at the offsets of
-- Block/Layout. The NULL tests on `base`, `block` and `hash` are on pointers to
-- locals of the callers.
pub mod Layout
pub mod Fields
pub mod Digest
pub mod Working
use trust_chain.Base.{
  ℕ, ◌+◌, Bytes, codes, [], ◌∷◌, ◌++◌, length, take, Option, none, some, Action, pure, defined,
  ◌>>=◌, ◌>>◌,
}
use trust_chain.Memory.{Cells, Buffer, strcpy, store_u32, read_u32, prefix}
use trust_chain.Decimal.{decimal}
use trust_chain.Platform.{Platform}
use trust_chain.Utils.{hash_data, get_trust_time}
use Layout

-- `if (s) strcpy(…, s); else strcpy(…, "");`, with `none` for NULL.
abbrev pub or_empty : Option Bytes → Bytes
or_empty none = []
or_empty (some s) = s

-- `snprintf` into an array of 1024 bytes keeps 1023 characters.
abbrev pub fit_1024 : Bytes → Bytes
fit_1024 s = take 1023 s

infixr 64 ◌⟨:⟩◌
-- Two parts of a format string with a colon between them.
abbrev pub ◌⟨:⟩◌ : Bytes → Bytes → Bytes
s ⟨:⟩ t = s ++ b':' ∷ t

-- The fields that both kinds of block print first.
unfoldable pub base_text : Cells → Bytes
base_text c =
    decimal (read_u32 c Layout.block_height)
    ⟨:⟩ prefix 64 c Layout.parent_hash
    ⟨:⟩ decimal (read_u32 c Layout.op)
    ⟨:⟩ prefix 256 c Layout.sigkey
    ⟨:⟩ prefix 256 c Layout.signature
    ⟨:⟩ decimal (read_u32 c Layout.trust_seconds)
    ⟨:⟩ decimal (read_u32 c Layout.trust_millis)

-- `data_buffer` of `calculate_access_block_hash`.
unfoldable pub access_text : Cells → Bytes
access_text c =
    fit_1024 (base_text c ⟨:⟩ decimal (read_u32 c Layout.role) ⟨:⟩ prefix 256 c Layout.pubkey)

-- `data_buffer` of `calculate_contribution_block_hash`.
unfoldable pub contribution_text : Cells → Bytes
contribution_text c = fit_1024 (base_text c ⟨:⟩ prefix 64 c Layout.commit_hash)

module _ {W : Type 0} (p : Platform W) where
  unfoldable pub init_base_block :
      Buffer → ℕ → Option Bytes → ℕ → Option Bytes → Option Bytes → Action W Buffer
  init_base_block base height parent_hash op sigkey signature = do
    b₁ ← defined (store_u32 base Layout.block_height height)
    b₂ ← defined (strcpy b₁ Layout.parent_hash (or_empty parent_hash))
    b₃ ← defined (store_u32 b₂ Layout.op op)
    b₄ ← defined (strcpy b₃ Layout.sigkey (or_empty sigkey))
    b₅ ← defined (strcpy b₄ Layout.signature (or_empty signature))
    (seconds, millis) ← get_trust_time p
    b₆ ← defined (store_u32 b₅ Layout.trust_seconds seconds)
    b₇ ← defined (store_u32 b₆ Layout.trust_millis millis)
    defined (strcpy b₇ Layout.tee_sig [])

  unfoldable pub init_access_block :
      Buffer
      → ℕ
      → Option Bytes
      → ℕ
      → ℕ
      → Option Bytes
      → Option Bytes
      → Option Bytes
      → Action W Buffer
  init_access_block block height parent_hash op role pubkey sigkey signature = do
    b₁ ← init_base_block block height parent_hash op sigkey signature
    b₂ ← defined (store_u32 b₁ Layout.role role)
    defined (strcpy b₂ Layout.pubkey (or_empty pubkey))

  unfoldable pub init_contribution_block :
      Buffer → ℕ → Option Bytes → ℕ → Option Bytes → Option Bytes → Option Bytes → Action W Buffer
  init_contribution_block block height parent_hash op commit_hash sigkey signature = do
    b₁ ← init_base_block block height parent_hash op sigkey signature
    defined (strcpy b₁ Layout.commit_hash (or_empty commit_hash))

  unfoldable pub calculate_access_block_hash : Cells → Action W Bytes
  calculate_access_block_hash c = hash_data p p.hash_room (access_text c)

  unfoldable pub calculate_contribution_block_hash : Cells → Action W Bytes
  calculate_contribution_block_hash c = hash_data p p.hash_room (contribution_text c)
