-- ===== src/Block/Fields.antt =====
-- What the fields of a new block hold. A string that is longer than its field runs into the fields
-- behind it, which are written later.
use trust_chain.Base.{ℕ, ◌<◌, ◌^◌, ◌≡◌, List, [], ◌∷◌, ◌++◌, Bytes, take, drop, some, ok, arith}
use trust_chain.Memory.{Cells, Buffer, strcpy, store_u32, prefix, read_u32, u32_bytes}
use trust_chain.Memory.Laws.{IsText}
use trust_chain.Memory.Writes.{writes, Behind, Behind-append, text_field, u32_field}
use trust_chain.Platform.{Platform}
use trust_chain.Utils.{get_trust_time}
use trust_chain.Block.{init_base_block, init_access_block, init_contribution_block}
use trust_chain.Block.Layout

abbrev pub text_at : ℕ → Bytes → ℕ × Bytes
text_at off s = (off, s ++ 0 ∷ [])

abbrev pub u32_at : ℕ → ℕ → ℕ × Bytes
u32_at off x = (off, u32_bytes x)

-- The writes of `init_base_block`, in their order.
abbrev pub base_writes : ℕ → Bytes → ℕ → Bytes → Bytes → ℕ × ℕ → List (ℕ × Bytes)
base_writes height parent op sigkey signature (seconds, millis) =
    u32_at Layout.block_height height
    ∷ text_at Layout.parent_hash parent
    ∷ u32_at Layout.op op
    ∷ text_at Layout.sigkey sigkey
    ∷ text_at Layout.signature signature
    ∷ u32_at Layout.trust_seconds seconds
    ∷ u32_at Layout.trust_millis millis
    ∷ text_at Layout.tee_sig []
    ∷ []

module _ {W : Type 0} (p : Platform W) (raw b : Buffer) (height op : ℕ)
    (parent sigkey signature : Bytes) (w w' : W) where
  init_base_block-cells :
      init_base_block p raw height (some parent) op (some sigkey) (some signature) w ≡ (ok b, w')
      → b.cell
        ≡ writes (base_writes height parent op sigkey signature (p.get_system_time w).0) raw.cell
  unfolding init_base_block strcpy store_u32 get_trust_time
  init_base_block-cells run = ground arith

-- The writes of `init_contribution_block` and `init_access_block`.
abbrev pub contribution_writes : ℕ → Bytes → ℕ → Bytes → Bytes → Bytes → ℕ × ℕ → List (ℕ × Bytes)
contribution_writes height parent op commit_hash sigkey signature time =
    base_writes height parent op sigkey signature time
    ++ text_at Layout.commit_hash commit_hash ∷ []

abbrev pub access_writes : ℕ → Bytes → ℕ → ℕ → Bytes → Bytes → Bytes → ℕ × ℕ → List (ℕ × Bytes)
access_writes height parent op role pubkey sigkey signature time =
    base_writes height parent op sigkey signature time
    ++ u32_at Layout.role role ∷ text_at Layout.pubkey pubkey ∷ []

module _ {W : Type 0} (p : Platform W) (raw b : Buffer) (height op : ℕ)
    (parent sigkey signature : Bytes) (w w' : W) where
  pub init_contribution_block-cells :
      (commit_hash : Bytes)
      → init_contribution_block p raw height
          (some parent)
          op
          (some commit_hash)
          (some sigkey)
          (some signature)
          w
        ≡ (ok b, w')
      → b.cell
        ≡ writes
            (contribution_writes height parent op commit_hash sigkey signature
              (p.get_system_time w).0)
            raw.cell
  unfolding init_contribution_block init_base_block strcpy store_u32 get_trust_time
  init_contribution_block-cells commit_hash run = ground arith

  pub init_access_block-cells :
      (role : ℕ) (pubkey : Bytes)
      → init_access_block p raw height
          (some parent)
          op
          role
          (some pubkey)
          (some sigkey)
          (some signature)
          w
        ≡ (ok b, w')
      → b.cell
        ≡ writes
            (access_writes height parent op role pubkey sigkey signature (p.get_system_time w).0)
            raw.cell
  unfolding init_access_block init_base_block strcpy store_u32 get_trust_time
  init_access_block-cells role pubkey run = ground arith

-- The fields of a base block, as far as the block's hash reads them.
pub record HasBase (c : Cells) (height : ℕ) (parent : Bytes) (op : ℕ) (sigkey signature : Bytes)
    : Type 0 where
  pub height_set : read_u32 c Layout.block_height ≡ height
  pub parent_set : prefix 64 c Layout.parent_hash ≡ take 64 parent
  pub op_set : read_u32 c Layout.op ≡ op
  pub sigkey_set : prefix 256 c Layout.sigkey ≡ take 256 sigkey
  pub signature_set : prefix 256 c Layout.signature ≡ take 256 signature

module _ (c : Cells) (height op : ℕ) (parent sigkey signature : Bytes) (time : ℕ × ℕ)
    (more : List (ℕ × Bytes)) (behind : Behind 1616 more) (height_fits : height < 2 ^ 32)
    (op_fits : op < 2 ^ 32) (parent_text : IsText parent) (sigkey_text : IsText sigkey)
    (signature_text : IsText signature) where
  pub base_writes-HasBase :
      HasBase
        (writes (base_writes height parent op sigkey signature time ++ more) c)
        height
        parent
        op
        sigkey
        signature
  base_writes-HasBase = record {
    height_set =
        u32_field Layout.block_height height (drop 1 ws ++ more) c height_fits
          (Behind-append 4 1616 (drop 1 ws) more (omega arith) behind (omega arith));
    parent_set =
        text_field 64 Layout.parent_hash parent (drop 2 ws ++ more) (writes (take 1 ws) c)
          parent_text (Behind-append 68 1616 (drop 2 ws) more (omega arith) behind (omega arith));
    op_set =
        u32_field Layout.op op (drop 3 ws ++ more) (writes (take 2 ws) c) op_fits
          (Behind-append 72 1616 (drop 3 ws) more (omega arith) behind (omega arith));
    sigkey_set =
        text_field 256 Layout.sigkey sigkey (drop 4 ws ++ more) (writes (take 3 ws) c) sigkey_text
          (Behind-append 328 1616 (drop 4 ws) more (omega arith) behind (omega arith));
    signature_set =
        text_field 256 Layout.signature signature (drop 5 ws ++ more) (writes (take 4 ws) c)
          signature_text
          (Behind-append 840 1616 (drop 5 ws) more (omega arith) behind (omega arith));
  }
    where
      ws : List (ℕ × Bytes)
      ws = base_writes height parent op sigkey signature time

-- A contribution block that was made from texts and `uint32_t` numbers holds each of them where its
-- hash reads it, cut to what the hash reads, also where a text is longer than its field and ran
-- into the fields behind it.
pub contribution-fields :
    {W : Type 0} (p : Platform W) (raw b : Buffer) (height op : ℕ)
    (parent commit_hash sigkey signature : Bytes) (w w' : W)
    → height < 2 ^ 32
    → op < 2 ^ 32
    → IsText parent
    → IsText commit_hash
    → IsText sigkey
    → IsText signature
    → init_contribution_block p raw height
        (some parent)
        op
        (some commit_hash)
        (some sigkey)
        (some signature)
        w
      ≡ (ok b, w')
    → HasBase b.cell height parent op sigkey signature
      × (prefix 64 b.cell Layout.commit_hash ≡ take 64 commit_hash)
contribution-fields p raw b height op parent commit_hash sigkey signature w w' fh fo tp tc tk ts
      run =
    let time = (p.get_system_time w).0 in
    rw
      (init_contribution_block-cells p raw b height op parent sigkey signature w w' commit_hash run)
      (
        base_writes-HasBase raw.cell height op parent sigkey signature time
            (text_at Layout.commit_hash commit_hash ∷ []) (omega arith) fh fo tp tk ts,
        text_field 64 Layout.commit_hash commit_hash []
            (writes (base_writes height parent op sigkey signature time) raw.cell) tc tt,
      )

-- An access block that was made from texts and `uint32_t` numbers holds each of them where its hash
-- reads it, cut to what the hash reads, also where a text is longer than its field and ran into the
-- fields behind it.
pub access-fields :
    {W : Type 0} (p : Platform W) (raw b : Buffer) (height op role : ℕ)
    (parent pubkey sigkey signature : Bytes) (w w' : W)
    → height < 2 ^ 32
    → op < 2 ^ 32
    → role < 2 ^ 32
    → IsText parent
    → IsText pubkey
    → IsText sigkey
    → IsText signature
    → init_access_block p raw height
        (some parent)
        op
        role
        (some pubkey)
        (some sigkey)
        (some signature)
        w
      ≡ (ok b, w')
    → HasBase b.cell height parent op sigkey signature
      × (read_u32 b.cell Layout.role ≡ role)
      × (prefix 256 b.cell Layout.pubkey ≡ take 256 pubkey)
access-fields p raw b height op role parent pubkey sigkey signature w w' fh fo fr tp tc tk ts run =
    let time = (p.get_system_time w).0 in
    let base = writes (base_writes height parent op sigkey signature time) raw.cell in
    rw (init_access_block-cells p raw b height op parent sigkey signature w w' role pubkey run) (
      base_writes-HasBase raw.cell height op parent sigkey signature time
          (u32_at Layout.role role ∷ text_at Layout.pubkey pubkey ∷ []) (omega arith) fh fo tp tk
          ts,
      u32_field Layout.role role (text_at Layout.pubkey pubkey ∷ []) base fr (omega arith),
      text_field 256 Layout.pubkey pubkey [] (writes (u32_at Layout.role role ∷ []) base) tc tt,
    )
