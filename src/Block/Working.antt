-- ===== src/Block/Working.antt =====
-- A block whose texts fit is made.
use trust_chain.Base.{ℕ, ◌≤◌, ◌<◌, ◌≡◌, ◌∙◌, Bytes, [], length, some, ok, arith}
use trust_chain.Memory.{Buffer, store_u32, u32_bytes}
use trust_chain.Memory.Fits.{store-fits, strcpy-fits}
use trust_chain.Platform.{Platform}
use trust_chain.Utils.{get_trust_time}
use trust_chain.Block.{init_base_block, init_access_block, init_contribution_block}

module _ {W : Type 0} (p : Platform W) where
  init_base_block_works :
      (raw : Buffer) (height op : ℕ) (parent sigkey signature : Bytes) (w : W)
      → 1680 ≤ raw.size
      → length parent ≤ 576
      → length sigkey < 512
      → length signature < 512
      → (b : Buffer) × ((init_base_block p raw height
            (some parent)
            op
            (some sigkey)
            (some signature)
            w).0
          ≡ ok b)
        × (b.size ≡ raw.size)
  unfolding init_base_block store_u32 get_trust_time
  init_base_block_works raw height op parent sigkey signature w size fp fk fg =
      let ((seconds, millis), w') = p.get_system_time w in
      let (b₁, e₁, s₁) = store-fits raw 0 (u32_bytes height) (omega arith) in
      let (b₂, e₂, s₂) = strcpy-fits b₁ 4 parent (omega arith) in
      let (b₃, e₃, s₃) = store-fits b₂ 68 (u32_bytes op) (omega arith) in
      let (b₄, e₄, s₄) = strcpy-fits b₃ 72 sigkey (omega arith) in
      let (b₅, e₅, s₅) = strcpy-fits b₄ 584 signature (omega arith) in
      let (b₆, e₆, s₆) = store-fits b₅ 1096 (u32_bytes seconds) (omega arith) in
      let (b₇, e₇, s₇) = store-fits b₆ 1100 (u32_bytes millis) (omega arith) in
      let (b₈, e₈, s₈) = strcpy-fits b₇ 1104 [] (omega arith) in
      (b₈, ground (arith, e₁, e₂, e₃, e₄, e₅, e₆, e₇, e₈), s₈ ∙ s₇ ∙ s₆ ∙ s₅ ∙ s₄ ∙ s₃ ∙ s₂ ∙ s₁)

  -- The texts of a contribution block fit its fields, but for the parent, which may run over.
  pub init_contribution_block_works :
      (raw : Buffer) (height op : ℕ) (parent commit_hash sigkey signature : Bytes) (w : W)
      → raw.size ≡ 1680
      → length parent ≤ 576
      → length commit_hash < 64
      → length sigkey < 512
      → length signature < 512
      → (b : Buffer) × ((init_contribution_block p raw height
            (some parent)
            op
            (some commit_hash)
            (some sigkey)
            (some signature)
            w).0
          ≡ ok b)
        × (b.size ≡ 1680)
  unfolding init_contribution_block
  init_contribution_block_works raw height op parent commit_hash sigkey signature w size fp fh fk
        fg =
      let (b₁, e₁, s₁) =
        init_base_block_works raw height op parent sigkey signature w (omega arith) fp fk fg in
      let (b₂, e₂, s₂) = strcpy-fits b₁ 1616 commit_hash (omega arith) in
      (b₂, ground (arith, e₁, e₂), s₂ ∙ s₁ ∙ size)

  pub init_access_block_works :
      (raw : Buffer) (height op role : ℕ) (parent pubkey sigkey signature : Bytes) (w : W)
      → raw.size ≡ 2132
      → length parent ≤ 576
      → length pubkey < 512
      → length sigkey < 512
      → length signature < 512
      → (b : Buffer) × ((init_access_block p raw height
            (some parent)
            op
            role
            (some pubkey)
            (some sigkey)
            (some signature)
            w).0
          ≡ ok b)
        × (b.size ≡ 2132)
  unfolding init_access_block store_u32
  init_access_block_works raw height op role parent pubkey sigkey signature w size fp fb fk fg =
      let (b₁, e₁, s₁) =
        init_base_block_works raw height op parent sigkey signature w (omega arith) fp fk fg in
      let (b₂, e₂, s₂) = store-fits b₁ 1616 (u32_bytes role) (omega arith) in
      let (b₃, e₃, s₃) = strcpy-fits b₂ 1620 pubkey (omega arith) in
      (b₃, ground (arith, e₁, e₂, e₃), s₃ ∙ s₂ ∙ s₁ ∙ size)
