-- ===== src/Ta/InitRepo/Succeeds.antt =====
-- When `init_repo` succeeds.
use trust_chain.Base.{
  ℕ, ◌+◌, ◌≤◌, ◌<◌, ◌≡◌, refl, true, Bytes, [], ◌∷◌, ◌++◌, length, length-append, some, ok, arith,
  ◌∙◌, sym, subst, some-injective,
}
use trust_chain.Memory.{Buffer, Cells, load_str, strcpy, store, write}
use trust_chain.Memory.Fits.{strcpy-fits, memcpy-fits, scan_ends, write_nul}
use trust_chain.Platform.{Allocation, metadata, key_set, node_of, string_of, Platform}
use trust_chain.Hex.{hex}
use trust_chain.Hex.RoundTrip.{length-hex}
use trust_chain.Utils.{hash_data}
use trust_chain.KeyList.{add_key_to_set, create_key_node, copy_key_string}
use trust_chain.KeyManager.Working.{
  IsWorking, hash_data_works, tee_sign_hash_works, working-IsDigest,
}
use trust_chain.Block.{init_access_block, calculate_access_block_hash, access_text}
use trust_chain.Block.Working.{init_access_block_works}
use trust_chain.Ta.State.{Ta, max_repo_id, op_add, role_admin}
use trust_chain.Ta.InitRepo.{
  zero_hash, allocate_repo, add_founder, genesis_block, return_repo, create_repo, init_repo,
}
use trust_chain.Ta.InitRepo.Steps.{blank, founded}
use trust_chain.Ta.InitRepo.Chain.{Founds, init_repo-Founds}

-- The founder's key behind the latest hash, and the text that then stands in the names.
named_founder :
    (n₁ : Buffer) (key : Bytes)
    → n₁.size ≡ 576
    → length key < 512
    → (n : Buffer) × (parent : Bytes) × (strcpy n₁ 64 key ≡ some n)
      × (n.size ≡ 576)
      × (load_str n 0 ≡ some parent)
      × (length parent ≤ 576)
unfolding strcpy store load_str
named_founder n₁ key size fits =
    let c : Cells = write n₁.cell 64 (key ++ 0 ∷ []) in
    let (parent, read, short) =
      scan_ends 576 (64 + length key) c 0 (omega arith)
        (ground (arith, write_nul n₁.cell 64 key)) in
    (
      record { size = n₁.size; cell = c },
      parent,
      ground (arith, size, fits, length-append key (0 ∷ [])),
      size,
      ground (arith, size, read),
      omega arith,
    )

module _ {W : Type 0} (p : Platform W)
    (has_memory : (a : Allocation) (n : ℕ) (w : W) → (p.malloc a n w).0 ≡ true) where
  allocate_repo_works :
      (id : ℕ) (key : Bytes) (s : Ta W) (n₁ n : Buffer)
      → strcpy (record { size = 576; cell = λ _. 0 }) 0 zero_hash ≡ some n₁
      → strcpy n₁ 64 key ≡ some n
      → ((allocate_repo p id key s).0 ≡ ok (blank n))
        × ((allocate_repo p id key s).1.param2 ≡ s.param2)
  unfolding allocate_repo
  allocate_repo_works id key s n₁ n e e' =
      let w₁ = (p.malloc metadata 600 s.world).1 in
      let w₂ = (p.malloc key_set 16 w₁).1 in
      (
        ground (
          arith,
          e,
          e',
          has_memory metadata 600 s.world,
          has_memory key_set 16 w₁,
          has_memory key_set 16 w₂,
        ),
        ground (
          arith,
          e,
          e',
          has_memory metadata 600 s.world,
          has_memory key_set 16 w₁,
          has_memory key_set 16 w₂,
        ),
      )

  add_founder_works :
      (id : ℕ) (key : Bytes) (n : Buffer) (s : Ta W)
      → ((add_founder p id (blank n) key s).0 ≡ ok (founded n key))
        × ((add_founder p id (blank n) key s).1.param2 ≡ s.param2)
  unfolding add_founder add_key_to_set create_key_node copy_key_string
  add_founder_works id key n s =
      let w₁ = (p.malloc (node_of key) 16 s.world).1 in
      (
        ground (
          arith,
          has_memory (node_of key) 16 s.world,
          has_memory (string_of key) (length key + 1) w₁,
        ),
        ground (
          arith,
          has_memory (node_of key) 16 s.world,
          has_memory (string_of key) (length key + 1) w₁,
        ),
      )

-- What `init_repo` needs besides a platform that works and has memory: a place in the table, a
-- founder's key that fits its field, and room for the genesis block.
pub record IsReady {W : Type 0} (s : Ta W) (key : Bytes) : Type 0 where
  pub place : s.repo_num < max_repo_id
  pub key_read : load_str s.param0.memref 0 ≡ some key
  pub key_short : length key < 512
  pub block_room : 2132 ≤ s.param2.memref.size

module _ {W : Type 0} (p : Platform W) (sha : Bytes → Bytes) (working : IsWorking p sha)
    (spare : 64 < p.hash_room) where
  genesis_block_works :
      (key parent : Bytes) (n : Buffer) (s : Ta W)
      → length key < 512
      → load_str n 0 ≡ some parent
      → length parent ≤ 576
      → let (r, s') = genesis_block p (founded n key) key s in
        (b : Buffer) × (text : Bytes) × (r ≡ ok (b, hex (sha text))) × (s'.param2 ≡ s.param2)
  unfolding genesis_block calculate_access_block_hash
  genesis_block_works key parent n s short read fits =
      let raw : Buffer = record { size = 2132; cell = s.stack } in
      let (b, made, size) =
        init_access_block_works p raw 1 op_add role_admin parent key key [] s.world refl fits short
          short (omega arith) in
      let w₁ =
        (init_access_block p raw 1 (some parent) op_add role_admin (some key) (some key) (some [])
          s.world).1 in
      let text = access_text b.cell in
      let hashed = hash_data_works p sha working p.hash_room text w₁ spare in
      let (b', signed, size') =
        tee_sign_hash_works p sha working text b 1104 (hash_data p p.hash_room text w₁).1
          (omega arith) in
      (b', text, ground (arith, read, made, hashed, signed), ground arith)

  return_repo_works :
      (id : ℕ) (key text : Bytes) (n b : Buffer) (s : Ta W)
      → n.size ≡ 576
      → 2132 ≤ s.param2.memref.size
      → (return_repo p id (founded n key) b (hex (sha text)) s).0 ≡ ok tt
  unfolding return_repo
  return_repo_works id key text n b s size room =
      let (names, e, size₁) =
        strcpy-fits n 0 (hex (sha text))
          (ground (arith, length-hex (sha text), working.digest_size text, size)) in
      let (out, e', size₂) = memcpy-fits s.param2.memref b.cell 2132 room in ground (arith, e, e')

  module _ (has_memory : (a : Allocation) (n : ℕ) (w : W) → (p.malloc a n w).0 ≡ true) where
    create_repo_works :
        (id : ℕ) (key : Bytes) (s : Ta W)
        → length key < 512
        → 2132 ≤ s.param2.memref.size
        → (create_repo p id key s).0 ≡ ok tt
    unfolding create_repo
    create_repo_works id key s short room =
        let (n₁, e, size₁) =
          strcpy-fits (record { size = 576; cell = λ _. 0 }) 0 zero_hash (omega arith) in
        let (n, parent, e', size, read, fits) = named_founder n₁ key size₁ short in
        let (allocated, kept₁) = allocate_repo_works p has_memory id key s n₁ n e e' in
        let s₁ = (allocate_repo p id key s).1 in
        let (added, kept₂) = add_founder_works p has_memory id key n s₁ in
        let s₂ = (add_founder p id (blank n) key s₁).1 in
        let (b, text, made, kept₃) = genesis_block_works key parent n s₂ short read fits in
        let s₃ = (genesis_block p (founded n key) key s₂).1 in
        let returned =
          return_repo_works id key text n b s₃ size (ground (arith, kept₁, kept₂, kept₃, room)) in
        ground (arith, allocated, added, made, returned)

    -- On a working platform that has memory, with a byte to spare behind the hash array, an `init_repo` with the right parameters succeeds, where
    -- there are fewer than 1000 repositories, the founder's key has fewer than 512 characters, and the
    -- caller's memory holds a block. It makes the repository at the place `repo_num`, with that founder.
    pub init_repo_succeeds :
        (s : Ta W) (key : Bytes)
        → IsReady s key
        → (s' : Ta W) × (init_repo p 1573 s ≡ (ok tt, s')) × Founds sha s.repo_num key s s'
    unfolding init_repo
    init_repo_succeeds s key ready =
        let created = create_repo_works s.repo_num key s ready.key_short ready.block_room in
        let done : (init_repo p 1573 s).0 ≡ ok tt =
          ground (arith, ready.place, ready.key_read, created) in
        let s' = (init_repo p 1573 s).1 in
        let run : init_repo p 1573 s ≡ (ok tt, s') = λ i. (done i, s') in
        let (key', read, founds) =
          init_repo-Founds p sha (working-IsDigest p sha working) 1573 s s' run in
        let same : key' ≡ key = some-injective (sym read ∙ ready.key_read) in
        (s', run, subst (λ k. Founds sha s.repo_num k s s') same founds)
