-- ===== src/Ta/AccessControl/Succeeds.antt =====
-- When a change of the key sets succeeds.
use trust_chain.Base.{
  ℕ, ◌+◌, ◌%◌, ◌^◌, ◌≤◌, ◌<◌, ◌≡◌, refl, true, Bytes, length, some, ok, arith, ◌∙◌, ap,
  Option-cases, inl, inr,
}
use trust_chain.Memory.{Buffer, load_str}
use trust_chain.Memory.Fits.{strcpy-fits, memcpy-fits}
use trust_chain.Platform.{Allocation, Platform}
use trust_chain.Hex.{hex}
use trust_chain.Hex.RoundTrip.{IsByte, length-hex}
use trust_chain.Utils.{hash_data}
use trust_chain.KeyManager.Working.{
  IsWorking, hash_data_works, tee_sign_hash_works, working-IsDigest,
}
use trust_chain.Block.{init_access_block, calculate_access_block_hash, access_text}
use trust_chain.Block.Working.{init_access_block_works}
use trust_chain.Ta.State.{Repo, Ta, latest_hash, max_repo_id, validate_and_get_repo}
use trust_chain.Ta.Table.{IsSound, found-IsComplete}
use trust_chain.Ta.AccessControl.{
  AccessRequest, read_access, check_access, update_key_sets, append_access_block, apply_access,
  access_control,
}
use trust_chain.Ta.AccessControl.Authorised.{IsAuthorised}
use trust_chain.Ta.AccessControl.Roles.{role_of}
use trust_chain.Ta.AccessControl.Applies.{applies, update_key_sets_works, update_key_sets-param1}
use trust_chain.Ta.AccessControl.Atomic.{update_key_sets-head}
use trust_chain.Ta.AccessControl.Chain.{Changes, access_control-IsExtended}

module _ {W : Type 0} (p : Platform W) where
  -- An authorised message with the right parameters is read.
  read_access_complete :
      (s : Ta W) (q : AccessRequest)
      → q.rep_id < max_repo_id
      → IsAuthorised p s q
      → read_access p 101 s ≡ (ok q, s)
  unfolding read_access validate_and_get_repo
  read_access_complete s q lt a = elim (Option-cases q.repo.admin_keys) [
    | inl none_there ↦ absurd (ground (arith, none_there, a.admin))
    | inr (admins, ea) ↦ ground (
      arith, lt, a.op_read, a.changes_keys, a.rep_id_read, a.exists, a.sigkey_read, ea, a.admin,
      a.role_read, a.pubkey_read, a.signature_read,
    )
  ]

  check_access_complete :
      (s : Ta W) (q : AccessRequest)
      → q.rep_id < max_repo_id
      → IsAuthorised p s q
      → (s' : Ta W) × (check_access p 101 s ≡ (ok q, s'))
        × (s'.param1 ≡ s.param1)
        × (s'.repositories ≡ s.repositories)
  unfolding check_access
  check_access_complete s q lt a = (
    (check_access p 101 s).1,
    ground (arith, read_access_complete s q lt a, a.signed),
    ground (arith, read_access_complete s q lt a),
    ground (arith, read_access_complete s q lt a),
  )

-- What a change needs besides an authorised message: it applies to the key's role, the texts fit the
-- fields of a block, and there is room for the block.
pub record IsReady {W : Type 0} (s : Ta W) (q : AccessRequest) : Type 0 where
  pub applicable : applies q.op q.role (role_of q.repo q.pubkey) ≡ true
  pub parent : Bytes
  pub parent_read : load_str q.repo.names latest_hash ≡ some parent
  pub parent_short : length parent ≤ 576
  pub names_room : 64 < q.repo.names.size
  pub pubkey_short : length q.pubkey < 512
  pub sigkey_short : length q.sigkey < 512
  pub signature_short : length q.signature < 512
  pub block_room : 2132 ≤ s.param1.memref.size

module _ {W : Type 0} (p : Platform W) (sha : Bytes → Bytes) (working : IsWorking p sha)
    (spare : 64 < p.hash_room) where
  append_access_block_works :
      (s₀ s : Ta W) (q : AccessRequest) (r : Repo)
      → IsReady s₀ q
      → s.repositories q.rep_id ≡ some r
      → r.names ≡ q.repo.names
      → s.param1 ≡ s₀.param1
      → (append_access_block p q.rep_id q.op q.role q.pubkey q.sigkey q.signature s).0 ≡ ok tt
  unfolding append_access_block calculate_access_block_hash
  append_access_block_works s₀ s q r ready there names same =
      let height = (r.block_height + 1) % 2 ^ 32 in
      let raw : Buffer = record { size = 2132; cell = s.stack } in
      let (b, made, size) =
        init_access_block_works p raw height q.op q.role ready.parent q.pubkey q.sigkey q.signature
          s.world refl ready.parent_short ready.pubkey_short ready.sigkey_short
          ready.signature_short in
      let w₁ =
        (init_access_block p raw height (some ready.parent) q.op q.role (some q.pubkey)
          (some q.sigkey) (some q.signature) s.world).1 in
      let text = access_text b.cell in
      let hashed = hash_data_works p sha working p.hash_room text w₁ spare in
      let (b', signed, size') =
        tee_sign_hash_works p sha working text b 1104 (hash_data p p.hash_room text w₁).1
          (omega arith) in
      let (out, e, size₁) = memcpy-fits s₀.param1.memref b'.cell 2132 ready.block_room in
      let (n, e', size₂) =
        strcpy-fits q.repo.names latest_hash (hex (sha text))
          (ground (arith, length-hex (sha text), working.digest_size text, ready.names_room)) in
      ground (arith, there, names, same, ready.parent_read, made, hashed, signed, e, e')

  module _ (has_memory : (a : Allocation) (n : ℕ) (w : W) → (p.malloc a n w).0 ≡ true) where
    apply_access_works :
        (s₀ s : Ta W) (q : AccessRequest)
        → IsSound s₀
        → IsReady s₀ q
        → s₀.repositories q.rep_id ≡ some q.repo
        → s.repositories ≡ s₀.repositories
        → s.param1 ≡ s₀.param1
        → (apply_access p q s).0 ≡ ok tt
    unfolding apply_access
    apply_access_works s₀ s q sound ready there same same₁ =
        let (lt, (admins, writers, ea, ew, v)) = found-IsComplete sound q.rep_id q.repo there in
        let updated =
          update_key_sets_works p has_memory q.rep_id q.repo q.pubkey s admins writers ea ew q.op
            q.role (ground (arith, ready.applicable, ea, ew)) in
        let s₁ = (update_key_sets p q.rep_id q.repo q.op q.role q.pubkey s).1 in
        let kept = update_key_sets-param1 p q.rep_id q.op q.role q.repo q.pubkey s in
        let here : s.repositories q.rep_id ≡ some q.repo = ap (λ f. f q.rep_id) same ∙ there in
        let head = update_key_sets-head p q.rep_id q.op q.role q.repo q.pubkey s q.rep_id here in
        elim (Option-cases (s₁.repositories q.rep_id)) [
          | inl gone ↦ absurd (ground (arith, gone, head, here))
          | inr (r, found) ↦ ground (
            arith,
            updated,
            append_access_block_works s₀ s₁ q r ready found (ground (arith, found, head, here))
                (kept ∙ same₁),
          )
        ]

    -- On a working platform that has memory, with a byte to spare behind the hash array, from a sound table, a change of the key sets with the right
    -- parameters and an authorised message of bytes about one of the 1000 repositories succeeds, where it
    -- applies to the role that the key has, the texts fit the fields of a block, the repository
    -- has a latest hash, and the caller's memory holds a block. It then assigns the role and
    -- extends the chain of the repository that its message names, and changes no other repository.
    pub access_control_succeeds :
        (s : Ta W) (q : AccessRequest)
        → IsSound s
        → ((a : ℕ) → IsByte (s.param0.memref.cell a))
        → q.rep_id < max_repo_id
        → IsAuthorised p s q
        → IsReady s q
        → (s' : Ta W) × (access_control p 101 s ≡ (ok tt, s')) × Changes p sha s s'
    unfolding access_control
    access_control_succeeds s q sound bytes lt a ready =
        let (s₁, checked, kept, same) = check_access_complete p s q lt a in
        let done : (access_control p 101 s).0 ≡ ok tt =
          ground (arith, checked, apply_access_works s s₁ q sound ready a.exists same kept) in
        let s' = (access_control p 101 s).1 in
        let run : access_control p 101 s ≡ (ok tt, s') = λ i. (done i, s') in
        (
          s',
          run,
          access_control-IsExtended p sha (working-IsDigest p sha working) 101 s s' sound bytes run,
        )
