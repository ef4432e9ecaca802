-- ===== src/Ta/Commit/Succeeds.antt =====
-- When a commit succeeds.
use trust_chain.Base.{
  Option-cases, inl, inr, ◌+◌, ◌*◌, ◌%◌, ◌^◌, ◌≤◌, ◌<◌, ◌≡◌, refl, Bytes, [], ◌∷◌, length, some, ok,
  arith, ◌∙◌,
}
use trust_chain.Memory.{Buffer, load_str}
use trust_chain.Platform.{Platform, Handle}
use trust_chain.Utils.{hash_data}
use trust_chain.Hex.{hex, hex_string_to_bytes}
use trust_chain.Memory.Fits.{store-fits, strcpy-fits, memcpy-fits}
use trust_chain.Block.Working.{init_contribution_block_works}
use trust_chain.KeyManager.Working.{
  IsWorking, hash_data_works, tee_sign_hash_works, tee_decrypt_data_works, working-IsDigest,
}
use trust_chain.Block.{
  init_contribution_block, calculate_contribution_block_hash, contribution_text,
}
use trust_chain.Ta.State.{Ta, latest_hash, max_repo_id, validate_and_get_repo}
use trust_chain.Ta.Commit.{
  CommitRequest, read_commit, check_commit, contribution_block, decrypt_key, apply_commit, commit,
}
use trust_chain.Hex.RoundTrip.{length-hex}
use trust_chain.Ta.Commit.Chain.{Commits, commit-IsExtended}
use trust_chain.Ta.Commit.Authorised.{IsAuthorised}

module _ {W : Type 0} (p : Platform W) where
  -- An authorised message with the right parameters is read.
  read_commit_complete :
      (s : Ta W) (q : CommitRequest)
      → q.rep_id < max_repo_id
      → IsAuthorised p s q
      → read_commit p 1653 s ≡ (ok q, s)
  unfolding read_commit validate_and_get_repo
  read_commit_complete s q lt a = elim (Option-cases q.repo.admin_keys) [
    | inl none_there ↦ absurd (ground (arith, none_there, a.member))
    | inr (admins, ea) ↦ elim (Option-cases q.repo.writer_keys) [
      | inl none_there ↦ absurd (ground (arith, ea, none_there, a.member))
      | inr (writers, ew) ↦ ground (
        arith, lt, a.op_read, a.commits, a.rep_id_read, a.exists, a.sigkey_read, ea, ew, a.member,
        a.commit_hash_read, a.signature_read,
      )
    ]
  ]

  -- It also passes the check of its signature.
  check_commit_complete :
      (s : Ta W) (q : CommitRequest)
      → q.rep_id < max_repo_id
      → IsAuthorised p s q
      → (s' : Ta W) × (check_commit p 1653 s ≡ (ok q, s'))
        × (s'.param1 ≡ s.param1)
        × (s'.param2 ≡ s.param2)
  unfolding check_commit
  check_commit_complete s q lt a = (
    (check_commit p 1653 s).1,
    ground (arith, read_commit_complete s q lt a, a.signed),
    ground (arith, read_commit_complete s q lt a),
    ground (arith, read_commit_complete s q lt a),
  )

-- What a commit needs besides an authorised message: the lengths of the texts, which the fields of
-- a block must hold, the room for the results, and a key of the caller that the key pair decrypts
-- to fewer than 128 bytes.
pub record IsReady {W : Type 0} (p : Platform W) (s : Ta W) (q : CommitRequest) : Type 0 where
  pub parent : Bytes
  pub parent_read : load_str q.repo.names latest_hash ≡ some parent
  pub parent_short : length parent ≤ 576
  pub names_room : 64 < q.repo.names.size
  pub commit_hash_short : length q.commit_hash < 64
  pub sigkey_short : length q.sigkey < 512
  pub signature_short : length q.signature < 512
  pub encrypted : Bytes
  pub cipher : Bytes
  pub key_read : load_str s.param1.memref 0 ≡ some encrypted
  pub key_decoded : hex_string_to_bytes 256 encrypted ≡ ok cipher
  pub key_decrypts :
      (op : Handle) (w : W)
      → (plain : Bytes) × ((p.asymmetric_decrypt op cipher w).0 ≡ ok plain)
        × (2 * length plain < 256)
  pub key_room : 256 ≤ s.param1.memref.size
  pub block_room : 1680 ≤ s.param2.memref.size

module _ {W : Type 0} (p : Platform W) (sha : Bytes → Bytes) (working : IsWorking p sha)
    (spare : 64 < p.hash_room) where
  contribution_block_works :
      (s₀ s : Ta W) (q : CommitRequest)
      → IsReady p s₀ q
      → let (r, s') = contribution_block p q.repo q.op q.commit_hash q.sigkey q.signature s in
        (b : Buffer) × (text : Bytes) × (r ≡ ok (b, hex (sha text)))
        × (s'.param1 ≡ s.param1)
        × (s'.param2 ≡ s.param2)
  unfolding contribution_block calculate_contribution_block_hash
  contribution_block_works s₀ s q ready =
      let height = (q.repo.block_height + 1) % 2 ^ 32 in
      let raw : Buffer = record { size = 1680; cell = s.stack } in
      let (b, made, size) =
        init_contribution_block_works p raw height q.op ready.parent q.commit_hash q.sigkey
          q.signature s.world refl ready.parent_short ready.commit_hash_short ready.sigkey_short
          ready.signature_short in
      let w₁ =
        (init_contribution_block p raw height (some ready.parent) q.op (some q.commit_hash)
          (some q.sigkey) (some q.signature) s.world).1 in
      let text = contribution_text b.cell in
      let hashed = hash_data_works p sha working p.hash_room text w₁ spare in
      let w₂ = (hash_data p p.hash_room text w₁).1 in
      let (b', signed, size') = tee_sign_hash_works p sha working text b 1104 w₂ (omega arith) in
      (
        b',
        text,
        ground (arith, ready.parent_read, made, hashed, signed),
        ground arith,
        ground arith,
      )

  decrypt_key_works :
      (s₀ s : Ta W) (q : CommitRequest)
      → IsReady p s₀ q
      → s.param1 ≡ s₀.param1
      → ((decrypt_key p s).0 ≡ ok tt) × ((decrypt_key p s).1.param2 ≡ s.param2)
  unfolding decrypt_key
  decrypt_key_works s₀ s q ready same =
      let array : Buffer = record { size = 256; cell = s.stack } in
      let (b, plain, decrypted, short) =
        tee_decrypt_data_works p sha working ready.encrypted ready.cipher array s.world
          ready.key_decoded ready.key_decrypts in
      let (copied, e, size) =
        memcpy-fits s.param1.memref b.cell (length plain * 2)
          (ground (arith, same, ready.key_room, short)) in
      let (ended, e', size') =
        store-fits copied (length plain * 2) (0 ∷ [])
          (ground (arith, same, ready.key_room, short, size)) in
      (ground (arith, same, ready.key_read, decrypted, e, e'), ground arith)

  apply_commit_works :
      (s₀ s : Ta W) (q : CommitRequest)
      → IsReady p s₀ q
      → s.param1 ≡ s₀.param1
      → s.param2 ≡ s₀.param2
      → (apply_commit p q s).0 ≡ ok tt
  unfolding apply_commit
  apply_commit_works s₀ s q ready same₁ same₂ =
      let (b, text, made, kept₁, kept₂) = contribution_block_works s₀ s q ready in
      let s₁ = (contribution_block p q.repo q.op q.commit_hash q.sigkey q.signature s).1 in
      let (decrypted, kept) = decrypt_key_works s₀ s₁ q ready (kept₁ ∙ same₁) in
      let (out, e, size) = memcpy-fits s₀.param2.memref b.cell 1680 ready.block_room in
      let (names, e', size') =
        strcpy-fits q.repo.names latest_hash (hex (sha text))
          (ground (arith, length-hex (sha text), working.digest_size text, ready.names_room)) in
      ground (arith, made, decrypted, kept, kept₂, same₂, e, e')

  -- On a working platform, with a byte to spare behind the hash array, a commit with the right parameters and an authorised message about one of
  -- the 1000 repositories succeeds, where the texts fit the fields of a block, the repository has a latest
  -- hash, the results fit the caller's memory, and the caller's key decrypts to fewer than 128 bytes.
  -- It then extends the chain of the repository that its message names by that message's request, and
  -- changes no other repository.
  pub commit_succeeds :
      (s : Ta W) (q : CommitRequest)
      → q.rep_id < max_repo_id
      → IsAuthorised p s q
      → IsReady p s q
      → (s' : Ta W) × (commit p 1653 s ≡ (ok tt, s')) × Commits p sha s s'
  unfolding commit
  commit_succeeds s q lt a ready =
      let (s₁, checked, kept₁, kept₂) = check_commit_complete p s q lt a in
      let done : (commit p 1653 s).0 ≡ ok tt =
        ground (arith, checked, apply_commit_works s s₁ q ready kept₁ kept₂) in
      let run : commit p 1653 s ≡ (ok tt, (commit p 1653 s).1) =
        λ i. (done i, (commit p 1653 s).1) in
      (
        (commit p 1653 s).1,
        run,
        commit-IsExtended p sha (working-IsDigest p sha working) 1653 s _ run,
      )
