-- ===== src/Ta/Overrun.antt =====
-- The 65 bytes of a hash in the local arrays of 64 bytes of trust_chain_ta.c.
use trust_chain.Base.{
  ℕ, ◌≤◌, ◌≡◌, ◌≢◌, Bytes, [], defined, gets, ◌+◌, ◌%◌, ◌^◌, length, ok, arith, >>=-ok, some, ◌>>=◌,
  ◌>>◌, pure, on_error, ap, Action, Outcome,
}
use trust_chain.Memory.{load_str, memcpy, strcpy}
use trust_chain.Platform.{Platform, Handle}
use trust_chain.KeyManager.{tee_sign_hash}
use trust_chain.Utils.{compute_sha256_hash, hash_data}
use trust_chain.Block.{
  init_access_block, init_contribution_block, calculate_access_block_hash,
  calculate_contribution_block_hash, access_text, contribution_text,
}
use trust_chain.Block.Layout
use trust_chain.Ta.State.{
  Repo, Ta, on_world, local, set_memref1, set_repo, latest_hash, op_add, role_admin,
}
use trust_chain.Ta.InitRepo.{
  cleanup_repo_resources, allocate_repo, add_founder, genesis_block, create_repo, init_repo,
}
use trust_chain.Ta.AccessControl.{
  AccessRequest, update_key_sets, append_access_block, apply_access, access_control, check_access,
}
use trust_chain.Ta.Commit.{CommitRequest, contribution_block, apply_commit, commit, check_commit}

-- A SHA-256 digest has 32 bytes.
pub record Has32Bytes {W : Type 0} (p : Platform W) : Type 0 where
  pub digest_size :
      (op : Handle) (text d : Bytes) (w : W)
      → (p.digest_do_final op text w).0 ≡ ok d
      → length d ≡ 32

-- A run that ends without a value.
HasNoValue : {S A : Type 0} → Outcome A × S → Type 0
HasNoValue {S} {A} x = (a : A) → x.0 ≢ ok a

-- A call that never returns a value.
abbrev Never : {S A : Type 0} → Action S A → Type 0
Never {S} m = (s : S) → HasNoValue (m s)

before-Never : {S A B : Type 0} (m : Action S A) (f : A → Action S B) → Never m → Never (m >>= f)
unfolding HasNoValue
before-Never m f never s b run =
    let (a, s₁, done, _) = >>=-ok m f s ((m >>= f) s).1 b (λ i. (run i, ((m >>= f) s).1)) in
    never s a (ap (λ x. x.0) done)

behind-Never :
    {S A B : Type 0} (m : Action S A) (f : A → Action S B)
    → ((a : A) → Never (f a))
    → Never (m >>= f)
unfolding HasNoValue
behind-Never m f never s b run =
    let (a, s₁, _, rest) = >>=-ok m f s ((m >>= f) s).1 b (λ i. (run i, ((m >>= f) s).1)) in
    never a s₁ b (ap (λ x. x.0) rest)

on_world-Never : {W A : Type 0} (m : Action W A) → Never m → Never (on_world m)
unfolding HasNoValue
on_world-Never m never s a run = never s.world a run

on_error-Never : {S A : Type 0} (m : Action S A) (f : S → S) → Never m → Never (on_error m f)
unfolding HasNoValue
on_error-Never m f never s a run = ground (arith, never s a, run)

module _ {W : Type 0} (p : Platform W) (sized : Has32Bytes p) (strict : p.hash_room ≤ 64) where
  compute_sha256_hash-size :
      (text d : Bytes) (w : W) → (compute_sha256_hash p text w).0 ≡ ok d → length d ≡ 32
  unfolding compute_sha256_hash
  compute_sha256_hash-size text d w run = grind (arith, run, sized.digest_size)

  hash_data-Never : (text : Bytes) → Never (hash_data p p.hash_room text)
  unfolding hash_data HasNoValue
  hash_data-Never text w h run = grind (arith, run, strict, compute_sha256_hash-size)

  genesis_block-Never : (r : Repo) (key : Bytes) → Never (genesis_block p r key)
  unfolding genesis_block calculate_access_block_hash
  genesis_block-Never r key = behind-Never (defined (load_str r.names latest_hash)) _ λ parent.
      behind-Never (local Layout.access_block_size) _ λ raw.
        behind-Never
          (on_world (
            init_access_block p raw 1 (some parent) op_add role_admin (some key) (some key)
              (some [])))
          _
          λ block.
            before-Never (on_world (hash_data p p.hash_room (access_text block.cell)))
              (λ hash. do
                signed ← on_world (tee_sign_hash p hash block Layout.tee_sig)
                pure (signed, hash))
              (on_world-Never (hash_data p p.hash_room (access_text block.cell))
                (hash_data-Never (access_text block.cell)))

  create_repo-Never : (id : ℕ) (key : Bytes) → Never (create_repo p id key)
  unfolding create_repo
  create_repo-Never id key = behind-Never (allocate_repo p id key) _ λ repo.
      behind-Never (add_founder p id repo key) _ λ repo'.
        before-Never (on_error (genesis_block p repo' key) (cleanup_repo_resources p id)) _ (
          on_error-Never (genesis_block p repo' key) (cleanup_repo_resources p id)
            (genesis_block-Never repo' key))

  append_access_block-Never :
      (id op role : ℕ) (k g sig : Bytes) → Never (append_access_block p id op role k g sig)
  unfolding append_access_block calculate_access_block_hash
  append_access_block-Never id op role k g sig =
      behind-Never (gets (λ s. s.repositories id)) _ λ found. behind-Never (defined found) _ λ repo.
        behind-Never (defined (load_str repo.names latest_hash)) _ λ parent.
          behind-Never (local Layout.access_block_size) _ λ raw.
            behind-Never
              (on_world (
                init_access_block p raw ((repo.block_height + 1) % 2 ^ 32) (some parent) op role
                  (some k) (some g) (some sig)))
              _
              λ block.
                before-Never (on_world (hash_data p p.hash_room (access_text block.cell)))
                  (λ hash. do
                    signed ← on_world (tee_sign_hash p hash block Layout.tee_sig)
                    out ← gets (λ s. s.param1.memref)
                    out' ← defined (memcpy out signed.cell Layout.access_block_size)
                    set_memref1 out'
                    names ← defined (strcpy repo.names latest_hash hash)
                    set_repo id (record repo {
                      names = names;
                      block_height = (repo.block_height + 1) % 2 ^ 32;
                    }))
                  (on_world-Never (hash_data p p.hash_room (access_text block.cell))
                    (hash_data-Never (access_text block.cell)))

  apply_access-Never : (q : AccessRequest) → Never (apply_access p q)
  unfolding apply_access
  apply_access-Never q =
      behind-Never (update_key_sets p q.rep_id q.repo q.op q.role q.pubkey) _
        λ _. append_access_block-Never q.rep_id q.op q.role q.pubkey q.sigkey q.signature

  contribution_block-Never :
      (r : Repo) (op : ℕ) (hash key sig : Bytes) → Never (contribution_block p r op hash key sig)
  unfolding contribution_block calculate_contribution_block_hash
  contribution_block-Never r op hash key sig =
      behind-Never (defined (load_str r.names latest_hash)) _ λ parent.
        behind-Never (local Layout.contribution_block_size) _ λ raw.
          behind-Never
            (on_world (
              init_contribution_block p raw ((r.block_height + 1) % 2 ^ 32) (some parent) op
                (some hash) (some key) (some sig)))
            _
            λ block.
              before-Never (on_world (hash_data p p.hash_room (contribution_text block.cell)))
                (λ hash. do
                  signed ← on_world (tee_sign_hash p hash block Layout.tee_sig)
                  pure (signed, hash))
                (on_world-Never (hash_data p p.hash_room (contribution_text block.cell))
                  (hash_data-Never (contribution_text block.cell)))

  apply_commit-Never : (q : CommitRequest) → Never (apply_commit p q)
  unfolding apply_commit
  apply_commit-Never q =
      before-Never (contribution_block p q.repo q.op q.commit_hash q.sigkey q.signature) _
        (contribution_block-Never q.repo q.op q.commit_hash q.sigkey q.signature)

  init_repo-never : (t : ℕ) (s : Ta W) → (init_repo p t s).0 ≢ ok tt
  unfolding init_repo HasNoValue
  init_repo-never t s run = grind (arith, run, create_repo-Never)

  -- Where a digest has 32 bytes and the stack has no byte to spare behind the 64 of a command's hash
  -- array, `init_repo`, `access_control` and `commit` never return TEE_SUCCESS, whatever their
  -- parameters and the state: they end with an error, or in the undefined behaviour of the NUL that
  -- is written behind the array.
  pub hash_array-overflow :
      (t : ℕ) (s : Ta W)
      → ((init_repo p t s).0 ≢ ok tt)
        × ((access_control p t s).0 ≢ ok tt)
        × ((commit p t s).0 ≢ ok tt)
  unfolding access_control commit HasNoValue
  hash_array-overflow t s = (
    init_repo-never t s,
    behind-Never (check_access p t) (apply_access p) apply_access-Never s tt,
    behind-Never (check_commit p t) (apply_commit p) apply_commit-Never s tt,
  )
