-- ===== src/Ta/Commit/Authorised.antt =====
-- Who may commit.
use trust_chain.Base.{
  ℕ, ◌≡◌, ◌≢◌, Bytes, some, none, Outcome-cases, ok, arith, ◌⊎◌, inl, inr, Bool, true, false, ◌||◌,
}
use trust_chain.Memory.{load_u32, load_str}
use trust_chain.Platform.{Platform}
use trust_chain.KeyList.{key_exists_in_set}
use trust_chain.Utils.{verify_signature}
use trust_chain.Ta.State.{Repo, Ta, op_push, op_pr, validate_and_get_repo}
use trust_chain.Ta.Commit.{
  CommitRequest, commit_request, read_commit, check_commit, commit, rep_id_at, op_at,
  commit_hash_at, sigkey_at, signature_at,
}
use trust_chain.Ta.Commit.Atomic.{check_commit-repositories}

-- Whether a key is among the administrators or the writers of a repository.
abbrev pub may_commit : Repo → Bytes → Bool
may_commit r key = elim r.admin_keys [
  | none ↦ false
  | some admins ↦ elim r.writer_keys [
    | none ↦ false
    | some writers ↦ key_exists_in_set admins key || key_exists_in_set writers key
  ]
]

-- The request `q` is what the message in the first parameter says, about a repository that is there,
-- with an operation that commits, and signed by a member of that repository.
pub record IsAuthorised {W : Type 0} (p : Platform W) (s : Ta W) (q : CommitRequest) : Type 0 where
  pub rep_id_read : load_u32 s.param0.memref rep_id_at ≡ some q.rep_id
  pub op_read : load_u32 s.param0.memref op_at ≡ some q.op
  pub commit_hash_read : load_str s.param0.memref commit_hash_at ≡ some q.commit_hash
  pub sigkey_read : load_str s.param0.memref sigkey_at ≡ some q.sigkey
  pub signature_read : load_str s.param0.memref signature_at ≡ some q.signature
  pub commits : (q.op ≡ op_push) ⊎ (q.op ≡ op_pr)
  pub exists : s.repositories q.rep_id ≡ some q.repo
  pub member : may_commit q.repo q.sigkey ≡ true
  pub signed :
      (verify_signature p
        (commit_request q.rep_id q.op q.commit_hash)
        q.sigkey
        q.signature
        s.world).0
      ≡ ok tt

module _ {W : Type 0} (p : Platform W) where
  module _ (t : ℕ) (s s' : Ta W) (q : CommitRequest) (run : read_commit p t s ≡ (ok q, s')) where
    read_commit-message :
        (load_u32 s.param0.memref rep_id_at ≡ some q.rep_id)
        × (load_u32 s.param0.memref op_at ≡ some q.op)
        × (load_str s.param0.memref commit_hash_at ≡ some q.commit_hash)
        × (load_str s.param0.memref sigkey_at ≡ some q.sigkey)
        × (load_str s.param0.memref signature_at ≡ some q.signature)
    unfolding read_commit validate_and_get_repo
    read_commit-message = ground arith

    read_commit-guards :
        ((q.op ≡ op_push) ⊎ (q.op ≡ op_pr))
        × (s.repositories q.rep_id ≡ some q.repo)
        × (may_commit q.repo q.sigkey ≡ true)
        × (s'.world ≡ s.world)
    unfolding read_commit validate_and_get_repo
    read_commit-guards = ground arith

  check_commit-parts :
      (t : ℕ) (s : Ta W) (q : CommitRequest)
      → (check_commit p t s).0 ≡ ok q
      → let (r, s₁) = read_commit p t s in
        (r ≡ ok q)
        × ((verify_signature p
              (commit_request q.rep_id q.op q.commit_hash)
              q.sigkey
              q.signature
              s₁.world).0
            ≡ ok tt)
  unfolding check_commit
  check_commit-parts t s q run = ground arith

  pub check_commit-IsAuthorised :
      (t : ℕ) (s : Ta W) (q : CommitRequest) → (check_commit p t s).0 ≡ ok q → IsAuthorised p s q
  check_commit-IsAuthorised t s q run =
      let (read, signed) = check_commit-parts t s q run in
      let run₁ : read_commit p t s ≡ (ok q, (read_commit p t s).1) =
        λ i. (read i, (read_commit p t s).1) in
      let (rep_id, op, hash, sigkey, signature) = read_commit-message t s _ q run₁ in
      let (commits, exists, member, world) = read_commit-guards t s _ q run₁ in
      record {
        rep_id_read = rep_id;
        op_read = op;
        commit_hash_read = hash;
        sigkey_read = sigkey;
        signature_read = signature;
        commits = commits;
        exists = exists;
        member = member;
        signed = rw world at signed;
      }

  -- A commit either does not succeed and changes no repository, or its message names a repository
  -- that is there and an operation PUSH or PR, and the key that it names is an administrator's or a
  -- writer's of that repository, for which the check of the message's signature over repository,
  -- operation and commit hash succeeds.
  pub commit-IsAuthorised :
      (t : ℕ) (s : Ta W)
      → let (r, s') = commit p t s in
        ((r ≢ ok tt) × (s'.repositories ≡ s.repositories))
        ⊎ ((q : CommitRequest) × IsAuthorised p s q)
  unfolding commit
  commit-IsAuthorised t s = elim (Outcome-cases (check_commit p t s).0) [
    | inl (q, e) ↦ inr (q, check_commit-IsAuthorised t s q e)
    | inr refused ↦ inl (ground (arith, check_commit-repositories p t s, refused))
  ]
