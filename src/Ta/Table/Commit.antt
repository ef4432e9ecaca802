-- ===== src/Ta/Table/Commit.antt =====
-- `commit`, `get_latest_hash` and `get_tee_public_key` keep the key sets of every repository.
use trust_chain.Base.{ℕ, ◌≡◌, some, Bytes, ok, arith}
use trust_chain.Platform.{Platform}
use trust_chain.Ta.State.{Repo, Ta, validate_and_get_repo}
use trust_chain.Ta.Table.{IsSound, EndsSound, SameKeys, SameKeys-EndsSound, sound-rule}
use trust_chain.Ta.Commit.{
  CommitRequest, contribution_block, decrypt_key, read_commit, check_commit, apply_commit, commit,
}
use trust_chain.Ta.Query.{get_latest_hash, get_tee_public_key}

module _ {W : Type 0} (p : Platform W) where
  contribution_block-table :
      (r : Repo) (op : ℕ) (h k g : Bytes) (s : Ta W)
      → let s' = (contribution_block p r op h k g s).1 in
        (s'.repositories ≡ s.repositories) × (s'.repo_num ≡ s.repo_num)
  unfolding contribution_block
  contribution_block-table r op h k g s = ground arith

  decrypt_key-table :
      (s : Ta W)
      → let s' = (decrypt_key p s).1 in
        (s'.repositories ≡ s.repositories) × (s'.repo_num ≡ s.repo_num)
  unfolding decrypt_key
  decrypt_key-table s = ground arith

  pub read_commit-table :
      (t : ℕ) (s : Ta W)
      → let s' = (read_commit p t s).1 in
        (s'.repositories ≡ s.repositories) × (s'.repo_num ≡ s.repo_num)
  unfolding read_commit validate_and_get_repo
  read_commit-table t s = ground arith

  pub read_commit-found :
      (t : ℕ) (s : Ta W) (q : CommitRequest) (s' : Ta W)
      → read_commit p t s ≡ (ok q, s')
      → s'.repositories q.rep_id ≡ some q.repo
  unfolding read_commit validate_and_get_repo
  read_commit-found t s q s' run = ground arith

  pub check_commit-table :
      (t : ℕ) (s : Ta W)
      → let s' = (check_commit p t s).1 in
        (s'.repositories ≡ s.repositories) × (s'.repo_num ≡ s.repo_num)
  unfolding check_commit
  check_commit-table t s = ground (arith, read_commit-table t s)

  check_commit-SameKeys : (t : ℕ) (s : Ta W) → SameKeys s (check_commit p t s).1
  check_commit-SameKeys t s = let (same, num) = check_commit-table t s in (λ j. rw same, num)

  -- An accepted message is about a repository of the table.
  pub check_commit-found :
      (t : ℕ) (s : Ta W) (q : CommitRequest) (s' : Ta W)
      → check_commit p t s ≡ (ok q, s')
      → s'.repositories q.rep_id ≡ some q.repo
  unfolding check_commit
  check_commit-found t s q s' run = ground (arith, read_commit-found t s q (read_commit p t s).1)

  apply_commit-SameKeys :
      (q : CommitRequest) (s : Ta W)
      → s.repositories q.rep_id ≡ some q.repo
      → SameKeys s (apply_commit p q s).1
  unfolding apply_commit
  apply_commit-SameKeys q s e = (
    λ j. grind (arith, contribution_block-table, decrypt_key-table),
    grind (arith, contribution_block-table, decrypt_key-table),
  )

  pub commit-EndsSound : (t : ℕ) (s : Ta W) → IsSound s → EndsSound (commit p t s)
  unfolding commit
  commit-EndsSound t s sound =
      sound-rule (check_commit p t) (apply_commit p) s
        (SameKeys-EndsSound s _ (check_commit-SameKeys t s) sound)
        λ q s' run sound'.
          SameKeys-EndsSound s' _ (apply_commit-SameKeys q s' (check_commit-found t s q s' run))
            sound'

  pub get_latest_hash-SameKeys : (t : ℕ) (s : Ta W) → SameKeys s (get_latest_hash p t s).1
  unfolding get_latest_hash validate_and_get_repo
  get_latest_hash-SameKeys t s = (λ j. ground arith, ground arith)

  pub get_tee_public_key-SameKeys : (t : ℕ) (s : Ta W) → SameKeys s (get_tee_public_key p t s).1
  unfolding get_tee_public_key
  get_tee_public_key-SameKeys t s = (λ j. ground arith, ground arith)
