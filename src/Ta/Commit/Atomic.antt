-- ===== src/Ta/Commit/Atomic.antt =====
-- A failed commit changes no repository.
use trust_chain.Base.{ℕ, ◌≡◌, Bytes, err, TeeError, arith}
use trust_chain.Platform.{Platform}
use trust_chain.Ta.State.{Repo, Ta, validate_and_get_repo}
use trust_chain.Ta.Commit.{
  contribution_block, decrypt_key, CommitRequest, read_commit, check_commit, apply_commit, commit,
}

module _ {W : Type 0} (p : Platform W) where
  pub contribution_block-repositories :
      (r : Repo) (op : ℕ) (h k g : Bytes) (s : Ta W)
      → (contribution_block p r op h k g s).1.repositories ≡ s.repositories
  unfolding contribution_block
  contribution_block-repositories r op h k g s = ground arith

  pub decrypt_key-repositories : (s : Ta W) → (decrypt_key p s).1.repositories ≡ s.repositories
  unfolding decrypt_key
  decrypt_key-repositories s = ground arith

  read_commit-repositories :
      (t : ℕ) (s : Ta W) → (read_commit p t s).1.repositories ≡ s.repositories
  unfolding read_commit validate_and_get_repo
  read_commit-repositories t s = ground arith

  pub check_commit-repositories :
      (t : ℕ) (s : Ta W) → (check_commit p t s).1.repositories ≡ s.repositories
  unfolding check_commit
  check_commit-repositories t s = ground (arith, read_commit-repositories t s)

  apply_commit_failed :
      (q : CommitRequest) (s : Ta W) (e : TeeError)
      → (apply_commit p q s).0 ≡ err e
      → (apply_commit p q s).1.repositories ≡ s.repositories
  unfolding apply_commit
  apply_commit_failed q s e h =
      grind (arith, contribution_block-repositories, decrypt_key-repositories)

  -- A commit that ends with an error, at whatever step, changes no repository.
  pub commit_failed :
      (t : ℕ) (s s' : Ta W) (e : TeeError)
      → commit p t s ≡ (err e, s')
      → s'.repositories ≡ s.repositories
  unfolding commit
  commit_failed t s s' e h = grind (arith, check_commit-repositories, apply_commit_failed)
