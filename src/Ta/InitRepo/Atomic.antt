-- ===== src/Ta/InitRepo/Atomic.antt =====
-- A failed `init_repo` changes no repository.
use trust_chain.Base.{
  ℕ, ◌≡◌, none, err, TeeError, arith, Bool-cases, Option-cases, inl, inr, leb, ◌==◌, if◌then◌else◌,
}
use trust_chain.Memory.{load_str}
use trust_chain.Platform.{Platform}
use trust_chain.Ta.State.{Ta, max_repo_id}
use trust_chain.Ta.Table.{IsSound}
use trust_chain.Ta.InitRepo.{create_repo, init_repo}
use trust_chain.Ta.InitRepo.Table.{create_repo-Makes}

-- In a sound table the place `repo_num` was empty before.
emptied_same :
    {W : Type 0} (s s' : Ta W)
    → IsSound s
    → ((j : ℕ) → s'.repositories j ≡ (if j == s.repo_num then none else s.repositories j))
    → (j : ℕ) → s'.repositories j ≡ s.repositories j
emptied_same s s' sound at j = ground (arith, at j, sound.unused s.repo_num)

module _ {W : Type 0} (p : Platform W) where
  -- From a sound table, an `init_repo` that ends with an error, at whatever step, leaves every
  -- repository and the number of repositories as they were.
  pub init_repo_failed :
      (t : ℕ) (s s' : Ta W) (e : TeeError)
      → IsSound s
      → init_repo p t s ≡ (err e, s')
      → ((j : ℕ) → s'.repositories j ≡ s.repositories j) × (s'.repo_num ≡ s.repo_num)
  unfolding init_repo
  init_repo_failed t s s' e sound run = elim (Bool-cases (leb max_repo_id s.repo_num)) [
    | inl full ↦ (λ j. ground arith, ground arith)
    | inr room ↦ elim (Option-cases (load_str s.param0.memref 0)) [
      | inl unread ↦ (λ j. ground (arith, room, unread, run), ground (arith, room, unread, run))
      | inr (key, read) ↦ elim (Bool-cases (t == 1573)) [
        | inr wrong ↦ (λ j. ground (arith, wrong, run), ground (arith, wrong, run))
        | inl right ↦
            let failed : create_repo p s.repo_num key s ≡ (err e, s') =
              ground (arith, right, room, read, run) in
            let (at, num) = rw failed at (create_repo-Makes p key s (ground (arith, room))) in
            (emptied_same s s' sound at, num)
      ]
    ]
  ]
