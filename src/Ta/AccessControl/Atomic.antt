-- ===== src/Ta/AccessControl/Atomic.antt =====
-- What a failed `access_control` leaves.
use trust_chain.Base.{
  ℕ, ◌≡◌, Bytes, Option, none, some, err, TeeError, arith, Outcome-cases, inl, inr,
}
use trust_chain.Memory.{Buffer}
use trust_chain.Platform.{Platform}
use trust_chain.Ta.State.{Repo, Ta}
use trust_chain.Ta.AccessControl.{
  AccessRequest, add_admin, add_writer, delete_admin, delete_writer, update_key_sets,
  append_access_block, check_access, apply_access, access_control,
}
use trust_chain.Ta.AccessControl.Authorised.{check_access-repositories}
use trust_chain.Ta.Table.AccessControl.{check_access-found}

-- The end of a repository's chain: its names, the latest hash among them, and its height.
abbrev pub head_at : Option Repo → Option (Buffer × ℕ)
head_at none = none
head_at (some r) = some (r.names, r.block_height)

module _ {W : Type 0} (p : Platform W) where
  pub update_key_sets-head :
      (id op role : ℕ) (r : Repo) (k : Bytes) (s : Ta W) (j : ℕ)
      → s.repositories id ≡ some r
      → head_at ((update_key_sets p id r op role k s).1.repositories j) ≡ head_at (s.repositories j)
  unfolding update_key_sets add_admin add_writer delete_admin delete_writer
  update_key_sets-head id op role r k s j there = ground arith

  pub append_access_block_failed :
      (id op role : ℕ) (k g sig : Bytes) (s : Ta W) (e : TeeError)
      → (append_access_block p id op role k g sig s).0 ≡ err e
      → (append_access_block p id op role k g sig s).1.repositories ≡ s.repositories
  unfolding append_access_block
  append_access_block_failed id op role k g sig s e run = ground arith

  apply_access_failed :
      (q : AccessRequest) (s : Ta W) (e : TeeError) (j : ℕ)
      → s.repositories q.rep_id ≡ some q.repo
      → (apply_access p q s).0 ≡ err e
      → head_at ((apply_access p q s).1.repositories j) ≡ head_at (s.repositories j)
  unfolding apply_access
  apply_access_failed q s e j there run =
      grind (arith, update_key_sets-head, append_access_block_failed)

  -- A change of the key sets that ends with an error, at whatever step, leaves the latest hash, the
  -- founder's name and the height of every repository as they were. (The key sets may have changed.)
  pub access_control_failed :
      (t : ℕ) (s s' : Ta W) (e : TeeError)
      → access_control p t s ≡ (err e, s')
      → (j : ℕ) → head_at (s'.repositories j) ≡ head_at (s.repositories j)
  unfolding access_control
  access_control_failed t s s' e run j = elim (Outcome-cases (check_access p t s).0) [
    | inl (q, checked) ↦
        let s₁ = (check_access p t s).1 in
        ground (
          arith,
          checked,
          run,
          check_access-repositories p t s,
          check_access-found p t s q s₁ (λ i. (checked i, s₁)),
          apply_access_failed q s₁ e j,
        )
    | inr failed ↦ ground (arith, failed, run, check_access-repositories p t s)
  ]
