-- ===== src/Ta/InitRepo/Heap/Steps.antt =====
-- The allocations that the parts of `init_repo` after the first leave.
use trust_chain.Base.{
  ℕ, ◌+◌, ◌≡◌, ◌≢◌, false, Bytes, some, leb, ok, err, arith, ◌∙◌, Option-cases, Outcome-cases, inl,
  inr, subst, sym, ap, TeeError,
}
use trust_chain.Memory.{Buffer}
use trust_chain.Platform.{Allocation, key_set, metadata, Platform}
use trust_chain.KeyList.{add_key_to_set}
use trust_chain.KeyList.Heap.{CountsHeap, key_list-Owns}
use trust_chain.Block.{calculate_access_block_hash}
use trust_chain.Ta.State.{Repo, Ta, max_repo_id, put_repo}
use trust_chain.Ta.InitRepo.{cleanup_repo_resources, add_founder, genesis_block, return_repo}
use trust_chain.Ta.InitRepo.Heap.{
  KeepsHeap, hash_data-Keeps, tee_sign_hash-Keeps, init_access_block-Keeps,
}
use trust_chain.Ta.InitRepo.Heap.Balance.{
  list_live, HasRepo, Made, cleanup-live, err-Made, fault-Made,
}

module _ {W : Type 0} (p : Platform W) (cost : Allocation → ℕ) (live : W → ℕ)
    (counts : CountsHeap p cost live) (keeps : KeepsHeap p live) where
  pub genesis_block-live :
      (r : Repo) (key : Bytes) (s : Ta W)
      → let s' = (genesis_block p r key s).1 in
        (live s'.world ≡ live s.world) × (s'.repositories ≡ s.repositories)
  unfolding genesis_block calculate_access_block_hash
  genesis_block-live r key s = (
    grind (
      arith,
      init_access_block-Keeps p live keeps,
      hash_data-Keeps p live keeps,
      tee_sign_hash-Keeps p live keeps,
    ),
    ground arith,
  )

  pub return_repo-live :
      (id : ℕ) (r : Repo) (b : Buffer) (d : Bytes) (s : Ta W)
      → live (return_repo p id r b d s).1.world ≡ live s.world
  unfolding return_repo
  return_repo-live id r b d s = ground arith

  pub return_repo-no_err :
      (id : ℕ) (r : Repo) (b : Buffer) (d : Bytes) (s : Ta W) (e : TeeError)
      → (return_repo p id r b d s).0 ≢ err e
  unfolding return_repo
  return_repo-no_err id r b d s e run = ground arith

  module _ (id n : ℕ) (room : leb max_repo_id id ≡ false) where
    pub add_founder-Made :
        (r : Repo) (key : Bytes) (s : Ta W)
        → HasRepo p cost live counts id n room r s
        → Made p cost live counts id n room (add_founder p id r key s)
    unfolding add_founder
    add_founder-Made r key s h = elim (Option-cases r.admin_keys) [
      | inl no_list ↦ fault-Made p cost live counts id n room _ (ground (arith, no_list))
      | inr (l, e) ↦
          let others = cost metadata + cost key_set + list_live cost r.writer_keys + n in
          let ends =
            (key_list-Owns p cost live counts others l key s.world
              (ground (arith, e, h.owned))).0 in
          let w' = (add_key_to_set p l key s.world).1 in
          elim (Outcome-cases (add_key_to_set p l key s.world).0) [
            | inl (l', made) ↦
                let run : add_key_to_set p l key s.world ≡ (ok l', w') = λ i. (made i, w') in
                let r' = record r { admin_keys = some l' } in
                let s' = put_repo id (some r') (record s { world = w' }) in
                let done : add_founder p id r key s ≡ (ok r', s') = ground (arith, e, made) in
                subst (Made p cost live counts id n room) (sym done)
                  (record { there = ground arith; owned = omega (arith, rw run at ends) })
            | inr (inl (e', failed)) ↦
                let run : add_key_to_set p l key s.world ≡ (err e', w') = λ i. (failed i, w') in
                let s₁ = record s { world = w' } in
                let cleaned : (add_founder p id r key s).1 ≡ cleanup_repo_resources p id s₁ =
                  ground (arith, e, failed) in
                let before : HasRepo p cost live counts id n room r s₁ = record {
                  there = h.there;
                  owned = ground (arith, e, rw run at ends);
                } in
                err-Made p cost live counts id n room _ e' (ground (arith, e, failed)) (
                  ap (λ x. live x.world) cleaned
                  ∙ cleanup-live p cost live counts id n room r s₁ before)
            | inr (inr broken) ↦
                fault-Made p cost live counts id n room _ (ground (arith, e, broken))
          ]
    ]
