-- ===== src/Ta/Ledger/Unfinished.antt =====
-- What a change of the key sets that fails does to the ledgers.
use trust_chain.Base.{
  ℕ, ◌≡◌, ◌≢◌, refl, Bytes, some, err, TeeError, arith, ap, sym, ◌∙◌, Outcome-cases, ◌⊎◌, inl, inr,
  str_eq_iff,
}
use trust_chain.Memory.{load_str}
use trust_chain.Platform.{Platform}
use trust_chain.Ta.State.{Repo, Ta, latest_hash, op_add, role_admin}
use trust_chain.Ta.Table.{IsSound, IsComplete, found-IsComplete}
use trust_chain.Ta.Table.AccessControl.{check_access-found}
use trust_chain.Ta.AccessControl.{
  AccessRequest, update_key_sets, append_access_block, check_access, apply_access, access_control,
}
use trust_chain.Ta.AccessControl.Atomic.{append_access_block_failed}
use trust_chain.Ta.AccessControl.Authorised.{
  IsAuthorised, check_access-IsAuthorised, check_access-repositories,
}
use trust_chain.Ta.AccessControl.Chain.{update_key_sets-others}
use trust_chain.Ta.AccessControl.Failures.{IsShaken, update_key_sets-IsShaken}
use trust_chain.Ta.AccessControl.Roles.{Role, nobody, writer, role_of, assigned, IsAssigned}
use trust_chain.Ta.AccessControl.Updates.{update_key_sets-Assigns}
use trust_chain.Ta.Ledger.{assign, unfinished, HasLedger, HaveLedgers}
use trust_chain.Ta.Ledger.Growth.{
  is_admin-role_of, assign-roles, HasLedger-of, replaced-HaveLedgers, same-HaveLedgers,
}

module _ {W : Type 0} (p : Platform W) (sha : Bytes → Bytes) (s : Ta W) (q : AccessRequest)
    (a : IsAuthorised p s q) (complete : IsComplete q.repo)
    (ledger : HasLedger p sha q.rep_id q.repo) where
  -- A repository with the names and the height of the one before, in which the key has the role `x`.
  left-HasLedger :
      (r : Repo) (x : Role)
      → r.names ≡ q.repo.names
      → r.block_height ≡ q.repo.block_height
      → ((k : Bytes) → role_of r k ≡ assign (role_of q.repo) q.pubkey x k)
      → (x ≡ assigned q.op q.role (role_of q.repo q.pubkey))
        ⊎ ((x ≡ nobody)
            × (role_of q.repo q.pubkey ≡ writer)
            × (q.op ≡ op_add)
            × (q.role ≡ role_admin))
      → HasLedger p sha q.rep_id r
  left-HasLedger r x names height roles change =
      let (h, read, before) = ledger in
      HasLedger-of p sha q.rep_id r _ h q.repo.block_height
        (unfinished (role_of q.repo) h q.repo.block_height q.op q.role q.pubkey q.sigkey q.signature
          s.world x before (is_admin-role_of q.repo q.sigkey complete a.admin) a.changes_keys
          a.signed change)
        (ap (λ b. load_str b latest_hash) names ∙ read) height roles

  -- The key sets changed, and no block came.
  assigned-HasLedger :
      (s' : Ta W) (r : Repo)
      → IsAssigned q.rep_id q.repo q.op q.role q.pubkey s' r
      → HasLedger p sha q.rep_id r
  assigned-HasLedger s' r u =
      left-HasLedger r _ u.names_kept u.height_kept
        (assign-roles (role_of q.repo) (role_of r) q.pubkey (assigned q.op q.role) u.roles)
        (inl refl)

  -- The key sets did not change, or a writer was only taken out.
  shaken-HasLedger :
      (s' : Ta W) (r : Repo) (x : Role)
      → IsShaken q.rep_id q.repo q.op q.role q.pubkey s' r x
      → HasLedger p sha q.rep_id r
  shaken-HasLedger s' r x u = elim u.lost [
    | inr lost ↦ left-HasLedger r x u.names_kept u.height_kept u.roles (inr lost)
    | inl same ↦
        let (h, read, before) = ledger in
        HasLedger-of p sha q.rep_id r (role_of q.repo) h q.repo.block_height before
          (ap (λ b. load_str b latest_hash) u.names_kept ∙ read) u.height_kept
          (λ k. ground (arith, same, u.roles k, str_eq_iff q.pubkey k))
  ]

  -- Either way there is one repository at the place, which stands for a ledger.
  apply_access_failed :
      (s₁ s' : Ta W) (e : TeeError)
      → s₁.repositories q.rep_id ≡ some q.repo
      → apply_access p q s₁ ≡ (err e, s')
      → ((r : Repo) × (s'.repositories q.rep_id ≡ some r) × HasLedger p sha q.rep_id r)
        × ((j : ℕ) → j ≢ q.rep_id → s'.repositories j ≡ s₁.repositories j)
  unfolding apply_access
  apply_access_failed s₁ s' e there run =
      let updating = update_key_sets p q.rep_id q.repo q.op q.role q.pubkey in
      let s₂ = (updating s₁).1 in
      let others = update_key_sets-others p q.rep_id q.op q.role q.repo q.pubkey s₁ in
      elim (Outcome-cases (updating s₁).0) [
        | inl (_, updated) ↦
            let appending =
              append_access_block p q.rep_id q.op q.role q.pubkey q.sigkey q.signature in
            let stopped : appending s₂ ≡ (err e, s') = ground (arith, updated, run) in
            let kept : s'.repositories ≡ s₂.repositories = rw stopped at (
              append_access_block_failed p q.rep_id q.op q.role q.pubkey q.sigkey q.signature s₂ e
                (ap (λ x. x.0) stopped)) in
            let (r, u) =
              update_key_sets-Assigns p q.rep_id q.repo q.pubkey s₁ s₂ q.op q.role complete there
                a.changes_keys (λ i. (updated i, s₂)) in
            (
              (r, ap (λ f. f q.rep_id) kept ∙ u.there, assigned-HasLedger s₂ r u),
              λ j ne. ap (λ f. f j) kept ∙ others j ne,
            )
        | inr (inl (e', failed)) ↦
            let stopped : updating s₁ ≡ (err e, s') = ground (arith, failed, run) in
            let (r, x, u) =
              update_key_sets-IsShaken p q.rep_id q.op q.role q.repo q.pubkey s₁ s' e complete there
                stopped in
            (
              (r, u.there, shaken-HasLedger s' r x u),
              λ j ne. ap (λ x. x.1.repositories j) (sym stopped) ∙ others j ne,
            )
        | inr (inr broken) ↦ absurd (ground (arith, broken, run))
      ]

-- From a sound table, a change of the key sets that ends with an error leaves every repository with
-- a ledger.
pub access_control_failed-HaveLedgers :
    {W : Type 0} (p : Platform W) (sha : Bytes → Bytes) (t : ℕ) (s s' : Ta W) (e : TeeError)
    → IsSound s
    → HaveLedgers p sha s.repositories
    → access_control p t s ≡ (err e, s')
    → HaveLedgers p sha s'.repositories
unfolding access_control
access_control_failed-HaveLedgers p sha t s s' e sound ledgers run =
    let s₁ = (check_access p t s).1 in
    let same = check_access-repositories p t s in
    elim (Outcome-cases (check_access p t s).0) [
      | inl (q, checked) ↦
          let a = check_access-IsAuthorised p t s q checked in
          let (lt, complete) = found-IsComplete sound q.rep_id q.repo a.exists in
          let applied : apply_access p q s₁ ≡ (err e, s') = ground (arith, checked, run) in
          let ((r, there, ledger), others) =
            apply_access_failed p sha s q a complete (ledgers q.rep_id q.repo a.exists) s₁ s' e
              (check_access-found p t s q s₁ (λ i. (checked i, s₁))) applied in
          replaced-HaveLedgers p sha s.repositories s'.repositories q.rep_id r there ledger
            (λ j ne. others j ne ∙ ap (λ f. f j) same) ledgers
      | inr failed ↦
          same-HaveLedgers p sha s.repositories s'.repositories
            (λ j. ground (arith, failed, run, same)) ledgers
    ]
