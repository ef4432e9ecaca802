-- ===== src/Ta/Ledger/Growth.antt =====
-- Every command that succeeds keeps the ledgers.
use trust_chain.Base.{
  ℕ, ◌≡◌, ◌≢◌, true, Bytes, Option, some, ok, arith, ap, sym, ◌∙◌, subst, ℕ_discrete,
  some-injective, fun_ext, if◌then◌else◌, str_eq, str_eq_iff,
}
use trust_chain.Memory.{load_str}
use trust_chain.Platform.{Platform}
use trust_chain.Hex.RoundTrip.{IsByte}
use trust_chain.Block.Fields.{HasBase}
use trust_chain.Block.Digest.{IsDigest}
use trust_chain.Ta.State.{Repo, Ta, latest_hash}
use trust_chain.Ta.Table.{IsSound, IsComplete, found-IsComplete}
use trust_chain.Ta.InitRepo.{init_repo}
use trust_chain.Ta.InitRepo.Chain.{init_repo-Founds}
use trust_chain.Ta.AccessControl.{access_control}
use trust_chain.Ta.AccessControl.Authorised.{is_admin}
use trust_chain.Ta.AccessControl.Chain.{access_control-IsExtended}
use trust_chain.Ta.AccessControl.Roles.{Role, nobody, admin, role_of, assigned}
use trust_chain.Ta.Commit.{commit}
use trust_chain.Ta.Commit.Authorised.{may_commit}
use trust_chain.Ta.Commit.Chain.{commit-IsExtended}
use trust_chain.Ta.Ledger.{
  assign, IsLedger, founded, reassigned, contributed, HasLedger, HaveLedgers,
}

-- The two tests of the handlers, as roles.
pub is_admin-role_of :
    (r : Repo) (key : Bytes) → IsComplete r → is_admin r key ≡ true → role_of r key ≡ admin
is_admin-role_of r key (admins, writers, ea, ew, v) member = ground (arith, ea, ew, member)

may_commit-role_of : (r : Repo) (key : Bytes) → may_commit r key ≡ true → role_of r key ≢ nobody
may_commit-role_of r key member e = absurd (ground (arith, member, e))

-- One key's role, changed.
pub assign-roles :
    (roles roles' : Bytes → Role) (key : Bytes) (f : Role → Role)
    → ((k : Bytes) → roles' k ≡ (if str_eq key k then f (roles k) else roles k))
    → (k : Bytes) → roles' k ≡ assign roles key (f (roles key)) k
assign-roles roles roles' key f e k = ground (arith, e k, str_eq_iff key k)

module _ {W : Type 0} (p : Platform W) (sha : Bytes → Bytes) where
  pub HasLedger-of :
      (id : ℕ) (r : Repo) (roles : Bytes → Role) (h : Bytes) (n : ℕ)
      → IsLedger p sha id roles h n
      → load_str r.names latest_hash ≡ some h
      → r.block_height ≡ n
      → ((k : Bytes) → role_of r k ≡ roles k)
      → HasLedger p sha id r
  HasLedger-of id r roles h n ledger read height same = (
    h,
    read,
    subst (IsLedger p sha id (role_of r) h) (sym height)
        (subst (λ f. IsLedger p sha id f h n) (sym (fun_ext same)) ledger),
  )

  -- A change of the table at one place, to a repository that stands for a ledger.
  pub replaced-HaveLedgers :
      (table table' : ℕ → Option Repo) (id : ℕ) (r : Repo)
      → table' id ≡ some r
      → HasLedger p sha id r
      → ((j : ℕ) → j ≢ id → table' j ≡ table j)
      → HaveLedgers p sha table
      → HaveLedgers p sha table'
  replaced-HaveLedgers table table' id r there ledger others ledgers j r' there' =
      elim (ℕ_discrete j id) [
        | yes e ↦
            let same : r ≡ r' = some-injective (sym there ∙ ap table' (sym e) ∙ there') in
            subst (λ i. HasLedger p sha i r') (sym e) (subst (HasLedger p sha id) same ledger)
        | no ne ↦ ledgers j r' (sym (others j ne) ∙ there')
      ]

  pub same-HaveLedgers :
      (table table' : ℕ → Option Repo)
      → ((j : ℕ) → table' j ≡ table j)
      → HaveLedgers p sha table
      → HaveLedgers p sha table'
  same-HaveLedgers table table' same ledgers j r' there' = ledgers j r' (sym (same j) ∙ there')

  module _ (digests : IsDigest p sha) (t : ℕ) (s s' : Ta W)
      (ledgers : HaveLedgers p sha s.repositories) where
    pub init_repo-HaveLedgers : init_repo p t s ≡ (ok tt, s') → HaveLedgers p sha s'.repositories
    init_repo-HaveLedgers run =
        let (key, read, ((r, c, parent, there, f), value, grown, others)) =
          init_repo-Founds p sha digests t s s' run in
        replaced-HaveLedgers s.repositories s'.repositories s.repo_num r there
          (HasLedger-of s.repo_num r _ _ 0
            (founded c key parent f.fields f.zero_parent f.role_set f.pubkey_set) f.hash_recorded
            f.height f.roles)
          others ledgers

    pub commit-HaveLedgers : commit p t s ≡ (ok tt, s') → HaveLedgers p sha s'.repositories
    commit-HaveLedgers run =
        let (q, a, (r', c, parent, there, x), others) =
          commit-IsExtended p sha digests t s s' run in
        let (h, read, ledger) = ledgers q.rep_id q.repo a.exists in
        let same : h ≡ parent = some-injective (sym read ∙ x.parent_read) in
        let base =
          subst (λ n. HasBase c n parent q.op q.sigkey q.signature) x.height_grown x.fields in
        replaced-HaveLedgers s.repositories s'.repositories q.rep_id r' there
          (HasLedger-of q.rep_id r' (role_of q.repo) _ _
            (contributed (role_of q.repo) parent q.repo.block_height c q.op q.commit_hash q.sigkey
              q.signature s.world
              (subst (λ k. IsLedger p sha q.rep_id (role_of q.repo) k q.repo.block_height) same
                ledger)
              (may_commit-role_of q.repo q.sigkey a.member) a.commits base x.commit_hash_set
              a.signed)
            x.hash_recorded x.height_grown (λ k. ground (arith, x.admins_kept, x.writers_kept)))
          others ledgers

    pub access_control-HaveLedgers :
        IsSound s
        → ((a : ℕ) → IsByte (s.param0.memref.cell a))
        → access_control p t s ≡ (ok tt, s')
        → HaveLedgers p sha s'.repositories
    access_control-HaveLedgers sound bytes run =
        let (q, a, (r', c, parent, there, x), others) =
          access_control-IsExtended p sha digests t s s' sound bytes run in
        let (h, read, ledger) = ledgers q.rep_id q.repo a.exists in
        let (lt, complete) = found-IsComplete sound q.rep_id q.repo a.exists in
        let same : h ≡ parent = some-injective (sym read ∙ x.parent_read) in
        let base =
          subst (λ n. HasBase c n parent q.op q.sigkey q.signature) x.height_grown x.fields in
        replaced-HaveLedgers s.repositories s'.repositories q.rep_id r' there
          (HasLedger-of q.rep_id r' _ _ _
            (reassigned (role_of q.repo) parent q.repo.block_height c q.op q.role q.pubkey q.sigkey
              q.signature s.world
              (subst (λ k. IsLedger p sha q.rep_id (role_of q.repo) k q.repo.block_height) same
                ledger)
              (is_admin-role_of q.repo q.sigkey complete a.admin) a.changes_keys base x.role_set
              x.pubkey_set a.signed)
            x.hash_recorded x.height_grown
            (assign-roles (role_of q.repo) (role_of r') q.pubkey (assigned q.op q.role) x.roles))
          others ledgers
