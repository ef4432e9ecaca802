-- ===== src/Host/Message/Roles.antt =====
-- What a request to the host does to the roles in the TA.
use trust_chain.Base.{
  ℕ, ◌^◌, ◌<◌, ◌≡◌, Bytes, codes, length, some, ap, sym, ◌∙◌, arith, if◌then◌else◌, str_eq, ok,
  some-injective,
}
use trust_chain.Memory.{Cells, load_u32, load_str}
use trust_chain.Memory.Laws.{IsText}
use trust_chain.Platform.{Platform}
use trust_chain.Host.Message.{ac_message, op_number, role_number}
use trust_chain.Host.Message.RoundTrip.{ac_message-read}
use trust_chain.Ta.State.{Repo, Ta}
use trust_chain.Ta.Table.{IsSound, found-IsComplete}
use trust_chain.Ta.AccessControl
use trust_chain.Ta.AccessControl.{AccessRequest, check_access, update_key_sets}
use trust_chain.Ta.AccessControl.Roles.{Role, nobody, admin, role_of, assigned}
use trust_chain.Ta.AccessControl.Authorised.{check_access-IsAuthorised}
use trust_chain.Ta.Table.AccessControl.{check_access-found}
use trust_chain.Ta.AccessControl.Updates.{update_key_sets-Assigns}

-- What the two texts of a request come to.
abbrev pub meant : Bytes → Bytes → Role → Role
meant operation role old =
    if str_eq role (codes "ADMIN")
    then old
    else if str_eq operation (codes "ADD")
    then admin
    else nobody

assigned-meant :
    (operation role : Bytes) (old : Role)
    → assigned (op_number operation) (role_number role) old ≡ meant operation role old
unfolding op_number role_number
assigned-meant operation role old = ground arith

-- A message that the host made from texts of fewer than 511 bytes, each not 0, that passes the checks
-- of `access_control` in a sound state, and whose change of the key sets succeeds; whatever array the
-- host gives for the block that is only then appended. Where the host was asked for the role ADMIN, no
-- role changes; where it was asked for any other role, WRITER included, ADD makes the key an
-- administrator and every other operation takes its role away. No other key's role changes.
pub ac_message-roles :
    {W : Type 0} (p : Platform W) (stack : Cells) (repo_id : ℕ)
    (operation role pubkey sigkey signature : Bytes) (t : ℕ) (s s₁ s₂ : Ta W) (q : AccessRequest)
    → repo_id < 2 ^ 32
    → IsText pubkey
    → IsText sigkey
    → IsText signature
    → length pubkey < 511
    → length sigkey < 511
    → length signature < 511
    → s.param0.memref ≡ ac_message stack repo_id operation role pubkey sigkey signature
    → IsSound s
    → check_access p t s ≡ (ok q, s₁)
    → update_key_sets p q.rep_id q.repo q.op q.role q.pubkey s₁ ≡ (ok tt, s₂)
    → (r : Repo) × (r' : Repo) × (s.repositories repo_id ≡ some r)
      × (s₂.repositories repo_id ≡ some r')
      × ((k : Bytes)
          → role_of r' k
            ≡ (if str_eq pubkey k then meant operation role (role_of r k) else role_of r k))
ac_message-roles p stack repo_id operation role pubkey sigkey signature t s s₁ s₂ q small tp tk tg
      fp fk fg sent sound checked updated =
    let a = check_access-IsAuthorised p t s q (ap (λ x. x.0) checked) in
    let (lt, complete) = found-IsComplete sound q.rep_id q.repo a.exists in
    let (r', u) =
      update_key_sets-Assigns p q.rep_id q.repo q.pubkey s₁ s₂ q.op q.role complete
        (check_access-found p t s q s₁ checked) a.changes_keys updated in
    let (id, op, ro, key, signer, sig) =
      ac_message-read stack repo_id operation role pubkey sigkey signature small tp tk tg fp fk
        fg in
    let same_id =
      some-injective (sym a.rep_id_read ∙ ap (λ m. load_u32 m AccessControl.rep_id_at) sent ∙ id) in
    let same_op =
      some-injective (sym a.op_read ∙ ap (λ m. load_u32 m AccessControl.op_at) sent ∙ op) in
    let same_role =
      some-injective (sym a.role_read ∙ ap (λ m. load_u32 m AccessControl.role_at) sent ∙ ro) in
    let same_key =
      some-injective
        (sym a.pubkey_read ∙ ap (λ m. load_str m AccessControl.pubkey_at) sent ∙ key) in
    (
      q.repo,
      r',
      rw same_id at a.exists,
      rw same_id at u.there,
      λ k. rw (same_key, same_op, same_role, assigned-meant) at (u.roles k),
    )
