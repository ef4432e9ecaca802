-- ===== src/Ta/AccessControl/Authorised.antt =====
-- Who may change the key sets of a repository.
use trust_chain.Base.{
  ℕ, ◌≡◌, ◌≢◌, Bytes, some, none, Outcome-cases, ok, arith, ◌⊎◌, inl, inr, Bool, true, false,
}
use trust_chain.Memory.{load_u32, load_str}
use trust_chain.Platform.{Platform}
use trust_chain.KeyList.{key_exists_in_set}
use trust_chain.Utils.{verify_signature}
use trust_chain.Ta.State.{Repo, Ta, op_add, op_delete, validate_and_get_repo}
use trust_chain.Ta.AccessControl.{
  AccessRequest, access_request, read_access, check_access, access_control, rep_id_at, op_at,
  role_at, pubkey_at, sigkey_at, signature_at,
}

-- Whether a key is among the administrators of a repository.
abbrev pub is_admin : Repo → Bytes → Bool
is_admin r key = elim r.admin_keys [ none ↦ false | some admins ↦ key_exists_in_set admins key ]

-- The request `q` is what the message in the first parameter says, about a repository that is there,
-- with an operation on key sets, and signed by an administrator of that repository.
pub record IsAuthorised {W : Type 0} (p : Platform W) (s : Ta W) (q : AccessRequest) : Type 0 where
  pub rep_id_read : load_u32 s.param0.memref rep_id_at ≡ some q.rep_id
  pub op_read : load_u32 s.param0.memref op_at ≡ some q.op
  pub role_read : load_u32 s.param0.memref role_at ≡ some q.role
  pub pubkey_read : load_str s.param0.memref pubkey_at ≡ some q.pubkey
  pub sigkey_read : load_str s.param0.memref sigkey_at ≡ some q.sigkey
  pub signature_read : load_str s.param0.memref signature_at ≡ some q.signature
  pub changes_keys : (q.op ≡ op_add) ⊎ (q.op ≡ op_delete)
  pub exists : s.repositories q.rep_id ≡ some q.repo
  pub admin : is_admin q.repo q.sigkey ≡ true
  pub signed :
      (verify_signature p
        (access_request q.rep_id q.op q.role q.pubkey)
        q.sigkey
        q.signature
        s.world).0
      ≡ ok tt

module _ {W : Type 0} (p : Platform W) where
  module _ (t : ℕ) (s s' : Ta W) (q : AccessRequest) (run : read_access p t s ≡ (ok q, s')) where
    read_access-message :
        (load_u32 s.param0.memref rep_id_at ≡ some q.rep_id)
        × (load_u32 s.param0.memref op_at ≡ some q.op)
        × (load_u32 s.param0.memref role_at ≡ some q.role)
        × (load_str s.param0.memref pubkey_at ≡ some q.pubkey)
        × (load_str s.param0.memref sigkey_at ≡ some q.sigkey)
        × (load_str s.param0.memref signature_at ≡ some q.signature)
    unfolding read_access validate_and_get_repo
    read_access-message = ground arith

    read_access-guards :
        ((q.op ≡ op_add) ⊎ (q.op ≡ op_delete))
        × (s.repositories q.rep_id ≡ some q.repo)
        × (is_admin q.repo q.sigkey ≡ true)
        × (s'.world ≡ s.world)
    unfolding read_access validate_and_get_repo
    read_access-guards = ground arith

  read_access-repositories :
      (t : ℕ) (s : Ta W) → (read_access p t s).1.repositories ≡ s.repositories
  unfolding read_access validate_and_get_repo
  read_access-repositories t s = ground arith

  pub check_access-repositories :
      (t : ℕ) (s : Ta W) → (check_access p t s).1.repositories ≡ s.repositories
  unfolding check_access
  check_access-repositories t s = ground (arith, read_access-repositories t s)

  check_access-parts :
      (t : ℕ) (s : Ta W) (q : AccessRequest)
      → (check_access p t s).0 ≡ ok q
      → let (r, s₁) = read_access p t s in
        (r ≡ ok q)
        × ((verify_signature p
              (access_request q.rep_id q.op q.role q.pubkey)
              q.sigkey
              q.signature
              s₁.world).0
            ≡ ok tt)
  unfolding check_access
  check_access-parts t s q run = ground arith

  pub check_access-IsAuthorised :
      (t : ℕ) (s : Ta W) (q : AccessRequest) → (check_access p t s).0 ≡ ok q → IsAuthorised p s q
  check_access-IsAuthorised t s q run =
      let (read, signed) = check_access-parts t s q run in
      let run₁ : read_access p t s ≡ (ok q, (read_access p t s).1) =
        λ i. (read i, (read_access p t s).1) in
      let (rep_id, op, role, pubkey, sigkey, signature) = read_access-message t s _ q run₁ in
      let (changes, exists, admin, world) = read_access-guards t s _ q run₁ in
      record {
        rep_id_read = rep_id;
        op_read = op;
        role_read = role;
        pubkey_read = pubkey;
        sigkey_read = sigkey;
        signature_read = signature;
        changes_keys = changes;
        exists = exists;
        admin = admin;
        signed = rw world at signed;
      }

  -- An access control command either does not succeed and changes no repository, or its message
  -- names a repository that is there and an operation ADD or DELETE, and the key that signs it is an
  -- administrator's of that repository, for which the check of the message's signature over
  -- repository, operation, role and key succeeds.
  pub access_control-IsAuthorised :
      (t : ℕ) (s : Ta W)
      → let (r, s') = access_control p t s in
        ((r ≢ ok tt) × (s'.repositories ≡ s.repositories))
        ⊎ ((q : AccessRequest) × IsAuthorised p s q)
  unfolding access_control
  access_control-IsAuthorised t s = elim (Outcome-cases (check_access p t s).0) [
    | inl (q, e) ↦ inr (q, check_access-IsAuthorised t s q e)
    | inr refused ↦ inl (ground (arith, check_access-repositories t s, refused))
  ]
