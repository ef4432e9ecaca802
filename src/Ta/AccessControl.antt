-- ===== src/Ta/AccessControl.antt =====
-- ta/trust_chain_ta.c: `access_control`.
pub mod Authorised
pub mod Roles
pub mod Updates
pub mod Applies
pub mod Failures
pub mod Succeeds
pub mod Chain
pub mod Atomic
use trust_chain.Base.{
  ℕ, ◌+◌, ◌%◌, ◌^◌, Bool, true, false, not, ◌&&◌, Bytes, [], Option, none, some, ◌==◌,
  if◌then◌else◌, Action, pure, gets, defined, raise_if, with_error, ◌>>=◌, ◌>>◌, ok, err, fault,
  modify, bad_parameters, access_denied, security,
}
use trust_chain.Memory.{Buffer, load_u32, load_str, strcpy, memcpy}
use trust_chain.Decimal.{decimal}
use trust_chain.Platform.{Platform}
use trust_chain.KeyList.{KeyList, key_exists_in_set, add_key_to_set, find_and_remove_key}
use trust_chain.Utils.{verify_signature}
use trust_chain.KeyManager.{tee_sign_hash}
use trust_chain.Block.{◌⟨:⟩◌, fit_1024, init_access_block, calculate_access_block_hash}
use trust_chain.Block.Layout
use trust_chain.Ta.State.{
  Repo, Ta, latest_hash, op_add, op_delete, role_admin, role_writer, tee_param_types, no_param,
  memref_input, memref_output, on_world, set_repo, local, set_memref1, validate_and_get_repo,
}

-- struct access_control_message, as it lies in the caller's buffer
abbrev pub rep_id_at : ℕ
rep_id_at = 0

abbrev pub op_at : ℕ
op_at = 4

abbrev pub role_at : ℕ
role_at = 8

abbrev pub pubkey_at : ℕ
pubkey_at = 12

abbrev pub sigkey_at : ℕ
sigkey_at = 524

abbrev pub signature_at : ℕ
signature_at = 1036

-- A message that was accepted, and the repository that it is about.
pub record AccessRequest : Type 0 where
  pub rep_id : ℕ
  pub op : ℕ
  pub role : ℕ
  pub pubkey : Bytes
  pub sigkey : Bytes
  pub signature : Bytes
  pub repo : Repo

-- What the signature of a message is checked against.
unfoldable pub access_request : ℕ → ℕ → ℕ → Bytes → Bytes
access_request rep_id op role pubkey =
    fit_1024 (decimal rep_id ⟨:⟩ decimal op ⟨:⟩ decimal role ⟨:⟩ pubkey)

module _ {W : Type 0} (p : Platform W) where
  -- The branches that update the key sets, each on the repository that `repo` points to.
  unfoldable pub add_admin : ℕ → Repo → Bytes → Action (Ta W) (Unit {0})
  add_admin rep_id repo pubkey = do
    admins ← defined repo.admin_keys
    raise_if (key_exists_in_set admins pubkey) bad_parameters
    writers ← defined repo.writer_keys
    (writers', was_writer) ← on_world (find_and_remove_key p writers pubkey)
    set_repo rep_id (record repo { writer_keys = some writers' })
    admins' ← on_world (add_key_to_set p admins pubkey)
    set_repo rep_id (record repo { admin_keys = some admins'; writer_keys = some writers' })

  unfoldable pub add_writer : ℕ → Repo → Bytes → Action (Ta W) (Unit {0})
  add_writer rep_id repo pubkey = do
    writers ← defined repo.writer_keys
    raise_if (key_exists_in_set writers pubkey) bad_parameters
    admins ← defined repo.admin_keys
    raise_if (key_exists_in_set admins pubkey) bad_parameters
    writers' ← on_world (add_key_to_set p writers pubkey)
    set_repo rep_id (record repo { writer_keys = some writers' })

  unfoldable pub delete_admin : ℕ → Repo → Bytes → Action (Ta W) (Unit {0})
  delete_admin rep_id repo pubkey = do
    admins ← defined repo.admin_keys
    (admins', was_found) ← on_world (find_and_remove_key p admins pubkey)
    set_repo rep_id (record repo { admin_keys = some admins' })
    raise_if (not was_found) bad_parameters

  unfoldable pub delete_writer : ℕ → Repo → Bytes → Action (Ta W) (Unit {0})
  delete_writer rep_id repo pubkey = do
    writers ← defined repo.writer_keys
    (writers', was_found) ← on_world (find_and_remove_key p writers pubkey)
    set_repo rep_id (record repo { writer_keys = some writers' })
    raise_if (not was_found) bad_parameters

  -- A role that is neither of the two changes no set.
  unfoldable pub update_key_sets : ℕ → Repo → ℕ → ℕ → Bytes → Action (Ta W) (Unit {0})
  update_key_sets rep_id repo op role pubkey =
      if op == op_add
      then (if role == role_admin
          then add_admin rep_id repo pubkey
          else if role == role_writer
          then add_writer rep_id repo pubkey
          else pure tt)
      else if op == op_delete
      then (if role == role_admin
          then delete_admin rep_id repo pubkey
          else if role == role_writer
          then delete_writer rep_id repo pubkey
          else pure tt)
      else pure tt

  -- The end of the handler: the block is made, hashed, signed and returned, and the chain grows.
  unfoldable pub append_access_block : ℕ → ℕ → ℕ → Bytes → Bytes → Bytes → Action (Ta W) (Unit {0})
  append_access_block rep_id op role pubkey sigkey signature = do
    repo ← defined (← gets (λ s. s.repositories rep_id))
    parent ← defined (load_str repo.names latest_hash)
    raw ← local Layout.access_block_size
    block ← on_world (
        init_access_block p raw ((repo.block_height + 1) % 2 ^ 32) (some parent) op role
          (some pubkey) (some sigkey) (some signature))
    block_hash ← on_world (calculate_access_block_hash p block.cell)
    signed ← on_world (tee_sign_hash p block_hash block Layout.tee_sig)
    out ← gets (λ s. s.param1.memref)
    out' ← defined (memcpy out signed.cell Layout.access_block_size)
    set_memref1 out'
    names ← defined (strcpy repo.names latest_hash block_hash)
    set_repo rep_id (record repo { names = names; block_height = (repo.block_height + 1) % 2 ^ 32 })

  -- The handler up to the check of the signature. The log line about a signer without the right prints
  -- all of `sigkey`. `signature` is read here, which the source puts off until it has parsed the key.
  unfoldable pub read_access : ℕ → Action (Ta W) AccessRequest
  read_access param_types = do
    raise_if (not (param_types == tee_param_types memref_input memref_output no_param no_param))
        bad_parameters
    msg ← gets (λ s. s.param0.memref)
    op ← defined (load_u32 msg op_at)
    raise_if (not (op == op_add) && not (op == op_delete)) bad_parameters
    rep_id ← defined (load_u32 msg rep_id_at)
    repo ← validate_and_get_repo rep_id
    sigkey ← defined (load_str msg sigkey_at)
    admins ← defined repo.admin_keys
    raise_if (not (key_exists_in_set admins sigkey)) access_denied
    role ← defined (load_u32 msg role_at)
    pubkey ← defined (load_str msg pubkey_at)
    signature ← defined (load_str msg signature_at)
    pure (record {
      rep_id = rep_id;
      op = op;
      role = role;
      pubkey = pubkey;
      sigkey = sigkey;
      signature = signature;
      repo = repo;
    })

  -- The check of the signature.
  unfoldable pub check_access : ℕ → Action (Ta W) AccessRequest
  check_access param_types = do
    q ← read_access param_types
    with_error
        (on_world
          (verify_signature p (access_request q.rep_id q.op q.role q.pubkey) q.sigkey q.signature))
        security
    pure q

  -- The handler after that check.
  unfoldable pub apply_access : AccessRequest → Action (Ta W) (Unit {0})
  apply_access q = do
    update_key_sets q.rep_id q.repo q.op q.role q.pubkey
    append_access_block q.rep_id q.op q.role q.pubkey q.sigkey q.signature

  unfoldable pub access_control : ℕ → Action (Ta W) (Unit {0})
  access_control param_types = check_access param_types >>= apply_access
