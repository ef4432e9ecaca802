-- ===== src/Ta/Commit.antt =====
-- ta/trust_chain_ta.c: `commit`.
pub mod Atomic
pub mod Authorised
pub mod Chain
pub mod Succeeds
use trust_chain.Base.{
  ℕ, ◌+◌, ◌%◌, ◌^◌, Bool, true, false, not, ◌&&◌, Bytes, [], ◌∷◌, Option, none, some, ◌==◌,
  if◌then◌else◌, Action, pure, gets, defined, raise_if, with_error, ◌>>=◌, ◌>>◌, ok, err, fault,
  modify, bad_parameters, access_denied, security,
}
use trust_chain.Memory.{Buffer, load_u32, load_str, strcpy, memcpy, store}
use trust_chain.Decimal.{decimal}
use trust_chain.Platform.{Platform}
use trust_chain.KeyList.{key_exists_in_set}
use trust_chain.Utils.{verify_signature}
use trust_chain.KeyManager.{tee_sign_hash, tee_decrypt_data}
use trust_chain.Block.{◌⟨:⟩◌, fit_1024, init_contribution_block, calculate_contribution_block_hash}
use trust_chain.Block.Layout
use trust_chain.Ta.State.{
  Repo, Ta, latest_hash, op_push, op_pr, tee_param_types, no_param, memref_input, memref_output,
  memref_inout, on_world, set_repo, local, set_memref1, set_memref2, validate_and_get_repo,
}

-- struct commit_message, as it lies in the caller's buffer
abbrev pub rep_id_at : ℕ
rep_id_at = 0

abbrev pub op_at : ℕ
op_at = 4

abbrev pub commit_hash_at : ℕ
commit_hash_at = 8

abbrev pub sigkey_at : ℕ
sigkey_at = 72

abbrev pub signature_at : ℕ
signature_at = 584

-- A message that was accepted, and the repository that it is about.
pub record CommitRequest : Type 0 where
  pub rep_id : ℕ
  pub op : ℕ
  pub commit_hash : Bytes
  pub sigkey : Bytes
  pub signature : Bytes
  pub repo : Repo

-- What the signature of a message is checked against.
unfoldable pub commit_request : ℕ → ℕ → Bytes → Bytes
commit_request rep_id op commit_hash = fit_1024 (decimal rep_id ⟨:⟩ decimal op ⟨:⟩ commit_hash)

module _ {W : Type 0} (p : Platform W) where
  -- The block of a commit, signed, and its hash.
  unfoldable pub contribution_block :
      Repo → ℕ → Bytes → Bytes → Bytes → Action (Ta W) (Buffer × Bytes)
  contribution_block repo op commit_hash sigkey signature = do
    parent ← defined (load_str repo.names latest_hash)
    raw ← local Layout.contribution_block_size
    block ← on_world (
        init_contribution_block p raw ((repo.block_height + 1) % 2 ^ 32) (some parent) op
          (some commit_hash) (some sigkey) (some signature))
    block_hash ← on_world (calculate_contribution_block_hash p block.cell)
    signed ← on_world (tee_sign_hash p block_hash block Layout.tee_sig)
    pure (signed, block_hash)

  -- The caller's key, decrypted into a local array of 256 bytes and then over the caller's text.
  unfoldable pub decrypt_key : Action (Ta W) (Unit {0})
  decrypt_key = do
    encrypted_key ← gets (λ s. s.param1.memref)
    encrypted ← defined (load_str encrypted_key 0)
    array ← local 256
    (decrypted, decrypted_len) ← on_world (tee_decrypt_data p encrypted array)
    copied ← defined (memcpy encrypted_key decrypted.cell decrypted_len)
    ended ← defined (store copied decrypted_len (0 ∷ []))
    set_memref1 ended

  -- The handler up to the check of the signature. The log line about a signer without the right prints
  -- all of `sigkey`. `signature` is read here, which the source puts off until it has parsed the key.
  unfoldable pub read_commit : ℕ → Action (Ta W) CommitRequest
  read_commit param_types = do
    raise_if (not (param_types == tee_param_types memref_input memref_inout memref_output no_param))
        bad_parameters
    msg ← gets (λ s. s.param0.memref)
    op ← defined (load_u32 msg op_at)
    raise_if (not (op == op_push) && not (op == op_pr)) bad_parameters
    rep_id ← defined (load_u32 msg rep_id_at)
    repo ← validate_and_get_repo rep_id
    sigkey ← defined (load_str msg sigkey_at)
    admins ← defined repo.admin_keys
    writers ← defined repo.writer_keys
    raise_if (not (key_exists_in_set admins sigkey) && not (key_exists_in_set writers sigkey))
        access_denied
    commit_hash ← defined (load_str msg commit_hash_at)
    signature ← defined (load_str msg signature_at)
    pure (record {
      rep_id = rep_id;
      op = op;
      commit_hash = commit_hash;
      sigkey = sigkey;
      signature = signature;
      repo = repo;
    })

  -- The check of the signature.
  unfoldable pub check_commit : ℕ → Action (Ta W) CommitRequest
  check_commit param_types = do
    q ← read_commit param_types
    with_error
        (on_world
          (verify_signature p (commit_request q.rep_id q.op q.commit_hash) q.sigkey q.signature))
        security
    pure q

  -- The handler after that check: the block is made and signed, the caller's key decrypted, and the
  -- chain grows.
  unfoldable pub apply_commit : CommitRequest → Action (Ta W) (Unit {0})
  apply_commit q = do
    (block, block_hash) ← contribution_block q.repo q.op q.commit_hash q.sigkey q.signature
    decrypt_key
    out ← gets (λ s. s.param2.memref)
    out' ← defined (memcpy out block.cell Layout.contribution_block_size)
    set_memref2 out'
    names ← defined (strcpy q.repo.names latest_hash block_hash)
    set_repo q.rep_id
        (record (q.repo) { names = names; block_height = (q.repo.block_height + 1) % 2 ^ 32 })

  unfoldable pub commit : ℕ → Action (Ta W) (Unit {0})
  commit param_types = check_commit param_types >>= apply_commit
