-- ===== src/Ta/Query.antt =====
-- ta/trust_chain_ta.c: `get_latest_hash` and `get_tee_public_key`, the commands that change no
-- repository.
pub mod Kept
pub mod PublicKey
pub mod Signed
pub mod Succeeds
use trust_chain.Base.{
  ℕ, ◌%◌, ◌^◌, Bool, true, false, not, Bytes, Option, none, some, ◌==◌, if◌then◌else◌, Action, pure,
  gets, defined, raise_if, finally, ◌>>=◌, ◌>>◌, ok, err, fault, modify, bad_parameters,
}
use trust_chain.Memory.{Buffer, load_str, strcpy, store_u32}
use trust_chain.Platform.{Platform, Handle}
use trust_chain.Utils.Pem.{public_key_obj_to_pem}
use trust_chain.KeyManager.{tee_key_pair_uuid, tee_sign_data}
use trust_chain.Ta.State.{
  Repo, Ta, latest_hash, tee_param_types, no_param, value_input, value_output, memref_output,
  on_world, set_memref0, set_memref2, set_memref3, set_value1, validate_and_get_repo,
}

-- struct latesthash_msg
abbrev pub nonce_at : ℕ
nonce_at = 0

abbrev pub latest_hash_at : ℕ
latest_hash_at = 4

module _ {W : Type 0} (p : Platform W) where
  -- The text to sign is what `strlen` sees from the first byte of the nonce on.
  unfoldable pub get_latest_hash : ℕ → Action (Ta W) (Unit {0})
  get_latest_hash param_types = do
    raise_if
        (not (param_types == tee_param_types value_input value_input memref_output memref_output))
        bad_parameters
    rep_id ← gets (λ s. s.param0.a)
    nonce ← gets (λ s. s.param1.a)
    repo ← validate_and_get_repo rep_id
    msg_out ← gets (λ s. s.param2.memref)
    m₁ ← defined (store_u32 msg_out nonce_at nonce)
    set_memref2 m₁
    latest ← defined (load_str repo.names latest_hash)
    m₂ ← defined (strcpy m₁ latest_hash_at latest)
    set_memref2 m₂
    text ← defined (load_str m₂ 0)
    signature_out ← gets (λ s. s.param3.memref)
    signed ← on_world (tee_sign_data p text signature_out 0)
    set_memref3 signed

  -- `pem_len` is 0 on the call that writes the text.
  unfoldable pub get_tee_public_key : ℕ → Action (Ta W) (Unit {0})
  get_tee_public_key param_types = do
    raise_if (not (param_types == tee_param_types memref_output value_output no_param no_param))
        bad_parameters
    public_key_pem ← gets (λ s. s.param0.memref)
    raise_if (public_key_pem.size == 0) bad_parameters
    key_obj ← on_world (p.open_persistent_object tee_key_pair_uuid)
    finally
        (do
          (pem, pem_len) ← on_world (public_key_obj_to_pem p key_obj public_key_pem 0)
          set_memref0 pem
          set_value1 (pem_len % 2 ^ 32))
        (λ s. record s { world = p.close_object key_obj s.world })
