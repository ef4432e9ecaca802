-- ===== src/KeyManager.antt =====
-- ta/tee_key_manager/tee_key_manager.c: the TEE's own key pair, and what it signs and decrypts. The
-- NULL tests at the head of these functions are on pointers that no caller leaves NULL.
pub mod Handles
pub mod Working
use trust_chain.Base.{
  ℕ, ◌*◌, Bytes, codes, length, Action, pure, defined, outcome, finally, or_else, ◌>>=◌, ◌>>◌,
}
use trust_chain.Memory.{Buffer}
use trust_chain.Hex.{bytes_to_hex_string, hex_string_to_bytes}
use trust_chain.Platform.{Platform, Handle, rsassa_sign, rsaes_decrypt, rsa_keypair, rsa_public_key}
use trust_chain.Utils.{hash_data, verify_signature_common, tee_key_size_bits}

abbrev pub tee_key_pair_uuid : Bytes
tee_key_pair_uuid = codes "mykey#0"

module _ {W : Type 0} (p : Platform W) where
  unfoldable pub generate_key_pair : Action W Handle
  generate_key_pair = do
    rsa ← p.allocate_transient_object rsa_keypair tee_key_size_bits
    finally
        (do p.generate_key rsa tee_key_size_bits; p.create_persistent_object tee_key_pair_uuid rsa)
        (p.free_transient_object rsa)

  unfoldable pub load_or_generate_key_pair : Action W Handle
  unfolding generate_key_pair
  load_or_generate_key_pair = or_else (p.open_persistent_object tee_key_pair_uuid) generate_key_pair

  -- The signature is printed at `off` in the object that `signature` points into.
  unfoldable pub tee_sign_hash : Bytes → Buffer → ℕ → Action W Buffer
  tee_sign_hash hash_string signature off = do
    hash_bytes ← outcome (hex_string_to_bytes 32 hash_string)
    key_pair ← load_or_generate_key_pair
    finally
        (do
          op ← p.allocate_operation rsassa_sign tee_key_size_bits
          finally
              (do
                p.set_operation_key op key_pair
                sig ← p.asymmetric_sign_digest op hash_bytes
                defined (bytes_to_hex_string sig signature off))
              (p.free_operation op))
        (p.close_object key_pair)

  unfoldable pub tee_sign_data : Bytes → Buffer → ℕ → Action W Buffer
  tee_sign_data text signature off = do
    hash_string ← hash_data p 65 text
    tee_sign_hash hash_string signature off

  unfoldable pub tee_verify_signature : Bytes → Bytes → Action W (Unit {0})
  tee_verify_signature text signature = do
    key_pair ← load_or_generate_key_pair
    finally
        (do
          public_key ← p.allocate_transient_object rsa_public_key tee_key_size_bits
          finally
              (do
                p.copy_object_attributes public_key key_pair
                verify_signature_common p text public_key signature)
              (p.free_transient_object public_key))
        (p.close_object key_pair)

  -- The decrypted bytes are printed at the start of `decrypted_data`; the result is that array, and
  -- `*decrypted_len`.
  unfoldable pub tee_decrypt_data : Bytes → Buffer → Action W (Buffer × ℕ)
  tee_decrypt_data encrypted_data decrypted_data = do
    encrypted_bytes ← outcome (hex_string_to_bytes 256 encrypted_data)
    key_pair ← load_or_generate_key_pair
    finally
        (do
          op ← p.allocate_operation rsaes_decrypt tee_key_size_bits
          finally
              (do
                p.set_operation_key op key_pair
                decrypted_bytes ← p.asymmetric_decrypt op encrypted_bytes
                printed ← defined (bytes_to_hex_string decrypted_bytes decrypted_data 0)
                pure (printed, length decrypted_bytes * 2))
              (p.free_operation op))
        (p.close_object key_pair)
