-- ===== src/KeyManager/Handles.antt =====
-- Which handles the functions of ta/tee_key_manager/tee_key_manager.c leave open.
use trust_chain.Base.{ℕ, ◌+◌, ◌≡◌, ◌≢◌, refl, Bytes, fault, outcome, arith}
use trust_chain.Memory.{Buffer}
use trust_chain.Platform.{Platform, rsa_public_key, rsassa_sign, rsaes_decrypt}
use trust_chain.Hex.{hex_string_to_bytes}
use trust_chain.Utils.{hash_data, tee_key_size_bits}
use trust_chain.Utils.Handles.{
  CountsHandles, opened, Closes, >>=-Closes, bracket-Closes, compute_sha256_hash-live,
  verify_signature_common-live,
}
use trust_chain.KeyManager.{
  generate_key_pair, load_or_generate_key_pair, tee_sign_hash, tee_sign_data, tee_verify_signature,
  tee_decrypt_data,
}

module _ {W : Type 0} (p : Platform W) (live : W → ℕ) (counts : CountsHandles p live) where
  pub hash_data-live :
      (room : ℕ) (text : Bytes) (w : W)
      → (hash_data p room text w).0 ≢ fault
      → live (hash_data p room text w).1 ≡ live w
  unfolding hash_data
  hash_data-live room text w h = grind (arith, compute_sha256_hash-live p live counts)

  -- A key pair that was generated is in the store, and its transient object is freed.
  generate_key_pair-live :
      (w : W)
      → (generate_key_pair p w).0 ≢ fault
      → live (generate_key_pair p w).1 ≡ opened (generate_key_pair p w).0 + live w
  unfolding generate_key_pair
  generate_key_pair-live w h = grind (
    arith, counts.allocate_transient_object, counts.free_transient_object, counts.generate_key,
    counts.create_persistent_object,
  )

  load_or_generate_key_pair-live :
      (w : W)
      → (load_or_generate_key_pair p w).0 ≢ fault
      → live (load_or_generate_key_pair p w).1 ≡ opened (load_or_generate_key_pair p w).0 + live w
  unfolding load_or_generate_key_pair
  load_or_generate_key_pair-live w h =
      grind (arith, generate_key_pair-live, counts.open_persistent_object)

  -- Each of the functions closes all that it opened, on success and on every error.
  pub tee_sign_hash-Closes :
      (hash : Bytes) (b : Buffer) (off : ℕ) → Closes live (tee_sign_hash p hash b off)
  unfolding tee_sign_hash
  tee_sign_hash-Closes hash b off =
      >>=-Closes live (outcome (hex_string_to_bytes 32 hash)) _ (λ w h. refl)
        λ bytes.
          bracket-Closes live (load_or_generate_key_pair p) _ p.close_object
            load_or_generate_key_pair-live
            (λ pair.
              bracket-Closes live (p.allocate_operation rsassa_sign tee_key_size_bits) _
                p.free_operation (λ w h. counts.allocate_operation rsassa_sign tee_key_size_bits w)
                (λ op w h. grind (arith, counts.set_operation_key, counts.asymmetric_sign_digest))
                counts.free_operation)
            counts.close_object

  tee_sign_data-Closes :
      (text : Bytes) (b : Buffer) (off : ℕ) → Closes live (tee_sign_data p text b off)
  unfolding tee_sign_data
  tee_sign_data-Closes text b off =
      >>=-Closes live (hash_data p 65 text) (λ hash. tee_sign_hash p hash b off)
        (hash_data-live 65 text) λ hash. tee_sign_hash-Closes hash b off

  tee_verify_signature-Closes : (text sig : Bytes) → Closes live (tee_verify_signature p text sig)
  unfolding tee_verify_signature
  tee_verify_signature-Closes text sig =
      bracket-Closes live (load_or_generate_key_pair p) _ p.close_object
        load_or_generate_key_pair-live
        (λ pair.
          bracket-Closes live (p.allocate_transient_object rsa_public_key tee_key_size_bits) _
            p.free_transient_object
            (λ w h. counts.allocate_transient_object rsa_public_key tee_key_size_bits w)
            (λ key.
              >>=-Closes live (p.copy_object_attributes key pair) _
                (λ w h. counts.copy_object_attributes key pair w)
                λ _. verify_signature_common-live p live counts text key sig)
            counts.free_transient_object)
        counts.close_object

  pub tee_decrypt_data-Closes : (s : Bytes) (b : Buffer) → Closes live (tee_decrypt_data p s b)
  unfolding tee_decrypt_data
  tee_decrypt_data-Closes s b =
      >>=-Closes live (outcome (hex_string_to_bytes 256 s)) _ (λ w h. refl)
        λ bytes.
          bracket-Closes live (load_or_generate_key_pair p) _ p.close_object
            load_or_generate_key_pair-live
            (λ pair.
              bracket-Closes live (p.allocate_operation rsaes_decrypt tee_key_size_bits) _
                p.free_operation
                (λ w h. counts.allocate_operation rsaes_decrypt tee_key_size_bits w)
                (λ op w h. grind (arith, counts.set_operation_key, counts.asymmetric_decrypt))
                counts.free_operation)
            counts.close_object

-- Where the platform's calls open and close handles as their documentation says, signing a hash,
-- signing a text, verifying and decrypting close every handle that they opened, on success and on
-- every error, the generation of a missing key pair included.
pub key_manager-Closes :
    {W : Type 0} (p : Platform W) (live : W → ℕ)
    → CountsHandles p live
    → ((hash : Bytes) (b : Buffer) (off : ℕ) → Closes live (tee_sign_hash p hash b off))
      × ((text : Bytes) (b : Buffer) (off : ℕ) → Closes live (tee_sign_data p text b off))
      × ((text sig : Bytes) → Closes live (tee_verify_signature p text sig))
      × ((s : Bytes) (b : Buffer) → Closes live (tee_decrypt_data p s b))
key_manager-Closes p live counts = (
  tee_sign_hash-Closes p live counts,
  tee_sign_data-Closes p live counts,
  tee_verify_signature-Closes p live counts,
  tee_decrypt_data-Closes p live counts,
)
