-- ===== src/Utils.antt =====
-- ta/utils/utils.c, but for the hexadecimal texts (Hex) and the PEM texts (Utils/Pem): hashing, the
-- check of a signature, and the trusted time. The NULL tests at the head of these functions are on
-- pointers that no caller leaves NULL.
pub mod Pem
pub mod Handles
use trust_chain.Base.{
  ℕ, ◌+◌, ◌*◌, Bool, true, false, not, ◌&&◌, ◌||◌, Bytes, length, ltb, Action, pure, defined, gets,
  outcome, Option, some, none, if◌then◌else◌, raise_if, finally, on_error, with_error, ◌>>=◌, ◌>>◌,
  ok, bad_parameters, bad_format, out_of_memory, generic,
}
use trust_chain.Hex.{hex, hex_string_to_bytes}
use trust_chain.Platform.{
  Allocation, number_bytes, Platform, Handle, sha256_digest, rsassa_verify, rsa_public_key,
}

-- TEE_KEY_SIZE_BITS and TEE_SIGNATURE_SIZE_BYTES of ta/tee_key_manager/tee_key_manager.h
abbrev pub tee_key_size_bits : ℕ
tee_key_size_bits = 2048

abbrev pub tee_signature_size_bytes : ℕ
tee_signature_size_bytes = 256

-- The digits and the NUL of a digest, where an array has room for them.
abbrev pub printed_hash : ℕ → Bytes → Option Bytes
printed_hash room digest = if ltb (2 * length digest) room then some (hex digest) else none

module _ {W : Type 0} (p : Platform W) where
  abbrev pub alloc : Allocation → ℕ → Action W Bool
  alloc a size w = let (r, w') = p.malloc a size w in (ok r, w')

  -- `if (buf) TEE_Free(buf);`
  unfoldable pub free_if : Bool → W → W
  free_if true w = p.free number_bytes w
  free_if false w = w

  unfoldable pub get_trust_time : Action W (ℕ × ℕ)
  get_trust_time w = let (t, w') = p.get_system_time w in (ok t, w')

  unfoldable pub compute_sha256_hash : Bytes → Action W Bytes
  compute_sha256_hash text = do
    op ← p.allocate_operation sha256_digest 0
    finally (p.digest_do_final op text) (p.free_operation op)

  -- The text that the loop prints into the caller's array, where `room` bytes can be written.
  unfoldable pub hash_data : ℕ → Bytes → Action W Bytes
  hash_data room text = do digest ← compute_sha256_hash text; defined (printed_hash room digest)

  unfoldable pub verify_signature_common : Bytes → Handle → Bytes → Action W (Unit {0})
  verify_signature_common text key_obj signature = do
    digest ← compute_sha256_hash text
    sig ← outcome (hex_string_to_bytes tee_signature_size_bytes signature)
    op ← p.allocate_operation rsassa_verify tee_key_size_bits
    finally (do p.set_operation_key op key_obj; p.asymmetric_verify_digest op digest sig)
        (p.free_operation op)

  -- The numbers of a key go into its object, which is freed where that fails, but not where the
  -- numbers cannot be written.
  unfoldable pub write_key : Handle → Bytes → Bytes → Bool → Action W Handle
  write_key key_obj n e has_memory = do
    raise_if (not has_memory) out_of_memory
    modulus ← with_error (p.mpi_write_binary n) generic
    exponent ← with_error (p.mpi_write_binary e) generic
    on_error (p.populate_transient_object key_obj modulus exponent)
        (p.free_transient_object key_obj)
    pure key_obj

  -- The same between the allocation and the release of the two buffers.
  unfoldable pub fill_key : Handle → Bytes → Bytes → Action W Handle
  fill_key key_obj n e = do
    has_modulus ← alloc number_bytes (length n)
    has_exponent ← alloc number_bytes (length e)
    finally (write_key key_obj n e (has_modulus && has_exponent))
        (λ w. free_if has_exponent (free_if has_modulus w))

  -- The part of `public_key_pem_to_obj` behind the parser. The object stays open where a step after
  -- its allocation fails, but for the last one.
  unfoldable pub key_of_context : Handle → Action W Handle
  key_of_context ctx = do
    is_rsa ← gets (p.pk_is_rsa ctx)
    raise_if (not is_rsa) bad_parameters
    has_rsa ← gets (p.pk_has_rsa ctx)
    raise_if (not has_rsa) bad_parameters
    bits ← gets (p.pk_get_bitlen ctx)
    raise_if (ltb bits 2048 || ltb 4096 bits) bad_parameters
    key_obj ← p.allocate_transient_object rsa_public_key bits
    (n, e) ← with_error (p.rsa_export ctx) bad_format
    fill_key key_obj n e

  unfoldable pub public_key_pem_to_obj : Bytes → Action W Handle
  public_key_pem_to_obj key_str =
      finally (do ctx ← with_error (p.pk_parse_public_key key_str) bad_format; key_of_context ctx)
        p.pk_free

  unfoldable pub verify_signature : Bytes → Bytes → Bytes → Action W (Unit {0})
  verify_signature text sigkey signature = do
    key_obj ← public_key_pem_to_obj sigkey
    finally (verify_signature_common text key_obj signature) (p.close_object key_obj)
