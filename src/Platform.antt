-- ===== src/Platform.antt =====
-- What the TA calls and does not implement: the GlobalPlatform TEE Internal Core API (memory, time,
-- objects, operations) and mbedTLS. `W` is the state of that world. A call may succeed, return any
-- code of its own, or panic, and may change the world.
use trust_chain.Base.{ℕ, Bool, Bytes, Action}

-- `TEE_ObjectHandle`, `TEE_OperationHandle` and the mbedTLS contexts; a handle that a successful
-- call returns is not TEE_HANDLE_NULL.
abbrev pub Handle : Type 0
Handle = ℕ

-- The algorithms and modes that the source allocates operations for.
pub data Algorithm : Type 0 where
  sha256_digest rsassa_sign rsassa_verify rsaes_decrypt : Algorithm

pub data ObjectType : Type 0 where
  rsa_keypair rsa_public_key : ObjectType

pub data AttributeId : Type 0 where
  rsa_modulus rsa_public_exponent : AttributeId

-- What a pointer that TEE_Malloc gave points to: the node and the copied string of a key, a `struct
-- key_list`, a `struct repo_metadata`, the bytes of a number.
pub data Allocation : Type 0 where
  node_of string_of : Bytes → Allocation
  key_set metadata number_bytes : Allocation

pub record Platform (W : Type 0) : Type 0 where
  -- how many bytes a command can write from the start of its local `char block_hash[64]` on, or
  -- `genesis_hash[64]`: the 64 of the array, and those behind it in which the compiler put nothing
  pub hash_room : ℕ
  -- TEE_Malloc, for what the pointer is to point to, of a size: whether it returned memory
  pub malloc : Allocation → ℕ → W → Bool × W
  -- TEE_Free of such a pointer
  pub free : Allocation → W → W
  -- TEE_GetSystemTime: seconds and milliseconds
  pub get_system_time : W → (ℕ × ℕ) × W
  pub allocate_operation : Algorithm → ℕ → Action W Handle
  pub free_operation : Handle → W → W
  pub set_operation_key : Handle → Handle → Action W (Unit {0})
  pub digest_do_final : Handle → Bytes → Action W Bytes
  pub asymmetric_sign_digest : Handle → Bytes → Action W Bytes
  pub asymmetric_verify_digest : Handle → Bytes → Bytes → Action W (Unit {0})
  pub asymmetric_decrypt : Handle → Bytes → Action W Bytes
  pub open_persistent_object : Bytes → Action W Handle
  pub create_persistent_object : Bytes → Handle → Action W Handle
  pub close_object : Handle → W → W
  pub allocate_transient_object : ObjectType → ℕ → Action W Handle
  pub free_transient_object : Handle → W → W
  pub generate_key : Handle → ℕ → Action W (Unit {0})
  pub copy_object_attributes : Handle → Handle → Action W (Unit {0})
  -- TEE_PopulateTransientObject with a modulus and a public exponent
  pub populate_transient_object : Handle → Bytes → Bytes → Action W (Unit {0})
  pub get_object_buffer_attribute : Handle → AttributeId → Action W Bytes
  -- mbedtls_pk_parse_public_key, on the text and its `strlen`; an error is a nonzero return
  pub pk_parse_public_key : Bytes → Action W Handle
  -- whether mbedtls_pk_get_type gives MBEDTLS_PK_RSA
  pub pk_is_rsa : Handle → W → Bool
  -- whether mbedtls_pk_rsa gives a context
  pub pk_has_rsa : Handle → W → Bool
  pub pk_get_bitlen : Handle → W → ℕ
  -- mbedtls_rsa_export of N and E, each as its big-endian bytes
  pub rsa_export : Handle → Action W (Bytes × Bytes)
  -- mbedtls_mpi_write_binary into a buffer of mbedtls_mpi_size
  pub mpi_write_binary : Bytes → Action W Bytes
  pub pk_free : W → W
  -- the chain from mbedtls_rsa_import_raw to mbedtls_pk_setup, on a modulus and an exponent
  pub rsa_import : Bytes → Bytes → Action W Handle
  pub rsa_complete : Handle → Action W (Unit {0})
  pub pk_setup : Handle → Action W (Unit {0})
  -- mbedtls_pk_write_pubkey_der: the bytes at the end of the buffer, none if it fails
  pub pk_write_pubkey_der : Handle → W → Bytes × W
  pub base64_encode : Bytes → Action W Bytes
  pub rsa_free : W → W
