-- ===== src/KeyManager/Working.antt =====
-- What a platform does when nothing fails, and what the TA's own functions do then.
use trust_chain.Base.{
  ok-injective, sym, ◌∙◌, ◌/◌, ◌%◌, defined, ◌>>=◌, ◌>>◌, ℕ, ◌+◌, ◌*◌, ◌≤◌, ◌<◌, ◌≡◌, refl, Bytes,
  [], ◌∷◌, length, some, ok, All, arith,
}
use trust_chain.Memory.{Buffer}
use trust_chain.Memory.Fits.{store-fits}
use trust_chain.Hex.{hex, hex_digit, bytes_to_hex_string, hex_string_to_bytes}
use trust_chain.Hex.RoundTrip.{IsByte, hex_string_to_bytes-hex}
use trust_chain.Platform.{Platform, Handle, Algorithm, sha256_digest, rsassa_sign, rsaes_decrypt}
use trust_chain.Block.Digest.{IsDigest}
use trust_chain.Utils.{compute_sha256_hash, hash_data}
use trust_chain.KeyManager.{
  tee_key_pair_uuid, load_or_generate_key_pair, tee_sign_hash, tee_decrypt_data,
}

-- The calls of a working platform: there are operations and a key pair, SHA-256 gives its 32 bytes, and
-- a signature with the key of 2048 bits is at most 256 bytes long.
pub record IsWorking {W : Type 0} (p : Platform W) (sha : Bytes → Bytes) : Type 0 where
  pub allocate_operation :
      (a : Algorithm) (n : ℕ) (w : W) → (h : Handle) × ((p.allocate_operation a n w).0 ≡ ok h)
  pub set_operation_key : (op key : Handle) (w : W) → (p.set_operation_key op key w).0 ≡ ok tt
  pub digest_do_final :
      (op : Handle) (text : Bytes) (w : W) → (p.digest_do_final op text w).0 ≡ ok (sha text)
  pub digest_bytes : (text : Bytes) → All IsByte (sha text)
  pub digest_size : (text : Bytes) → length (sha text) ≡ 32
  pub asymmetric_sign_digest :
      (op : Handle) (digest : Bytes) (w : W)
      → (sig : Bytes) × ((p.asymmetric_sign_digest op digest w).0 ≡ ok sig) × (length sig ≤ 256)
  pub open_persistent_object :
      (id : Bytes) (w : W) → (h : Handle) × ((p.open_persistent_object id w).0 ≡ ok h)

-- Printing bytes inside the object succeeds.
pub bytes_to_hex_string-fits :
    (xs : Bytes) (b : Buffer) (off : ℕ)
    → off + 2 * length xs < b.size
    → (b' : Buffer) × (bytes_to_hex_string xs b off ≡ some b') × (b'.size ≡ b.size)
unfolding bytes_to_hex_string
bytes_to_hex_string-fits [] b off fits = (b, refl, refl)
bytes_to_hex_string-fits (x ∷ xs) b off fits =
    let (b₁, e, size₁) =
      store-fits b off (hex_digit (x / 16) ∷ hex_digit (x % 16) ∷ 0 ∷ []) (omega arith) in
    let (b', e', size') = bytes_to_hex_string-fits xs b₁ (off + 2) (omega arith) in
    (b', ground (arith, e, e'), size' ∙ size₁)

module _ {W : Type 0} (p : Platform W) (sha : Bytes → Bytes) (working : IsWorking p sha) where
  pub working-IsDigest : IsDigest p sha
  working-IsDigest = record {
    computes = λ op text digest w run. ok-injective (sym run ∙ working.digest_do_final op text w);
    bytes = working.digest_bytes;
  }

  compute_sha256_hash_works :
      (text : Bytes) (w : W) → (compute_sha256_hash p text w).0 ≡ ok (sha text)
  unfolding compute_sha256_hash
  compute_sha256_hash_works text w =
      let (op, e) = working.allocate_operation sha256_digest 0 w in
      ground (arith, e, working.digest_do_final op text (p.allocate_operation sha256_digest 0 w).1)

  pub hash_data_works :
      (room : ℕ) (text : Bytes) (w : W)
      → 64 < room
      → (hash_data p room text w).0 ≡ ok (hex (sha text))
  unfolding hash_data
  hash_data_works room text w fits =
      ground (arith, compute_sha256_hash_works text w, working.digest_size text, fits)

  load_or_generate_key_pair_works :
      (w : W) → (h : Handle) × ((load_or_generate_key_pair p w).0 ≡ ok h)
  unfolding load_or_generate_key_pair
  load_or_generate_key_pair_works w =
      let (h, e) = working.open_persistent_object tee_key_pair_uuid w in (h, ground (arith, e))

  -- Signing with an operation and a key pair that are there.
  sign_works :
      (digest : Bytes) (b : Buffer) (off : ℕ) (op key : Handle) (w : W)
      → off + 512 < b.size
      → (b' : Buffer) × ((do
        p.set_operation_key op key
        sig ← p.asymmetric_sign_digest op digest
        defined (bytes_to_hex_string sig b off))
            w).0
          ≡ ok b'
        × (b'.size ≡ b.size)
  sign_works digest b off op key w fits =
      let w₁ = (p.set_operation_key op key w).1 in
      let (sig, e, short) = working.asymmetric_sign_digest op digest w₁ in
      let (b', printed, size) = bytes_to_hex_string-fits sig b off (omega arith) in
      (b', ground (arith, working.set_operation_key op key w, e, printed), size)

  -- A digest is signed with the key pair, and printed at `off`.
  pub tee_sign_hash_works :
      (text : Bytes) (b : Buffer) (off : ℕ) (w : W)
      → off + 512 < b.size
      → (b' : Buffer) × ((tee_sign_hash p (hex (sha text)) b off w).0 ≡ ok b') × (b'.size ≡ b.size)
  unfolding tee_sign_hash
  tee_sign_hash_works text b off w fits =
      let decoded =
        hex_string_to_bytes-hex 32 (sha text) (working.digest_bytes text)
          (ground (arith, working.digest_size text)) in
      let (key, e) = load_or_generate_key_pair_works w in
      let w₁ = (load_or_generate_key_pair p w).1 in
      let (op, e') = working.allocate_operation rsassa_sign 2048 w₁ in
      let (b', signed, size) =
        sign_works (sha text) b off op key (p.allocate_operation rsassa_sign 2048 w₁).1 fits in
      (b', ground (arith, decoded, e, e', signed), size)

  -- A text that decodes to at most 256 bytes, and that the key pair decrypts to few enough bytes.
  pub tee_decrypt_data_works :
      (encrypted cipher : Bytes) (array : Buffer) (w : W)
      → hex_string_to_bytes 256 encrypted ≡ ok cipher
      → ((op : Handle) (w : W)
          → (plain : Bytes) × ((p.asymmetric_decrypt op cipher w).0 ≡ ok plain)
            × (2 * length plain < array.size))
      → (b' : Buffer) × (plain : Bytes) × ((tee_decrypt_data p encrypted array w).0
          ≡ ok (b', length plain * 2))
        × (2 * length plain < array.size)
  unfolding tee_decrypt_data
  tee_decrypt_data_works encrypted cipher array w decoded decrypts =
      let (key, e) = load_or_generate_key_pair_works w in
      let w₁ = (load_or_generate_key_pair p w).1 in
      let (op, e') = working.allocate_operation rsaes_decrypt 2048 w₁ in
      let w₂ = (p.allocate_operation rsaes_decrypt 2048 w₁).1 in
      let (plain, e'', short) = decrypts op (p.set_operation_key op key w₂).1 in
      let (b', printed, size) = bytes_to_hex_string-fits plain array 0 (omega arith) in
      (
        b',
        plain,
        ground (arith, decoded, e, e', working.set_operation_key op key w₂, e'', printed),
        short,
      )
