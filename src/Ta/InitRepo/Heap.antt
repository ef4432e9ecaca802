-- ===== src/Ta/InitRepo/Heap.antt =====
-- The allocations of `init_repo`: what its calls of other modules leave of them.
pub mod Balance
pub mod Steps
pub mod Whole
use trust_chain.Base.{
  ℕ, ◌≡◌, refl, Bytes, Option, some, none, Outcome, ok, err, fault, Action, ◌>>=◌, ◌>>◌, finally,
  or_else, resume, arith, ◌∙◌, defined, outcome,
}
use trust_chain.Memory.{Buffer, Cells}
use trust_chain.Platform.{
  Platform, Handle, Algorithm, ObjectType, sha256_digest, rsassa_sign, rsa_keypair,
}
use trust_chain.Hex.{hex_string_to_bytes, bytes_to_hex_string}
use trust_chain.Utils.{get_trust_time, compute_sha256_hash, hash_data, printed_hash}
use trust_chain.Utils.{tee_key_size_bits}
use trust_chain.KeyManager.{
  tee_key_pair_uuid, generate_key_pair, load_or_generate_key_pair, tee_sign_hash,
}
use trust_chain.Block.{init_base_block, init_access_block, calculate_access_block_hash}

-- `live` weighs the allocations that TEE_Malloc has given the TA and TEE_Free has not taken back.
-- The calls of the platform that sign and hash give and take none.
pub record KeepsHeap {W : Type 0} (p : Platform W) (live : W → ℕ) : Type 0 where
  pub get_system_time : (w : W) → live (p.get_system_time w).1 ≡ live w
  pub allocate_operation :
      (a : Algorithm) (n : ℕ) (w : W) → live (p.allocate_operation a n w).1 ≡ live w
  pub free_operation : (h : Handle) (w : W) → live (p.free_operation h w) ≡ live w
  pub set_operation_key : (o k : Handle) (w : W) → live (p.set_operation_key o k w).1 ≡ live w
  pub digest_do_final : (o : Handle) (t : Bytes) (w : W) → live (p.digest_do_final o t w).1 ≡ live w
  pub asymmetric_sign_digest :
      (o : Handle) (d : Bytes) (w : W) → live (p.asymmetric_sign_digest o d w).1 ≡ live w
  pub open_persistent_object :
      (id : Bytes) (w : W) → live (p.open_persistent_object id w).1 ≡ live w
  pub create_persistent_object :
      (id : Bytes) (o : Handle) (w : W) → live (p.create_persistent_object id o w).1 ≡ live w
  pub close_object : (h : Handle) (w : W) → live (p.close_object h w) ≡ live w
  pub allocate_transient_object :
      (t : ObjectType) (n : ℕ) (w : W) → live (p.allocate_transient_object t n w).1 ≡ live w
  pub free_transient_object : (h : Handle) (w : W) → live (p.free_transient_object h w) ≡ live w
  pub generate_key : (h : Handle) (n : ℕ) (w : W) → live (p.generate_key h n w).1 ≡ live w

module _ {W : Type 0} (live : W → ℕ) where
  -- A call that leaves as many allocations as there were, however it ends.
  abbrev pub Keeps : {A : Type 0} → Action W A → Type 0
  Keeps m = (w : W) → live (m w).1 ≡ live w

  >>=-Keeps :
      {A B : Type 0} (m : Action W A) (f : A → Action W B)
      → Keeps m
      → ((a : A) → Keeps (f a))
      → Keeps (m >>= f)
  >>=-Keeps m f km kf w = go (m w) ∙ km w
    where
      go : (x : Outcome _ × W) → live (resume f x).1 ≡ live x.1
      go (ok a, w') = kf a w'
      go (err e, w') = refl
      go (fault, w') = refl

  finally-Keeps :
      {A : Type 0} (m : Action W A) (f : W → W)
      → Keeps m
      → ((w : W) → live (f w) ≡ live w)
      → Keeps (finally m f)
  finally-Keeps m f km kf w = ground (arith, km w, kf (m w).1)

  or_else-Keeps : {A : Type 0} (m m' : Action W A) → Keeps m → Keeps m' → Keeps (or_else m m')
  or_else-Keeps m m' k k' w = ground (arith, k w, k' (m w).1)

  defined-Keeps : {A : Type 0} (o : Option A) → Keeps (defined o)
  defined-Keeps none w = refl
  defined-Keeps (some a) w = refl

module _ {W : Type 0} (p : Platform W) (live : W → ℕ) (keeps : KeepsHeap p live) where
  pub hash_data-Keeps : (room : ℕ) (text : Bytes) → Keeps live (hash_data p room text)
  unfolding hash_data compute_sha256_hash
  hash_data-Keeps room text =
      >>=-Keeps live (compute_sha256_hash p text) _
        (>>=-Keeps live (p.allocate_operation sha256_digest 0) _
          (keeps.allocate_operation sha256_digest 0)
          (λ op.
            finally-Keeps live (p.digest_do_final op text) (p.free_operation op)
              (keeps.digest_do_final op text) (keeps.free_operation op)))
        (λ digest. defined-Keeps live (printed_hash room digest))

  generate_key_pair-Keeps : Keeps live (generate_key_pair p)
  unfolding generate_key_pair
  generate_key_pair-Keeps =
      >>=-Keeps live (p.allocate_transient_object rsa_keypair tee_key_size_bits) _
        (keeps.allocate_transient_object rsa_keypair tee_key_size_bits)
        (λ rsa.
          finally-Keeps live
            (p.generate_key rsa tee_key_size_bits
              >> p.create_persistent_object tee_key_pair_uuid rsa)
            (p.free_transient_object rsa)
            (>>=-Keeps live (p.generate_key rsa tee_key_size_bits) _
              (keeps.generate_key rsa tee_key_size_bits)
              (λ _. keeps.create_persistent_object tee_key_pair_uuid rsa))
            (keeps.free_transient_object rsa))

  load_or_generate_key_pair-Keeps : Keeps live (load_or_generate_key_pair p)
  unfolding load_or_generate_key_pair
  load_or_generate_key_pair-Keeps =
      or_else-Keeps live (p.open_persistent_object tee_key_pair_uuid) (generate_key_pair p)
        (keeps.open_persistent_object tee_key_pair_uuid) generate_key_pair-Keeps

  signing-Keeps :
      (op key : Handle) (digest : Bytes) (b : Buffer) (off : ℕ)
      → Keeps live (do
        p.set_operation_key op key
        sig ← p.asymmetric_sign_digest op digest
        defined (bytes_to_hex_string sig b off))
  signing-Keeps op key digest b off =
      >>=-Keeps live (p.set_operation_key op key) _ (keeps.set_operation_key op key) (λ _.
        >>=-Keeps live (p.asymmetric_sign_digest op digest) _
          (keeps.asymmetric_sign_digest op digest)
          (λ sig. defined-Keeps live (bytes_to_hex_string sig b off)))

  pub tee_sign_hash-Keeps :
      (text : Bytes) (b : Buffer) (off : ℕ) → Keeps live (tee_sign_hash p text b off)
  unfolding tee_sign_hash
  tee_sign_hash-Keeps text b off =
      >>=-Keeps live (outcome (hex_string_to_bytes 32 text)) _ (λ w. refl)
        (λ digest.
          >>=-Keeps live (load_or_generate_key_pair p) _ load_or_generate_key_pair-Keeps (λ key.
            finally-Keeps live _ (p.close_object key)
              (>>=-Keeps live (p.allocate_operation rsassa_sign tee_key_size_bits) _
                (keeps.allocate_operation rsassa_sign tee_key_size_bits)
                (λ op.
                  finally-Keeps live _ (p.free_operation op) (signing-Keeps op key digest b off)
                    (keeps.free_operation op)))
              (keeps.close_object key)))

  init_base_block-Keeps :
      (b : Buffer) (height : ℕ) (parent : Option Bytes) (op : ℕ) (key sig : Option Bytes)
      → Keeps live (init_base_block p b height parent op key sig)
  unfolding init_base_block get_trust_time
  init_base_block-Keeps b height parent op key sig w = grind (arith, keeps.get_system_time)

  pub init_access_block-Keeps :
      (b : Buffer) (height : ℕ) (parent : Option Bytes) (op role : ℕ)
      (pubkey key sig : Option Bytes)
      → Keeps live (init_access_block p b height parent op role pubkey key sig)
  unfolding init_access_block
  init_access_block-Keeps b height parent op role pubkey key sig w =
      ground (arith, init_base_block-Keeps b height parent op key sig w)
