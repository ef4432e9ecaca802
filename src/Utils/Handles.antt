-- ===== src/Utils/Handles.antt =====
-- Which handles the functions of ta/utils/utils.c leave open.
pub mod Keys
use trust_chain.Base.{
  ℕ, ◌+◌, ◌-◌, ◌≤◌, ◌≡◌, ◌≢◌, refl, length, ◌&&◌, Bytes, Outcome, ok, err, fault, Action, ◌>>=◌,
  finally, Bool, true, false, arith, Outcome-cases, TeeError, inl, inr,
}
use trust_chain.Platform.{Allocation, Platform, Handle, Algorithm, ObjectType, rsa_public_key}
use trust_chain.Utils.{
  compute_sha256_hash, verify_signature_common, public_key_pem_to_obj, free_if, write_key, fill_key,
  key_of_context, verify_signature,
}

-- How many handles a call opened.
abbrev pub opened : {A : Type 0} → Outcome A → ℕ
opened (ok _) = 1
opened (err _) = 0
opened fault = 0

-- `live` is the number of open object and operation handles: a call that allocates or opens one
-- counts it if it succeeds, one that frees or closes a handle takes one away, and no other call
-- changes it.
pub record CountsHandles {W : Type 0} (p : Platform W) (live : W → ℕ) : Type 0 where
  pub malloc : (a : Allocation) (n : ℕ) (w : W) → live (p.malloc a n w).1 ≡ live w
  pub free : (a : Allocation) (w : W) → live (p.free a w) ≡ live w
  pub allocate_operation :
      (a : Algorithm) (n : ℕ) (w : W)
      → live (p.allocate_operation a n w).1 ≡ opened (p.allocate_operation a n w).0 + live w
  pub free_operation : (h : Handle) (w : W) → live (p.free_operation h w) ≡ live w - 1
  pub set_operation_key : (o k : Handle) (w : W) → live (p.set_operation_key o k w).1 ≡ live w
  pub digest_do_final : (o : Handle) (t : Bytes) (w : W) → live (p.digest_do_final o t w).1 ≡ live w
  pub asymmetric_sign_digest :
      (o : Handle) (d : Bytes) (w : W) → live (p.asymmetric_sign_digest o d w).1 ≡ live w
  pub asymmetric_verify_digest :
      (o : Handle) (d g : Bytes) (w : W) → live (p.asymmetric_verify_digest o d g w).1 ≡ live w
  pub asymmetric_decrypt :
      (o : Handle) (d : Bytes) (w : W) → live (p.asymmetric_decrypt o d w).1 ≡ live w
  pub open_persistent_object :
      (id : Bytes) (w : W)
      → live (p.open_persistent_object id w).1 ≡ opened (p.open_persistent_object id w).0 + live w
  pub create_persistent_object :
      (id : Bytes) (o : Handle) (w : W)
      → live (p.create_persistent_object id o w).1
        ≡ opened (p.create_persistent_object id o w).0 + live w
  pub close_object : (h : Handle) (w : W) → live (p.close_object h w) ≡ live w - 1
  pub allocate_transient_object :
      (t : ObjectType) (n : ℕ) (w : W)
      → live (p.allocate_transient_object t n w).1
        ≡ opened (p.allocate_transient_object t n w).0 + live w
  pub free_transient_object : (h : Handle) (w : W) → live (p.free_transient_object h w) ≡ live w - 1
  pub generate_key : (h : Handle) (n : ℕ) (w : W) → live (p.generate_key h n w).1 ≡ live w
  pub copy_object_attributes :
      (h k : Handle) (w : W) → live (p.copy_object_attributes h k w).1 ≡ live w
  pub populate_transient_object :
      (h : Handle) (n e : Bytes) (w : W) → live (p.populate_transient_object h n e w).1 ≡ live w
  pub pk_parse_public_key : (t : Bytes) (w : W) → live (p.pk_parse_public_key t w).1 ≡ live w
  pub rsa_export : (h : Handle) (w : W) → live (p.rsa_export h w).1 ≡ live w
  pub mpi_write_binary : (n : Bytes) (w : W) → live (p.mpi_write_binary n w).1 ≡ live w
  pub pk_free : (w : W) → live (p.pk_free w) ≡ live w

-- A call that closes what it opened, and one that opens one handle and returns it.
abbrev pub Closes : {W A : Type 0} → (W → ℕ) → Action W A → Type 0
Closes live m = (w : _) → (m w).0 ≢ fault → live (m w).1 ≡ live w

abbrev pub Opens : {W A : Type 0} → (W → ℕ) → Action W A → Type 0
Opens live m = (w : _) → (m w).0 ≢ fault → live (m w).1 ≡ opened (m w).0 + live w

module _ {W A B : Type 0} (live : W → ℕ) where
  pub >>=-Closes :
      (m : Action W A) (f : A → Action W B)
      → Closes live m
      → ((a : A) → Closes live (f a))
      → Closes live (m >>= f)
  >>=-Closes m f first rest w h = elim (Outcome-cases (m w).0) [
    | inl (a, e) ↦ ground (arith, e, first w, rest a (m w).1)
    | inr failed ↦ ground (arith, failed, first w)
  ]

  -- What is opened, used, and closed on each path.
  pub bracket-Closes :
      (m : Action W A) (body : A → Action W B) (close : A → W → W)
      → Opens live m
      → ((a : A) → Closes live (body a))
      → ((a : A) (w : W) → live (close a w) ≡ live w - 1)
      → Closes live (m >>= λ a. finally (body a) (close a))
  bracket-Closes m body close opens keeps closes w h = elim (Outcome-cases (m w).0) [
    | inl (a, e) ↦
        let w₁ = (m w).1 in ground (arith, e, opens w, keeps a w₁, closes a (body a w₁).1)
    | inr failed ↦ ground (arith, failed, opens w)
  ]

module _ {W : Type 0} (p : Platform W) (live : W → ℕ) (counts : CountsHandles p live) where
  pub compute_sha256_hash-live :
      (text : Bytes) (w : W)
      → (compute_sha256_hash p text w).0 ≢ fault
      → live (compute_sha256_hash p text w).1 ≡ live w
  unfolding compute_sha256_hash
  compute_sha256_hash-live text w h =
      grind (arith, counts.allocate_operation, counts.free_operation, counts.digest_do_final)

  pub verify_signature_common-live :
      (text : Bytes) (key : Handle) (signature : Bytes) (w : W)
      → (verify_signature_common p text key signature w).0 ≢ fault
      → live (verify_signature_common p text key signature w).1 ≡ live w
  unfolding verify_signature_common
  verify_signature_common-live text key signature w h = grind (
    arith, compute_sha256_hash-live, counts.allocate_operation, counts.free_operation,
    counts.set_operation_key, counts.asymmetric_verify_digest,
  )
