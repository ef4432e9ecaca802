-- ===== src/Utils/Handles/Keys.antt =====
-- The handle of a public key, and the check of a signature with it.
use trust_chain.Base.{
  ℕ, ◌+◌, ◌≤◌, ◌≡◌, ◌≢◌, refl, length, ◌&&◌, Bytes, ok, err, fault, Bool, true, false, arith,
  Outcome-cases, TeeError, inl, inr,
}
use trust_chain.Platform.{number_bytes, Platform, Handle, rsa_public_key}
use trust_chain.Utils.{
  verify_signature_common, public_key_pem_to_obj, free_if, write_key, fill_key, key_of_context,
  verify_signature,
}
use trust_chain.Utils.Handles.{CountsHandles, verify_signature_common-live}

module _ {W : Type 0} (p : Platform W) (live : W → ℕ) (counts : CountsHandles p live) where
  free_if-live : (b : Bool) (w : W) → live (free_if p b w) ≡ live w
  unfolding free_if
  free_if-live true w = counts.free number_bytes w
  free_if-live false w = refl

  write_key-live :
      (key_obj h : Handle) (n e : Bytes) (b : Bool) (w : W)
      → (write_key p key_obj n e b w).0 ≡ ok h
      → live (write_key p key_obj n e b w).1 ≡ live w
  unfolding write_key
  write_key-live key_obj h n e b w run =
      grind (arith, counts.mpi_write_binary, counts.populate_transient_object)

  -- Where the numbers cannot be put in, the object was freed or left open.
  write_key-leak :
      (key_obj : Handle) (n e : Bytes) (b : Bool) (x : TeeError) (w : W)
      → (write_key p key_obj n e b w).0 ≡ err x
      → (live w ≤ live (write_key p key_obj n e b w).1 + 1)
        × (live (write_key p key_obj n e b w).1 ≤ live w)
  unfolding write_key
  write_key-leak key_obj n e b x w run = grind (
    arith, counts.free_transient_object, counts.mpi_write_binary, counts.populate_transient_object,
  )

  fill_key-live :
      (key_obj h : Handle) (n e : Bytes) (w : W)
      → (fill_key p key_obj n e w).0 ≡ ok h
      → live (fill_key p key_obj n e w).1 ≡ live w
  unfolding fill_key
  fill_key-live key_obj h n e w run =
      let (b₁, w₁) = p.malloc number_bytes (length n) w in
      let (b₂, w₂) = p.malloc number_bytes (length e) w₁ in
      let b = b₁ && b₂ in
      let w₃ = (write_key p key_obj n e b w₂).1 in
      ground (
        arith,
        counts.malloc number_bytes (length n) w,
        counts.malloc number_bytes (length e) w₁,
        free_if-live b₂ (free_if p b₁ w₃),
        free_if-live b₁ w₃,
        write_key-live key_obj h n e b w₂,
      )

  fill_key-leak :
      (key_obj : Handle) (n e : Bytes) (x : TeeError) (w : W)
      → (fill_key p key_obj n e w).0 ≡ err x
      → (live w ≤ live (fill_key p key_obj n e w).1 + 1)
        × (live (fill_key p key_obj n e w).1 ≤ live w)
  unfolding fill_key
  fill_key-leak key_obj n e x w run =
      let (b₁, w₁) = p.malloc number_bytes (length n) w in
      let (b₂, w₂) = p.malloc number_bytes (length e) w₁ in
      let b = b₁ && b₂ in
      let w₃ = (write_key p key_obj n e b w₂).1 in
      ground (
        arith,
        counts.malloc number_bytes (length n) w,
        counts.malloc number_bytes (length e) w₁,
        free_if-live b₂ (free_if p b₁ w₃),
        free_if-live b₁ w₃,
        write_key-leak key_obj n e b x w₂,
      )

  key_of_context-live :
      (ctx h : Handle) (w : W)
      → (key_of_context p ctx w).0 ≡ ok h
      → live (key_of_context p ctx w).1 ≡ live w + 1
  unfolding key_of_context
  key_of_context-live ctx h w run =
      let bits = p.pk_get_bitlen ctx w in
      let (a, w₁) = p.allocate_transient_object rsa_public_key bits w in
      let (r, w₂) = p.rsa_export ctx w₁ in
      let count = counts.allocate_transient_object rsa_public_key bits w in
      let keep = counts.rsa_export ctx w₁ in
      elim (Outcome-cases a) [
        | inl (key_obj, e) ↦ elim (Outcome-cases r) [
          | inl ((n, m), e') ↦
              ground (arith, e, e', count, keep, fill_key-live key_obj h n m w₂, run)
          | inr failed ↦ absurd (ground (arith, e, failed, run))
        ]
        | inr failed ↦ absurd (ground (arith, failed, run))
      ]

  key_of_context-leak :
      (ctx : Handle) (x : TeeError) (w : W)
      → (key_of_context p ctx w).0 ≡ err x
      → (live w ≤ live (key_of_context p ctx w).1) × (live (key_of_context p ctx w).1 ≤ live w + 1)
  unfolding key_of_context
  key_of_context-leak ctx x w run =
      let bits = p.pk_get_bitlen ctx w in
      let (a, w₁) = p.allocate_transient_object rsa_public_key bits w in
      let (r, w₂) = p.rsa_export ctx w₁ in
      let count = counts.allocate_transient_object rsa_public_key bits w in
      let keep = counts.rsa_export ctx w₁ in
      elim (Outcome-cases a) [
        | inl (key_obj, e) ↦ elim (Outcome-cases r) [
          | inl ((n, m), e') ↦
              ground (arith, e, e', count, keep, fill_key-leak key_obj n m x w₂, run)
          | inr failed ↦ ground (arith, e, failed, count, keep, run)
        ]
        | inr failed ↦ ground (arith, failed, count, run)
      ]

  -- The object of the key that was read stays open.
  public_key_pem_to_obj-live :
      (key_str : Bytes) (h : Handle) (w : W)
      → (public_key_pem_to_obj p key_str w).0 ≡ ok h
      → live (public_key_pem_to_obj p key_str w).1 ≡ live w + 1
  unfolding public_key_pem_to_obj
  public_key_pem_to_obj-live key_str h w run =
      grind (arith, key_of_context-live, counts.pk_parse_public_key, counts.pk_free)

  public_key_pem_to_obj-leak :
      (key_str : Bytes) (x : TeeError) (w : W)
      → (public_key_pem_to_obj p key_str w).0 ≡ err x
      → (live w ≤ live (public_key_pem_to_obj p key_str w).1)
        × (live (public_key_pem_to_obj p key_str w).1 ≤ live w + 1)
  unfolding public_key_pem_to_obj
  public_key_pem_to_obj-leak key_str x w run =
      grind (arith, key_of_context-leak, counts.pk_parse_public_key, counts.pk_free)

  -- Where the platform's calls open and close handles as their documentation says, a check of a
  -- signature that does not end in undefined behaviour closes all that it opened where it succeeds,
  -- leaves one handle open at most where it fails, and closes none of the handles opened before.
  pub verify_signature-live :
      (text key signature : Bytes) (w : W)
      → (verify_signature p text key signature w).0 ≢ fault
      → (live w ≤ live (verify_signature p text key signature w).1)
        × (live (verify_signature p text key signature w).1 ≤ live w + 1)
        × ((verify_signature p text key signature w).0 ≡ ok tt
            → live (verify_signature p text key signature w).1 ≡ live w)
  unfolding verify_signature
  verify_signature-live text key signature w h =
      let (r, w₁) = public_key_pem_to_obj p key w in
      elim (Outcome-cases r) [
        | inl (obj, e) ↦
            let grown = public_key_pem_to_obj-live key obj w e in
            let w₂ = (verify_signature_common p text obj signature w₁).1 in
            let same = verify_signature_common-live p live counts text obj signature w₁ in
            let closed = counts.close_object obj w₂ in
            (
              ground (arith, e, grown, same, closed),
              ground (arith, e, grown, same, closed),
              λ run. ground (arith, e, grown, same, closed),
            )
        | inr (inl (x, e)) ↦
            let leak = public_key_pem_to_obj-leak key x w e in
            (
              ground (arith, e, leak),
              ground (arith, e, leak),
              λ run. absurd (ground (arith, e, run)),
            )
        | inr (inr e) ↦ absurd (ground (arith, e))
      ]
