-- ===== src/Tests/Platforms.antt =====
-- Platforms that meet what the properties of handles and of PEM texts ask for.
use trust_chain.Base.{
  ℕ, zero, suc, ok-injective, sym, ◌∙◌, ◌++◌, ◌+◌, ◌-◌, ◌*◌, ◌/◌, ◌<◌, ◌≤◌, ◌≡◌, refl, Bytes, codes,
  [], ◌∷◌, length, replicate, Outcome, ok, arith, ap,
}
use trust_chain.Memory.{Buffer, strcpy, store, write}
use trust_chain.Platform.{Platform}
use trust_chain.Utils.{
  verify_signature, verify_signature_common, public_key_pem_to_obj, key_of_context, fill_key,
  write_key, free_if, compute_sha256_hash,
}
use trust_chain.Hex.{hex_string_to_bytes, decode_pairs, hex_pair, hex_char_to_int}
use trust_chain.Utils.Handles.{CountsHandles, Closes}
use trust_chain.Utils.Handles.Keys.{verify_signature-live}
use trust_chain.Utils.Pem.{
  pem_header, pem_body, public_key_obj_to_pem, estimated_len, pem_text, pem_lines,
}
use trust_chain.Utils.Pem.Lines.{EncodesKeys, public_key_obj_to_pem-fits}
use trust_chain.KeyManager.{tee_sign_hash, tee_sign_data, tee_verify_signature, tee_decrypt_data}
use trust_chain.KeyManager.Handles.{key_manager-Closes}
use trust_chain.Tests.Demo.{demo, object, zeros}

-- The state is the number of open handles.
abbrev counting : Platform ℕ
counting = record demo {
  pk_parse_public_key = λ t w. (ok 7, w);
  free_operation = λ h w. w - 1;
  close_object = λ h w. w - 1;
  free_transient_object = λ h w. w - 1;
}

counting-CountsHandles : CountsHandles counting (λ w. w)
counting-CountsHandles = record {
  malloc = λ a n w. refl;
  free = λ a w. refl;
  allocate_operation = λ a n w. omega arith;
  free_operation = λ h w. refl;
  set_operation_key = λ o k w. refl;
  digest_do_final = λ o t w. refl;
  asymmetric_sign_digest = λ o d w. refl;
  asymmetric_verify_digest = λ o d g w. refl;
  asymmetric_decrypt = λ o d w. refl;
  open_persistent_object = λ id w. omega arith;
  create_persistent_object = λ id o w. omega arith;
  close_object = λ h w. refl;
  allocate_transient_object = λ t n w. omega arith;
  free_transient_object = λ h w. refl;
  generate_key = λ h n w. refl;
  copy_object_attributes = λ h k w. refl;
  populate_transient_object = λ h n e w. refl;
  pk_parse_public_key = λ t w. refl;
  rsa_export = λ h w. refl;
  mpi_write_binary = λ n w. refl;
  pk_free = λ w. refl;
}

key_manager-Closes_example :
    ((hash : Bytes) (b : Buffer) (off : ℕ) → Closes (λ w. w) (tee_sign_hash counting hash b off))
    × ((text : Bytes) (b : Buffer) (off : ℕ) → Closes (λ w. w) (tee_sign_data counting text b off))
    × ((text sig : Bytes) → Closes (λ w. w) (tee_verify_signature counting text sig))
    × ((s : Bytes) (b : Buffer) → Closes (λ w. w) (tee_decrypt_data counting s b))
key_manager-Closes_example = key_manager-Closes counting (λ w. w) counting-CountsHandles

verified_run :
    (verify_signature counting (codes "0:2:beef") (codes "bob") (codes "ab12") 5).0 ≡ ok tt
unfolding verify_signature verify_signature_common public_key_pem_to_obj key_of_context fill_key
    write_key free_if compute_sha256_hash hex_string_to_bytes decode_pairs hex_pair hex_char_to_int
verified_run = refl

verify_signature-live_example :
    let (r, w') = verify_signature counting (codes "0:2:beef") (codes "bob") (codes "ab12") 5 in
    (5 ≤ w') × (w' ≤ 6) × (r ≡ ok tt → w' ≡ 5)
verify_signature-live_example =
    verify_signature-live counting (λ w. w) counting-CountsHandles (codes "0:2:beef") (codes "bob")
      (codes "ab12") 5 (λ run. ground (arith, verified_run, run))

-- Each key is the three bytes of "Man" in DER, which are "TWFu" in base64.
abbrev encoding : Platform ℕ
encoding = record demo {
  pk_write_pubkey_der = λ h w. (codes "Man", w);
  base64_encode = λ der w. (ok (replicate ((length der + 2) / 3 * 4) b'A'), w);
}

length-replicate : (n a : ℕ) → length (replicate n a) ≡ n
length-replicate zero a = refl
length-replicate (suc n) a = omega (arith, length-replicate n a)

encoding-EncodesKeys : EncodesKeys encoding
encoding-EncodesKeys = record {
  small = λ key w. omega arith;
  full = λ der b64 w run.
      ap length (sym (ok-injective run)) ∙ length-replicate ((length der + 2) / 3 * 4) b'A';
}

abbrev pem_written : Outcome (Buffer × ℕ)
pem_written = (public_key_obj_to_pem encoding 1 (object 200 zeros) 200 0).0

pem_run : (b : Buffer) × (pem_written ≡ ok (b, 57))
unfolding public_key_obj_to_pem estimated_len pem_text pem_lines strcpy store
pem_run = (
  object 200
      (write (write zeros 0 pem_header) (length pem_header) (pem_body (codes "AAAA") ++ 0 ∷ [])),
  refl,
)

public_key_obj_to_pem-fits_example : 57 < 200
public_key_obj_to_pem-fits_example =
    public_key_obj_to_pem-fits encoding encoding-EncodesKeys 1 (object 200 zeros) pem_run.0 200 57 0
      pem_run.1
