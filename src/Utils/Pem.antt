-- ===== src/Utils/Pem.antt =====
-- ta/utils/utils.c: `public_key_obj_to_pem`.
pub mod Lines
use trust_chain.Base.{
  ℕ, zero, suc, ◌+◌, ◌*◌, ◌/◌, Bytes, codes, [], ◌∷◌, ◌++◌, length, take, drop, ltb, ◌==◌, Action,
  pure, defined, raise_if, finally, on_error, with_error, ◌>>=◌, ◌>>◌, ok, generic, short_buffer,
}
use trust_chain.Memory.{Buffer, store, strcpy}
use trust_chain.Platform.{Platform, Handle, rsa_modulus, rsa_public_exponent}

abbrev pub pem_header : Bytes
pem_header = codes "-----BEGIN PUBLIC KEY-----\n"

abbrev pub pem_footer : Bytes
pem_footer = codes "-----END PUBLIC KEY-----\n"

-- The loop that writes 64 characters a line, with one round for each unit of fuel.
unfoldable pub pem_lines : ℕ → Bytes → Bytes
pem_lines zero s = []
pem_lines (suc fuel) [] = []
pem_lines (suc fuel) (x ∷ s) = take 64 (x ∷ s) ++ b'\n' ∷ pem_lines fuel (drop 64 (x ∷ s))

-- What is written behind the header for a base64 text, with as many rounds as it has characters.
abbrev pub pem_body : Bytes → Bytes
pem_body b64 = pem_lines (length b64) b64 ++ pem_footer

unfoldable pub pem_text : Bytes → Bytes
pem_text b64 = pem_header ++ pem_body b64

unfoldable pub estimated_len : ℕ → ℕ
estimated_len der_len = (der_len + 2) / 3 * 4 + length pem_header + length pem_footer + 32

module _ {W : Type 0} (p : Platform W) where
  abbrev write_pubkey_der : Handle → Action W Bytes
  write_pubkey_der pk w = let (der, w') = p.pk_write_pubkey_der pk w in (ok der, w')

  -- `pem_len` is the value that `*pem_len` has on entry; the result is the buffer, and `*pem_len` on
  -- return. The header that was written stays in the buffer also where the encoding fails, which no
  -- result shows here; the caller's parameters keep the old one.
  unfoldable pub public_key_obj_to_pem : Handle → Buffer → ℕ → Action W (Buffer × ℕ)
  public_key_obj_to_pem key_obj pem_buffer pem_len = do
    modulus ← p.get_object_buffer_attribute key_obj rsa_modulus
    exponent ← p.get_object_buffer_attribute key_obj rsa_public_exponent
    rsa ← on_error (with_error (p.rsa_import modulus exponent) generic) p.rsa_free
    on_error (with_error (p.rsa_complete rsa) generic) p.rsa_free
    finally
        (do
          with_error (p.pk_setup rsa) generic
          der ← write_pubkey_der rsa
          raise_if (length der == 0) generic
          raise_if (ltb pem_len (estimated_len (length der))) short_buffer
          headed ← defined (store pem_buffer 0 pem_header)
          b64 ← with_error (p.base64_encode der) generic
          pem_buffer' ← defined (strcpy headed (length pem_header) (pem_body b64))
          pure (pem_buffer', length (pem_text b64)))
        (λ w. p.pk_free (p.rsa_free w))
