-- ===== src/Tests/Texts.antt =====
-- What the properties of texts say at concrete inputs.
use trust_chain.Base.{◌≡◌, ◌++◌, List, Bytes, refl, codes, inl, arith}
use trust_chain.Utils.Pem.{pem_text, pem_header, pem_footer}
use trust_chain.Utils.Pem.Lines.{AreLines, joined, ended, pem_text-lines}
use trust_chain.Ta.SignedText.{changing_keys, signed_text-injective}

pem_text-lines_example :
    (ls : List Bytes) × AreLines ls
    × (joined ls ≡ codes "MIIBIj")
    × (pem_text (codes "MIIBIj") ≡ pem_header ++ (ended ls ++ pem_footer))
pem_text-lines_example = pem_text-lines (codes "MIIBIj")

signed_text-injective_example :
    changing_keys 3 0 1 (codes "bob") ≡ changing_keys 3 0 1 (codes "bob")
signed_text-injective_example =
    signed_text-injective (changing_keys 3 0 1 (codes "bob")) (changing_keys 3 0 1 (codes "bob"))
      (omega arith, inl refl, omega arith, omega arith)
      (omega arith, inl refl, omega arith, omega arith) refl
