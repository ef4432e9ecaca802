-- ===== src/Block/Digest.antt =====
-- ta/block/block.c: the hash of a block, where the platform's digest is a function of the text.
use trust_chain.Base.{ℕ, ◌≡◌, Bytes, All, ok, Outcome-cases, arith, inl, inr}
use trust_chain.Memory.{Cells}
use trust_chain.Platform.{Platform, sha256_digest}
use trust_chain.Hex.{hex}
use trust_chain.Hex.RoundTrip.{IsByte}
use trust_chain.Utils.{hash_data, compute_sha256_hash}
use trust_chain.Block.{
  access_text, contribution_text, calculate_access_block_hash, calculate_contribution_block_hash,
}

-- A digest that the platform computes is `sha` of the text, a sequence of bytes.
pub record IsDigest {W : Type 0} (p : Platform W) (sha : Bytes → Bytes) : Type 0 where
  pub computes :
      (op : ℕ) (text digest : Bytes) (w : W)
      → (p.digest_do_final op text w).0 ≡ ok digest
      → digest ≡ sha text
  pub bytes : (text : Bytes) → All IsByte (sha text)

module _ {W : Type 0} (p : Platform W) (sha : Bytes → Bytes) (digests : IsDigest p sha) where
  compute_sha256_hash-sha :
      (text d : Bytes) (w : W) → (compute_sha256_hash p text w).0 ≡ ok d → d ≡ sha text
  unfolding compute_sha256_hash
  compute_sha256_hash-sha text d w run =
      let (allocated, w₁) = p.allocate_operation sha256_digest 0 w in
      elim (Outcome-cases allocated) [
        | inl (op, e) ↦ digests.computes op text d w₁ (ground (arith, e, run))
        | inr failed ↦ absurd (ground (arith, failed, run))
      ]

  hash_data-sha :
      (room : ℕ) (text h : Bytes) (w : W) → (hash_data p room text w).0 ≡ ok h → h ≡ hex (sha text)
  unfolding hash_data
  hash_data-sha room text h w run = elim (Outcome-cases (compute_sha256_hash p text w).0) [
    | inl (d, e) ↦
        let computed = compute_sha256_hash-sha text d w e in ground (arith, computed, e, run)
    | inr failed ↦ absurd (ground (arith, failed, run))
  ]

  pub contribution_block_hash-sha :
      (c : Cells) (h : Bytes) (w : W)
      → (calculate_contribution_block_hash p c w).0 ≡ ok h
      → h ≡ hex (sha (contribution_text c))
  unfolding calculate_contribution_block_hash
  contribution_block_hash-sha c h w run = hash_data-sha p.hash_room (contribution_text c) h w run

  pub access_block_hash-sha :
      (c : Cells) (h : Bytes) (w : W)
      → (calculate_access_block_hash p c w).0 ≡ ok h
      → h ≡ hex (sha (access_text c))
  unfolding calculate_access_block_hash
  access_block_hash-sha c h w run = hash_data-sha p.hash_room (access_text c) h w run
