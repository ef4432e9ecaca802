-- ===== src/Ta/Query/Signed.antt =====
-- What the signature of `get_latest_hash` covers.
use trust_chain.Base.{
  ℕ, zero, suc, ◌+◌, ◌-◌, ◌≤◌, ◌<◌, ◌^◌, ◌≡◌, Bytes, [], ◌∷◌, ◌++◌, length, some, Option-cases, ok,
  arith, inl, inr,
}
use trust_chain.Memory.{Buffer, Cells, scan, load_str, strcpy, store, store_u32, write}
use trust_chain.Memory.Laws.{write_out}
use trust_chain.Platform.{Platform}
use trust_chain.KeyManager.{tee_sign_data}
use trust_chain.Ta.State.{Ta, latest_hash, validate_and_get_repo}
use trust_chain.Ta.Query.{get_latest_hash, nonce_at, latest_hash_at}

-- A text ends at the first NUL.
scan-length :
    (n k : ℕ) (c : Cells) (off : ℕ) (s : Bytes)
    → scan n c off ≡ some s
    → c (off + k) ≡ 0
    → length s ≤ k
unfolding scan
scan-length zero k c off s run e = absurd (ground arith)
scan-length (suc n) k c off [] run e = omega arith
scan-length (suc n) zero c off (x ∷ s) run e = absurd (ground arith)
scan-length (suc n) (suc k) c off (x ∷ s) run e = ground (arith, scan-length n k c (suc off) s)

answer-length :
    (b m₁ m₂ : Buffer) (nonce : ℕ) (latest text : Bytes)
    → nonce < 2 ^ 24
    → store_u32 b nonce_at nonce ≡ some m₁
    → strcpy m₁ latest_hash_at latest ≡ some m₂
    → load_str m₂ 0 ≡ some text
    → length text < 4
unfolding store_u32 strcpy store load_str write
answer-length b m₁ m₂ nonce latest text small e e' read =
    let high : m₁.cell 3 ≡ 0 = ground arith in
    let kept : m₂.cell 3 ≡ m₁.cell 3 =
      ground (arith, write_out m₁.cell latest_hash_at (latest ++ 0 ∷ []) 3) in
    let bound = scan-length (m₂.size - 0) 3 m₂.cell 0 text read (ground (arith, high, kept)) in
    omega (arith, bound)

module _ {W : Type 0} (p : Platform W) where
  -- Where the nonce is below 2 ^ 24, a `get_latest_hash` that succeeds returns a signature over a text
  -- of at most three bytes, so not over the hash behind the nonce.
  pub get_latest_hash-signed :
      (t : ℕ) (s s' : Ta W)
      → s.param1.a < 2 ^ 24
      → get_latest_hash p t s ≡ (ok tt, s')
      → (text : Bytes) × (length text < 4)
        × ((tee_sign_data p text s.param3.memref 0 s.world).0 ≡ ok s'.param3.memref)
  unfolding get_latest_hash validate_and_get_repo
  get_latest_hash-signed t s s' small run =
      elim (Option-cases (store_u32 s.param2.memref nonce_at s.param1.a)) [
        | inl e ↦ absurd (ground (arith, e, run))
        | inr (m₁, e) ↦ elim (Option-cases (s.repositories s.param0.a)) [
          | inl e' ↦ absurd (ground (arith, e, e', run))
          | inr (r, e') ↦ elim (Option-cases (load_str r.names latest_hash)) [
            | inl e'' ↦ absurd (ground (arith, e, e', e'', run))
            | inr (latest, e'') ↦ elim (Option-cases (strcpy m₁ latest_hash_at latest)) [
              | inl e₃ ↦ absurd (ground (arith, e, e', e'', e₃, run))
              | inr (m₂, e₃) ↦ elim (Option-cases (load_str m₂ 0)) [
                | inl e₄ ↦ absurd (ground (arith, e, e', e'', e₃, e₄, run))
                | inr (text, e₄) ↦ (
                  text,
                  answer-length s.param2.memref m₁ m₂ s.param1.a latest text small e e₃ e₄,
                  ground (arith, e, e', e'', e₃, e₄, run),
                )
              ]
            ]
          ]
        ]
      ]
