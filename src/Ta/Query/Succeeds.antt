-- ===== src/Ta/Query/Succeeds.antt =====
-- When `get_latest_hash` succeeds, and what it returns then.
use trust_chain.Base.{
  ℕ, ◌+◌, ◌-◌, ◌<◌, ◌^◌, ◌≡◌, ap, ◌∙◌, Bytes, [], ◌∷◌, ◌++◌, length, length-append, some, ok, arith,
  fun_ext, inl,
}
use trust_chain.Memory.{
  Buffer, scan, load_str, strcpy, store, store_u32, write, read_u32, u32_bytes, before_nul,
  write_u32,
}
use trust_chain.Memory.Laws.{read_u32-write_u32, read_u32-write_out}
use trust_chain.Memory.Nul.{scan-before_nul, write-append}
use trust_chain.Memory.Texts.{load_str-IsText, load_str-strcpy}
use trust_chain.Platform.{Platform}
use trust_chain.Utils.{hash_data}
use trust_chain.KeyManager.{tee_sign_data}
use trust_chain.KeyManager.Working.{IsWorking, hash_data_works, tee_sign_hash_works}
use trust_chain.Ta.State.{Repo, Ta, latest_hash, max_repo_id, validate_and_get_repo}
use trust_chain.Ta.Query.Kept.{get_latest_hash-repositories}
use trust_chain.Ta.Query.{get_latest_hash, nonce_at, latest_hash_at}

-- The answer in the caller's buffer.
abbrev with_nonce : Buffer → ℕ → Buffer
with_nonce b nonce = record b { cell = write b.cell nonce_at (u32_bytes nonce) }

abbrev with_hash : Buffer → ℕ → Bytes → Buffer
with_hash b nonce latest = record b {
  cell = write (write b.cell nonce_at (u32_bytes nonce)) latest_hash_at (latest ++ 0 ∷ []);
}

module _ (b : Buffer) (nonce : ℕ) (latest : Bytes) (fits : 4 + length latest < b.size) where
  nonce_stored : store_u32 b nonce_at nonce ≡ some (with_nonce b nonce)
  unfolding store_u32 store
  nonce_stored = ground (arith, fits)

  hash_copied : strcpy (with_nonce b nonce) latest_hash_at latest ≡ some (with_hash b nonce latest)
  unfolding strcpy store
  hash_copied = ground (arith, fits, length-append latest (0 ∷ []))

  -- `strlen` sees the nonce and the hash as one string.
  text_read : load_str (with_hash b nonce latest) 0 ≡ some (before_nul (u32_bytes nonce ++ latest))
  unfolding load_str
  text_read =
      let one : (with_hash b nonce latest).cell
          ≡ write b.cell 0 ((u32_bytes nonce ++ latest) ++ 0 ∷ []) =
        fun_ext (write-append b.cell 0 (u32_bytes nonce) (latest ++ 0 ∷ [])) in
      ap (λ c. scan (b.size - 0) c 0) one
      ∙ scan-before_nul (b.size - 0) b.cell 0 (u32_bytes nonce ++ latest) (omega (arith, fits))

  nonce_read : nonce < 2 ^ 32 → read_u32 (with_hash b nonce latest).cell nonce_at ≡ nonce
  unfolding write_u32
  nonce_read small =
      read_u32-write_out (with_nonce b nonce).cell nonce_at latest_hash_at (latest ++ 0 ∷ [])
        (inl (omega arith))
      ∙ read_u32-write_u32 b.cell nonce_at nonce small

module _ {W : Type 0} (p : Platform W) (sha : Bytes → Bytes) (working : IsWorking p sha) where
  tee_sign_data_works :
      (text : Bytes) (b : Buffer) (w : W)
      → 512 < b.size
      → (b' : Buffer) × ((tee_sign_data p text b 0 w).0 ≡ ok b')
  unfolding tee_sign_data
  tee_sign_data_works text b w fits =
      let w₁ = (hash_data p 65 text w).1 in
      let (b', signed, _) = tee_sign_hash_works p sha working text b 0 w₁ fits in
      (b', ground (arith, hash_data_works p sha working 65 text w (omega arith), signed))

  -- On a working platform `get_latest_hash` with the right parameter types succeeds for a repository
  -- that is there, where the caller's buffers have room for nonce and hash and for 512 digits. It
  -- returns the nonce and the latest hash, changes no repository, and returns a signature over the
  -- bytes of both up to the first zero byte, which are the nonce's own where one of these is zero.
  pub get_latest_hash_succeeds :
      (s : Ta W) (r : Repo) (latest : Bytes)
      → s.param0.a < max_repo_id
      → s.repositories s.param0.a ≡ some r
      → load_str r.names latest_hash ≡ some latest
      → s.param1.a < 2 ^ 32
      → 4 + length latest < s.param2.memref.size
      → 512 < s.param3.memref.size
      → let (r, s') = get_latest_hash p 26129 s in
        (r ≡ ok tt)
        × (read_u32 s'.param2.memref.cell nonce_at ≡ s.param1.a)
        × (load_str s'.param2.memref latest_hash_at ≡ some latest)
        × ((tee_sign_data p
              (before_nul (u32_bytes s.param1.a ++ latest))
              s.param3.memref
              0
              s.world).0
            ≡ ok s'.param3.memref)
        × (s'.repositories ≡ s.repositories)
  unfolding get_latest_hash validate_and_get_repo
  get_latest_hash_succeeds s r latest lt there read small room signature_room =
      let b = s.param2.memref in
      let nonce = s.param1.a in
      let e₁ = nonce_stored b nonce latest room in
      let e₂ = hash_copied b nonce latest room in
      let e₃ = text_read b nonce latest room in
      let (b', signed) =
        tee_sign_data_works (before_nul (u32_bytes nonce ++ latest)) s.param3.memref s.world
          signature_room in
      let answer : (get_latest_hash p 26129 s).1.param2.memref ≡ with_hash b nonce latest =
        ground (arith, lt, there, read, e₁, e₂, e₃, signed) in
      (
        ground (arith, lt, there, read, e₁, e₂, e₃, signed),
        ap (λ m. read_u32 m.cell nonce_at) answer ∙ nonce_read b nonce latest room small,
        ap (λ m. load_str m latest_hash_at) answer
            ∙ load_str-strcpy (with_nonce b nonce) (with_hash b nonce latest) latest_hash_at latest
                (load_str-IsText r.names latest_hash latest read) e₂,
        ground (arith, lt, there, read, e₁, e₂, e₃, signed),
        get_latest_hash-repositories p 26129 s,
      )
