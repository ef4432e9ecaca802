-- ===== src/Ta/Commit/Chain.antt =====
-- How a commit extends the chain of its repository.
use trust_chain.Base.{
  ℕ, ◌+◌, ◌%◌, ◌^◌, ◌<◌, ◌≡◌, ◌≢◌, refl, Bytes, take, some, ok, arith, Outcome, sym, ◌∙◌,
  Outcome-cases, Option-cases, >>=-ok, ap, inl, inr,
}
use trust_chain.Memory.{Buffer, Cells, load_str, strcpy, prefix}
use trust_chain.Memory.Laws.{IsText}
use trust_chain.Memory.Texts.{load_str-IsText, load_str-strcpy}
use trust_chain.Platform.{Platform}
use trust_chain.Hex.{hex}
use trust_chain.Hex.RoundTrip.{hex-IsText}
use trust_chain.Block.{
  contribution_text, init_contribution_block, calculate_contribution_block_hash,
}
use trust_chain.Block.Fields.{HasBase, contribution-fields}
use trust_chain.Block.Digest.{IsDigest, contribution_block_hash-sha}
use trust_chain.Block.Layout
use trust_chain.Ta.State.{Repo, Ta, latest_hash}
use trust_chain.Ta.Commit.{CommitRequest, contribution_block, check_commit, apply_commit, commit}
use trust_chain.Ta.Commit.Atomic.{
  check_commit-repositories, contribution_block-repositories, decrypt_key-repositories,
}
use trust_chain.Ta.Commit.Authorised.{IsAuthorised, check_commit-IsAuthorised}

module _ {W : Type 0} (p : Platform W) where
  -- The block that a commit makes from a request, before it is signed.
  abbrev made_block : Repo → ℕ → Bytes → Bytes → Bytes → Bytes → Ta W → Outcome Buffer × W
  made_block r op h k g parent s =
      init_contribution_block p (record { size = Layout.contribution_block_size; cell = s.stack })
        ((r.block_height + 1) % 2 ^ 32) (some parent) op (some h) (some k) (some g) s.world

  -- The hash that `contribution_block` gives is that of the block it made.
  contribution_block-parts :
      (r : Repo) (op : ℕ) (h k g : Bytes) (s s' : Ta W) (b : Buffer) (d : Bytes)
      → contribution_block p r op h k g s ≡ (ok (b, d), s')
      → (parent : Bytes) × (raw : Buffer) × (w : W) × (load_str r.names latest_hash ≡ some parent)
        × (made_block r op h k g parent s ≡ (ok raw, w))
        × ((calculate_contribution_block_hash p raw.cell w).0 ≡ ok d)
  unfolding contribution_block
  contribution_block-parts r op h k g s s' b d run =
      elim (Option-cases (load_str r.names latest_hash)) [
        | inr (parent, e) ↦
            let made = made_block r op h k g parent s in
            elim (Outcome-cases made.0) [
              | inl (raw, e') ↦
                  (parent, raw, made.1, e, (λ i. (e' i, made.1)), ground (arith, e, e', run))
              | inr failed ↦ absurd (ground (arith, e, failed, run))
            ]
        | inl none_there ↦ absurd (ground (arith, none_there, run))
      ]

  -- What the last part of a commit leaves.
  apply_commit-parts :
      (q : CommitRequest) (s s' : Ta W)
      → apply_commit p q s ≡ (ok tt, s')
      → (b : Buffer) × (d : Bytes) × (n : Buffer) × ((contribution_block p q.repo q.op q.commit_hash
            q.sigkey q.signature s).0
          ≡ ok (b, d))
        × (strcpy q.repo.names latest_hash d ≡ some n)
        × (s'.repositories q.rep_id
            ≡ some
                (record (q.repo) { names = n; block_height = (q.repo.block_height + 1) % 2 ^ 32 }))
  unfolding apply_commit
  apply_commit-parts q s s' run =
      let made = contribution_block p q.repo q.op q.commit_hash q.sigkey q.signature s in
      elim (Outcome-cases made.0) [
        | inl ((b, d), e) ↦ elim (Option-cases (strcpy q.repo.names latest_hash d)) [
          | inr (n, e') ↦ (b, d, n, e, e', ground (arith, e, e', run))
          | inl none_there ↦ absurd (ground (arith, e, none_there, run))
        ]
        | inr failed ↦ absurd (ground (arith, failed, run))
      ]

  apply_commit-others :
      (q : CommitRequest) (s : Ta W) (j : ℕ)
      → j ≢ q.rep_id
      → (apply_commit p q s).1.repositories j ≡ s.repositories j
  unfolding apply_commit
  apply_commit-others q s j h =
      grind (arith, contribution_block-repositories, decrypt_key-repositories)

-- The repository `r'` is `r` with one more block. The block's bytes, before the signature of the TA
-- was put in, are `c`: they hold the request, the height of `r'`, and the latest hash of `r` as the
-- parent. The latest hash of `r'` is the hexadecimal digest of the text of `c`.
pub record IsExtended (sha : Bytes → Bytes) (r r' : Repo) (q : CommitRequest) (c : Cells)
    (parent : Bytes) : Type 0 where
  pub parent_read : load_str r.names latest_hash ≡ some parent
  pub fields : HasBase c r'.block_height parent q.op q.sigkey q.signature
  pub commit_hash_set : prefix 64 c Layout.commit_hash ≡ take 64 q.commit_hash
  pub height_grown : r'.block_height ≡ (r.block_height + 1) % 2 ^ 32
  pub hash_recorded : load_str r'.names latest_hash ≡ some (hex (sha (contribution_text c)))
  pub admins_kept : r'.admin_keys ≡ r.admin_keys
  pub writers_kept : r'.writer_keys ≡ r.writer_keys

-- What a finished commit has done, from a state `s`: it was authorised, and extended the repository
-- that it names and no other.
abbrev pub Commits : {W : Type 0} → Platform W → (Bytes → Bytes) → Ta W → Ta W → Type 0
Commits p sha s s' =
    (q : CommitRequest) × IsAuthorised p s q
    × ((r' : Repo) × (c : Cells) × (parent : Bytes) × (s'.repositories q.rep_id ≡ some r')
        × IsExtended sha q.repo r' q c parent)
    × ((j : ℕ) → j ≢ q.rep_id → s'.repositories j ≡ s.repositories j)

module _ {W : Type 0} (p : Platform W) (sha : Bytes → Bytes) (digests : IsDigest p sha) where
  request_texts :
      (s : Ta W) (q : CommitRequest)
      → IsAuthorised p s q
      → (q.op < 2 ^ 32) × IsText q.commit_hash × IsText q.sigkey × IsText q.signature
  request_texts s q a = (
    ground (arith, a.commits),
    load_str-IsText _ _ _ a.commit_hash_read,
    load_str-IsText _ _ _ a.sigkey_read,
    load_str-IsText _ _ _ a.signature_read,
  )

  apply_commit-IsExtended :
      (q : CommitRequest) (s₀ s s' : Ta W)
      → IsAuthorised p s₀ q
      → apply_commit p q s ≡ (ok tt, s')
      → (r' : Repo) × (c : Cells) × (parent : Bytes) × (s'.repositories q.rep_id ≡ some r')
        × IsExtended sha q.repo r' q c parent
  apply_commit-IsExtended q s₀ s s' a run =
      let (b, d, n, made, copied, written) = apply_commit-parts p q s s' run in
      let s₁ = (contribution_block p q.repo q.op q.commit_hash q.sigkey q.signature s).1 in
      let (parent, raw, w, parent_read, init, hashed) =
        contribution_block-parts p q.repo q.op q.commit_hash q.sigkey q.signature s s₁ b d
          (λ i. (made i, s₁)) in
      let (op_fits, hash_text, key_text, sig_text) = request_texts s₀ q a in
      let (base, commit_hash) =
        contribution-fields p _ raw _ q.op parent q.commit_hash q.sigkey q.signature s.world w
          (omega arith) op_fits (load_str-IsText _ _ _ parent_read) hash_text key_text sig_text
          init in
      let digest = contribution_block_hash-sha p sha digests raw.cell d w hashed in
      (
        _,
        raw.cell,
        parent,
        written,
        record {
          parent_read = parent_read;
          fields = base;
          commit_hash_set = commit_hash;
          height_grown = refl;
          hash_recorded =
              load_str-strcpy q.repo.names n latest_hash _
                (hex-IsText (sha (contribution_text raw.cell))) (rw digest at copied);
          admins_kept = refl;
          writers_kept = refl;
        },
      )

  -- Where the platform's digest is a function `sha` into bytes, a commit that succeeds was authorised
  -- and extends the repository that it names by one block: the block holds the request, the height of
  -- the extended repository and the old latest hash as its parent, and the new latest hash is the
  -- hexadecimal digest of its text. The key sets of that repository and all other repositories stay.
  pub commit-IsExtended : (t : ℕ) (s s' : Ta W) → commit p t s ≡ (ok tt, s') → Commits p sha s s'
  unfolding commit
  commit-IsExtended t s s' run =
      let (q, s₁, checked, applied) = >>=-ok (check_commit p t) (apply_commit p) s s' tt run in
      let a = check_commit-IsAuthorised p t s q (ap (λ x. x.0) checked) in
      (
        q,
        a,
        apply_commit-IsExtended q s s₁ s' a applied,
        λ j h.
            ap (λ x. x.1.repositories j) (sym applied)
            ∙ apply_commit-others p q s₁ j h
            ∙ ap (λ x. x.1.repositories j) (sym checked)
            ∙ ap (λ f. f j) (check_commit-repositories p t s),
      )
