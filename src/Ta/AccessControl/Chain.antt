-- ===== src/Ta/AccessControl/Chain.antt =====
-- How a change of the key sets extends the chain of its repository.
use trust_chain.Base.{
  ℕ, ◌+◌, ◌%◌, ◌^◌, ◌<◌, ◌≡◌, ◌≢◌, Bytes, take, some, ok, arith, if◌then◌else◌, Outcome, sym, ◌∙◌,
  Outcome-cases, Option-cases, >>=-ok, ap, inl, inr, str_eq,
}
use trust_chain.Memory.{Buffer, Cells, load_str, load_u32, strcpy, prefix, read_u32}
use trust_chain.Memory.Texts.{load_str-IsText, load_str-strcpy}
use trust_chain.Platform.{Platform}
use trust_chain.Hex.{hex}
use trust_chain.Hex.RoundTrip.{IsByte, hex-IsText}
use trust_chain.Block.{access_text, init_access_block, calculate_access_block_hash}
use trust_chain.Block.Fields.{HasBase, access-fields}
use trust_chain.Block.Digest.{IsDigest, access_block_hash-sha}
use trust_chain.Block.Layout
use trust_chain.Ta.State.{Repo, Ta, latest_hash}
use trust_chain.Ta.Table.{IsSound, found-IsComplete}
use trust_chain.Ta.Table.AccessControl.{check_access-found}
use trust_chain.Ta.AccessControl.{
  AccessRequest, add_admin, add_writer, delete_admin, delete_writer, update_key_sets,
  append_access_block, check_access, apply_access, access_control,
}
use trust_chain.Ta.AccessControl.Authorised.{
  IsAuthorised, check_access-IsAuthorised, check_access-repositories,
}
use trust_chain.Ta.AccessControl.Roles.{role_of, assigned, IsAssigned}
use trust_chain.Ta.AccessControl.Updates.{update_key_sets-Assigns}

module _ {W : Type 0} (p : Platform W) where
  -- The block that is made from a request, before it is signed.
  abbrev made_block : Repo → ℕ → ℕ → Bytes → Bytes → Bytes → Bytes → Ta W → Outcome Buffer × W
  made_block r op role k g sig parent s =
      init_access_block p (record { size = Layout.access_block_size; cell = s.stack })
        ((r.block_height + 1) % 2 ^ 32) (some parent) op role (some k) (some g) (some sig) s.world

  append_access_block-parts :
      (r : Repo) (id op role : ℕ) (k g sig : Bytes) (s s' : Ta W)
      → s.repositories id ≡ some r
      → append_access_block p id op role k g sig s ≡ (ok tt, s')
      → (parent : Bytes) × (raw : Buffer) × (w : W) × (d : Bytes) × (n : Buffer) × (load_str r.names
            latest_hash
          ≡ some parent)
        × (made_block r op role k g sig parent s ≡ (ok raw, w))
        × ((calculate_access_block_hash p raw.cell w).0 ≡ ok d)
        × (strcpy r.names latest_hash d ≡ some n)
        × (s'.repositories id
            ≡ some (record r { names = n; block_height = (r.block_height + 1) % 2 ^ 32 }))
  unfolding append_access_block
  append_access_block-parts r id op role k g sig s s' there run =
      elim (Option-cases (load_str r.names latest_hash)) [
        | inr (parent, e) ↦
            let made = made_block r op role k g sig parent s in
            elim (Outcome-cases made.0) [
              | inl (raw, e') ↦
                  elim (Outcome-cases (calculate_access_block_hash p raw.cell made.1).0) [
                    | inl (d, e'') ↦ elim (Option-cases (strcpy r.names latest_hash d)) [
                      | inr (n, e''') ↦ (
                        parent,
                        raw,
                        made.1,
                        d,
                        n,
                        e,
                        (λ i. (e' i, made.1)),
                        e'',
                        e''',
                        ground (arith, there, e, e', e'', e''', run),
                      )
                      | inl no_copy ↦ absurd (ground (arith, there, e, e', e'', no_copy, run))
                    ]
                    | inr failed ↦ absurd (ground (arith, there, e, e', failed, run))
                  ]
              | inr failed ↦ absurd (ground (arith, there, e, failed, run))
            ]
        | inl none_there ↦ absurd (ground (arith, there, none_there, run))
      ]

  pub update_key_sets-others :
      (id op role : ℕ) (r : Repo) (k : Bytes) (s : Ta W) (j : ℕ)
      → j ≢ id
      → (update_key_sets p id r op role k s).1.repositories j ≡ s.repositories j
  unfolding update_key_sets add_admin add_writer delete_admin delete_writer
  update_key_sets-others id op role r k s j h = ground arith

  pub append_access_block-others :
      (id op role : ℕ) (k g sig : Bytes) (s : Ta W) (j : ℕ)
      → j ≢ id
      → (append_access_block p id op role k g sig s).1.repositories j ≡ s.repositories j
  unfolding append_access_block
  append_access_block-others id op role k g sig s j h = ground arith

  pub apply_access-others :
      (q : AccessRequest) (s : Ta W) (j : ℕ)
      → j ≢ q.rep_id
      → (apply_access p q s).1.repositories j ≡ s.repositories j
  unfolding apply_access
  apply_access-others q s j h = grind (arith, update_key_sets-others, append_access_block-others)

-- The repository `r'` is `r` with the role of the request assigned and one more block. The block's
-- bytes, before the signature of the TA was put in, are `c`: they hold the request, the height of
-- `r'`, and the latest hash of `r` as the parent. The latest hash of `r'` is the hexadecimal digest
-- of the text of `c`.
pub record IsExtended (sha : Bytes → Bytes) (r r' : Repo) (q : AccessRequest) (c : Cells)
    (parent : Bytes) : Type 0 where
  pub parent_read : load_str r.names latest_hash ≡ some parent
  pub fields : HasBase c r'.block_height parent q.op q.sigkey q.signature
  pub role_set : read_u32 c Layout.role ≡ q.role
  pub pubkey_set : prefix 256 c Layout.pubkey ≡ take 256 q.pubkey
  pub height_grown : r'.block_height ≡ (r.block_height + 1) % 2 ^ 32
  pub hash_recorded : load_str r'.names latest_hash ≡ some (hex (sha (access_text c)))
  pub roles :
      (k : Bytes)
      → role_of r' k
        ≡ (if str_eq q.pubkey k then assigned q.op q.role (role_of r k) else role_of r k)

-- What a finished change of the key sets has done, from a state `s`: it was authorised, and extended
-- the repository that it names and no other.
abbrev pub Changes : {W : Type 0} → Platform W → (Bytes → Bytes) → Ta W → Ta W → Type 0
Changes p sha s s' =
    (q : AccessRequest) × IsAuthorised p s q
    × ((r' : Repo) × (c : Cells) × (parent : Bytes) × (s'.repositories q.rep_id ≡ some r')
        × IsExtended sha q.repo r' q c parent)
    × ((j : ℕ) → j ≢ q.rep_id → s'.repositories j ≡ s.repositories j)

-- The numbers of a message are `uint32_t`.
load_u32-bound :
    (b : Buffer) (off x : ℕ) → ((a : ℕ) → IsByte (b.cell a)) → load_u32 b off ≡ some x → x < 2 ^ 32
unfolding load_u32 read_u32
load_u32-bound b off x bytes run =
    ground (arith, bytes off, bytes (off + 1), bytes (off + 2), bytes (off + 3), run)

module _ {W : Type 0} (p : Platform W) (sha : Bytes → Bytes) (digests : IsDigest p sha) where
  append_access_block-IsExtended :
      (q : AccessRequest) (s₀ s s' : Ta W) (r : Repo)
      → ((a : ℕ) → IsByte (s₀.param0.memref.cell a))
      → IsAuthorised p s₀ q
      → IsAssigned q.rep_id q.repo q.op q.role q.pubkey s r
      → append_access_block p q.rep_id q.op q.role q.pubkey q.sigkey q.signature s ≡ (ok tt, s')
      → (r' : Repo) × (c : Cells) × (parent : Bytes) × (s'.repositories q.rep_id ≡ some r')
        × IsExtended sha q.repo r' q c parent
  append_access_block-IsExtended q s₀ s s' r bytes a u run =
      let (parent, raw, w, d, n, parent_read, init, hashed, copied, written) =
        append_access_block-parts p r q.rep_id q.op q.role q.pubkey q.sigkey q.signature s s'
          u.there run in
      let (base, role, pubkey) =
        access-fields p _ raw _ q.op q.role parent q.pubkey q.sigkey q.signature s.world w
          (omega arith) (ground (arith, a.changes_keys)) (load_u32-bound _ _ _ bytes a.role_read)
          (load_str-IsText _ _ _ parent_read) (load_str-IsText _ _ _ a.pubkey_read)
          (load_str-IsText _ _ _ a.sigkey_read) (load_str-IsText _ _ _ a.signature_read) init in
      let digest = access_block_hash-sha p sha digests raw.cell d w hashed in
      (
        _,
        raw.cell,
        parent,
        written,
        record {
          parent_read = rw u.names_kept at parent_read;
          fields = base;
          role_set = role;
          pubkey_set = pubkey;
          height_grown = ap (λ h. (h + 1) % 2 ^ 32) u.height_kept;
          hash_recorded =
              load_str-strcpy r.names n latest_hash _ (hex-IsText (sha (access_text raw.cell)))
                (rw digest at copied);
          roles = u.roles;
        },
      )

  -- From a sound table, where the platform's digest is a function `sha` into bytes and the message
  -- consists of bytes, a change of the key sets that succeeds was authorised, gives the key of the
  -- request the role that it asks for and no other key another role, and extends the chain of the
  -- repository by one block: the block holds the request, the new height and the old latest hash as
  -- its parent, and the new latest hash is the hexadecimal digest of its text. All other
  -- repositories stay.
  pub access_control-IsExtended :
      (t : ℕ) (s s' : Ta W)
      → IsSound s
      → ((a : ℕ) → IsByte (s.param0.memref.cell a))
      → access_control p t s ≡ (ok tt, s')
      → Changes p sha s s'
  unfolding access_control apply_access
  access_control-IsExtended t s s' sound bytes run =
      let (q, s₁, checked, applied) = >>=-ok (check_access p t) (apply_access p) s s' tt run in
      let a = check_access-IsAuthorised p t s q (ap (λ x. x.0) checked) in
      let (lt, complete) = found-IsComplete sound q.rep_id q.repo a.exists in
      let (_, s₂, updated, appended) =
        >>=-ok (update_key_sets p q.rep_id q.repo q.op q.role q.pubkey)
          (λ _. append_access_block p q.rep_id q.op q.role q.pubkey q.sigkey q.signature) s₁ s' tt
          applied in
      let (r, u) =
        update_key_sets-Assigns p q.rep_id q.repo q.pubkey s₁ s₂ q.op q.role complete
          (check_access-found p t s q s₁ checked) a.changes_keys updated in
      (
        q,
        a,
        append_access_block-IsExtended q s s₂ s' r bytes a u appended,
        λ j h.
            ap (λ x. x.1.repositories j) (sym applied)
            ∙ apply_access-others p q s₁ j h
            ∙ ap (λ x. x.1.repositories j) (sym checked)
            ∙ ap (λ f. f j) (check_access-repositories p t s),
      )
