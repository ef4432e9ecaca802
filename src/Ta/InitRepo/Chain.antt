-- ===== src/Ta/InitRepo/Chain.antt =====
-- The repository that a successful `init_repo` makes.
use trust_chain.Base.{
  ℕ, ◌+◌, ◌%◌, ◌^◌, ◌≡◌, ◌≢◌, refl, Bytes, [], take, some, ok, arith, if◌then◌else◌, Action, sym,
  ◌∙◌, >>=-ok, ap, str_eq, on_error, ◌>>=◌, subst,
}
use trust_chain.Memory.{Buffer, Cells, load_str, strcpy, prefix, read_u32}
use trust_chain.Memory.Laws.{IsText}
use trust_chain.Memory.Texts.{load_str-IsText, load_str-strcpy}
use trust_chain.Platform.{Platform}
use trust_chain.Hex.{hex}
use trust_chain.Hex.RoundTrip.{hex-IsText}
use trust_chain.KeyList.{key_in, key_exists_in_set}
use trust_chain.Block.{access_text, calculate_access_block_hash}
use trust_chain.Block.Fields.{HasBase, access-fields}
use trust_chain.Block.Digest.{IsDigest, access_block_hash-sha}
use trust_chain.Block.Layout
use trust_chain.Ta.State.{Repo, Ta, latest_hash, founder_key, op_add, role_admin}
use trust_chain.Ta.AccessControl.Roles.{role_of, nobody, admin}
use trust_chain.Ta.InitRepo.{
  zero_hash, allocate_repo, add_founder, genesis_block, return_repo, create_repo, init_repo,
  cleanup_repo_resources,
}
use trust_chain.Ta.InitRepo.Steps.{
  on_error-ok, blank, founded, empty_names, allocate_repo-names, add_founder-founded, made_block,
  genesis_block-parts, return_repo-parts, init_repo-create, names-zero_hash,
}

-- A step that makes the repository `id` and touches no other.
abbrev Keeps : {W : Type 0} → ℕ → Ta W → Ta W → Type 0
Keeps id s s' =
    ((j : ℕ) → j ≢ id → s'.repositories j ≡ s.repositories j) × (s'.repo_num ≡ s.repo_num)

Keeps-trans :
    {W : Type 0} (id : ℕ) (s s₁ s₂ : Ta W) → Keeps id s s₁ → Keeps id s₁ s₂ → Keeps id s s₂
Keeps-trans id s s₁ s₂ (at, num) (at', num') = (λ j h. at' j h ∙ at j h, num' ∙ num)

module _ {W : Type 0} (p : Platform W) (id : ℕ) (key : Bytes) (s : Ta W) where
  allocate_repo-Keeps : Keeps id s (allocate_repo p id key s).1
  unfolding allocate_repo cleanup_repo_resources
  allocate_repo-Keeps = (λ j h. ground arith, ground arith)

  add_founder-Keeps : (r : Repo) → Keeps id s (add_founder p id r key s).1
  unfolding add_founder cleanup_repo_resources
  add_founder-Keeps r = (λ j h. ground arith, ground arith)

  genesis_block-Keeps : (r : Repo) → Keeps id s (genesis_block p r key s).1
  unfolding genesis_block
  genesis_block-Keeps r = (λ j h. ground arith, ground arith)

  return_repo-others :
      (r : Repo) (b : Buffer) (d : Bytes) (j : ℕ)
      → j ≢ id
      → (return_repo p id r b d s).1.repositories j ≡ s.repositories j
  unfolding return_repo
  return_repo-others r b d j h = ground arith

-- A repository as `init_repo` leaves it: its founder is its only administrator, nobody is a writer,
-- its height is 0, and its latest hash is the hexadecimal digest of the text of a genesis block. The
-- bytes of that block, before the signature of the TA was put in, are `c`: height 1, the zeros as
-- its parent, and the founder as the key that is added, as administrator, and as the one who signs.
pub record IsFounded (sha : Bytes → Bytes) (r : Repo) (key : Bytes) (c : Cells) (parent : Bytes)
    : Type 0 where
  pub roles : (k : Bytes) → role_of r k ≡ (if str_eq key k then admin else nobody)
  pub height : r.block_height ≡ 0
  pub fields : HasBase c 1 parent op_add key []
  pub zero_parent : take 64 parent ≡ zero_hash
  pub role_set : read_u32 c Layout.role ≡ role_admin
  pub pubkey_set : prefix 256 c Layout.pubkey ≡ take 256 key
  pub hash_recorded : load_str r.names latest_hash ≡ some (hex (sha (access_text c)))

-- What a finished `init_repo` has done, from a state `s`: there is a new repository at `id`, which was
-- returned and counted, and the others are as before.
abbrev pub Founds : {W : Type 0} → (Bytes → Bytes) → ℕ → Bytes → Ta W → Ta W → Type 0
Founds sha id key s s' =
    ((r : Repo) × (c : Cells) × (parent : Bytes) × (s'.repositories id ≡ some r)
      × IsFounded sha r key c parent)
    × (s'.param1.a ≡ id)
    × (s'.repo_num ≡ (s.repo_num + 1) % 2 ^ 32)
    × ((j : ℕ) → j ≢ id → s'.repositories j ≡ s.repositories j)

founded-roles :
    (n : Buffer) (key k : Bytes)
    → role_of (founded n key) k ≡ (if str_eq key k then admin else nobody)
unfolding key_exists_in_set key_in
founded-roles n key k = ground arith

module _ {W : Type 0} (p : Platform W) (sha : Bytes → Bytes) (digests : IsDigest p sha) where
  -- From the repository with its founder on.
  founded-IsFounded :
      (n₀ n₁ n n' : Buffer) (key parent d : Bytes) (raw : Buffer) (w : W) (s : Ta W)
      → IsText key
      → strcpy n₀ latest_hash zero_hash ≡ some n₁
      → strcpy n₁ founder_key key ≡ some n
      → load_str n latest_hash ≡ some parent
      → made_block p (founded n key) key parent s ≡ (ok raw, w)
      → (calculate_access_block_hash p raw.cell w).0 ≡ ok d
      → strcpy n latest_hash d ≡ some n'
      → IsFounded sha (founded n' key) key raw.cell parent
  founded-IsFounded n₀ n₁ n n' key parent d raw w s text e e' read init hashed copied =
      let (base, role, pubkey) =
        access-fields p _ raw 1 op_add role_admin parent key key [] s.world w (omega arith)
          (omega arith) (omega arith) (load_str-IsText n latest_hash parent read) text text tt
          init in
      let digest = access_block_hash-sha p sha digests raw.cell d w hashed in
      record {
        roles = founded-roles n' key;
        height = refl;
        fields = base;
        zero_parent = names-zero_hash n₀ n₁ n key parent e e' read;
        role_set = role;
        pubkey_set = pubkey;
        hash_recorded =
            load_str-strcpy n n' latest_hash _ (hex-IsText (sha (access_text raw.cell)))
              (rw digest at copied);
      }

  Founds-after :
      (id : ℕ) (key : Bytes) (s s₁ s' : Ta W)
      → Keeps id s s₁
      → Founds sha id key s₁ s'
      → Founds sha id key s s'
  Founds-after id key s s₁ s' (at, num) (made, value, grown, others) =
      (made, value, grown ∙ ap (λ n. (n + 1) % 2 ^ 32) num, λ j h. others j h ∙ at j h)

  module _ (id : ℕ) (key : Bytes) (text : IsText key) (n₀ n₁ n : Buffer)
      (e : strcpy n₀ latest_hash zero_hash ≡ some n₁)
      (e' : strcpy n₁ founder_key key ≡ some n) where
    genesis_tail-Founds :
        (s s' : Ta W)
        → (on_error (genesis_block p (founded n key) key) (cleanup_repo_resources p id)
              >>= λ (b, d). return_repo p id (founded n key) b d)
            s
          ≡ (ok tt, s')
        → Founds sha id key s s'
    genesis_tail-Founds s s' run =
        let ((b, d), s₁, cleaned, returned) =
          >>=-ok (on_error (genesis_block p (founded n key) key) (cleanup_repo_resources p id)) _ s
            s' tt run in
        let made =
          on_error-ok (genesis_block p (founded n key) key) (cleanup_repo_resources p id) s s₁
            (b, d) cleaned in
        let (parent, raw, w, read, init, hashed) =
          genesis_block-parts p (founded n key) key s s₁ b d made in
        let (n', copied, there, value, grown) =
          return_repo-parts p id (founded n key) b d s₁ s' returned in
        let (kept, num) = rw made at (genesis_block-Keeps p id key s (founded n key)) in
        (
          (
            founded n' key,
            raw.cell,
            parent,
            there,
            founded-IsFounded n₀ n₁ n n' key parent d raw w s text e e' read init hashed copied,
          ),
          value,
          grown ∙ ap (λ m. (m + 1) % 2 ^ 32) num,
          λ j h.
              ap (λ x. x.1.repositories j) (sym returned)
              ∙ return_repo-others p id key s₁ (founded n key) b d j h
              ∙ kept j h,
        )

    founder_tail-Founds :
        (s s' : Ta W)
        → (add_founder p id (blank n) key >>= λ r.
              on_error (genesis_block p r key) (cleanup_repo_resources p id) >>= λ (b, d).
              return_repo p id r b d)
            s
          ≡ (ok tt, s')
        → Founds sha id key s s'
    founder_tail-Founds s s' run =
        let (r, s₁, added, rest) = >>=-ok (add_founder p id (blank n) key) _ s s' tt run in
        let same = add_founder-founded p id key n s s₁ r added in
        let keeps = ap (λ x. x.1) added in
        Founds-after id key s s₁ s' (rw added at (add_founder-Keeps p id key s (blank n)))
          (genesis_tail-Founds s₁ s' (rw same at rest))

  create_repo-Founds :
      (id : ℕ) (key : Bytes) (s s' : Ta W)
      → IsText key
      → create_repo p id key s ≡ (ok tt, s')
      → Founds sha id key s s'
  unfolding create_repo
  create_repo-Founds id key s s' text run =
      let (r, s₁, allocated, rest) = >>=-ok (allocate_repo p id key) _ s s' tt run in
      let (n₁, e, e', same) = allocate_repo-names p id key s s₁ r allocated in
      Founds-after id key s s₁ s' (rw allocated at (allocate_repo-Keeps p id key s)) (
        founder_tail-Founds id key text (empty_names p) n₁ r.names e e' s₁ s'
          (subst (λ r₁. run_from r₁ s₁ ≡ (ok tt, s')) same rest))
    where
      run_from : Repo → Action (Ta W) (Unit {0})
      run_from r = add_founder p id r key >>= λ r'.
          on_error (genesis_block p r' key) (cleanup_repo_resources p id) >>= λ (b, d).
          return_repo p id r' b d

  -- Where the platform's digest is a function `sha` into bytes, an `init_repo` that succeeds puts a
  -- repository at the place `repo_num`, which it returns and counts up; no other repository changes.
  -- Its founder, the key in the first parameter, is its only administrator, nobody is a writer, and
  -- its chain begins with a genesis block that holds the founder's key and 64 zeros as its parent;
  -- the latest hash is the hexadecimal digest of that block's text.
  pub init_repo-Founds :
      (t : ℕ) (s s' : Ta W)
      → init_repo p t s ≡ (ok tt, s')
      → (key : Bytes) × (load_str s.param0.memref 0 ≡ some key) × Founds sha s.repo_num key s s'
  init_repo-Founds t s s' run =
      let (key, read, created) = init_repo-create p t s s' run in
      (key, read, create_repo-Founds s.repo_num key s s' (load_str-IsText _ _ _ read) created)
