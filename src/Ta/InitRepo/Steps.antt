-- ===== src/Ta/InitRepo/Steps.antt =====
-- ta/trust_chain_ta.c: what each step of a successful `init_repo` leaves.
use trust_chain.Base.{
  ℕ, ◌+◌, ◌%◌, ◌^◌, ◌≡◌, Bytes, [], ◌∷◌, ◌++◌, take, some, ok, arith, Action, Outcome, sym, ◌∙◌,
  Outcome-cases, Option-cases, ap, inl, inr, on_error,
}
use trust_chain.Memory.{Buffer, load_str, strcpy, store, prefix, write}
use trust_chain.Memory.Laws.{prefix-write_out, prefix-write}
use trust_chain.Memory.Texts.{prefix-load_str}
use trust_chain.Platform.{Platform}
use trust_chain.KeyList.{add_key_to_set}
use trust_chain.Block.{init_access_block, calculate_access_block_hash}
use trust_chain.Block.Layout
use trust_chain.Ta.State.{Repo, Ta, latest_hash, founder_key, names_size, op_add, role_admin}
use trust_chain.Ta.InitRepo.{
  zero_hash, allocate_repo, add_founder, genesis_block, return_repo, create_repo, init_repo,
}

-- A step that ends well did so before its clean-up.
pub on_error-ok :
    {S A : Type 0} (m : Action S A) (clean : S → S) (s s' : S) (a : A)
    → on_error m clean s ≡ (ok a, s')
    → m s ≡ (ok a, s')
on_error-ok m clean s s' a run = ground arith

abbrev pub blank : Buffer → Repo
blank names = record {
  block_height = 0;
  names = names;
  admin_keys = some (record { head = []; count = 0 });
  writer_keys = some (record { head = []; count = 0 });
}

-- A fresh repository whose only key is its founder's.
abbrev pub founded : Buffer → Bytes → Repo
founded names key = record {
  block_height = 0;
  names = names;
  admin_keys = some (record { head = key ∷ []; count = 1 });
  writer_keys = some (record { head = []; count = 0 });
}

module _ {W : Type 0} (p : Platform W) where
  abbrev pub empty_names : Buffer
  empty_names = record { size = names_size; cell = λ _. 0 }

  pub allocate_repo-names :
      (id : ℕ) (key : Bytes) (s s' : Ta W) (r : Repo)
      → allocate_repo p id key s ≡ (ok r, s')
      → (n₁ : Buffer) × (strcpy empty_names latest_hash zero_hash ≡ some n₁)
        × (strcpy n₁ founder_key key ≡ some r.names)
        × (r ≡ blank r.names)
  unfolding allocate_repo
  allocate_repo-names id key s s' r run =
      elim (Option-cases (strcpy empty_names latest_hash zero_hash)) [
        | inl failed ↦ absurd (ground (arith, failed, run))
        | inr (n₁, e) ↦ (n₁, e, ground (arith, e, run), ground (arith, e, run))
      ]

  pub add_founder-founded :
      (id : ℕ) (key : Bytes) (n : Buffer) (s s' : Ta W) (r : Repo)
      → add_founder p id (blank n) key s ≡ (ok r, s')
      → r ≡ founded n key
  unfolding add_founder add_key_to_set
  add_founder-founded id key n s s' r run = ground arith

  abbrev pub made_block : Repo → Bytes → Bytes → Ta W → Outcome Buffer × W
  made_block r key parent s =
      init_access_block p (record { size = Layout.access_block_size; cell = s.stack }) 1
        (some parent) op_add role_admin (some key) (some key) (some []) s.world

  pub genesis_block-parts :
      (r : Repo) (key : Bytes) (s s' : Ta W) (b : Buffer) (d : Bytes)
      → genesis_block p r key s ≡ (ok (b, d), s')
      → (parent : Bytes) × (raw : Buffer) × (w : W) × (load_str r.names latest_hash ≡ some parent)
        × (made_block r key parent s ≡ (ok raw, w))
        × ((calculate_access_block_hash p raw.cell w).0 ≡ ok d)
  unfolding genesis_block
  genesis_block-parts r key s s' b d run = elim (Option-cases (load_str r.names latest_hash)) [
    | inr (parent, e) ↦
        let made = made_block r key parent s in
        elim (Outcome-cases made.0) [
          | inl (raw, e') ↦
              (parent, raw, made.1, e, (λ i. (e' i, made.1)), ground (arith, e, e', run))
          | inr failed ↦ absurd (ground (arith, e, failed, run))
        ]
    | inl none_there ↦ absurd (ground (arith, none_there, run))
  ]

  pub return_repo-parts :
      (id : ℕ) (r : Repo) (b : Buffer) (d : Bytes) (s s' : Ta W)
      → return_repo p id r b d s ≡ (ok tt, s')
      → (n : Buffer) × (strcpy r.names latest_hash d ≡ some n)
        × (s'.repositories id ≡ some (record r { names = n }))
        × (s'.param1.a ≡ id)
        × (s'.repo_num ≡ (s.repo_num + 1) % 2 ^ 32)
  unfolding return_repo
  return_repo-parts id r b d s s' run = elim (Option-cases (strcpy r.names latest_hash d)) [
    | inr (n, e) ↦ (n, e, ground (arith, e, run), ground (arith, e, run), ground (arith, e, run))
    | inl none_there ↦ absurd (ground (arith, none_there, run))
  ]

  pub init_repo-create :
      (t : ℕ) (s s' : Ta W)
      → init_repo p t s ≡ (ok tt, s')
      → (key : Bytes) × (load_str s.param0.memref 0 ≡ some key)
        × (create_repo p s.repo_num key s ≡ (ok tt, s'))
  unfolding init_repo
  init_repo-create t s s' run = elim (Option-cases (load_str s.param0.memref 0)) [
    | inr (key, e) ↦ (key, e, ground (arith, e, run))
    | inl none_there ↦ absurd (ground (arith, none_there, run))
  ]

-- What stands before the founder's key: the parent that the genesis block prints.
pub names-zero_hash :
    (n₀ n₁ n : Buffer) (key parent : Bytes)
    → strcpy n₀ latest_hash zero_hash ≡ some n₁
    → strcpy n₁ founder_key key ≡ some n
    → load_str n latest_hash ≡ some parent
    → take 64 parent ≡ zero_hash
unfolding strcpy store
names-zero_hash n₀ n₁ n key parent e e' read =
    let cells : n.cell ≡ write n₁.cell founder_key (key ++ 0 ∷ []) = ground arith in
    let cells₁ : n₁.cell ≡ write n₀.cell latest_hash (zero_hash ++ 0 ∷ []) = ground arith in
    sym (prefix-load_str 64 n latest_hash parent read)
    ∙ ap (λ c. prefix 64 c latest_hash) cells
    ∙ prefix-write_out 64 n₁.cell latest_hash founder_key (key ++ 0 ∷ []) (omega arith)
    ∙ ap (λ c. prefix 64 c latest_hash) cells₁
    ∙ prefix-write 64 n₀.cell latest_hash zero_hash (ground arith)
