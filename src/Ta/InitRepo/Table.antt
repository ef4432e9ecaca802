-- ===== src/Ta/InitRepo/Table.antt =====
-- What `init_repo` does to the table of repositories, on success and on every error.
use trust_chain.Base.{
  ℕ, ◌+◌, ◌%◌, ◌^◌, ◌<◌, ◌≡◌, refl, some, none, Bytes, [], ◌∷◌, Outcome, ok, err, fault, arith,
  ◌==◌, if◌then◌else◌, ◌∙◌, ◌>>=◌, on_error, >>=-rule,
}
use trust_chain.Memory.{Buffer}
use trust_chain.Platform.{Platform}
use trust_chain.KeyList.{KeyList, key_in, key_exists_in_set, add_key_to_set}
use trust_chain.Ta.State.{Repo, Ta, max_repo_id}
use trust_chain.Ta.Table.{keys_at, IsComplete, AreSets}
use trust_chain.Ta.InitRepo.{
  cleanup_repo_resources, allocate_repo, add_founder, return_repo, create_repo, genesis_block,
}

-- What a step ends with at the place `j`, where it makes the repository `id`, starting from `s`: a
-- failure leaves that place empty, and no other place changes.
abbrev FillsAt : {W : Type 0} → ℕ → ℕ → Ta W → Outcome Repo × Ta W → Type 0
FillsAt id j s (ok r, s') =
    (s'.repositories j ≡ (if j == id then some r else s.repositories j))
    × (s'.repo_num ≡ s.repo_num)
FillsAt id j s (err _, s') =
    (s'.repositories j ≡ (if j == id then none else s.repositories j)) × (s'.repo_num ≡ s.repo_num)
FillsAt id j s (fault, s') = Unit

-- What the last step leaves, where it returns: the names of the repository changed, and the number
-- of repositories grew.
abbrev ReturnsAt : {W : Type 0} → ℕ → ℕ → Repo → Ta W → Outcome (Unit {0}) × Ta W → Type 0
ReturnsAt id j r s (ok _, s') =
    (keys_at (s'.repositories j)
      ≡ (if j == id then keys_at (some r) else keys_at (s.repositories j)))
    × (s'.repo_num ≡ (s.repo_num + 1) % 2 ^ 32)
ReturnsAt id j r s (err _, s') = ⊥
ReturnsAt id j r s (fault, s') = Unit

-- The same for the step that makes the genesis block, which leaves the repository alone if it
-- returns.
abbrev GenesisAt : {W A : Type 0} → ℕ → ℕ → Ta W → Outcome A × Ta W → Type 0
GenesisAt id j s (ok _, s') = (s'.repositories j ≡ s.repositories j) × (s'.repo_num ≡ s.repo_num)
GenesisAt id j s (err _, s') =
    (s'.repositories j ≡ (if j == id then none else s.repositories j)) × (s'.repo_num ≡ s.repo_num)
GenesisAt id j s (fault, s') = Unit

module _ {W : Type 0} (p : Platform W) where
  allocate_repo-FillsAt :
      (id j : ℕ) (key : Bytes) (s : Ta W)
      → id < max_repo_id
      → FillsAt id j s (allocate_repo p id key s)
  unfolding allocate_repo cleanup_repo_resources
  allocate_repo-FillsAt id j key s lt = ground arith

  -- Both key lists of a new repository are empty.
  allocate_repo-lists :
      (id : ℕ) (key : Bytes) (s s' : Ta W) (r : Repo)
      → allocate_repo p id key s ≡ (ok r, s')
      → (r.admin_keys ≡ some (record { head = []; count = 0 }))
        × (r.writer_keys ≡ some (record { head = []; count = 0 }))
  unfolding allocate_repo
  allocate_repo-lists id key s s' r run = ground arith

  add_founder-FillsAt :
      (id j : ℕ) (r : Repo) (key : Bytes) (s : Ta W)
      → id < max_repo_id
      → s.repositories id ≡ some r
      → FillsAt id j s (add_founder p id r key s)
  unfolding add_founder cleanup_repo_resources
  add_founder-FillsAt id j r key s lt e = ground arith

  add_founder-lists :
      (id : ℕ) (r r' : Repo) (key : Bytes) (l : KeyList) (s s' : Ta W)
      → r.admin_keys ≡ some l
      → add_founder p id r key s ≡ (ok r', s')
      → (r'.admin_keys ≡ some (record { head = key ∷ l.head; count = (l.count + 1) % 2 ^ 32 }))
        × (r'.writer_keys ≡ r.writer_keys)
  unfolding add_founder add_key_to_set
  add_founder-lists id r r' key l s s' e run = ground arith

  genesis_block-table :
      (r : Repo) (key : Bytes) (s : Ta W)
      → let s' = (genesis_block p r key s).1 in
        (s'.repositories ≡ s.repositories) × (s'.repo_num ≡ s.repo_num)
  unfolding genesis_block
  genesis_block-table r key s = ground arith

  return_repo-ReturnsAt :
      (id j : ℕ) (r : Repo) (block : Buffer) (h : Bytes) (s : Ta W)
      → ReturnsAt id j r s (return_repo p id r block h s)
  unfolding return_repo
  return_repo-ReturnsAt id j r block h s = ground arith

  genesis-FillsAt :
      (id j : ℕ) (r : Repo) (key : Bytes) (s : Ta W)
      → id < max_repo_id
      → s.repositories id ≡ some r
      → GenesisAt id j s (on_error (genesis_block p r key) (cleanup_repo_resources p id) s)
  unfolding cleanup_repo_resources
  genesis-FillsAt id j r key s lt e = ground (arith, genesis_block-table r key s)

abbrev empty_list : KeyList
empty_list = record { head = []; count = 0 }

abbrev founder_list : Bytes → KeyList
founder_list key = record { head = key ∷ []; count = (0 + 1) % 2 ^ 32 }

founder-AreSets : (key : Bytes) → AreSets (founder_list key) empty_list
unfolding key_in key_exists_in_set
founder-AreSets key = record {
  admins_valid = record { distinct = (refl, tt); counted = omega arith };
  writers_valid = record { distinct = tt; counted = omega arith };
  apart = λ j h. refl;
}

-- What `init_repo` ends with, from the state `s`: an error leaves the place `repo_num` empty and the
-- others as they were, and a success puts a complete repository there and counts it.
abbrev pub Makes : {W : Type 0} → Ta W → Outcome (Unit {0}) × Ta W → Type 0
Makes s (ok _, s') =
    (r : Repo) × IsComplete r
    × ((j : ℕ)
        → keys_at (s'.repositories j)
          ≡ (if j == s.repo_num then keys_at (some r) else keys_at (s.repositories j)))
    × (s'.repo_num ≡ (s.repo_num + 1) % 2 ^ 32)
Makes s (err _, s') =
    ((j : ℕ) → s'.repositories j ≡ (if j == s.repo_num then none else s.repositories j))
    × (s'.repo_num ≡ s.repo_num)
Makes s (fault, s') = Unit

returned-Makes :
    {W : Type 0} (s : Ta W) (r : Repo) (s₃ : Ta W) (x : Outcome (Unit {0}) × Ta W)
    → IsComplete r
    → ((j : ℕ) → s₃.repositories j ≡ (if j == s.repo_num then some r else s.repositories j))
    → s₃.repo_num ≡ s.repo_num
    → ((j : ℕ) → ReturnsAt s.repo_num j r s₃ x)
    → Makes s x
returned-Makes s r s₃ (ok _, s') c at num returns =
    (r, c, λ j. ground (arith, at j, returns j), ground (arith, returns 0, num))
returned-Makes s r s₃ (err _, s') c at num returns = absurd (returns 0)
returned-Makes s r s₃ (fault, s') c at num returns = tt

-- The state while a repository is made: it is at the place `repo_num`, nothing else changed.
abbrev Pending : {W : Type 0} → Ta W → Repo → Ta W → Type 0
Pending s r s' =
    ((j : ℕ) → s'.repositories j ≡ (if j == s.repo_num then some r else s.repositories j))
    × (s'.repo_num ≡ s.repo_num)

module _ {W : Type 0} (p : Platform W) (key : Bytes) (s : Ta W)
    (lt : s.repo_num < max_repo_id) where
  -- After the founder was added.
  genesis_tail-Makes :
      (r : Repo) (s₂ : Ta W)
      → Pending s r s₂
      → IsComplete r
      → Makes s (
          (on_error (genesis_block p r key) (cleanup_repo_resources p s.repo_num) >>= λ (block, h).
          return_repo p s.repo_num r block h)
            s₂)
  genesis_tail-Makes r s₂ (at, num) c =
      let here : s₂.repositories s.repo_num ≡ some r = ground (arith, at s.repo_num) in
      let genesis = λ (j : ℕ). genesis-FillsAt p s.repo_num j r key s₂ lt here in
      >>=-rule (Makes s) (on_error (genesis_block p r key) (cleanup_repo_resources p s.repo_num))
        (λ (block, h). return_repo p s.repo_num r block h) s₂
        (λ (block, h) s₃ run.
          let at₃ = λ (j : ℕ). rw run at (genesis j) in
          returned-Makes s r s₃ _ c (λ j. (at₃ j).0 ∙ at j) ((at₃ 0).1 ∙ num)
            (λ j. return_repo-ReturnsAt p s.repo_num j r block h s₃))
        (λ e s₃ run.
          let at₃ = λ (j : ℕ). rw run at (genesis j) in
          (λ j. ground (arith, at₃ j, at j), (at₃ 0).1 ∙ num))
        (λ s₃ _. tt)

  -- After the repository was allocated.
  founder_tail-Makes :
      (r : Repo) (s₁ : Ta W)
      → Pending s r s₁
      → (r.admin_keys ≡ some empty_list) × (r.writer_keys ≡ some empty_list)
      → Makes s (
          (add_founder p s.repo_num r key >>= λ r'.
          on_error (genesis_block p r' key) (cleanup_repo_resources p s.repo_num) >>= λ (block, h).
          return_repo p s.repo_num r' block h)
            s₁)
  founder_tail-Makes r s₁ (at, num) (ea, ew) =
      let here : s₁.repositories s.repo_num ≡ some r = ground (arith, at s.repo_num) in
      let fills = λ (j : ℕ). add_founder-FillsAt p s.repo_num j r key s₁ lt here in
      >>=-rule (Makes s) (add_founder p s.repo_num r key) _ s₁
        (λ r' s₂ run.
          let at₂ = λ (j : ℕ). rw run at (fills j) in
          let (ea', ew') = add_founder-lists p s.repo_num r r' key empty_list s₁ s₂ ea run in
          genesis_tail-Makes r' s₂ (λ j. ground (arith, at₂ j, at j), (at₂ 0).1 ∙ num)
            (founder_list key, empty_list, ea', ew' ∙ ew, founder-AreSets key))
        (λ e s₂ run.
          let at₂ = λ (j : ℕ). rw run at (fills j) in
          (λ j. ground (arith, at₂ j, at j), (at₂ 0).1 ∙ num))
        (λ s₂ _. tt)

  pub create_repo-Makes : Makes s (create_repo p s.repo_num key s)
  unfolding create_repo
  create_repo-Makes =
      let fills = λ (j : ℕ). allocate_repo-FillsAt p s.repo_num j key s lt in
      >>=-rule (Makes s) (allocate_repo p s.repo_num key) _ s
        (λ r s₁ run.
          let at₁ = λ (j : ℕ). rw run at (fills j) in
          founder_tail-Makes r s₁ (λ j. (at₁ j).0, (at₁ 0).1)
            (allocate_repo-lists p s.repo_num key s s₁ r run))
        (λ e s₁ run. let at₁ = λ (j : ℕ). rw run at (fills j) in (λ j. (at₁ j).0, (at₁ 0).1))
        (λ s₁ _. tt)
