-- ===== src/Ta/InitRepo/Heap/Whole.antt =====
-- The allocations that a whole `init_repo` leaves.
use trust_chain.Base.{
  ℕ, ◌+◌, ◌≡◌, ◌≢◌, Action, resume, refl, false, Bytes, some, leb, Outcome, ok, err, fault, arith,
  ◌∙◌, Bool-cases, Option-cases, inl, inr, ap, TeeError, on_error,
}
use trust_chain.Memory.{Buffer, strcpy, load_str}
use trust_chain.Platform.{Allocation, Platform}
use trust_chain.KeyList.Heap.{CountsHeap}
use trust_chain.Ta.State.{Repo, Ta, max_repo_id, latest_hash}
use trust_chain.Ta.InitRepo.{
  cleanup_repo_resources, allocate_repo, add_founder, genesis_block, return_repo, create_repo,
  init_repo,
}
use trust_chain.Ta.InitRepo.Heap.{KeepsHeap}
use trust_chain.Ta.InitRepo.Heap.Balance.{
  repo_live, HasRepo, Made, cleanup-live, allocate_repo-Made,
}
use trust_chain.Ta.InitRepo.Heap.Steps.{
  genesis_block-live, return_repo-live, return_repo-no_err, add_founder-Made,
}

module _ {W : Type 0} (p : Platform W) (cost : Allocation → ℕ) (live : W → ℕ)
    (counts : CountsHeap p cost live) (keeps : KeepsHeap p live) where
  module _ (id n : ℕ) (room : leb max_repo_id id ≡ false) where
    -- What a part of `init_repo` ends with: `Q`, or nothing of its own on the heap.
    abbrev Ends : {A : Type 0} → (A → Ta W → Type 0) → Outcome A × Ta W → Type 0
    Ends Q (ok a, s) = Q a s
    Ends Q (err _, s) = live s.world ≡ n
    Ends Q (fault, s) = Unit

    resume-Ends :
        {A B : Type 0} (Q : A → Ta W → Type 0) (R : B → Ta W → Type 0) (f : A → Action (Ta W) B)
        (x : Outcome A × Ta W)
        → Ends Q x
        → ((a : A) (s : Ta W) → Q a s → Ends R (f a s))
        → Ends R (resume f x)
    resume-Ends Q R f (ok a, s) q rest = rest a s q
    resume-Ends Q R f (err e, s) q rest = q
    resume-Ends Q R f (fault, s) q rest = tt

    Made-Ends :
        (x : Outcome Repo × Ta W)
        → Made p cost live counts id n room x
        → Ends (HasRepo p cost live counts id n room) x
    Made-Ends (ok r, s) h = h
    Made-Ends (err e, s) h = h
    Made-Ends (fault, s) h = h

    cleaned-Ends :
        {A : Type 0} (r : Repo) (x : Outcome A × Ta W) (s : Ta W)
        → HasRepo p cost live counts id n room r x.1
        → Ends
            (λ _. HasRepo p cost live counts id n room r)
            (on_error (λ _. x) (cleanup_repo_resources p id) s)
    cleaned-Ends r (ok a, s') s h = h
    cleaned-Ends r (err e, s') s h = cleanup-live p cost live counts id n room r s' h
    cleaned-Ends r (fault, s') s h = tt

    -- The genesis block, and the clean-up where it fails.
    genesis-Ends :
        (r : Repo) (key : Bytes) (s : Ta W)
        → HasRepo p cost live counts id n room r s
        → Ends
            (λ _. HasRepo p cost live counts id n room r)
            (on_error (genesis_block p r key) (cleanup_repo_resources p id) s)
    genesis-Ends r key s h =
        let (same, table) = genesis_block-live p cost live counts keeps r key s in
        cleaned-Ends r (genesis_block p r key s) s
          (record { there = ap (λ f. f id) table ∙ h.there; owned = same ∙ h.owned })

    return_repo-HasRepo :
        (r : Repo) (b : Buffer) (d : Bytes) (s s' : Ta W)
        → HasRepo p cost live counts id n room r s
        → return_repo p id r b d s ≡ (ok tt, s')
        → (r' : Repo) × HasRepo p cost live counts id n room r' s'
    unfolding return_repo
    return_repo-HasRepo r b d s s' h run = elim (Option-cases (strcpy r.names latest_hash d)) [
      | inl no_copy ↦ absurd (ground (arith, no_copy, run))
      | inr (names, copied) ↦ (
        record r { names = names },
        record {
          there = ground (arith, copied, run);
          owned = rw run at (return_repo-live p cost live counts keeps id r b d s) ∙ h.owned;
        },
      )
    ]

    -- The repository at the place, with its allocations, and `n` others.
    abbrev pub Left : Unit {0} → Ta W → Type 0
    Left _ s = (r : Repo) × HasRepo p cost live counts id n room r s

    both-Ends :
        (x : Outcome (Unit {0}) × Ta W)
        → ((s : Ta W) → x ≡ (ok tt, s) → Left tt s)
        → ((e : TeeError) → x.0 ≢ err e)
        → Ends Left x
    both-Ends (ok tt, s) done no_err = done s refl
    both-Ends (err e, s) done no_err = absurd (no_err e refl)
    both-Ends (fault, s) done no_err = tt

    return_repo-Ends :
        (r : Repo) (b : Buffer) (d : Bytes) (s : Ta W)
        → HasRepo p cost live counts id n room r s
        → Ends Left (return_repo p id r b d s)
    return_repo-Ends r b d s h =
        both-Ends (return_repo p id r b d s) (λ s'. return_repo-HasRepo r b d s s' h)
          (return_repo-no_err p cost live counts keeps id r b d s)

    create_repo-Ends :
        (key : Bytes) (s : Ta W) → live s.world ≡ n → Ends Left (create_repo p id key s)
    unfolding create_repo
    create_repo-Ends key s e =
        resume-Ends (HasRepo p cost live counts id n room) Left _ (allocate_repo p id key s)
          (Made-Ends _ (allocate_repo-Made p cost live counts id n room key s e))
          (λ r s₁ h.
            resume-Ends (HasRepo p cost live counts id n room) Left _ (add_founder p id r key s₁)
              (Made-Ends _ (add_founder-Made p cost live counts keeps id n room r key s₁ h))
              (λ r' s₂ h'.
                resume-Ends (λ _. HasRepo p cost live counts id n room r') Left _
                  (on_error (genesis_block p r' key) (cleanup_repo_resources p id) s₂)
                  (genesis-Ends r' key s₂ h') (λ (b, d) s₃ h''. return_repo-Ends r' b d s₃ h'')))

-- What `init_repo` leaves of the heap, from `n` allocations on: where it succeeds those of the new
-- repository at `id` besides, where it fails none.
abbrev pub Balanced :
    {W : Type 0} → (Allocation → ℕ) → (W → ℕ) → ℕ → ℕ → Outcome (Unit {0}) × Ta W → Type 0
Balanced cost live id n (ok _, s) =
    (r : Repo) × (s.repositories id ≡ some r) × (live s.world ≡ repo_live cost r + n)
Balanced cost live id n (err _, s) = live s.world ≡ n
Balanced cost live id n (fault, s) = Unit

module _ {W : Type 0} (p : Platform W) (cost : Allocation → ℕ) (live : W → ℕ)
    (counts : CountsHeap p cost live) (keeps : KeepsHeap p live) where
  Ends-Balanced :
      (id n : ℕ) (room : leb max_repo_id id ≡ false) (x : Outcome (Unit {0}) × Ta W)
      → Ends p cost live counts keeps id n room (Left p cost live counts keeps id n room) x
      → Balanced cost live id n x
  Ends-Balanced id n room (ok tt, s) (r, h) = (r, h.there, h.owned)
  Ends-Balanced id n room (err e, s) h = h
  Ends-Balanced id n room (fault, s) h = tt

  -- Whatever each allocation costs, where TEE_Malloc and TEE_Free add and take off what they give and
  -- take back, and the platform's other calls leave the sum: an `init_repo` that succeeds leaves on
  -- the heap, beside what was there, exactly the cost of the new repository, its two lists, and the
  -- node and the string of each key in them; and one that ends with an error, at whatever step, has
  -- freed everything that it allocated.
  pub init_repo-Balanced :
      (t : ℕ) (s : Ta W) → Balanced cost live s.repo_num (live s.world) (init_repo p t s)
  unfolding init_repo
  init_repo-Balanced t s = elim (Bool-cases (leb max_repo_id s.repo_num)) [
    | inl full ↦ ground (arith, full)
    | inr room ↦ elim (Option-cases (load_str s.param0.memref 0)) [
      | inl unread ↦ ground (arith, room, unread)
      | inr (key, read) ↦
          let created =
            Ends-Balanced s.repo_num (live s.world) room (create_repo p s.repo_num key s) (
              create_repo-Ends p cost live counts keeps s.repo_num (live s.world) room key s
                refl) in
          ground (arith, room, read, created)
    ]
  ]
