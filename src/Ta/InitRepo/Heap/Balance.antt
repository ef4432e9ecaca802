-- ===== src/Ta/InitRepo/Heap/Balance.antt =====
-- The allocations of `init_repo`, and of a repository in the table.
use trust_chain.Base.{
  ℕ, ◌+◌, ◌≡◌, Bool, true, false, not, ◌&&◌, Bytes, Option, some, none, leb, Outcome, ok, err,
  fault, arith, Bool-cases, Option-cases, inl, inr, subst, sym, out_of_memory, TeeError, raise_if,
  on_error, pure, ◌>>◌,
}
use trust_chain.Memory.{Buffer, strcpy}
use trust_chain.Platform.{Allocation, key_set, metadata, Platform}
use trust_chain.KeyList.{KeyList, cleanup_key_list}
use trust_chain.KeyList.Heap.{CountsHeap, keys_cost, cleanup_key_list-live}
use trust_chain.Ta.State.{Repo, Ta, max_repo_id, latest_hash, founder_key, names_size, put_repo}
use trust_chain.Ta.InitRepo.{
  free_list, cleanup_repo_resources, allocate_repo, new_list, zero_hash, repo_metadata_size,
  key_list_size,
}

-- The allocations of a list of a repository, and of a repository with its lists.
abbrev pub list_live : (Allocation → ℕ) → Option KeyList → ℕ
list_live cost none = 0
list_live cost (some l) = cost key_set + keys_cost cost l.head

abbrev pub repo_live : (Allocation → ℕ) → Repo → ℕ
repo_live cost r = cost metadata + list_live cost r.admin_keys + list_live cost r.writer_keys

module _ {W : Type 0} (p : Platform W) (cost : Allocation → ℕ) (live : W → ℕ)
    (counts : CountsHeap p cost live) where
  free_list-live :
      (n : ℕ) (o : Option KeyList) (w : W)
      → live w ≡ list_live cost o + n
      → live (free_list p o w) ≡ n
  unfolding free_list
  free_list-live n none w e = omega (arith, e)
  free_list-live n (some l) w e =
      let w' = (cleanup_key_list p l w).1 in
      omega (
        arith,
        counts.free_live key_set w',
        cleanup_key_list-live p cost live counts (cost key_set + n) l w (omega (arith, e)),
      )

  module _ (id n : ℕ) (room : leb max_repo_id id ≡ false) where
    -- A repository at its place, with its allocations, and `n` others.
    pub record HasRepo (r : Repo) (s : Ta W) : Type 0 where
      pub there : s.repositories id ≡ some r
      pub owned : live s.world ≡ repo_live cost r + n

    pub cleanup-live :
        (r : Repo) (s : Ta W) → HasRepo r s → live (cleanup_repo_resources p id s).world ≡ n
    unfolding cleanup_repo_resources
    cleanup-live r s h =
        let w₁ = free_list p r.admin_keys s.world in
        let w₂ = free_list p r.writer_keys w₁ in
        let first =
          free_list-live (list_live cost r.writer_keys + (cost metadata + n)) r.admin_keys s.world
            (omega (arith, h.owned)) in
        let second = free_list-live (cost metadata + n) r.writer_keys w₁ first in
        ground (arith, room, h.there, second, counts.free_live metadata w₂)

    -- What a step of `init_repo` ends with: its repository, or nothing on the heap.
    abbrev pub Made : Outcome Repo × Ta W → Type 0
    Made (ok r, s) = HasRepo r s
    Made (err _, s) = live s.world ≡ n
    Made (fault, s) = Unit

    checked-Made :
        (bad : Bool) (r : Repo) (s : Ta W)
        → HasRepo r s
        → Made ((on_error (raise_if bad out_of_memory) (cleanup_repo_resources p id) >> pure r) s)
    checked-Made true r s h = cleanup-live r s h
    checked-Made false r s h = h

    pub fault-Made : (x : Outcome Repo × Ta W) → x.0 ≡ fault → Made x
    fault-Made (ok r, s) e = absurd (ground (arith, e))
    fault-Made (err e', s) e = absurd (ground (arith, e))
    fault-Made (fault, s) e = tt

    pub err-Made :
        (x : Outcome Repo × Ta W) (e' : TeeError) → x.0 ≡ err e' → live x.1.world ≡ n → Made x
    err-Made (ok r, s) e' e h = absurd (ground (arith, e))
    err-Made (err e', s) e'' e h = h
    err-Made (fault, s) e' e h = tt

    -- The lists that were allocated, however many of the two, beside the repository.
    lists-live :
        (w : W) (names : Buffer)
        → live w ≡ cost metadata + n
        → let (b₂, w₂) = p.malloc key_set key_list_size w in
          let (b₃, w₃) = p.malloc key_set key_list_size w₂ in
          live w₃
          ≡ repo_live cost (record {
            block_height = 0;
            names = names;
            admin_keys = new_list p b₂;
            writer_keys = new_list p b₃;
          })
            + n
    lists-live w names e =
        let w₂ = (p.malloc key_set key_list_size w).1 in
        ground (
          arith,
          e,
          counts.malloc_live key_set key_list_size w,
          counts.malloc_live key_set key_list_size w₂,
        )

    pub allocate_repo-Made :
        (key : Bytes) (s : Ta W) → live s.world ≡ n → Made (allocate_repo p id key s)
    unfolding allocate_repo
    allocate_repo-Made key s e =
        let (b₁, w₁) = p.malloc metadata repo_metadata_size s.world in
        let (b₂, w₂) = p.malloc key_set key_list_size w₁ in
        let (b₃, w₃) = p.malloc key_set key_list_size w₂ in
        let empty : Buffer = record { size = names_size; cell = λ _. 0 } in
        elim (Bool-cases b₁) [
          | inr no_repo ↦
              err-Made (allocate_repo p id key s) out_of_memory (ground (arith, no_repo))
                (ground (arith, no_repo, e, counts.malloc_live metadata repo_metadata_size s.world))
          | inl has_repo ↦ elim (Option-cases (strcpy empty latest_hash zero_hash)) [
            | inl no_hash ↦
                fault-Made (allocate_repo p id key s) (ground (arith, has_repo, no_hash))
            | inr (n₁, hash) ↦ elim (Option-cases (strcpy n₁ founder_key key)) [
              | inl no_key ↦
                  fault-Made (allocate_repo p id key s) (ground (arith, has_repo, hash, no_key))
              | inr (n₂, founder) ↦
                  let r : Repo = record {
                    block_height = 0;
                    names = n₂;
                    admin_keys = new_list p b₂;
                    writer_keys = new_list p b₃;
                  } in
                  let s' = put_repo id (some r) (record s { world = w₃ }) in
                  let same : allocate_repo p id key s
                      ≡ (on_error (raise_if (not (b₂ && b₃)) out_of_memory)
                              (cleanup_repo_resources p id)
                            >> pure r)
                          s' =
                    ground (arith, has_repo, hash, founder) in
                  let owned = lists-live w₁ n₂ (
                    ground (
                      arith,
                      has_repo,
                      e,
                      counts.malloc_live metadata repo_metadata_size s.world,
                    )) in
                  subst Made (sym same) (
                    checked-Made (not (b₂ && b₃)) r s'
                      (record { there = ground arith; owned = owned }))
            ]
          ]
        ]
