-- ===== src/Ta/Table/InitRepo.antt =====
-- `init_repo` keeps the table: a failure leaves the key sets as they were, and a success adds one
-- complete repository at the end.
use trust_chain.Base.{
  ℕ, ◌+◌, ◌%◌, ◌^◌, ◌<◌, ◌≡◌, some, none, Bytes, Outcome, ok, err, fault, arith, ◌==◌,
  if◌then◌else◌, Option-cases, Bool-cases, leb, inl, inr, ℕ_discrete,
}
use trust_chain.Memory.{load_str}
use trust_chain.Platform.{Platform}
use trust_chain.Ta.State.{Repo, Ta, max_repo_id}
use trust_chain.Ta.Table.{
  IsSound, EndsSound, SameKeys-IsSound, keys_at, same_keys-IsComplete, IsComplete,
}
use trust_chain.Ta.InitRepo.{create_repo, init_repo}
use trust_chain.Ta.InitRepo.Table.{Makes, create_repo-Makes}

module _ {W : Type 0} (s : Ta W) (sound : IsSound s) where
  -- A failed step leaves the table as it was.
  emptied-IsSound :
      (s' : Ta W)
      → ((j : ℕ) → s'.repositories j ≡ (if j == s.repo_num then none else s.repositories j))
      → s'.repo_num ≡ s.repo_num
      → IsSound s'
  emptied-IsSound s' at num =
      SameKeys-IsSound s s' (λ j. ground (arith, at j, sound.unused s.repo_num (omega arith)), num)
        sound

  -- A finished one makes it one repository longer.
  filled-IsSound :
      (r : Repo) (s' : Ta W)
      → s.repo_num < max_repo_id
      → IsComplete r
      → ((j : ℕ)
          → keys_at (s'.repositories j)
            ≡ (if j == s.repo_num then keys_at (some r) else keys_at (s.repositories j)))
      → s'.repo_num ≡ (s.repo_num + 1) % 2 ^ 32
      → IsSound s'
  filled-IsSound r s' lt c at num = record {
    bounded = omega arith;
    used = λ j h. elim (ℕ_discrete j s.repo_num) [
      | yes e ↦ same_keys-IsComplete (s'.repositories j) r c (ground (arith, at j))
      | no ne ↦
          let (r', e', c') = sound.used j (omega arith) in
          same_keys-IsComplete (s'.repositories j) r' c' (ground (arith, at j, e'))
    ];
    unused = λ j h. ground (arith, at j, sound.unused j);
  }

  Makes-EndsSound :
      (x : Outcome (Unit {0}) × Ta W) → s.repo_num < max_repo_id → Makes s x → EndsSound x
  Makes-EndsSound (ok _, s') lt (r, c, at, num) = filled-IsSound r s' lt c at num
  Makes-EndsSound (err _, s') lt (at, num) = emptied-IsSound s' at num
  Makes-EndsSound (fault, s') lt h = tt

-- `init_repo`, from a sound state, leaves a sound state.
pub init_repo-EndsSound :
    {W : Type 0} (p : Platform W) (t : ℕ) (s : Ta W) → IsSound s → EndsSound (init_repo p t s)
unfolding init_repo
init_repo-EndsSound p t s sound =
    let create_repo_sound = λ (key : Bytes) (lt : s.repo_num < max_repo_id).
      Makes-EndsSound s sound (create_repo p s.repo_num key s) lt (create_repo-Makes p key s lt) in
    elim (Bool-cases (leb max_repo_id s.repo_num)) [
      | inl full ↦ ground arith
      | inr room ↦ elim (Option-cases (load_str s.param0.memref 0)) [
        | inl unread ↦ ground arith
        | inr (key, e) ↦ ground (arith, create_repo_sound key (ground arith), e)
      ]
    ]
