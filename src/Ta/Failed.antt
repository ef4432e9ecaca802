-- ===== src/Ta/Failed.antt =====
-- What a command that ends with an error leaves.
use trust_chain.Base.{
  ℕ, ◌≤◌, ◌≡◌, ◌≢◌, ◌⊎◌, inl, inr, ℕ_discrete, Option, err, TeeError, arith, sym, dec_lt,
}
use trust_chain.Platform.{Platform}
use trust_chain.Ta.State.{Repo, Ta}
use trust_chain.Ta.Table.{IsTable, IsSound}
use trust_chain.Ta.Table.Invoke.{invoke_command-EndsSound}
use trust_chain.Ta.InitRepo.{init_repo}
use trust_chain.Ta.InitRepo.Atomic.{init_repo_failed}
use trust_chain.Ta.AccessControl.{access_control}
use trust_chain.Ta.AccessControl.Atomic.{head_at, access_control_failed}
use trust_chain.Ta.Commit.Atomic.{commit_failed}
use trust_chain.Ta.Query.PublicKey.{get_tee_public_key-refused}
use trust_chain.Ta.Query.Kept.{get_latest_hash-repositories}
use trust_chain.Ta.{invoke_command, cmd_access_control}

-- The places that hold a repository count them.
below :
    (n m : ℕ) (t u : ℕ → Option Repo)
    → IsTable n t
    → IsTable m u
    → ((j : ℕ) → head_at (u j) ≡ head_at (t j))
    → m ≤ n
below n m t u table table' same = elim (dec_lt n m) [
  | no le ↦ omega (arith, le)
  | yes lt ↦
      let (r, there, _) = table'.used n lt in
      absurd (ground (arith, there, same n, table.unused n (omega arith)))
]

same_heads-num :
    (n m : ℕ) (t u : ℕ → Option Repo)
    → IsTable n t
    → IsTable m u
    → ((j : ℕ) → head_at (u j) ≡ head_at (t j))
    → m ≡ n
same_heads-num n m t u table table' same =
    omega (arith, below n m t u table table' same, below m n u t table' table (λ j. sym (same j)))

module _ {W : Type 0} (p : Platform W) (cmd_id t : ℕ) (s s' : Ta W) (e : TeeError)
    (sound : IsSound s) (run : invoke_command p cmd_id t s ≡ (err e, s')) where
  failed-heads : (j : ℕ) → head_at (s'.repositories j) ≡ head_at (s.repositories j)
  unfolding invoke_command
  failed-heads j =
      let founded : init_repo p t s ≡ (err e, s') → s'.repositories j ≡ s.repositories j =
        λ r. (init_repo_failed p t s s' e sound r).0 j in
      let changed : access_control p t s ≡ (err e, s')
          → head_at (s'.repositories j) ≡ head_at (s.repositories j) =
        λ r. access_control_failed p t s s' e r j in
      ground (
        arith,
        run,
        founded,
        changed,
        commit_failed p t s s' e,
        get_latest_hash-repositories p t s,
        (get_tee_public_key-refused p t s).1,
      )

  failed-repositories : cmd_id ≢ cmd_access_control → (j : ℕ) → s'.repositories j ≡ s.repositories j
  unfolding invoke_command
  failed-repositories other j =
      let founded : init_repo p t s ≡ (err e, s') → s'.repositories j ≡ s.repositories j =
        λ r. (init_repo_failed p t s s' e sound r).0 j in
      ground (
        arith,
        run,
        other,
        founded,
        commit_failed p t s s' e,
        get_latest_hash-repositories p t s,
        (get_tee_public_key-refused p t s).1,
      )

-- From a sound table, a command that ends with an error, at whatever step, leaves the number of
-- repositories, and of every repository the latest hash, the founder's name and the height. A
-- command other than `access_control` leaves every repository as it was, with its key sets.
pub invoke_command_failed :
    {W : Type 0} (p : Platform W) (cmd_id t : ℕ) (s s' : Ta W) (e : TeeError)
    → IsSound s
    → invoke_command p cmd_id t s ≡ (err e, s')
    → (s'.repo_num ≡ s.repo_num)
      × ((j : ℕ) → head_at (s'.repositories j) ≡ head_at (s.repositories j))
      × ((cmd_id ≡ cmd_access_control) ⊎ ((j : ℕ) → s'.repositories j ≡ s.repositories j))
invoke_command_failed p cmd_id t s s' e sound run =
    let same = failed-heads p cmd_id t s s' e sound run in
    let sound' : IsSound s' = rw run at (invoke_command-EndsSound p cmd_id t s sound) in
    (
      same_heads-num s.repo_num s'.repo_num s.repositories s'.repositories sound sound' same,
      same,
      elim (ℕ_discrete cmd_id cmd_access_control) [
        | yes same_id ↦ inl same_id
        | no other ↦ inr (failed-repositories p cmd_id t s s' e sound run other)
      ],
    )
