-- ===== src/Ta/Ledger/Runs.antt =====
-- The ledgers over whole runs of the TA.
use trust_chain.Base.{
  ℕ, ◌≡◌, ◌≢◌, refl, Bytes, Option, Outcome, ok, err, fault, arith, ap, TeeError,
}
use trust_chain.Platform.{Platform}
use trust_chain.Hex.RoundTrip.{IsByte}
use trust_chain.Block.Digest.{IsDigest}
use trust_chain.Ta.State.{Repo, Ta}
use trust_chain.Ta.Table.{IsSound}
use trust_chain.Ta.InitRepo.{init_repo}
use trust_chain.Ta.InitRepo.Atomic.{init_repo_failed}
use trust_chain.Ta.AccessControl.{access_control}
use trust_chain.Ta.Commit.{commit}
use trust_chain.Ta.Commit.Atomic.{commit_failed}
use trust_chain.Ta.Query.{get_latest_hash, get_tee_public_key}
use trust_chain.Ta.Query.Kept.{get_latest_hash-repositories}
use trust_chain.Ta.Query.PublicKey.{get_tee_public_key-refused}
use trust_chain.Ta.{invoke_command}
use trust_chain.Ta.Reachable.{reachable-IsTable}
use trust_chain.Ta.History.{IsRun, started, served, run-IsReachable}
use trust_chain.Ta.Ledger.{HaveLedgers}
use trust_chain.Ta.Ledger.Growth.{
  same-HaveLedgers, init_repo-HaveLedgers, commit-HaveLedgers, access_control-HaveLedgers,
}
use trust_chain.Ta.Ledger.Unfinished.{access_control_failed-HaveLedgers}

-- A handler that returns, with or without an error, leaves every repository with its ledger.
abbrev EndsRecorded :
    {W : Type 0} → Platform W → (Bytes → Bytes) → Outcome (Unit {0}) × Ta W → Type 0
EndsRecorded p sha (ok _, s') = HaveLedgers p sha s'.repositories
EndsRecorded p sha (err _, s') = HaveLedgers p sha s'.repositories
EndsRecorded p sha (fault, s') = Unit

both-EndsRecorded :
    {W : Type 0} (p : Platform W) (sha : Bytes → Bytes) (x : Outcome (Unit {0}) × Ta W)
    → ((s' : Ta W) → x ≡ (ok tt, s') → HaveLedgers p sha s'.repositories)
    → ((s' : Ta W) (e : TeeError) → x ≡ (err e, s') → HaveLedgers p sha s'.repositories)
    → EndsRecorded p sha x
both-EndsRecorded p sha (ok tt, s') done failed = done s' refl
both-EndsRecorded p sha (err e, s') done failed = failed s' e refl
both-EndsRecorded p sha (fault, s') done failed = tt

ends-HaveLedgers :
    {W : Type 0} (p : Platform W) (sha : Bytes → Bytes) (x : Outcome (Unit {0}) × Ta W)
    → x.0 ≢ fault
    → EndsRecorded p sha x
    → HaveLedgers p sha x.1.repositories
ends-HaveLedgers p sha (ok a, s') defined ledgers = ledgers
ends-HaveLedgers p sha (err e, s') defined ledgers = ledgers
ends-HaveLedgers p sha (fault, s') defined ledgers = absurd (defined refl)

module _ {W : Type 0} (p : Platform W) (sha : Bytes → Bytes) (digests : IsDigest p sha) (t : ℕ)
    (s : Ta W) (sound : IsSound s) (bytes : (a : ℕ) → IsByte (s.param0.memref.cell a))
    (ledgers : HaveLedgers p sha s.repositories) where
  -- A table that is the same at every place.
  kept :
      (s' : Ta W)
      → ((j : ℕ) → s'.repositories j ≡ s.repositories j)
      → HaveLedgers p sha s'.repositories
  kept s' same = same-HaveLedgers p sha s.repositories s'.repositories same ledgers

  same-EndsRecorded :
      (x : Outcome (Unit {0}) × Ta W)
      → ((j : ℕ) → x.1.repositories j ≡ s.repositories j)
      → EndsRecorded p sha x
  same-EndsRecorded (ok a, s') same = kept s' same
  same-EndsRecorded (err e, s') same = kept s' same
  same-EndsRecorded (fault, s') same = tt

  invoke_command-EndsRecorded : (cmd_id : ℕ) → EndsRecorded p sha (invoke_command p cmd_id t s)
  unfolding invoke_command
  invoke_command-EndsRecorded cmd_id =
      let founded =
        both-EndsRecorded p sha (init_repo p t s)
          (λ s'. init_repo-HaveLedgers p sha digests t s s' ledgers)
          (λ s' e run. kept s' (init_repo_failed p t s s' e sound run).0) in
      let committed =
        both-EndsRecorded p sha (commit p t s)
          (λ s'. commit-HaveLedgers p sha digests t s s' ledgers)
          (λ s' e run. kept s' (λ j. ap (λ f. f j) (commit_failed p t s s' e run))) in
      let changed =
        both-EndsRecorded p sha (access_control p t s)
          (λ s'. access_control-HaveLedgers p sha digests t s s' ledgers sound bytes)
          (λ s' e. access_control_failed-HaveLedgers p sha t s s' e sound ledgers) in
      let queried =
        same-EndsRecorded (get_latest_hash p t s)
          (λ j. ap (λ f. f j) (get_latest_hash-repositories p t s)) in
      let asked =
        same-EndsRecorded (get_tee_public_key p t s)
          (λ j. ap (λ f. f j) (get_tee_public_key-refused p t s).1) in
      ground (arith, founded, committed, changed, queried, asked, kept s (λ j. refl))

-- Where the platform's digest is a function `sha` into bytes, the repositories that the TA holds after
-- any sequence of commands, each with any parameters, whose message consists of bytes, and each
-- returning, with or without an error, stand for ledgers: the roles in the key sets, the latest hash
-- and `block_height` of a repository are those of a sequence of entries that begins with the genesis
-- block, in which the founder alone is an administrator. Each further entry is a block with the
-- digest of the block before as its parent and a height one more (modulo 2 ^ 32), for a request of
-- this repository, with a signature found valid, by a key that had the right by the ledger before it:
-- an administrator's for a change of roles, which gives the key of the request the role that it asks
-- for and no other key another one, and a member's for a commit, which changes no role. A change of
-- roles that failed stands there without a block: it was signed by an administrator too, and has
-- changed the role all the same, or has only taken it from a writer who was to become an
-- administrator.
pub run-HaveLedgers :
    {W : Type 0} (p : Platform W) (sha : Bytes → Bytes) (n : ℕ) (table : ℕ → Option Repo)
    → IsDigest p sha
    → IsRun p n table
    → HaveLedgers p sha table
run-HaveLedgers p sha n table digests started = λ id r there. absurd (ground (arith, there))
run-HaveLedgers p sha n table digests (served cmd_id t s before bytes defined) =
    ends-HaveLedgers p sha (invoke_command p cmd_id t s) defined (
      invoke_command-EndsRecorded p sha digests t s
        (reachable-IsTable p s.repo_num s.repositories
          (run-IsReachable p s.repo_num s.repositories before))
        bytes (run-HaveLedgers p sha s.repo_num s.repositories digests before) cmd_id)
