-- ===== src/Ta/History.antt =====
-- The chains of blocks behind the latest hashes.
pub mod Runs
use trust_chain.Base.{
  ℕ, ◌+◌, ◌%◌, ◌^◌, ◌<◌, ◌≡◌, ◌≢◌, Bytes, [], take, Option, none, some, ok, err, fault, ◌⊎◌, inl,
  inr, arith,
}
use trust_chain.Memory.{Cells, Buffer, load_str, prefix, read_u32}
use trust_chain.Platform.{Platform}
use trust_chain.Utils.{verify_signature}
use trust_chain.Hex.{hex}
use trust_chain.Hex.RoundTrip.{IsByte}
use trust_chain.Block.{access_text, contribution_text}
use trust_chain.Block.Fields.{HasBase}
use trust_chain.Block.Layout
use trust_chain.Ta.State.{Repo, Ta, latest_hash, op_add, op_delete, op_push, op_pr, role_admin}
use trust_chain.Ta.InitRepo.{zero_hash}
use trust_chain.Ta.AccessControl.{access_request}
use trust_chain.Ta.Commit.{commit_request}
use trust_chain.Ta.{invoke_command}
use trust_chain.Ta.Reachable.{no_repositories, IsReachable, loaded, invoked}

module _ {W : Type 0} (p : Platform W) (sha : Bytes → Bytes) (id : ℕ) where
  -- The chains of the repository `id`, by the hash of the last block and its height: a genesis block,
  -- and blocks whose parent is the hash before, whose height is one more, and whose signature was
  -- found valid for the request that they hold. The bytes of a block, without the signature of the
  -- TA, are `c`.
  pub data IsChain : Bytes → ℕ → Type 0 where
    genesis :
        (c : Cells) (founder parent : Bytes)
        → HasBase c 1 parent op_add founder []
        → take 64 parent ≡ zero_hash
        → read_u32 c Layout.role ≡ role_admin
        → prefix 256 c Layout.pubkey ≡ take 256 founder
        → IsChain (hex (sha (access_text c))) 0
    changed :
        (c : Cells) (h : Bytes) (n op role : ℕ) (pubkey sigkey signature : Bytes) (w : W)
        → IsChain h n
        → (op ≡ op_add) ⊎ (op ≡ op_delete)
        → HasBase c ((n + 1) % 2 ^ 32) h op sigkey signature
        → read_u32 c Layout.role ≡ role
        → prefix 256 c Layout.pubkey ≡ take 256 pubkey
        → (verify_signature p (access_request id op role pubkey) sigkey signature w).0 ≡ ok tt
        → IsChain (hex (sha (access_text c))) ((n + 1) % 2 ^ 32)
    committed :
        (c : Cells) (h : Bytes) (n op : ℕ) (commit_hash sigkey signature : Bytes) (w : W)
        → IsChain h n
        → (op ≡ op_push) ⊎ (op ≡ op_pr)
        → HasBase c ((n + 1) % 2 ^ 32) h op sigkey signature
        → prefix 64 c Layout.commit_hash ≡ take 64 commit_hash
        → (verify_signature p (commit_request id op commit_hash) sigkey signature w).0 ≡ ok tt
        → IsChain (hex (sha (contribution_text c))) ((n + 1) % 2 ^ 32)

  -- The latest hash of a repository is that of a chain of its height.
  abbrev pub HasChain : Repo → Type 0
  HasChain r = (h : Bytes) × (load_str r.names latest_hash ≡ some h) × IsChain h r.block_height

-- Every repository of a table has its chain.
abbrev pub HaveChains : {W : Type 0} → Platform W → (Bytes → Bytes) → (ℕ → Option Repo) → Type 0
HaveChains p sha table = (id : ℕ) (r : Repo) → table id ≡ some r → HasChain p sha id r

-- The same sequences of commands as in Reachable, with messages that consist of bytes.
pub data IsRun {W : Type 0} (p : Platform W) : ℕ → (ℕ → Option Repo) → Type 0 where
  started : IsRun p 0 no_repositories
  served :
      (cmd_id t : ℕ) (s : Ta W)
      → IsRun p s.repo_num s.repositories
      → ((a : ℕ) → IsByte (s.param0.memref.cell a))
      → (invoke_command p cmd_id t s).0 ≢ fault
      → IsRun p
          (invoke_command p cmd_id t s).1.repo_num
          (invoke_command p cmd_id t s).1.repositories

pub run-IsReachable :
    {W : Type 0} (p : Platform W) (n : ℕ) (table : ℕ → Option Repo)
    → IsRun p n table
    → IsReachable p n table
run-IsReachable p n table started = loaded
run-IsReachable p n table (served cmd_id t s before bytes defined) =
    invoked cmd_id t s (run-IsReachable p s.repo_num s.repositories before) defined
