-- ===== src/Ta/History/Runs.antt =====
-- The chains over whole runs of the TA.
use trust_chain.Base.{ℕ, Bytes, Option}
use trust_chain.Platform.{Platform}
use trust_chain.Block.Digest.{IsDigest}
use trust_chain.Ta.State.{Repo}
use trust_chain.Ta.AccessControl.Roles.{Role}
use trust_chain.Ta.Ledger.{IsLedger, founded, reassigned, contributed, unfinished}
use trust_chain.Ta.Ledger.Runs.{run-HaveLedgers}
use trust_chain.Ta.History.{IsChain, genesis, changed, committed, HaveChains, IsRun}

-- A ledger without the roles is a chain of blocks.
ledger-IsChain :
    {W : Type 0} (p : Platform W) (sha : Bytes → Bytes) (id : ℕ) (roles : Bytes → Role) (h : Bytes)
    (n : ℕ)
    → IsLedger p sha id roles h n
    → IsChain p sha id h n
ledger-IsChain p sha id roles h n (founded c founder parent base zeros role pubkey) =
    genesis c founder parent base zeros role pubkey
ledger-IsChain p sha id roles h n
      (reassigned before h₀ n₀ c op role pubkey sigkey signature w ledger right known base role_set
        pubkey_set signed) =
    changed c h₀ n₀ op role pubkey sigkey signature w (ledger-IsChain p sha id before h₀ n₀ ledger)
      known base role_set pubkey_set signed
ledger-IsChain p sha id roles h n
      (contributed before h₀ n₀ c op commit_hash sigkey signature w ledger member known base
        hash_set signed) =
    committed c h₀ n₀ op commit_hash sigkey signature w
      (ledger-IsChain p sha id before h₀ n₀ ledger) known base hash_set signed
ledger-IsChain p sha id roles h n
      (unfinished before h₀ n₀ op role pubkey sigkey signature w x ledger right known signed
        change) =
    ledger-IsChain p sha id before h₀ n₀ ledger

-- Where the platform's digest is a function `sha` into bytes, every repository that the TA holds after
-- any sequence of commands, each with any parameters, whose message consists of bytes, and each
-- returning, with or without an error, has a latest hash at the end of a chain: the genesis block
-- with the zeros as its parent and the founder as an administrator, and from there on blocks that
-- hold the digest of the block before as their parent, a height one more (modulo 2 ^ 32) than the
-- repository had, and a request of this repository whose signature was found valid. The latest hash
-- is the hexadecimal digest of the last block's text, and `block_height` the number of blocks behind
-- the genesis block modulo 2 ^ 32.
pub run-HaveChains :
    {W : Type 0} (p : Platform W) (sha : Bytes → Bytes) (n : ℕ) (table : ℕ → Option Repo)
    → IsDigest p sha
    → IsRun p n table
    → HaveChains p sha table
run-HaveChains p sha n table digests run id r there =
    let (h, read, ledger) = run-HaveLedgers p sha n table digests run id r there in
    (h, read, ledger-IsChain p sha id _ h r.block_height ledger)
