-- ===== src/Ta/Ledger.antt =====
-- What the TA promises of a repository, without its memory: a ledger of roles and blocks.
pub mod Growth
pub mod Unfinished
pub mod Runs
use trust_chain.Base.{
  ℕ, ◌+◌, ◌%◌, ◌^◌, ◌<◌, ◌≡◌, ◌≢◌, Bytes, [], take, Option, none, some, ok, ◌⊎◌, inl, inr, arith,
  if◌then◌else◌, str_eq,
}
use trust_chain.Memory.{Cells, load_str, prefix, read_u32}
use trust_chain.Platform.{Platform}
use trust_chain.Utils.{verify_signature}
use trust_chain.Hex.{hex}
use trust_chain.Block.{access_text, contribution_text}
use trust_chain.Block.Fields.{HasBase}
use trust_chain.Block.Layout
use trust_chain.Ta.State.{Repo, latest_hash, op_add, op_delete, op_push, op_pr, role_admin}
use trust_chain.Ta.InitRepo.{zero_hash}
use trust_chain.Ta.AccessControl.{access_request}
use trust_chain.Ta.AccessControl.Roles.{Role, nobody, writer, admin, role_of, assigned}
use trust_chain.Ta.Commit.{commit_request}

-- The roles with that of one key changed.
abbrev pub assign : (Bytes → Role) → Bytes → Role → Bytes → Role
assign roles key x k = if str_eq key k then x else roles k

module _ {W : Type 0} (p : Platform W) (sha : Bytes → Bytes) (id : ℕ) where
  -- The ledgers of the repository `id`, by the roles of its keys, the hash of the last block, and the
  -- number of blocks behind the first one. The bytes of a block, without the signature of the TA,
  -- are `c`. An entry was signed by a key that had the right to it by the ledger before. A change of
  -- roles that fails on the way leaves no block: it has given the role all the same, or has only
  -- taken it from a writer who was to become an administrator.
  pub data IsLedger : (Bytes → Role) → Bytes → ℕ → Type 0 where
    founded :
        (c : Cells) (founder parent : Bytes)
        → HasBase c 1 parent op_add founder []
        → take 64 parent ≡ zero_hash
        → read_u32 c Layout.role ≡ role_admin
        → prefix 256 c Layout.pubkey ≡ take 256 founder
        → IsLedger (assign (λ _. nobody) founder admin) (hex (sha (access_text c))) 0
    reassigned :
        (roles : Bytes → Role) (h : Bytes) (n : ℕ) (c : Cells) (op role : ℕ)
        (pubkey sigkey signature : Bytes) (w : W)
        → IsLedger roles h n
        → roles sigkey ≡ admin
        → (op ≡ op_add) ⊎ (op ≡ op_delete)
        → HasBase c ((n + 1) % 2 ^ 32) h op sigkey signature
        → read_u32 c Layout.role ≡ role
        → prefix 256 c Layout.pubkey ≡ take 256 pubkey
        → (verify_signature p (access_request id op role pubkey) sigkey signature w).0 ≡ ok tt
        → IsLedger
            (assign roles pubkey (assigned op role (roles pubkey)))
            (hex (sha (access_text c)))
            ((n + 1) % 2 ^ 32)
    contributed :
        (roles : Bytes → Role) (h : Bytes) (n : ℕ) (c : Cells) (op : ℕ)
        (commit_hash sigkey signature : Bytes) (w : W)
        → IsLedger roles h n
        → roles sigkey ≢ nobody
        → (op ≡ op_push) ⊎ (op ≡ op_pr)
        → HasBase c ((n + 1) % 2 ^ 32) h op sigkey signature
        → prefix 64 c Layout.commit_hash ≡ take 64 commit_hash
        → (verify_signature p (commit_request id op commit_hash) sigkey signature w).0 ≡ ok tt
        → IsLedger roles (hex (sha (contribution_text c))) ((n + 1) % 2 ^ 32)
    unfinished :
        (roles : Bytes → Role) (h : Bytes) (n op role : ℕ) (pubkey sigkey signature : Bytes) (w : W)
        (x : Role)
        → IsLedger roles h n
        → roles sigkey ≡ admin
        → (op ≡ op_add) ⊎ (op ≡ op_delete)
        → (verify_signature p (access_request id op role pubkey) sigkey signature w).0 ≡ ok tt
        → (x ≡ assigned op role (roles pubkey))
          ⊎ ((x ≡ nobody) × (roles pubkey ≡ writer) × (op ≡ op_add) × (role ≡ role_admin))
        → IsLedger (assign roles pubkey x) h n

  -- A repository in memory stands for a ledger: the roles of its two key sets, the latest hash, and
  -- the height.
  abbrev pub HasLedger : Repo → Type 0
  HasLedger r =
      (h : Bytes) × (load_str r.names latest_hash ≡ some h) × IsLedger (role_of r) h r.block_height

-- Every repository of a table stands for a ledger.
abbrev pub HaveLedgers : {W : Type 0} → Platform W → (Bytes → Bytes) → (ℕ → Option Repo) → Type 0
HaveLedgers p sha table = (id : ℕ) (r : Repo) → table id ≡ some r → HasLedger p sha id r
