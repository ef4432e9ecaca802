-- ===== src/Ta.antt =====
-- ta/trust_chain_ta.c: the entry points.
pub mod State
pub mod InitRepo
pub mod AccessControl
pub mod Commit
pub mod Query
pub mod Table
pub mod Reachable
pub mod History
pub mod Ledger
pub mod SignedText
pub mod Failed
pub mod Trust
pub mod Lifecycle
pub mod Overrun
use trust_chain.Base.{
  ℕ, not, ◌==◌, if◌then◌else◌, Action, raise, raise_if, ok, err, bad_parameters, Bool, true, false,
}
use trust_chain.Platform.{Platform}
use State.{Ta, tee_param_types, no_param}
use InitRepo.{init_repo}
use AccessControl.{access_control}
use Commit.{commit}
use Query.{get_latest_hash, get_tee_public_key}

-- The TA_TRUST_CHAIN_CMD_ constants of ta/include/trust_chain_ta.h
abbrev pub cmd_init_repo : ℕ
cmd_init_repo = 0

abbrev pub cmd_access_control : ℕ
cmd_access_control = 2

abbrev pub cmd_get_latest_hash : ℕ
cmd_get_latest_hash = 3

abbrev pub cmd_commit : ℕ
cmd_commit = 4

abbrev pub cmd_get_tee_pubkey : ℕ
cmd_get_tee_pubkey = 5

-- `TA_OpenSessionEntryPoint`
unfoldable pub open_session : {W : Type 0} → ℕ → Action (Ta W) (Unit {0})
open_session param_types =
    raise_if (not (param_types == tee_param_types no_param no_param no_param no_param))
      bad_parameters

module _ {W : Type 0} (p : Platform W) where
  -- `TA_InvokeCommandEntryPoint`
  unfoldable pub invoke_command : ℕ → ℕ → Action (Ta W) (Unit {0})
  invoke_command cmd_id param_types =
      if cmd_id == cmd_init_repo
      then init_repo p param_types
      else if cmd_id == cmd_access_control
      then access_control p param_types
      else if cmd_id == cmd_get_latest_hash
      then get_latest_hash p param_types
      else if cmd_id == cmd_commit
      then commit p param_types
      else if cmd_id == cmd_get_tee_pubkey
      then get_tee_public_key p param_types
      else raise bad_parameters
