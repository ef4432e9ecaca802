-- ===== src/Ta/Table/Invoke.antt =====
-- Every command keeps the table.
use trust_chain.Base.{ℕ, arith}
use trust_chain.Platform.{Platform}
use trust_chain.Ta.State.{Ta}
use trust_chain.Ta.Table.{IsSound, EndsSound, SameKeys-EndsSound}
use trust_chain.Ta.Table.InitRepo.{init_repo-EndsSound}
use trust_chain.Ta.Table.AccessControl.{access_control-EndsSound}
use trust_chain.Ta.Table.Commit.{
  commit-EndsSound, get_latest_hash-SameKeys, get_tee_public_key-SameKeys,
}
use trust_chain.Ta.Query.{get_latest_hash, get_tee_public_key}
use trust_chain.Ta.{invoke_command}

module _ {W : Type 0} (p : Platform W) where
  -- From a sound table of repositories every command, whatever its parameters, if it returns, with or
  -- without an error, and does not end in undefined behaviour, leaves a sound table: the places below `repo_num`
  -- hold repositories whose two key sets hold no key twice, have no key in common and count their
  -- nodes, and the places from `repo_num` on are empty.
  pub invoke_command-EndsSound :
      (cmd_id t : ℕ) (s : Ta W) → IsSound s → EndsSound (invoke_command p cmd_id t s)
  unfolding invoke_command
  invoke_command-EndsSound cmd_id t s sound = ground (
    arith,
    init_repo-EndsSound p t s sound,
    access_control-EndsSound p t s sound,
    commit-EndsSound p t s sound,
    SameKeys-EndsSound s (get_latest_hash p t s) (get_latest_hash-SameKeys p t s) sound,
    SameKeys-EndsSound s (get_tee_public_key p t s) (get_tee_public_key-SameKeys p t s) sound,
  )
