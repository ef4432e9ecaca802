-- ===== src/Tests/Commands.antt =====
-- What the properties of the commands say of the runs of Runs.
use trust_chain.Base.{ℕ, ◌≡◌, ◌≢◌, ◌⊎◌, ok, Bytes, some, arith}
use trust_chain.Memory.{load_str, write}
use trust_chain.Ta.State.{Ta}
use trust_chain.Ta.Table.{IsTable, EndsSound}
use trust_chain.Ta.Commit
use trust_chain.Ta.Commit.{commit, check_commit, read_commit}
use trust_chain.Ta.Commit.Authorised as CommitAuthorised
use trust_chain.Ta.Commit.Authorised.{commit-IsAuthorised}
use trust_chain.Ta.Commit.Chain.{Commits, commit-IsExtended}
use trust_chain.Ta.AccessControl
use trust_chain.Ta.AccessControl.{access_control}
use trust_chain.Ta.AccessControl.Authorised as AccessAuthorised
use trust_chain.Ta.AccessControl.Authorised.{access_control-IsAuthorised}
use trust_chain.Ta.AccessControl.Chain.{Changes, access_control-IsExtended}
use trust_chain.Ta.InitRepo.{init_repo}
use trust_chain.Ta.InitRepo.Chain.{Founds, init_repo-Founds}
use trust_chain.Ta.Query.{get_tee_public_key}
use trust_chain.Ta.Query.PublicKey.{get_tee_public_key-refused}
use trust_chain.Ta.{invoke_command, cmd_init_repo, cmd_commit}
use trust_chain.Ta.Table.Invoke.{invoke_command-EndsSound}
use trust_chain.Ta.Reachable.{loaded, invoked, reachable-IsTable}
use trust_chain.Tests.Demo.{
  demo, demo_digest, demo-IsDigest, demo_state, loaded_state, commit_message, access_message,
  init_message,
}
use trust_chain.Tests.Runs.{commit_run, access_control_run, init_repo_run, loaded_run}
use trust_chain.Tests.Sound.{demo-IsSound}

-- The states that the three runs end in.
abbrev committed : Ta ℕ
committed = (commit demo 1653 (demo_state commit_message)).1

abbrev changed : Ta ℕ
changed = (access_control demo 101 (demo_state access_message)).1

abbrev founded : Ta ℕ
founded = (init_repo demo 1573 (demo_state init_message)).1

invoke_command_example : EndsSound (invoke_command demo cmd_commit 1653 (demo_state commit_message))
invoke_command_example =
    invoke_command-EndsSound demo cmd_commit 1653 (demo_state commit_message)
      (demo-IsSound commit_message)

commit-IsExtended_example : Commits demo demo_digest (demo_state commit_message) committed
commit-IsExtended_example =
    commit-IsExtended demo demo_digest demo-IsDigest 1653 (demo_state commit_message) committed
      (λ i. (commit_run i, committed))

access_control-IsExtended_example : Changes demo demo_digest (demo_state access_message) changed
unfolding write
access_control-IsExtended_example =
    access_control-IsExtended demo demo_digest demo-IsDigest 101 (demo_state access_message) changed
      (demo-IsSound access_message) (λ a. ground arith) (λ i. (access_control_run i, changed))

init_repo-Founds_example :
    (key : Bytes) × (load_str init_message 0 ≡ some key)
    × Founds demo_digest 1 key (demo_state init_message) founded
init_repo-Founds_example =
    init_repo-Founds demo demo_digest demo-IsDigest 1573 (demo_state init_message) founded
      (λ i. (init_repo_run i, founded))

commit-IsAuthorised_example :
    ((commit demo 1653 (demo_state commit_message)).0 ≢ ok tt)
      × (committed.repositories ≡ (demo_state commit_message).repositories)
    ⊎ ((q : Commit.CommitRequest) × CommitAuthorised.IsAuthorised demo
          (demo_state commit_message)
          q)
commit-IsAuthorised_example = commit-IsAuthorised demo 1653 (demo_state commit_message)

access_control-IsAuthorised_example :
    ((access_control demo 101 (demo_state access_message)).0 ≢ ok tt)
      × (changed.repositories ≡ (demo_state access_message).repositories)
    ⊎ ((q : AccessControl.AccessRequest) × AccessAuthorised.IsAuthorised demo
          (demo_state access_message)
          q)
access_control-IsAuthorised_example =
    access_control-IsAuthorised demo 101 (demo_state access_message)

get_tee_public_key-refused_example :
    let (r, s') = get_tee_public_key demo 38 (demo_state init_message) in
    (r ≢ ok tt)
    × (s'.repositories ≡ (demo_state init_message).repositories)
    × (s'.param0 ≡ (demo_state init_message).param0)
    × (s'.param1 ≡ (demo_state init_message).param1)
get_tee_public_key-refused_example = get_tee_public_key-refused demo 38 (demo_state init_message)

abbrev after_founding : Ta ℕ
after_founding = (invoke_command demo cmd_init_repo 1573 loaded_state).1

reachable-IsTable_example : IsTable after_founding.repo_num after_founding.repositories
reachable-IsTable_example =
    reachable-IsTable demo after_founding.repo_num after_founding.repositories
      (invoked cmd_init_repo 1573 loaded_state loaded (ground (arith, loaded_run)))
