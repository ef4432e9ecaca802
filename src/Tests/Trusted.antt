-- ===== src/Tests/Trusted.antt =====
-- The roles of a repository after its foundation.
use trust_chain.Base.{◌≡◌, Bytes, some, ok}
use trust_chain.Memory.{load_str}
use trust_chain.Ta.State.{Repo}
use trust_chain.Ta.InitRepo.{init_repo}
use trust_chain.Ta.InitRepo.Chain.{Founds, init_repo-Founds}
use trust_chain.Ta.AccessControl.Roles.{role_of}
use trust_chain.Ta.Ledger.{IsLedger}
use trust_chain.Ta.Trust.{AreTrusted, founder_of, run-AreTrusted}
use trust_chain.Tests.Runs.{loaded_run}
use trust_chain.Tests.Failures.{served_once, one_command}
use trust_chain.Tests.Demo.{demo, demo_digest, demo-IsDigest, loaded_state}
use trust_chain.Ta.{invoke_command}

founding_run : init_repo demo 1573 loaded_state ≡ (ok tt, served_once)
unfolding invoke_command
founding_run = λ i. (loaded_run i, served_once)

abbrev founding :
    (key : Bytes) × (load_str loaded_state.param0.memref 0 ≡ some key)
    × Founds demo_digest 0 key loaded_state served_once
founding =
    init_repo-Founds demo demo_digest demo-IsDigest 1573 loaded_state served_once founding_run

abbrev founded : Repo
founded = founding.2.0.0

founded_there : served_once.repositories 0 ≡ some founded
founded_there = founding.2.0.3

run-AreTrusted_example :
    (h : Bytes) × (ledger : IsLedger demo demo_digest 0 (role_of founded) h founded.block_height)
    × AreTrusted demo 0
        (founder_of demo demo_digest 0 (role_of founded) h founded.block_height ledger)
        (role_of founded)
run-AreTrusted_example =
    run-AreTrusted demo demo_digest served_once.repo_num served_once.repositories 0 founded
      demo-IsDigest one_command founded_there
