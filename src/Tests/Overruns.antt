-- ===== src/Tests/Overruns.antt =====
-- The hash arrays of the commands where the compiler leaves no byte behind them.
use trust_chain.Base.{ℕ, ◌≢◌, ok, replicate, ok-injective, ap, sym, length, arith}
use trust_chain.Platform.{Platform}
use trust_chain.Ta.InitRepo.{init_repo}
use trust_chain.Ta.AccessControl.{access_control}
use trust_chain.Ta.Commit.{commit}
use trust_chain.Ta.Overrun.{Has32Bytes, hash_array-overflow}
use trust_chain.Tests.Demo.{demo, demo_state, commit_message}

abbrev tight : Platform ℕ
tight = record demo { hash_room = 64; digest_do_final = λ o text w. (ok (replicate 32 7), w) }

tight-Has32Bytes : Has32Bytes tight
tight-Has32Bytes = record { digest_size = λ op text d w run. ap length (sym (ok-injective run)) }

-- A commit that succeeds where there is a byte to spare.
hash_array-overflow_example :
    ((init_repo tight 1653 (demo_state commit_message)).0 ≢ ok tt)
    × ((access_control tight 1653 (demo_state commit_message)).0 ≢ ok tt)
    × ((commit tight 1653 (demo_state commit_message)).0 ≢ ok tt)
hash_array-overflow_example =
    hash_array-overflow tight tight-Has32Bytes (omega arith) 1653 (demo_state commit_message)
