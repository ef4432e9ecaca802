-- ===== src/Tests/Lives.antt =====
-- Two sessions of the TA, one after the other.
use trust_chain.Base.{ℕ, ◌≢◌, refl, List, ok, arith, if◌then◌else◌}
use trust_chain.Ta.State.{Ta}
use trust_chain.Ta.Reachable.{no_repositories}
use trust_chain.Ta.Lifecycle.{TaFlag, has_single_instance, Globals, IsFramework}
use trust_chain.Ta.Lifecycle.Sessions.{session-refuses}
use trust_chain.Tests.Demo.{demo, demo_state, commit_message}
use trust_chain.Ta.{invoke_command, cmd_commit}

-- A framework that keeps the instance of a single-instance TA.
abbrev kept_or_new : List TaFlag → Globals → Globals
kept_or_new flags g = if has_single_instance flags then g else (0, no_repositories)

kept_or_new-IsFramework : IsFramework kept_or_new
kept_or_new-IsFramework = record { new_instance = λ flags g e. ground (arith, e) }

-- The commit that would succeed on the repositories of the session before.
abbrev late : Ta ℕ
late = record (demo_state commit_message) { repo_num = 0; repositories = no_repositories }

session-refuses_example : (invoke_command demo cmd_commit 1653 late).0 ≢ ok tt
session-refuses_example =
    session-refuses demo kept_or_new kept_or_new-IsFramework
      ((demo_state commit_message).repo_num, (demo_state commit_message).repositories) cmd_commit
      1653 late refl (λ e. absurd (ground (arith, e)))
