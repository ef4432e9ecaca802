-- ===== src/Ta/Reachable.antt =====
-- The life of the TA: sessions in which a caller invokes commands, one after the other.
use trust_chain.Base.{ℕ, ◌≢◌, none, refl, Outcome, ok, err, fault, arith, Option}
use trust_chain.Platform.{Platform}
use trust_chain.Ta.State.{Repo, Ta}
use trust_chain.Ta.Table.{IsTable, IsSound, EndsSound}
use trust_chain.Ta.Table.Invoke.{invoke_command-EndsSound}
use trust_chain.Ta.{invoke_command}

-- The globals as the TA is loaded with them.
abbrev pub no_repositories : ℕ → Option Repo
no_repositories i = none

-- The globals that a sequence of commands can lead to. Between two commands the world, the stack and
-- the parameters become whatever the outside makes of them; a command whose behaviour is undefined
-- has no successor.
pub data IsReachable {W : Type 0} (p : Platform W) : ℕ → (ℕ → Option Repo) → Type 0 where
  loaded : IsReachable p 0 no_repositories
  invoked :
      (cmd_id t : ℕ) (s : Ta W)
      → IsReachable p s.repo_num s.repositories
      → (invoke_command p cmd_id t s).0 ≢ fault
      → IsReachable p
          (invoke_command p cmd_id t s).1.repo_num
          (invoke_command p cmd_id t s).1.repositories

ends-IsSound : {W A : Type 0} (x : Outcome A × Ta W) → x.0 ≢ fault → EndsSound x → IsSound x.1
ends-IsSound (ok a, s) h sound = sound
ends-IsSound (err e, s) h sound = sound
ends-IsSound (fault, s) h sound = absurd (h refl)

-- In every state that the TA can reach, by any commands with any parameters that return, with or
-- without an error, and whatever the platform answers, the table of repositories is well formed: the places below `repo_num` hold
-- repositories with two duplicate-free and disjoint key sets, and the places from it on are empty.
pub reachable-IsTable :
    {W : Type 0} (p : Platform W) (n : ℕ) (table : ℕ → Option Repo)
    → IsReachable p n table
    → IsTable n table
reachable-IsTable p n table loaded = record {
  bounded = omega arith;
  used = λ i lt. absurd (omega arith);
  unused = λ i h. refl;
}
reachable-IsTable p n table (invoked cmd_id t s before defined) =
    ends-IsSound (invoke_command p cmd_id t s) defined
      (invoke_command-EndsSound p cmd_id t s (reachable-IsTable p s.repo_num s.repositories before))
