-- ===== src/Ta/Lifecycle.antt =====
-- ta/user_ta_header_defines.h and ta/trust_chain_ta.c: the instances of the TA, from their creation
-- to their end. The framework of the TEE that makes them is a parameter.
pub mod Sessions
use trust_chain.Base.{
  ℕ, Bool, true, false, List, [], ◌∷◌, Option, Action, ok, pure, ◌≡◌, ◌≢◌, ◌⊎◌, fault,
}
use trust_chain.Platform.{Platform}
use trust_chain.Ta.State.{Repo, Ta}
use trust_chain.Ta.Reachable.{no_repositories}
use trust_chain.Ta.{open_session, invoke_command}

-- The TA_FLAG_ constants of the GlobalPlatform properties.
pub data TaFlag : Type 0 where
  exec_ddr single_instance multi_session instance_keep_alive : TaFlag

-- TA_FLAGS
abbrev pub ta_flags : List TaFlag
ta_flags = exec_ddr ∷ []

abbrev pub has_single_instance : List TaFlag → Bool
has_single_instance [] = false
has_single_instance (single_instance ∷ flags) = true
has_single_instance (exec_ddr ∷ flags) = has_single_instance flags
has_single_instance (multi_session ∷ flags) = has_single_instance flags
has_single_instance (instance_keep_alive ∷ flags) = has_single_instance flags

module _ {W : Type 0} where
  -- `TA_CreateEntryPoint`
  unfoldable pub create_entry_point : Action (Ta W) (Unit {0})
  create_entry_point = pure tt

  -- `TA_DestroyEntryPoint`
  unfoldable pub destroy_entry_point : Ta W → Ta W
  destroy_entry_point s = s

  -- `TA_CloseSessionEntryPoint`
  unfoldable pub close_session : Ta W → Ta W
  close_session s = s

-- `repo_num` and `repositories`
abbrev pub Globals : Type 0
Globals = ℕ × (ℕ → Option Repo)

-- The globals with which the framework begins a session, by the flags of the TA and by what the
-- globals were at the end of the session before. A TA that is not single-instance gets a new
-- instance for each session, with its globals as they were compiled.
pub record IsFramework (enter : List TaFlag → Globals → Globals) : Type 0 where
  pub new_instance :
      (flags : List TaFlag) (g : Globals)
      → has_single_instance flags ≡ false
      → enter flags g ≡ (0, no_repositories)

-- One that, whatever the flags, keeps the instance of the session before or makes a new one.
pub record KeepsOrRenews (enter : List TaFlag → Globals → Globals) : Type 0 where
  pub globals :
      (flags : List TaFlag) (g : Globals)
      → (enter flags g ≡ g) ⊎ (enter flags g ≡ (0, no_repositories))

module _ {W : Type 0} (p : Platform W) (enter : List TaFlag → Globals → Globals) where
  -- The globals that a life of the TA can lead to, one session after the other, with whether a
  -- session is open. Between two calls the world, the stack and the parameters become whatever the
  -- outside makes of them.
  pub data IsLife : Bool → ℕ → (ℕ → Option Repo) → Type 0 where
    installed : IsLife false 0 no_repositories
    opened :
        (n t : ℕ) (table : ℕ → Option Repo) (s s₁ s₂ : Ta W)
        → IsLife false n table
        → (s.repo_num, s.repositories) ≡ enter ta_flags (n, table)
        → create_entry_point s ≡ (ok tt, s₁)
        → open_session t s₁ ≡ (ok tt, s₂)
        → IsLife true s₂.repo_num s₂.repositories
    served :
        (cmd_id t : ℕ) (s : Ta W)
        → IsLife true s.repo_num s.repositories
        → (invoke_command p cmd_id t s).0 ≢ fault
        → IsLife true
            (invoke_command p cmd_id t s).1.repo_num
            (invoke_command p cmd_id t s).1.repositories
    closed :
        (s : Ta W)
        → IsLife true s.repo_num s.repositories
        → IsLife false
            (destroy_entry_point (close_session s)).repo_num
            (destroy_entry_point (close_session s)).repositories
