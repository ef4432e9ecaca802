-- ===== src/Ta/Lifecycle/Sessions.antt =====
-- What is left of a session in the next one.
use trust_chain.Base.{
  ℕ, ◌≡◌, ◌≢◌, Bool, true, false, refl, List, Option, ok, arith, sym, ap, ◌∙◌, subst, inl, inr,
}
use trust_chain.Platform.{Platform}
use trust_chain.Ta.State.{Repo, Ta, validate_and_get_repo}
use trust_chain.Ta.AccessControl.{access_control}
use trust_chain.Ta.AccessControl.Authorised.{access_control-IsAuthorised}
use trust_chain.Ta.Commit.{commit}
use trust_chain.Ta.Commit.Authorised.{commit-IsAuthorised}
use trust_chain.Ta.Query.{get_latest_hash}
use trust_chain.Ta.Query.PublicKey.{get_tee_public_key-refused}
use trust_chain.Ta.Reachable.{no_repositories, IsReachable, loaded, invoked, reachable-IsTable}
use trust_chain.Ta.Table.{IsTable}
use trust_chain.Ta.Lifecycle.{
  TaFlag, ta_flags, create_entry_point, Globals, IsFramework, KeepsOrRenews, IsLife, installed,
  opened, served, closed, destroy_entry_point, close_session,
}
use trust_chain.Ta.{open_session, invoke_command, cmd_init_repo}

module _ {W : Type 0} (p : Platform W) (t : ℕ) (s : Ta W)
    (empty : s.repositories ≡ no_repositories) where
  commit-refused : (commit p t s).0 ≢ ok tt
  commit-refused done = elim (commit-IsAuthorised p t s) [
    | inl (not_done, _) ↦ not_done done
    | inr (q, a) ↦ absurd (ground (arith, a.exists, ap (λ f. f q.rep_id) empty))
  ]

  access_control-refused : (access_control p t s).0 ≢ ok tt
  access_control-refused done = elim (access_control-IsAuthorised p t s) [
    | inl (not_done, _) ↦ not_done done
    | inr (q, a) ↦ absurd (ground (arith, a.exists, ap (λ f. f q.rep_id) empty))
  ]

  get_latest_hash-refused : (get_latest_hash p t s).0 ≢ ok tt
  unfolding get_latest_hash validate_and_get_repo
  get_latest_hash-refused done = ground (arith, done, ap (λ f. f s.param0.a) empty)

  only_init_repo : (cmd_id : ℕ) → (invoke_command p cmd_id t s).0 ≡ ok tt → cmd_id ≡ cmd_init_repo
  unfolding invoke_command
  only_init_repo cmd_id done = ground (
    arith,
    done,
    commit-refused,
    access_control-refused,
    get_latest_hash-refused,
    (get_tee_public_key-refused p t s).0,
  )

module _ {W : Type 0} (p : Platform W) (enter : List TaFlag → Globals → Globals)
    (framework : IsFramework enter) where
  -- A session begins without repositories.
  begins : (g : Globals) → enter ta_flags g ≡ (0, no_repositories)
  begins g = framework.new_instance ta_flags g refl

  -- Where the framework gives each session of a TA that is not single-instance an instance of its own:
  -- whatever repositories the TA held when the session before ended, no command other than
  -- `init_repo`, with any parameters, succeeds on the globals with which a new session begins. No
  -- repository is left to commit to, to change the keys of, or to ask for its latest hash.
  pub session-refuses :
      (g : Globals) (cmd_id t : ℕ) (s : Ta W)
      → (s.repo_num, s.repositories) ≡ enter ta_flags g
      → cmd_id ≢ cmd_init_repo
      → (invoke_command p cmd_id t s).0 ≢ ok tt
  session-refuses g cmd_id t s entered other done =
      other (only_init_repo p t s (ap (λ x. x.1) (entered ∙ begins g)) cmd_id done)

module _ {W : Type 0} (p : Platform W) (enter : List TaFlag → Globals → Globals)
    (framework : KeepsOrRenews enter) where
  entered-IsReachable :
      (g : Globals)
      → IsReachable p g.0 g.1
      → IsReachable p (enter ta_flags g).0 (enter ta_flags g).1
  entered-IsReachable g before = elim (framework.globals ta_flags g) [
    | inl kept ↦ subst (λ x. IsReachable p x.0 x.1) (sym kept) before
    | inr new ↦ subst (λ x. IsReachable p x.0 x.1) (sym new) loaded
  ]

  life-IsReachable :
      (b : Bool) (n : ℕ) (table : ℕ → Option Repo)
      → IsLife p enter b n table
      → IsReachable p n table
  unfolding create_entry_point open_session destroy_entry_point close_session
  life-IsReachable b n table installed = loaded
  life-IsReachable b n table (opened m t before s s₁ s₂ life entered made accepted) =
      let kept : (s₂.repo_num, s₂.repositories) ≡ (s.repo_num, s.repositories) =
        ground (arith, made, accepted) in
      subst (λ g. IsReachable p g.0 g.1) (sym (kept ∙ entered))
        (entered-IsReachable (m, before) (life-IsReachable false m before life))
  life-IsReachable b n table (served cmd_id t s life defined) =
      invoked cmd_id t s (life-IsReachable true s.repo_num s.repositories life) defined
  life-IsReachable b n table (closed s life) = life-IsReachable true s.repo_num s.repositories life

  -- Whether the framework keeps the instance from one session to the next or makes a new one: after
  -- any sessions, one after the other, each opened by the entry points, with any commands, and closed,
  -- during a session and between two, there are at most 1000 repositories, exactly the first
  -- `repo_num` places are taken, and each repository has both key sets, without a key twice, with the
  -- right count, and with no key in both.
  pub life-IsTable :
      (b : Bool) (n : ℕ) (table : ℕ → Option Repo) → IsLife p enter b n table → IsTable n table
  life-IsTable b n table life = reachable-IsTable p n table (life-IsReachable b n table life)
