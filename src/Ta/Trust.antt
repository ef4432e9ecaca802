-- ===== src/Ta/Trust.antt =====
-- Where the roles of a repository come from.
use trust_chain.Base.{
  ℕ, ◌≡◌, ◌≢◌, refl, Bytes, Option, some, ok, inl, inr, arith, str_eq, str_eq_iff, Bool-cases,
  ℕ_discrete, subst, sym, ◌∙◌,
}
use trust_chain.Platform.{Platform}
use trust_chain.Utils.{verify_signature}
use trust_chain.Block.Digest.{IsDigest}
use trust_chain.Ta.State.{Repo, op_add, role_admin, role_writer}
use trust_chain.Ta.AccessControl.{access_request}
use trust_chain.Ta.AccessControl.Roles.{Role, nobody, writer, admin, role_of, assigned}
use trust_chain.Ta.Ledger.{assign, IsLedger, founded, reassigned, contributed, unfinished}
use trust_chain.Ta.Ledger.Runs.{run-HaveLedgers}
use trust_chain.Ta.History.{IsRun}

module _ {W : Type 0} (p : Platform W) (id : ℕ) where
  -- The roles that go back to a founder of the repository `id`: the founder is an administrator, and
  -- a request to add a key that an administrator's key signed gives that key its role.
  pub data IsTrusted (founder : Bytes) : Bytes → Role → Type 0 where
    as_founder : IsTrusted founder founder admin
    made_admin :
        (sigkey key signature : Bytes) (w : W)
        → IsTrusted founder sigkey admin
        → (verify_signature p (access_request id op_add role_admin key) sigkey signature w).0
          ≡ ok tt
        → IsTrusted founder key admin
    made_writer :
        (sigkey key signature : Bytes) (w : W)
        → IsTrusted founder sigkey admin
        → (verify_signature p (access_request id op_add role_writer key) sigkey signature w).0
          ≡ ok tt
        → IsTrusted founder key writer

  abbrev pub AreTrusted : Bytes → (Bytes → Role) → Type 0
  AreTrusted founder roles = (key : Bytes) → roles key ≢ nobody → IsTrusted founder key (roles key)

  moved-IsTrusted :
      (founder key key' : Bytes) (r r' : Role)
      → key ≡ key'
      → r ≡ r'
      → IsTrusted founder key r
      → IsTrusted founder key' r'
  moved-IsTrusted founder key key' r r' same same' trusted =
      subst (IsTrusted founder key') same' (subst (λ k. IsTrusted founder k r) same trusted)

  -- One key with another role, which goes back to the founder too.
  assign-AreTrusted :
      (founder : Bytes) (roles : Bytes → Role) (key : Bytes) (x : Role)
      → AreTrusted founder roles
      → (x ≢ nobody → IsTrusted founder key x)
      → AreTrusted founder (assign roles key x)
  assign-AreTrusted founder roles key x before new k some_role = elim (Bool-cases (str_eq key k)) [
    | inl same ↦
        let now : x ≡ assign roles key x k = ground (arith, same) in
        moved-IsTrusted founder key k x (assign roles key x k) ((str_eq_iff key k).0 same) now
          (new (λ e. some_role (sym now ∙ e)))
    | inr other ↦
        let now : roles k ≡ assign roles key x k = ground (arith, other) in
        subst (IsTrusted founder k) now (before k (λ e. some_role (sym now ∙ e)))
  ]

  module _ (founder sigkey key signature : Bytes) (op role : ℕ) (w : W) (roles : Bytes → Role)
      (before : AreTrusted founder roles) (right : roles sigkey ≡ admin)
      (signed : (verify_signature p (access_request id op role key) sigkey signature w).0
        ≡ ok tt) where
    signer-IsTrusted : IsTrusted founder sigkey admin
    signer-IsTrusted =
        subst (IsTrusted founder sigkey) right
          (before sigkey (λ e. absurd (ground (arith, right, e))))

    kept-IsTrusted : (x : Role) → x ≡ roles key → x ≢ nobody → IsTrusted founder key x
    kept-IsTrusted x same some_role =
        subst (IsTrusted founder key) (sym same) (before key (λ e. some_role (same ∙ e)))

    assigned-IsTrusted :
        (x : Role) → x ≡ assigned op role (roles key) → x ≢ nobody → IsTrusted founder key x
    assigned-IsTrusted x now some_role = elim (ℕ_discrete op op_add) [
      | yes add ↦ elim (ℕ_discrete role role_admin) [
        | yes is_admin ↦
            let new : admin ≡ x = ground (arith, now, add, is_admin) in
            subst (IsTrusted founder key) new
              (made_admin sigkey key signature w signer-IsTrusted (rw (add, is_admin) at signed))
        | no no_admin ↦ elim (ℕ_discrete role role_writer) [
          | yes is_writer ↦
              let new : writer ≡ x = ground (arith, now, add, no_admin, is_writer) in
              subst (IsTrusted founder key) new (
                made_writer sigkey key signature w signer-IsTrusted (rw (add, is_writer) at signed))
          | no no_writer ↦
              kept-IsTrusted x (ground (arith, now, add, no_admin, no_writer)) some_role
        ]
      ]
      | no no_add ↦ kept-IsTrusted x (ground (arith, now, no_add, some_role)) some_role
    ]

module _ {W : Type 0} (p : Platform W) (sha : Bytes → Bytes) (id : ℕ) where
  -- The key in the genesis block of a ledger.
  pub founder_of : (roles : Bytes → Role) (h : Bytes) (n : ℕ) → IsLedger p sha id roles h n → Bytes
  founder_of roles h n (founded c founder parent base zeros role pubkey) = founder
  founder_of roles h n
        (reassigned before h₀ n₀ c op role pubkey sigkey signature w ledger right known base
          role_set pubkey_set signed) =
      founder_of before h₀ n₀ ledger
  founder_of roles h n
        (contributed before h₀ n₀ c op commit_hash sigkey signature w ledger member known base
          hash_set signed) =
      founder_of before h₀ n₀ ledger
  founder_of roles h n
        (unfinished before h₀ n₀ op role pubkey sigkey signature w x ledger right known signed
          change) =
      founder_of before h₀ n₀ ledger

  ledger-AreTrusted :
      (roles : Bytes → Role) (h : Bytes) (n : ℕ) (ledger : IsLedger p sha id roles h n)
      → AreTrusted p id (founder_of roles h n ledger) roles
  unfolding founder_of
  ledger-AreTrusted roles h n (founded c founder parent base zeros role pubkey) =
      assign-AreTrusted p id founder (λ _. nobody) founder admin (λ key e. absurd (e refl))
        (λ _. as_founder)
  ledger-AreTrusted roles h n
        (reassigned before h₀ n₀ c op role pubkey sigkey signature w ledger right known base
          role_set pubkey_set signed) =
      let founder = founder_of before h₀ n₀ ledger in
      let trusted = ledger-AreTrusted before h₀ n₀ ledger in
      assign-AreTrusted p id founder before pubkey _ trusted (
        assigned-IsTrusted p id founder sigkey pubkey signature op role w before trusted right
          signed (assigned op role (before pubkey)) refl)
  ledger-AreTrusted roles h n
        (contributed before h₀ n₀ c op commit_hash sigkey signature w ledger member known base
          hash_set signed) =
      ledger-AreTrusted before h₀ n₀ ledger
  ledger-AreTrusted roles h n
        (unfinished before h₀ n₀ op role pubkey sigkey signature w x ledger right known signed
          change) =
      let founder = founder_of before h₀ n₀ ledger in
      let trusted = ledger-AreTrusted before h₀ n₀ ledger in
      assign-AreTrusted p id founder before pubkey x trusted (elim change [
        | inl now ↦
            assigned-IsTrusted p id founder sigkey pubkey signature op role w before trusted right
              signed x now
        | inr (lost, _, _, _) ↦ λ some_role. absurd (some_role lost)
      ])

-- Where the platform's digest is a function `sha` into bytes: every repository that the TA holds after
-- any sequence of commands, each with any parameters, whose message consists of bytes, and each
-- returning, with or without an error, has a ledger to whose founder, the key in its genesis block,
-- all roles go back. Every key that is an administrator is the founder, or was made one by a request
-- of this repository with a signature found valid for a key that was made an administrator in the
-- same way; and every key that is a writer was made a writer by such a request.
pub run-AreTrusted :
    {W : Type 0} (p : Platform W) (sha : Bytes → Bytes) (n : ℕ) (table : ℕ → Option Repo) (id : ℕ)
    (r : Repo)
    → IsDigest p sha
    → IsRun p n table
    → table id ≡ some r
    → (h : Bytes) × (ledger : IsLedger p sha id (role_of r) h r.block_height) × AreTrusted p id
        (founder_of p sha id (role_of r) h r.block_height ledger)
        (role_of r)
run-AreTrusted p sha n table id r digests run there =
    let (h, read, ledger) = run-HaveLedgers p sha n table digests run id r there in
    (h, ledger, ledger-AreTrusted p sha id (role_of r) h r.block_height ledger)
