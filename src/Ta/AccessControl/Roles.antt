-- ===== src/Ta/AccessControl/Roles.antt =====
-- The key sets of a repository as one assignment of roles to keys, and what `access_control` does to
-- it.
use trust_chain.Base.{
  ℕ, ◌≡◌, refl, Bool, true, false, not, Bytes, some, none, Action, Outcome, ok, err, fault, arith,
  resume, ◌>>=◌, raise_if, bad_parameters, ◌==◌, if◌then◌else◌, str_eq, ◌≢◌,
}
use trust_chain.Platform.{Platform}
use trust_chain.KeyList.{KeyList, key_exists_in_set}
use trust_chain.Ta.State.{Repo, Ta, op_add, op_delete, role_admin, role_writer, on_world}
use trust_chain.Ta.AccessControl.{update_key_sets}

pub data Role : Type 0 where
  nobody writer admin : Role

abbrev pub role_in : KeyList → KeyList → Bytes → Role
role_in admins writers k =
    if key_exists_in_set admins k
    then admin
    else if key_exists_in_set writers k
    then writer
    else nobody

abbrev pub role_of : Repo → Bytes → Role
role_of r k = elim r.admin_keys [
  | none ↦ nobody
  | some admins ↦ elim r.writer_keys [ none ↦ nobody | some writers ↦ role_in admins writers k ]
]

-- The role that a key has after a request about it: ADD gives the role of the request, DELETE takes
-- it away, and a role that is neither ADMIN nor WRITER changes nothing.
abbrev pub assigned : ℕ → ℕ → Role → Role
assigned op role old =
    if op == op_add
    then if role == role_admin then admin else if role == role_writer then writer else old
    else if op == op_delete
    then (if role == role_admin then nobody else if role == role_writer then nobody else old)
    else old

-- The place `id` holds a repository with the names and the height of `r`, in which the key has the
-- role that the request assigns and every other key has the role it had.
pub record IsAssigned {W : Type 0} (id : ℕ) (r : Repo) (op role : ℕ) (key : Bytes) (s : Ta W)
    (r' : Repo) : Type 0 where
  pub there : s.repositories id ≡ some r'
  pub names_kept : r'.names ≡ r.names
  pub height_kept : r'.block_height ≡ r.block_height
  pub roles :
      (k : Bytes)
      → role_of r' k ≡ (if str_eq key k then assigned op role (role_of r k) else role_of r k)

abbrev pub Assigns : {W : Type 0} → ℕ → Repo → ℕ → ℕ → Bytes → Outcome (Unit {0}) × Ta W → Type 0
Assigns id r op role key (ok _, s) = (r' : Repo) × IsAssigned id r op role key s r'
Assigns id r op role key (err _, s) = Unit
Assigns id r op role key (fault, s) = Unit

module _ {W : Type 0} (id : ℕ) (r : Repo) (op role : ℕ) (key : Bytes) where
  -- A call into a module without state, whose end satisfies `Q`.
  pub call-rule :
      {A : Type 0} (Q : Outcome A × W → Type 0) (m : Action W A) (f : A → Action (Ta W) (Unit {0}))
      (s : Ta W)
      → Q (m s.world)
      → ((a : A) (w : W) → Q (ok a, w) → Assigns id r op role key (f a (record s { world = w })))
      → Assigns id r op role key ((on_world m >>= f) s)
  call-rule {A} Q m f s q rest = go (m s.world) q
    where
      go :
          (x : Outcome A × W)
          → Q x
          → Assigns id r op role key (resume f (let (o, w) = x in (o, record s { world = w })))
      go (ok a, w) q = rest a w q
      go (err e, w) q = tt
      go (fault, w) q = tt

  pub found-rule :
      (found : Bool) (s : Ta W)
      → (found ≡ true → Assigns id r op role key (ok tt, s))
      → Assigns id r op role key (raise_if (not found) bad_parameters s)
  found-rule true s rest = rest refl
  found-rule false s rest = tt

module _ {W : Type 0} (p : Platform W) (id : ℕ) (r : Repo) (key : Bytes) (s : Ta W) where
  pub unchanged-Assigns :
      (op role : ℕ)
      → s.repositories id ≡ some r
      → ((old : Role) → assigned op role old ≡ old)
      → Assigns id r op role key (ok tt, s)
  unchanged-Assigns op role e same = (
    r,
    record {
      there = e;
      names_kept = refl;
      height_kept = refl;
      roles = λ k. ground (arith, same (role_of r k));
    },
  )

  pub no_role-Assigns :
      (op role : ℕ)
      → s.repositories id ≡ some r
      → role ≢ role_admin
      → role ≢ role_writer
      → Assigns id r op role key (update_key_sets p id r op role key s)
  unfolding update_key_sets
  no_role-Assigns op role e no_admin no_writer =
      let same : update_key_sets p id r op role key s ≡ (ok tt, s) = ground arith in
      rw same (unchanged-Assigns op role e (λ old. ground arith))
