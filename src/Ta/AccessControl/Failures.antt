-- ===== src/Ta/AccessControl/Failures.antt =====
-- What a change of the key sets that fails half-way has done to the roles.
use trust_chain.Base.{
  ℕ, ◌≡◌, refl, Bool, false, not, Bytes, some, ok, err, fault, TeeError, arith, if◌then◌else◌,
  str_eq, str_eq_iff, ◌⊎◌, inl, inr, Bool-cases, Outcome, ◌&&◌, ℕ_discrete,
}
use trust_chain.Platform.{Platform}
use trust_chain.KeyList.{KeyList, key_exists_in_set, find_and_remove_key}
use trust_chain.KeyList.Membership.{Removes, find_and_remove_key-Removes}
use trust_chain.Ta.State.{Repo, Ta, op_add, op_delete, role_admin, role_writer}
use trust_chain.Ta.Table.{AreSets, IsComplete}
use trust_chain.Ta.AccessControl.{
  add_admin, add_writer, delete_admin, delete_writer, update_key_sets,
}
use trust_chain.Ta.AccessControl.Roles.{Role, nobody, writer, role_of}

-- The place `id` holds `r` again, but that a writer who was to become an administrator may have
-- lost the role.
pub record IsShaken {W : Type 0} (id : ℕ) (r : Repo) (op role : ℕ) (key : Bytes) (s : Ta W)
    (r' : Repo) (x : Role) : Type 0 where
  pub there : s.repositories id ≡ some r'
  pub names_kept : r'.names ≡ r.names
  pub height_kept : r'.block_height ≡ r.block_height
  pub roles : (k : Bytes) → role_of r' k ≡ (if str_eq key k then x else role_of r k)
  pub lost :
      (x ≡ role_of r key)
      ⊎ ((x ≡ nobody) × (role_of r key ≡ writer) × (op ≡ op_add) × (role ≡ role_admin))

removed :
    {W : Type 0} (l : KeyList) (key : Bytes) (x : Outcome (KeyList × Bool) × W)
    → Removes l key x
    → (l' : KeyList) × (found : Bool) × (x.0 ≡ ok (l', found))
      × (found ≡ key_exists_in_set l key)
      × ((j : Bytes) → key_exists_in_set l' j ≡ (key_exists_in_set l j && not (str_eq key j)))
removed l key (ok (l', found), w) (valid, was, left) = (l', found, refl, was, left)
removed l key (err e, w) h = absurd h
removed l key (fault, w) h = absurd h

module _ {W : Type 0} (p : Platform W) (id : ℕ) (r : Repo) (key : Bytes) (s s' : Ta W)
    (e : TeeError) (admins writers : KeyList) (ea : r.admin_keys ≡ some admins)
    (ew : r.writer_keys ≡ some writers) (v : AreSets admins writers)
    (there : s.repositories id ≡ some r) where
  -- Nothing was written.
  same-IsShaken :
      (op role : ℕ)
      → s'.repositories id ≡ s.repositories id
      → IsShaken id r op role key s' r (role_of r key)
  same-IsShaken op role same = record {
    there = ground (arith, same, there);
    names_kept = refl;
    height_kept = refl;
    roles = λ k. ground (arith, str_eq_iff key k);
    lost = inl refl;
  }

  delete_writer_fails :
      delete_writer p id r key s ≡ (err e, s')
      → (r' : Repo) × (x : Role) × IsShaken id r op_delete role_writer key s' r' x
  unfolding delete_writer
  delete_writer_fails run =
      let (l, found, removes, was, left) =
        removed writers key (find_and_remove_key p writers key s.world)
          (find_and_remove_key-Removes p writers key s.world v.writers_valid) in
      let missing : key_exists_in_set writers key ≡ false = ground (arith, ew, removes, was, run) in
      (
        record r { writer_keys = some l },
        role_of r key,
        record {
          there = ground (arith, ew, removes, run);
          names_kept = refl;
          height_kept = refl;
          roles = λ k. ground (arith, ea, ew, left k, missing, str_eq_iff key k);
          lost = inl refl;
        },
      )

  delete_admin_fails :
      delete_admin p id r key s ≡ (err e, s')
      → (r' : Repo) × (x : Role) × IsShaken id r op_delete role_admin key s' r' x
  unfolding delete_admin
  delete_admin_fails run =
      let (l, found, removes, was, left) =
        removed admins key (find_and_remove_key p admins key s.world)
          (find_and_remove_key-Removes p admins key s.world v.admins_valid) in
      let missing : key_exists_in_set admins key ≡ false = ground (arith, ea, removes, was, run) in
      (
        record r { admin_keys = some l },
        role_of r key,
        record {
          there = ground (arith, ea, removes, run);
          names_kept = refl;
          height_kept = refl;
          roles = λ k. ground (arith, ea, ew, left k, missing, str_eq_iff key k);
          lost = inl refl;
        },
      )

  -- Without memory for the administrator the key is a writer no more.
  add_admin_fails :
      add_admin p id r key s ≡ (err e, s')
      → (r' : Repo) × (x : Role) × IsShaken id r op_add role_admin key s' r' x
  unfolding add_admin
  add_admin_fails run = elim (Bool-cases (key_exists_in_set admins key)) [
    | inl known ↦
        (r, role_of r key, same-IsShaken op_add role_admin (ground (arith, ea, ew, known, run)))
    | inr new ↦
        let (l, found, removes, was, left) =
          removed writers key (find_and_remove_key p writers key s.world)
            (find_and_remove_key-Removes p writers key s.world v.writers_valid) in
        (
          record r { writer_keys = some l },
          nobody,
          record {
            there = ground (arith, ea, ew, new, removes, run);
            names_kept = refl;
            height_kept = refl;
            roles = λ k. ground (arith, ea, ew, left k, new, str_eq_iff key k);
            lost = elim (Bool-cases (key_exists_in_set writers key)) [
              | inl was_writer ↦ inr (refl, ground (arith, ea, ew, new, was_writer), refl, refl)
              | inr no_writer ↦ inl (ground (arith, ea, ew, new, no_writer))
            ];
          },
        )
  ]

  add_writer_fails :
      add_writer p id r key s ≡ (err e, s')
      → (r' : Repo) × (x : Role) × IsShaken id r op_add role_writer key s' r' x
  unfolding add_writer
  add_writer_fails run =
      (r, role_of r key, same-IsShaken op_add role_writer (ground (arith, ea, ew, run)))

-- A change of the key sets that fails leaves the repository, or a writer who was to become an
-- administrator without a role.
pub update_key_sets-IsShaken :
    {W : Type 0} (p : Platform W) (id op role : ℕ) (r : Repo) (key : Bytes) (s s' : Ta W)
    (e : TeeError)
    → IsComplete r
    → s.repositories id ≡ some r
    → update_key_sets p id r op role key s ≡ (err e, s')
    → (r' : Repo) × (x : Role) × IsShaken id r op role key s' r' x
unfolding update_key_sets
update_key_sets-IsShaken p id op role r key s s' e (admins, writers, ea, ew, v) there run =
    elim (ℕ_discrete op op_add) [
      | yes add ↦ elim (ℕ_discrete role role_admin) [
        | yes is_admin ↦
            rw (add, is_admin)
              (add_admin_fails p id r key s s' e admins writers ea ew v there
                (ground (arith, add, is_admin, run)))
        | no no_admin ↦ elim (ℕ_discrete role role_writer) [
          | yes is_writer ↦
              rw (add, is_writer)
                (add_writer_fails p id r key s s' e admins writers ea ew v there
                  (ground (arith, add, no_admin, is_writer, run)))
          | no no_writer ↦ absurd (ground (arith, add, no_admin, no_writer, run))
        ]
      ]
      | no no_add ↦ elim (ℕ_discrete op op_delete) [
        | yes delete ↦ elim (ℕ_discrete role role_admin) [
          | yes is_admin ↦
              rw (delete, is_admin)
                (delete_admin_fails p id r key s s' e admins writers ea ew v there
                  (ground (arith, delete, is_admin, run)))
          | no no_admin ↦ elim (ℕ_discrete role role_writer) [
            | yes is_writer ↦
                rw (delete, is_writer)
                  (delete_writer_fails p id r key s s' e admins writers ea ew v there
                    (ground (arith, delete, no_admin, is_writer, run)))
            | no no_writer ↦ absurd (ground (arith, delete, no_admin, no_writer, run))
          ]
        ]
        | no no_delete ↦ absurd (ground (arith, no_add, no_delete, run))
      ]
    ]
