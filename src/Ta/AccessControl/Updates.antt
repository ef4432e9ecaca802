-- ===== src/Ta/AccessControl/Updates.antt =====
-- Each change of the key sets assigns the role that the request asks for.
use trust_chain.Base.{
  ℕ, ◌≡◌, refl, Bytes, some, ok, arith, raise_if-rule, str_eq_iff, ℕ_discrete, subst, sym, ◌⊎◌, inl,
  inr,
}
use trust_chain.Platform.{Platform}
use trust_chain.KeyList.{KeyList, key_exists_in_set, find_and_remove_key, add_key_to_set}
use trust_chain.KeyList.Membership.{Removes, Adds, find_and_remove_key-Removes, add_key_to_set-Adds}
use trust_chain.Ta.State.{Repo, Ta, op_add, op_delete, role_admin, role_writer}
use trust_chain.Ta.Table.{AreSets, IsComplete}
use trust_chain.Ta.AccessControl.{
  add_admin, add_writer, delete_admin, delete_writer, update_key_sets,
}
use trust_chain.Ta.AccessControl.Roles.{IsAssigned, Assigns, call-rule, found-rule, no_role-Assigns}

-- A repository whose two lists are allocated.
abbrev with_lists : Repo → KeyList → KeyList → Repo
with_lists r admins writers = record {
  block_height = r.block_height;
  names = r.names;
  admin_keys = some admins;
  writer_keys = some writers;
}

module _ {W : Type 0} (p : Platform W) (id : ℕ) (r : Repo) (key : Bytes) (s : Ta W)
    (admins writers : KeyList) (v : AreSets admins writers) where
  delete_writer-Assigns :
      Assigns id
        (with_lists r admins writers)
        op_delete
        role_writer
        key
        (delete_writer p id (with_lists r admins writers) key s)
  unfolding delete_writer
  delete_writer-Assigns =
      call-rule id (with_lists r admins writers) op_delete role_writer key (Removes writers key)
        (find_and_remove_key p writers key) _ s
        (find_and_remove_key-Removes p writers key s.world v.writers_valid)
        λ (writers', found) w (_, was, members).
          found-rule id _ op_delete role_writer key found _ λ was_found. (
            with_lists r admins writers',
            record {
              there = ground arith;
              names_kept = refl;
              height_kept = refl;
              roles = λ k. ground (arith, was, was_found, members k, v.apart key, str_eq_iff key k);
            },
          )

  delete_admin-Assigns :
      Assigns id
        (with_lists r admins writers)
        op_delete
        role_admin
        key
        (delete_admin p id (with_lists r admins writers) key s)
  unfolding delete_admin
  delete_admin-Assigns =
      call-rule id (with_lists r admins writers) op_delete role_admin key (Removes admins key)
        (find_and_remove_key p admins key) _ s
        (find_and_remove_key-Removes p admins key s.world v.admins_valid)
        λ (admins', found) w (_, was, members).
          found-rule id _ op_delete role_admin key found _ λ was_found. (
            with_lists r admins' writers,
            record {
              there = ground arith;
              names_kept = refl;
              height_kept = refl;
              roles = λ k. ground (arith, was, was_found, members k, v.apart key, str_eq_iff key k);
            },
          )

  add_writer-Assigns :
      Assigns id
        (with_lists r admins writers)
        op_add
        role_writer
        key
        (add_writer p id (with_lists r admins writers) key s)
  unfolding add_writer
  add_writer-Assigns =
      raise_if-rule (Assigns id _ op_add role_writer key) (key_exists_in_set writers key) _ _ s
        (λ _. tt)
        λ new_writer.
          raise_if-rule (Assigns id _ op_add role_writer key) (key_exists_in_set admins key) _ _ s
            (λ _. tt)
            λ no_admin.
              call-rule id _ op_add role_writer key (Adds writers key)
                (add_key_to_set p writers key) _ s
                (add_key_to_set-Adds p writers key s.world v.writers_valid new_writer)
                λ writers' w (_, members). (
                  with_lists r admins writers',
                  record {
                    there = ground arith;
                    names_kept = refl;
                    height_kept = refl;
                    roles = λ k. ground (arith, members k, no_admin, str_eq_iff key k);
                  },
                )

  add_admin-Assigns :
      Assigns id
        (with_lists r admins writers)
        op_add
        role_admin
        key
        (add_admin p id (with_lists r admins writers) key s)
  unfolding add_admin
  add_admin-Assigns =
      raise_if-rule (Assigns id _ op_add role_admin key) (key_exists_in_set admins key) _ _ s
        (λ _. tt)
        λ new_admin.
          call-rule id _ op_add role_admin key (Removes writers key)
            (find_and_remove_key p writers key) _ s
            (find_and_remove_key-Removes p writers key s.world v.writers_valid)
            λ (writers', found) w (_, _, left).
              call-rule id _ op_add role_admin key (Adds admins key) (add_key_to_set p admins key) _
                _ (add_key_to_set-Adds p admins key w v.admins_valid new_admin)
                λ admins' w' (_, members). (
                  with_lists r admins' writers',
                  record {
                    there = ground arith;
                    names_kept = refl;
                    height_kept = refl;
                    roles = λ k. ground (arith, members k, left k, str_eq_iff key k);
                  },
                )

  update_full-Assigns :
      (op role : ℕ)
      → s.repositories id ≡ some (with_lists r admins writers)
      → (op ≡ op_add) ⊎ (op ≡ op_delete)
      → Assigns id
          (with_lists r admins writers)
          op
          role
          key
          (update_key_sets p id (with_lists r admins writers) op role key s)
  unfolding update_key_sets
  update_full-Assigns op role e (inl add) = elim (ℕ_discrete role role_admin) [
    | yes is_admin ↦ rw (add, is_admin) add_admin-Assigns
    | no no_admin ↦ elim (ℕ_discrete role role_writer) [
      | yes is_writer ↦ rw (add, is_writer) add_writer-Assigns
      | no no_writer ↦
          no_role-Assigns p id (with_lists r admins writers) key s op role e no_admin no_writer
    ]
  ]
  update_full-Assigns op role e (inr delete) = elim (ℕ_discrete role role_admin) [
    | yes is_admin ↦ rw (delete, is_admin) delete_admin-Assigns
    | no no_admin ↦ elim (ℕ_discrete role role_writer) [
      | yes is_writer ↦ rw (delete, is_writer) delete_writer-Assigns
      | no no_writer ↦
          no_role-Assigns p id (with_lists r admins writers) key s op role e no_admin no_writer
    ]
  ]

-- A request with a known operation assigns its role in a complete repository.
pub update_key_sets-Assigns :
    {W : Type 0} (p : Platform W) (id : ℕ) (r : Repo) (key : Bytes) (s s' : Ta W) (op role : ℕ)
    → IsComplete r
    → s.repositories id ≡ some r
    → (op ≡ op_add) ⊎ (op ≡ op_delete)
    → update_key_sets p id r op role key s ≡ (ok tt, s')
    → (r' : Repo) × IsAssigned id r op role key s' r'
update_key_sets-Assigns p id r key s s' op role (admins, writers, ea, ew, v) e known run =
    let same : with_lists r admins writers ≡ r = λ i. record {
      block_height = r.block_height;
      names = r.names;
      admin_keys = sym ea i;
      writer_keys = sym ew i;
    } in
    let full =
      subst
        (λ r₁.
          s.repositories id ≡ some r₁
          → Assigns id r₁ op role key (update_key_sets p id r₁ op role key s))
        same (λ e'. update_full-Assigns p id r key s admins writers v op role e' known) in
    rw run at full e
