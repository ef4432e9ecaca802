-- ===== src/Ta/Table/AccessControl.antt =====
-- `access_control` keeps the table, whether it succeeds or fails.
use trust_chain.Base.{
  ℕ, ◌<◌, ◌≡◌, refl, Bool, not, Bytes, some, ok, arith, raise_if-rule, raise_if, bad_parameters,
}
use trust_chain.Platform.{Platform}
use trust_chain.KeyList.{KeyList, key_exists_in_set, find_and_remove_key, add_key_to_set}
use trust_chain.KeyList.Membership.{Removes, Adds, find_and_remove_key-Removes, add_key_to_set-Adds}
use trust_chain.Ta.State.{Repo, Ta, validate_and_get_repo}
use trust_chain.Ta.Table.{
  AreSets, IsComplete, IsSound, EndsSound, found-IsComplete, put-IsTable, world-rule, SameKeys,
  SameKeys-EndsSound, sound-rule,
}
use trust_chain.Ta.AccessControl.{
  add_admin, add_writer, delete_admin, delete_writer, update_key_sets, append_access_block,
  AccessRequest, read_access, check_access, apply_access, access_control,
}
use trust_chain.Ta.Table.KeySets.{
  without_writer-AreSets, without_admin-AreSets, with_writer-AreSets, with_admin-AreSets,
}

raise_if-EndsSound :
    {W : Type 0} (b : Bool) (s : Ta W) → IsSound s → EndsSound (raise_if b bad_parameters s)
raise_if-EndsSound b s sound = ground arith

module _ {W : Type 0} (p : Platform W) (id : ℕ) (r : Repo) (key : Bytes) (s : Ta W)
    (sound : IsSound s) (lt : id < s.repo_num) where
  module _ (admins writers : KeyList) (ea : r.admin_keys ≡ some admins)
      (ew : r.writer_keys ≡ some writers) (v : AreSets admins writers) where
    delete_writer-EndsSound : EndsSound (delete_writer p id r key s)
    unfolding delete_writer
    delete_writer-EndsSound = rw ew (
        world-rule (Removes writers key) (find_and_remove_key p writers key) _ s sound
          (find_and_remove_key-Removes p writers key s.world v.writers_valid)
          λ (writers', found) w q. raise_if-EndsSound (not found) _ (
            put-IsTable sound id _ lt (
              admins,
              writers',
              ea,
              refl,
              without_writer-AreSets admins writers writers' key found w v q,
            )))

    delete_admin-EndsSound : EndsSound (delete_admin p id r key s)
    unfolding delete_admin
    delete_admin-EndsSound = rw ea (
        world-rule (Removes admins key) (find_and_remove_key p admins key) _ s sound
          (find_and_remove_key-Removes p admins key s.world v.admins_valid)
          λ (admins', found) w q. raise_if-EndsSound (not found) _ (
            put-IsTable sound id _ lt (
              admins',
              writers,
              refl,
              ew,
              without_admin-AreSets admins admins' writers key found w v q,
            )))

    add_writer-EndsSound : EndsSound (add_writer p id r key s)
    unfolding add_writer
    add_writer-EndsSound =
        rw (ea, ew)
          (raise_if-rule EndsSound (key_exists_in_set writers key) _ _ s (λ _. sound)
            λ new_writer.
              raise_if-rule EndsSound (key_exists_in_set admins key) _ _ s (λ _. sound)
                λ no_admin.
                  world-rule (Adds writers key) (add_key_to_set p writers key) _ s sound
                    (add_key_to_set-Adds p writers key s.world v.writers_valid new_writer)
                    λ writers' w q. put-IsTable sound id _ lt (
                      admins,
                      writers',
                      refl,
                      refl,
                      with_writer-AreSets admins writers writers' key w v no_admin q,
                    ))

    add_admin-EndsSound : EndsSound (add_admin p id r key s)
    unfolding add_admin
    add_admin-EndsSound =
        rw (ea, ew)
          (raise_if-rule EndsSound (key_exists_in_set admins key) _ _ s (λ _. sound)
            λ new_admin.
              world-rule (Removes writers key) (find_and_remove_key p writers key) _ s sound
                (find_and_remove_key-Removes p writers key s.world v.writers_valid)
                λ (writers', found) w q.
                  let kept = without_writer-AreSets admins writers writers' key found w v q in
                  let table =
                    put-IsTable sound id
                      (record r { admin_keys = some admins; writer_keys = some writers' }) lt
                      (admins, writers', refl, refl, kept) in
                  world-rule (Adds admins key) (add_key_to_set p admins key) _ _ table
                    (add_key_to_set-Adds p admins key w v.admins_valid new_admin)
                    λ admins' w' q'. put-IsTable table id _ lt (
                      admins',
                      writers',
                      refl,
                      refl,
                      with_admin-AreSets admins admins' writers writers' key found w w' v q q',
                    ))

  update_key_sets-EndsSound :
      (op role : ℕ) → IsComplete r → EndsSound (update_key_sets p id r op role key s)
  unfolding update_key_sets
  update_key_sets-EndsSound op role (admins, writers, ea, ew, v) = ground (
    arith,
    sound,
    add_admin-EndsSound admins writers ea ew v,
    add_writer-EndsSound admins writers ea ew v,
    delete_admin-EndsSound admins writers ea ew v,
    delete_writer-EndsSound admins writers ea ew v,
  )

module _ {W : Type 0} (p : Platform W) where
  append_access_block-SameKeys :
      (id op role : ℕ) (key sigkey signature : Bytes) (s : Ta W)
      → SameKeys s (append_access_block p id op role key sigkey signature s).1
  unfolding append_access_block
  append_access_block-SameKeys id op role key sigkey signature s = (λ j. ground arith, ground arith)

  pub read_access-table :
      (t : ℕ) (s : Ta W)
      → let s' = (read_access p t s).1 in
        (s'.repositories ≡ s.repositories) × (s'.repo_num ≡ s.repo_num)
  unfolding read_access validate_and_get_repo
  read_access-table t s = ground arith

  pub read_access-found :
      (t : ℕ) (s : Ta W) (q : AccessRequest) (s' : Ta W)
      → read_access p t s ≡ (ok q, s')
      → s'.repositories q.rep_id ≡ some q.repo
  unfolding read_access validate_and_get_repo
  read_access-found t s q s' run = ground arith

  pub check_access-SameKeys : (t : ℕ) (s : Ta W) → SameKeys s (check_access p t s).1
  unfolding check_access
  check_access-SameKeys t s =
      (λ j. ground (arith, read_access-table t s), ground (arith, read_access-table t s))

  -- An accepted message is about a repository of the table.
  pub check_access-found :
      (t : ℕ) (s : Ta W) (q : AccessRequest) (s' : Ta W)
      → check_access p t s ≡ (ok q, s')
      → s'.repositories q.rep_id ≡ some q.repo
  unfolding check_access
  check_access-found t s q s' run = ground (arith, read_access-found t s q (read_access p t s).1)

  apply_access-EndsSound :
      (q : AccessRequest) (s : Ta W)
      → IsSound s
      → s.repositories q.rep_id ≡ some q.repo
      → EndsSound (apply_access p q s)
  unfolding apply_access
  apply_access-EndsSound q s sound e =
      let (lt, c) = found-IsComplete sound q.rep_id q.repo e in
      sound-rule (update_key_sets p q.rep_id q.repo q.op q.role q.pubkey) _ s
        (update_key_sets-EndsSound p q.rep_id q.repo q.pubkey s sound lt q.op q.role c)
        λ _ s' _ sound'.
          SameKeys-EndsSound s' _
            (append_access_block-SameKeys q.rep_id q.op q.role q.pubkey q.sigkey q.signature s')
            sound'

  pub access_control-EndsSound : (t : ℕ) (s : Ta W) → IsSound s → EndsSound (access_control p t s)
  unfolding access_control
  access_control-EndsSound t s sound =
      sound-rule (check_access p t) (apply_access p) s
        (SameKeys-EndsSound s _ (check_access-SameKeys t s) sound)
        λ q s' run sound'. apply_access-EndsSound q s' sound' (check_access-found t s q s' run)
