-- ===== src/Ta/AccessControl/Applies.antt =====
-- Which changes of the key sets go through.
use trust_chain.Base.{
  ℕ, ◌+◌, ◌-◌, ◌%◌, ◌^◌, ◌∷◌, ◌≡◌, ◌&&◌, length, Bool, true, false, not, Bytes, some, ok, ◌==◌,
  if◌then◌else◌, arith, Option-cases, inl, inr,
}
use trust_chain.Platform.{Allocation, node_of, string_of, Platform}
use trust_chain.KeyList.{
  KeyList, key_exists_in_set, find_and_remove_key, unlink, add_key_to_set, create_key_node,
  copy_key_string,
}
use trust_chain.KeyList.Membership.{unlink-none, unlink-some}
use trust_chain.Ta.State.{Repo, Ta, op_add, op_delete, role_admin, role_writer}
use trust_chain.Ta.AccessControl.{
  add_admin, add_writer, delete_admin, delete_writer, update_key_sets,
}
use trust_chain.Ta.AccessControl.Roles.{Role, nobody, writer, admin, role_in}

-- Whether a request about a key with the role `old` is one to carry out: nobody is made what they are,
-- or a writer while they are an administrator, and no role is taken from one who does not have it.
abbrev pub applies : ℕ → ℕ → Role → Bool
applies op role nobody =
    if op == op_delete then not (role == role_admin) && not (role == role_writer) else true
applies op role writer =
    if op == op_add then not (role == role_writer) else not (role == role_admin)
applies op role admin =
    if op == op_add
    then not (role == role_admin) && not (role == role_writer)
    else not (role == role_writer)

module _ {W : Type 0} (p : Platform W)
    (has_memory : (a : Allocation) (n : ℕ) (w : W) → (p.malloc a n w).0 ≡ true) where
  add_key_to_set_works :
      (l : KeyList) (key : Bytes) (w : W)
      → (add_key_to_set p l key w).0
        ≡ ok (record { head = key ∷ l.head; count = (l.count + 1) % 2 ^ 32 })
  unfolding add_key_to_set create_key_node copy_key_string
  add_key_to_set_works l key w =
      let w₁ = (p.malloc (node_of key) 16 w).1 in
      ground (arith, has_memory (node_of key) 16 w, has_memory (string_of key) (length key + 1) w₁)

  find_and_remove_key_works :
      (l : KeyList) (key : Bytes) (w : W)
      → (l' : KeyList) × ((find_and_remove_key p l key w).0 ≡ ok (l', key_exists_in_set l key))
  unfolding find_and_remove_key key_exists_in_set
  find_and_remove_key_works l key w = elim (Option-cases (unlink key l.head)) [
    | inl missing ↦ (l, ground (arith, missing, unlink-none key l.head missing))
    | inr (ks, found) ↦ (
      record { head = ks; count = (l.count + 2 ^ 32 - 1) % 2 ^ 32 },
      ground (arith, found, unlink-some key l.head ks found),
    )
  ]

  module _ (id : ℕ) (r : Repo) (key : Bytes) (s : Ta W) (admins writers : KeyList)
      (ea : r.admin_keys ≡ some admins) (ew : r.writer_keys ≡ some writers) where
    add_admin_works : key_exists_in_set admins key ≡ false → (add_admin p id r key s).0 ≡ ok tt
    unfolding add_admin
    add_admin_works fresh =
        let (l, found) = find_and_remove_key_works writers key s.world in
        let w₁ = (find_and_remove_key p writers key s.world).1 in
        ground (arith, ea, ew, fresh, found, add_key_to_set_works admins key w₁)

    add_writer_works :
        key_exists_in_set admins key ≡ false
        → key_exists_in_set writers key ≡ false
        → (add_writer p id r key s).0 ≡ ok tt
    unfolding add_writer
    add_writer_works no_admin no_writer =
        ground (arith, ea, ew, no_admin, no_writer, add_key_to_set_works writers key s.world)

    delete_admin_works : key_exists_in_set admins key ≡ true → (delete_admin p id r key s).0 ≡ ok tt
    unfolding delete_admin
    delete_admin_works there =
        let (l, found) = find_and_remove_key_works admins key s.world in
        ground (arith, ea, there, found)

    delete_writer_works :
        key_exists_in_set writers key ≡ true → (delete_writer p id r key s).0 ≡ ok tt
    unfolding delete_writer
    delete_writer_works there =
        let (l, found) = find_and_remove_key_works writers key s.world in
        ground (arith, ew, there, found)

    -- A request that applies goes through.
    pub update_key_sets_works :
        (op role : ℕ)
        → applies op role (role_in admins writers key) ≡ true
        → (update_key_sets p id r op role key s).0 ≡ ok tt
    unfolding update_key_sets
    update_key_sets_works op role fits =
        ground
          (arith, fits, add_admin_works, add_writer_works, delete_admin_works, delete_writer_works)

module _ {W : Type 0} (p : Platform W) where
  pub update_key_sets-param1 :
      (id op role : ℕ) (r : Repo) (k : Bytes) (s : Ta W)
      → (update_key_sets p id r op role k s).1.param1 ≡ s.param1
  unfolding update_key_sets add_admin add_writer delete_admin delete_writer
  update_key_sets-param1 id op role r k s = ground arith
