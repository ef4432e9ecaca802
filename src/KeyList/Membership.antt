-- ===== src/KeyList/Membership.antt =====
-- The key list as a set: what each operation does to membership, and that the set holds a key once.
use trust_chain.Base.{
  suc, ◌%◌, ◌^◌, ◌≡◌, refl, sym, Bool, true, false, ◌||◌, ◌&&◌, not, Bytes, List, [], ◌∷◌, none,
  some, length, str_eq, str_eq_iff, Outcome, ok, err, fault, out_of_memory, arith, inl, inr,
  Bool-cases, Option-cases,
}
use trust_chain.Platform.{Platform}
use trust_chain.KeyList.{
  create_key_node, with_node, without_node, KeyList, key_in, key_exists_in_set, unlink,
  add_key_to_set, find_and_remove_key,
}

-- No key stands in two nodes.
abbrev pub Distinct : List Bytes → Type 0
Distinct [] = Unit
Distinct (k ∷ ks) = (key_in k ks ≡ false) × Distinct ks

-- What every list of the TA satisfies: no key twice, and the count is the number of nodes.
pub record IsValid (l : KeyList) : Type 0 where
  pub distinct : Distinct l.head
  pub counted : l.count ≡ length l.head % 2 ^ 32

pub unlink-none : (key : Bytes) (ks : List Bytes) → unlink key ks ≡ none → key_in key ks ≡ false
unfolding unlink key_in
unlink-none key [] e = refl
unlink-none key (k ∷ ks) e = ground (arith, unlink-none key ks)

pub unlink-some :
    (key : Bytes) (ks rest : List Bytes)
    → unlink key ks ≡ some rest
    → (key_in key ks ≡ true) × (length ks ≡ suc (length rest))
unfolding unlink key_in
unlink-some key [] rest e = absurd (ground arith)
unlink-some key (k ∷ ks) rest e = elim (Option-cases (unlink key ks)) [
  | inl missing ↦ ground arith
  | inr (r, found) ↦ ground (arith, unlink-some key ks r found)
]

-- Which keys are left.
pub key_in-unlink :
    (key j : Bytes) (ks rest : List Bytes)
    → Distinct ks
    → unlink key ks ≡ some rest
    → key_in j rest ≡ (key_in j ks && not (str_eq key j))
unfolding unlink key_in
key_in-unlink key j [] rest d e = absurd (ground arith)
key_in-unlink key j (k ∷ ks) rest d e = elim (Option-cases (unlink key ks)) [
  | inl missing ↦ ground (arith, str_eq_iff k key, str_eq_iff key j, str_eq_iff k j, d.0)
  | inr (r, found) ↦ ground (
    arith,
    str_eq_iff k key,
    str_eq_iff key j,
    str_eq_iff k j,
    d.0,
    key_in-unlink key j ks r d.1 found,
  )
]

unlink-Distinct :
    (key : Bytes) (ks rest : List Bytes) → Distinct ks → unlink key ks ≡ some rest → Distinct rest
unfolding unlink key_in
unlink-Distinct key [] rest d e = absurd (ground arith)
unlink-Distinct key (k ∷ ks) rest d e = elim (Option-cases (unlink key ks)) [
  | inl missing ↦ ground arith
  | inr (r, found) ↦ ground (
    arith,
    unlink-Distinct key ks r d.1 found,
    key_in-unlink key k ks r d.1 found,
    str_eq_iff k key,
  )
]

key_in-cons :
    (key j : Bytes) (ks : List Bytes) → key_in j (key ∷ ks) ≡ (str_eq key j || key_in j ks)
unfolding key_in
key_in-cons key j ks = ground arith

-- What `add_key_to_set` ends with, for a list `l` and a key.
abbrev pub Adds : {W : Type 0} → KeyList → Bytes → Outcome KeyList × W → Type 0
Adds l key (ok l', _) =
    IsValid l' × ((j : Bytes) → key_exists_in_set l' j ≡ (str_eq key j || key_exists_in_set l j))
Adds l key (err e, _) = e ≡ out_of_memory
Adds l key (fault, _) = ⊥

-- What `find_and_remove_key` ends with.
abbrev pub Removes : {W : Type 0} → KeyList → Bytes → Outcome (KeyList × Bool) × W → Type 0
Removes l key (ok (l', found), _) =
    IsValid l'
    × (found ≡ key_exists_in_set l key)
    × ((j : Bytes) → key_exists_in_set l' j ≡ (key_exists_in_set l j && not (str_eq key j)))
Removes l key (err _, _) = ⊥
Removes l key (fault, _) = ⊥

with_node-Adds :
    (l : KeyList) (key : Bytes)
    → IsValid l
    → key_in key l.head ≡ false
    → IsValid (with_node l key)
      × ((j : Bytes) → key_in j (key ∷ l.head) ≡ (str_eq key j || key_in j l.head))
with_node-Adds l key v fresh = (
  record { distinct = (fresh, v.distinct); counted = omega (arith, v.counted) },
  λ j. key_in-cons key j l.head,
)

missing-Removes :
    (key j : Bytes) (ks : List Bytes)
    → unlink key ks ≡ none
    → key_in j ks ≡ (key_in j ks && not (str_eq key j))
missing-Removes key j ks e = ground (arith, unlink-none key ks e, str_eq_iff key j)

without_node-Removes :
    (l : KeyList) (key : Bytes) (ks : List Bytes)
    → IsValid l
    → unlink key l.head ≡ some ks
    → IsValid (without_node l ks)
      × (true ≡ key_in key l.head)
      × ((j : Bytes) → key_in j ks ≡ (key_in j l.head && not (str_eq key j)))
without_node-Removes l key ks v found = (
  record {
    distinct = unlink-Distinct key l.head ks v.distinct found;
    counted = omega (arith, v.counted, unlink-some key l.head ks found);
  },
  sym (unlink-some key l.head ks found).0,
  λ j. key_in-unlink key j l.head ks v.distinct found,
)

module _ {W : Type 0} (p : Platform W) where
  -- Adding a key that is not in a valid list either runs out of memory, or gives a valid list whose
  -- members are that key and the members before.
  pub add_key_to_set-Adds :
      (l : KeyList) (key : Bytes) (w : W)
      → IsValid l
      → key_exists_in_set l key ≡ false
      → Adds l key (add_key_to_set p l key w)
  unfolding add_key_to_set key_exists_in_set
  add_key_to_set-Adds l key w v fresh = elim (Bool-cases (create_key_node p key w).0) [
    | inl made ↦ rw (made, add_key_to_set) (with_node-Adds l key v fresh)
    | inr failed ↦ rw (failed, add_key_to_set) refl
  ]

  -- From a valid list `find_and_remove_key` always succeeds, says whether the key was there, and
  -- leaves a valid list with all members but that key.
  pub find_and_remove_key-Removes :
      (l : KeyList) (key : Bytes) (w : W)
      → IsValid l
      → Removes l key (find_and_remove_key p l key w)
  unfolding find_and_remove_key key_exists_in_set
  find_and_remove_key-Removes l key w v = elim (Option-cases (unlink key l.head)) [
    | inl missing ↦
        rw (missing, find_and_remove_key)
          (v, sym (unlink-none key l.head missing), λ j. missing-Removes key j l.head missing)
    | inr (ks, found) ↦ rw (found, find_and_remove_key) (without_node-Removes l key ks v found)
  ]
