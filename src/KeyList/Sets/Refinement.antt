-- ===== src/KeyList/Sets/Refinement.antt =====
-- The operations on key lists are those on finite multisets of keys.
use trust_chain.Base.{
  ◌%◌, ◌^◌, ◌≡◌, refl, sym, ◌∙◌, ap, Bool, Bytes, Outcome, ok, err, fault, out_of_memory, ◌<◌,
  length, List, [], item_not_found, inl, inr, Bool-cases, Option-cases, ltb, subst, some, none,
  arith,
}
use mathlib.Core.Quot.{Quot}
use trust_chain.Platform.{Platform}
use trust_chain.KeyList.{
  KeyList, init_key_list, key_exists_in_set, create_key_node, add_key_to_set, find_and_remove_key,
  remove_key_from_set, cleanup_key_list, unlink, without_node,
}
use trust_chain.KeyList.Sets.{
  KeyBag, keys_of, multiplicity, insert, erase, size, Represents, key_in-times, unlink-without-none,
  unlink-without, unlink-missing, length-without,
}

-- What the operations end with, for a multiset of keys.
abbrev pub Inserts : {W : Type 0} → KeyBag → Bytes → Outcome KeyList × W → Type 0
Inserts s key (ok l', _) = Represents l' (insert key s)
Inserts s key (err e, _) = e ≡ out_of_memory
Inserts s key (fault, _) = ⊥

abbrev pub Erases : {W : Type 0} → KeyBag → Bytes → Outcome (KeyList × Bool) × W → Type 0
Erases s key (ok (l', found), _) =
    (found ≡ ltb 0 (multiplicity key s)) × Represents l' (erase key s)
Erases s key (err _, _) = ⊥
Erases s key (fault, _) = ⊥

abbrev pub Takes : {W : Type 0} → KeyBag → Bytes → Outcome KeyList × W → Type 0
Takes s key (ok l', _) = (0 < multiplicity key s) × Represents l' (erase key s)
Takes s key (err e, _) = (multiplicity key s ≡ 0) × (e ≡ item_not_found)
Takes s key (fault, _) = ⊥

-- Every operation, for a list that stands for a multiset.
abbrev pub Implements : {W : Type 0} → Platform W → KeyList → Bytes → W → KeyBag → Type 0
Implements p l key w s =
    (key_exists_in_set l key ≡ ltb 0 (multiplicity key s))
    × Inserts s key (add_key_to_set p l key w)
    × Erases s key (find_and_remove_key p l key w)
    × Takes s key (remove_key_from_set p l key w)

without_node-Represents :
    (l : KeyList) (key : Bytes) (ks : List Bytes)
    → l.count ≡ length l.head % 2 ^ 32
    → unlink key l.head ≡ some ks
    → Represents (without_node l ks) (erase key (keys_of l))
unfolding erase size
without_node-Represents l key ks counted found =
    let (same, there) = unlink-without key l.head ks found in
    (ap (λ xs. Quot.mk xs) same, omega (arith, counted, length-without key l.head there))

missing-Represents :
    (l : KeyList) (key : Bytes)
    → l.count ≡ length l.head % 2 ^ 32
    → unlink key l.head ≡ none
    → Represents l (erase key (keys_of l))
unfolding erase size
missing-Represents l key counted missing =
    let same = unlink-missing key l.head missing in
    (ap (λ xs. Quot.mk xs) (sym same), counted ∙ ap (λ xs. length xs % 2 ^ 32) (sym same))

module _ {W : Type 0} (p : Platform W) (l : KeyList) (key : Bytes) (w : W)
    (counted : l.count ≡ length l.head % 2 ^ 32) where
  add_key_to_set-Inserts : Inserts (keys_of l) key (add_key_to_set p l key w)
  unfolding add_key_to_set insert size
  add_key_to_set-Inserts = elim (Bool-cases (create_key_node p key w).0) [
    | inl made ↦ rw (made, add_key_to_set) (refl, omega (arith, counted))
    | inr failed ↦ rw (failed, add_key_to_set) refl
  ]

  find_and_remove_key-Erases : Erases (keys_of l) key (find_and_remove_key p l key w)
  unfolding find_and_remove_key multiplicity
  find_and_remove_key-Erases = elim (Option-cases (unlink key l.head)) [
    | inl missing ↦
        rw (missing, find_and_remove_key)
          (
            ground (arith, unlink-without-none key l.head missing),
            missing-Represents l key counted missing,
          )
    | inr (ks, found) ↦
        rw (found, find_and_remove_key)
          (
            ground (arith, (unlink-without key l.head ks found).1),
            without_node-Represents l key ks counted found,
          )
  ]

  remove_key_from_set-Takes : Takes (keys_of l) key (remove_key_from_set p l key w)
  unfolding remove_key_from_set multiplicity
  remove_key_from_set-Takes = elim (Option-cases (unlink key l.head)) [
    | inl missing ↦ rw (missing, remove_key_from_set) (unlink-without-none key l.head missing, refl)
    | inr (ks, found) ↦
        rw (found, remove_key_from_set)
          ((unlink-without key l.head ks found).1, without_node-Represents l key ks counted found)
  ]

  list-Implements : Implements p l key w (keys_of l)
  unfolding key_exists_in_set multiplicity
  list-Implements = (
    key_in-times key l.head,
    add_key_to_set-Inserts,
    find_and_remove_key-Erases,
    remove_key_from_set-Takes,
  )

-- A list stands for a finite multiset of keys where they are the keys of its nodes, their order
-- forgotten, and its count is the multiset's size modulo 2 ^ 32. A new list, and one that `cleanup_key_list`
-- has cleaned up, stand for the empty multiset. For a list that stands for `s`, `key_exists_in_set` says whether the key is in `s`;
-- `add_key_to_set` leaves a list that stands for `s` with the key once more, or runs out of memory;
-- `find_and_remove_key` says whether the key is in `s`, and leaves a list that stands for `s` with
-- the key once less, if it is there; and so does `remove_key_from_set`, which fails with
-- TEE_ERROR_ITEM_NOT_FOUND exactly where the key is not in `s`.
pub key_list-Implements :
    {W : Type 0} (p : Platform W) (s : KeyBag) (l : KeyList) (key : Bytes) (w : W)
    → Represents l s
    → Represents init_key_list (Quot.mk [])
      × Represents (cleanup_key_list p l w).0 (Quot.mk [])
      × Implements p l key w s
unfolding size cleanup_key_list
key_list-Implements p s l key w (keys, counted) = (
  (refl, omega arith),
  (refl, omega arith),
  subst (Implements p l key w) keys
      (list-Implements p l key w (counted ∙ ap (λ t. size t % 2 ^ 32) (sym keys))),
)
