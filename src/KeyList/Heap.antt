-- ===== src/KeyList/Heap.antt =====
-- What a key list has on the heap: a node and a string for each key.
use trust_chain.Base.{
  some, str_eq, str_eq_iff, Bool-cases, ap, subst, ◌∙◌, ℕ, ◌+◌, ◌-◌, ◌≡◌, refl, Bool, Bytes, List,
  [], ◌∷◌, length, if◌then◌else◌, Outcome, ok, err, fault, arith, inl, inr, Option-cases,
}
use trust_chain.Platform.{Platform, Allocation, node_of, string_of}
use trust_chain.KeyList.{
  KeyList, create_key_node, copy_key_string, free_key_node, free_nodes, cleanup_key_list, unlink,
  key_node_size, add_key_to_set, remove_key_from_set, find_and_remove_key,
}

-- `live` weighs what TEE_Malloc has given and TEE_Free has not taken back, each allocation by `cost`.
-- Where each costs 1, it is their number; where only the node of a key costs 1, that node's, and so
-- on.
pub record CountsHeap {W : Type 0} (p : Platform W) (cost : Allocation → ℕ) (live : W → ℕ)
    : Type 0 where
  pub malloc_live :
      (a : Allocation) (n : ℕ) (w : W)
      → live (p.malloc a n w).1 ≡ (if (p.malloc a n w).0 then cost a + live w else live w)
  pub free_live : (a : Allocation) (w : W) → live (p.free a w) ≡ live w - cost a

-- The node and the string of a key.
abbrev pub key_cost : (Allocation → ℕ) → Bytes → ℕ
key_cost cost key = cost (node_of key) + cost (string_of key)

-- Those of all keys of a list.
abbrev pub keys_cost : (Allocation → ℕ) → List Bytes → ℕ
keys_cost cost [] = 0
keys_cost cost (k ∷ ks) = key_cost cost k + keys_cost cost ks

keys_cost-unlink :
    (cost : Allocation → ℕ) (key : Bytes) (ks rest : List Bytes)
    → unlink key ks ≡ some rest
    → keys_cost cost ks ≡ key_cost cost key + keys_cost cost rest
unfolding unlink
keys_cost-unlink cost key [] rest e = absurd (ground (arith, e))
keys_cost-unlink cost key (k ∷ ks) rest e = elim (Bool-cases (str_eq k key)) [
  | inl same ↦
      let is_key = (str_eq_iff k key).0 same in
      let left : ks ≡ rest = ground (arith, same, e) in
      ap (λ x. key_cost cost x + keys_cost cost ks) is_key
      ∙ ap (λ xs. key_cost cost key + keys_cost cost xs) left
  | inr other ↦ elim (Option-cases (unlink key ks)) [
    | inl missing ↦ absurd (ground (arith, other, missing, e))
    | inr (r, found) ↦
        let left : k ∷ r ≡ rest = ground (arith, other, found, e) in
        let rest_cost = keys_cost-unlink cost key ks r found in
        subst (λ xs. keys_cost cost (k ∷ ks) ≡ key_cost cost key + keys_cost cost xs) left
          (omega (arith, rest_cost))
  ]
]

module _ {W : Type 0} (p : Platform W) (cost : Allocation → ℕ) (live : W → ℕ)
    (counts : CountsHeap p cost live) where
  -- The allocations of a list, and others that weigh `n`.
  abbrev pub Owns : ℕ → KeyList → W → Type 0
  Owns n l w = live w ≡ keys_cost cost l.head + n

  create_key_node-live :
      (key : Bytes) (w : W)
      → let (made, w') = create_key_node p key w in
        live w' ≡ (if made then key_cost cost key + live w else live w)
  unfolding create_key_node copy_key_string
  create_key_node-live key w =
      let w₁ = (p.malloc (node_of key) key_node_size w).1 in
      let w₂ = (p.malloc (string_of key) (length key + 1) w₁).1 in
      ground (
        arith,
        counts.malloc_live (node_of key) key_node_size w,
        counts.malloc_live (string_of key) (length key + 1) w₁,
        counts.free_live (node_of key) w₂,
      )

  free_key_node-live :
      (key : Bytes) (w : W) → live (free_key_node p key w) ≡ live w - key_cost cost key
  unfolding free_key_node
  free_key_node-live key w = ground (
    arith,
    counts.free_live (string_of key) w,
    counts.free_live (node_of key) (p.free (string_of key) w),
  )

  free_nodes-live :
      (n : ℕ) (ks : List Bytes) (w : W)
      → live w ≡ keys_cost cost ks + n
      → live (free_nodes p ks w) ≡ n
  unfolding free_nodes
  free_nodes-live n [] w e = ground (arith, e)
  free_nodes-live n (k ∷ ks) w e =
      free_nodes-live n ks (free_key_node p k w) (omega (arith, e, free_key_node-live k w))

  pub cleanup_key_list-live :
      (n : ℕ) (l : KeyList) (w : W) → Owns n l w → live (cleanup_key_list p l w).1 ≡ n
  unfolding cleanup_key_list
  cleanup_key_list-live n l w owns = free_nodes-live n l.head w owns

  -- What a call ends with that changes a list: its own list, or an error and the old one.
  abbrev pub Ends : ℕ → KeyList → Outcome KeyList × W → Type 0
  Ends n l (ok l', w) = Owns n l' w
  Ends n l (err _, w) = Owns n l w
  Ends n l (fault, w) = ⊥

  abbrev pub EndsFound : ℕ → Outcome (KeyList × Bool) × W → Type 0
  EndsFound n (ok (l', _), w) = Owns n l' w
  EndsFound n (err _, w) = ⊥
  EndsFound n (fault, w) = ⊥

  module _ (n : ℕ) (l : KeyList) (key : Bytes) (w : W) (owns : Owns n l w) where
    add_key_to_set-Ends : Ends n l (add_key_to_set p l key w)
    unfolding add_key_to_set
    add_key_to_set-Ends = ground (arith, owns, create_key_node-live key w)

    remove_key_from_set-Ends : Ends n l (remove_key_from_set p l key w)
    unfolding remove_key_from_set
    remove_key_from_set-Ends = elim (Option-cases (unlink key l.head)) [
      | inl missing ↦ ground (arith, owns, missing)
      | inr (ks, found) ↦
          ground (
            arith,
            owns,
            found,
            keys_cost-unlink cost key l.head ks found,
            free_key_node-live key w,
          )
    ]

    find_and_remove_key-Ends : EndsFound n (find_and_remove_key p l key w)
    unfolding find_and_remove_key
    find_and_remove_key-Ends = elim (Option-cases (unlink key l.head)) [
      | inl missing ↦ ground (arith, owns, missing)
      | inr (ks, found) ↦
          ground (
            arith,
            owns,
            found,
            keys_cost-unlink cost key l.head ks found,
            free_key_node-live key w,
          )
    ]

-- Whatever each allocation costs, where TEE_Malloc and TEE_Free add and take off what they give and
-- take back: if the live allocations are the node and the string of each key of a list, and others,
-- then `add_key_to_set`, `remove_key_from_set` and `find_and_remove_key` end with the same for the
-- list that they leave, also where they fail, and `cleanup_key_list` leaves the others and an empty
-- list. As the cost is any, so for every key the live nodes and the live strings of that key are
-- those of the list: none is lost, freed twice or freed for another.
pub key_list-Owns :
    {W : Type 0} (p : Platform W) (cost : Allocation → ℕ) (live : W → ℕ)
    (counts : CountsHeap p cost live) (n : ℕ) (l : KeyList) (key : Bytes) (w : W)
    → Owns p cost live counts n l w
    → Ends p cost live counts n l (add_key_to_set p l key w)
      × Ends p cost live counts n l (remove_key_from_set p l key w)
      × EndsFound p cost live counts n (find_and_remove_key p l key w)
      × ((cleanup_key_list p l w).0.head ≡ [])
      × (live (cleanup_key_list p l w).1 ≡ n)
unfolding cleanup_key_list
key_list-Owns p cost live counts n l key w owns = (
  add_key_to_set-Ends p cost live counts n l key w owns,
  remove_key_from_set-Ends p cost live counts n l key w owns,
  find_and_remove_key-Ends p cost live counts n l key w owns,
  refl,
  cleanup_key_list-live p cost live counts n l w owns,
)
