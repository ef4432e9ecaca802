-- ===== src/KeyList.antt =====
-- ta/key_list/key_list.c: a set of keys as a singly linked list. A list is the keys along its
-- nodes, from `head` on, with the count that the source keeps beside it. A node and its string are
-- one allocation each; the key lists are never shared, so that a list is a value.
pub mod Membership
pub mod Sets
pub mod Heap
use trust_chain.Base.{
  ℕ, ◌+◌, ◌-◌, ◌%◌, ◌^◌, Bool, true, false, Bytes, List, [], ◌∷◌, Option, none, some, length,
  str_eq, if◌then◌else◌, Action, ok, err, out_of_memory, item_not_found,
}
use trust_chain.Platform.{Platform, node_of, string_of}

pub record KeyList : Type 0 where
  pub head : List Bytes
  pub count : ℕ

abbrev pub init_key_list : KeyList
init_key_list = record { head = []; count = 0 }

-- `sizeof(struct key_node)`, two pointers
abbrev key_node_size : ℕ
key_node_size = 16

-- The walk of `key_exists_in_set`.
unfoldable pub key_in : Bytes → List Bytes → Bool
key_in key [] = false
key_in key (k ∷ ks) = if str_eq k key then true else key_in key ks

unfoldable pub key_exists_in_set : KeyList → Bytes → Bool
unfolding key_in
key_exists_in_set l key = key_in key l.head

-- The walk that unlinks the first node with the key.
unfoldable pub unlink : Bytes → List Bytes → Option (List Bytes)
unlink key [] = none
unlink key (k ∷ ks) =
    let rest = unlink key ks in
    if str_eq k key then some ks else elim rest [ none ↦ none | some ks' ↦ some (k ∷ ks') ]

-- The list with one node more in front, and its count one up, in `uint32_t`.
abbrev with_node : KeyList → Bytes → KeyList
with_node l key = record { head = key ∷ l.head; count = (l.count + 1) % 2 ^ 32 }

-- The list with the nodes `ks` left, and its count one down, in `uint32_t`.
abbrev without_node : KeyList → List Bytes → KeyList
without_node l ks = record { head = ks; count = (l.count + 2 ^ 32 - 1) % 2 ^ 32 }

module _ {W : Type 0} (p : Platform W) where
  -- Whether TEE_Malloc gave memory for the copy of a key.
  unfoldable pub copy_key_string : Bytes → W → Bool × W
  copy_key_string src = p.malloc (string_of src) (length src + 1)

  -- Whether a node was made; a node whose key cannot be copied is freed again.
  unfoldable pub create_key_node : Bytes → W → Bool × W
  unfolding copy_key_string
  create_key_node key w =
      let (has_node, w₁) = p.malloc (node_of key) key_node_size w in
      elim has_node [
        | false ↦ (false, w₁)
        | true ↦
            let (has_key, w₂) = copy_key_string key w₁ in
            elim has_key [ false ↦ (false, p.free (node_of key) w₂) | true ↦ (true, w₂) ]
      ]

  -- The string of a node, and then the node.
  free_key_node : Bytes → W → W
  free_key_node key w = p.free (node_of key) (p.free (string_of key) w)

  -- One node at a time; the list is empty afterwards.
  free_nodes : List Bytes → W → W
  unfolding free_key_node
  free_nodes [] w = w
  free_nodes (k ∷ ks) w = free_nodes ks (free_key_node k w)

  unfoldable pub cleanup_key_list : KeyList → W → KeyList × W
  unfolding free_nodes
  cleanup_key_list l w = (record { head = []; count = 0 }, free_nodes l.head w)

  unfoldable pub add_key_to_set : KeyList → Bytes → Action W KeyList
  unfolding create_key_node
  add_key_to_set l key w =
      let (made, w') = create_key_node key w in
      elim made [ false ↦ (err out_of_memory, w') | true ↦ (ok (with_node l key), w') ]

  unfoldable pub remove_key_from_set : KeyList → Bytes → Action W KeyList
  unfolding free_key_node
  remove_key_from_set l key w = elim (unlink key l.head) [
    | none ↦ (err item_not_found, w)
    | some ks ↦ (ok (without_node l ks), free_key_node key w)
  ]

  -- The list and `*was_found`.
  unfoldable pub find_and_remove_key : KeyList → Bytes → Action W (KeyList × Bool)
  unfolding free_key_node
  find_and_remove_key l key w = elim (unlink key l.head) [
    | none ↦ (ok (l, false), w)
    | some ks ↦ (ok (without_node l ks, true), free_key_node key w)
  ]
