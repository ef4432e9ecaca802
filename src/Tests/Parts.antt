-- ===== src/Tests/Parts.antt =====
-- What the properties of the parts say at concrete inputs.
use trust_chain.Base.{
  ℕ, true, ◌+◌, ◌-◌, ◌≡◌, refl, ok, fault, codes, some, [], ◌∷◌, ◌++◌, arith, take,
}
use trust_chain.Memory.{Buffer, write, store, strcpy, store_u32, prefix, read_u32}
use trust_chain.Memory.Writes.{writes}
use trust_chain.Hex.{
  hex, bytes_to_hex_string, hex_string_to_bytes, decode_pairs, hex_pair, hex_char_to_int,
}
use trust_chain.Hex.RoundTrip.{
  Decodes, hex_string_to_bytes-hex, hex_string_to_bytes_sound, hex_string_to_bytes_overflow,
}
use trust_chain.Hex.Print.{bytes_to_hex_string-write}
use trust_chain.KeyList.{add_key_to_set, find_and_remove_key, remove_key_from_set}
use trust_chain.KeyList.{cleanup_key_list, init_key_list}
use trust_chain.KeyList.Heap.{CountsHeap, Ends, EndsFound, key_list-Owns}
use trust_chain.Platform.{Platform}
use mathlib.Core.Quot
use trust_chain.KeyList.Sets.{Represents, size}
use trust_chain.KeyList.Sets.Refinement.{Implements, key_list-Implements}
use trust_chain.Utils.{get_trust_time}
use trust_chain.Block.{init_base_block, init_access_block, init_contribution_block}
use trust_chain.Block.Fields.{
  HasBase, contribution_writes, access_writes, contribution-fields, access-fields,
}
use trust_chain.Block.Layout
use trust_chain.Tests.Demo.{demo, demo_list, object, zeros}

-- A platform whose state is the number of allocations.
abbrev pub allocating : Platform ℕ
allocating = record demo { malloc = λ a n w. (true, 1 + w); free = λ a w. w - 1 }

allocating-CountsHeap : CountsHeap allocating (λ a. 1) (λ w. w)
allocating-CountsHeap = record { malloc_live = λ a n w. refl; free_live = λ a w. refl }

key_list-Owns_example :
    let l = demo_list (codes "bob" ∷ []) in
    Ends allocating
      (λ a. 1)
      (λ w. w)
      allocating-CountsHeap
      3
      l
      (add_key_to_set allocating l (codes "bob") 5)
    × Ends allocating
        (λ a. 1)
        (λ w. w)
        allocating-CountsHeap
        3
        l
        (remove_key_from_set allocating l (codes "bob") 5)
    × EndsFound allocating
        (λ a. 1)
        (λ w. w)
        allocating-CountsHeap
        3
        (find_and_remove_key allocating l (codes "bob") 5)
    × ((cleanup_key_list allocating l 5).0.head ≡ [])
    × ((cleanup_key_list allocating l 5).1 ≡ 3)
key_list-Owns_example =
    key_list-Owns allocating (λ a. 1) (λ w. w) allocating-CountsHeap 3
      (demo_list (codes "bob" ∷ [])) (codes "bob") 5 (omega arith)

bob_list : Represents (demo_list (codes "bob" ∷ [])) (Quot.mk (codes "bob" ∷ []))
unfolding size
bob_list = (refl, omega arith)

key_list-Implements_example :
    let l = demo_list (codes "bob" ∷ []) in
    Represents init_key_list (Quot.mk [])
    × Represents (cleanup_key_list demo l 0).0 (Quot.mk [])
    × Implements demo l (codes "eve") 0 (Quot.mk (codes "bob" ∷ []))
key_list-Implements_example =
    key_list-Implements demo (Quot.mk (codes "bob" ∷ [])) (demo_list (codes "bob" ∷ []))
      (codes "eve") 0 bob_list

hex_string_to_bytes-hex_example : hex_string_to_bytes 2 (hex (171 ∷ 205 ∷ [])) ≡ ok (171 ∷ 205 ∷ [])
hex_string_to_bytes-hex_example =
    hex_string_to_bytes-hex 2 (171 ∷ 205 ∷ []) (omega arith) (omega arith)

upper_run : hex_string_to_bytes 2 (codes "ABcd") ≡ ok (171 ∷ 205 ∷ [])
unfolding hex_string_to_bytes decode_pairs hex_pair hex_char_to_int
upper_run = refl

hex_string_to_bytes_sound_example : Decodes 2 (codes "ABcd") (171 ∷ 205 ∷ [])
hex_string_to_bytes_sound_example = hex_string_to_bytes_sound 2 (codes "ABcd") upper_run

hex_string_to_bytes_overflow_example : hex_string_to_bytes 1 (codes "abcd") ≡ fault
unfolding hex_char_to_int
hex_string_to_bytes_overflow_example =
    hex_string_to_bytes_overflow 1 (codes "abcd")
      (ground arith, (ground arith, (ground arith, (ground arith, tt)))) refl (omega arith)

-- The digits of two bytes at the place 3 of ten bytes.
abbrev printed : Buffer
printed = object 10 (write (write zeros 3 (hex (171 ∷ []) ++ 0 ∷ [])) 5 (hex (205 ∷ []) ++ 0 ∷ []))

print_run : bytes_to_hex_string (171 ∷ 205 ∷ []) (object 10 zeros) 3 ≡ some printed
unfolding bytes_to_hex_string store hex
print_run = refl

bytes_to_hex_string-write_example :
    printed.cell 7 ≡ write zeros 3 (hex (171 ∷ 205 ∷ []) ++ 0 ∷ []) 7
bytes_to_hex_string-write_example =
    bytes_to_hex_string-write 171 (205 ∷ []) (object 10 zeros) printed 3 7 print_run

-- A block of either kind, of short texts.
abbrev contribution_bytes : Buffer
contribution_bytes = object Layout.contribution_block_size (
    writes
      (contribution_writes 5 (codes "c0de") 2 (codes "beef") (codes "bob") (codes "ab12") (5, 250))
      zeros)

contribution_run :
    init_contribution_block demo
      (object Layout.contribution_block_size zeros)
      5
      (some (codes "c0de"))
      2
      (some (codes "beef"))
      (some (codes "bob"))
      (some (codes "ab12"))
      0
    ≡ (ok contribution_bytes, 0)
unfolding init_contribution_block init_base_block strcpy store_u32 store get_trust_time
contribution_run = refl

contribution-fields_example :
    HasBase contribution_bytes.cell 5 (codes "c0de") 2 (codes "bob") (codes "ab12")
    × (prefix 64 contribution_bytes.cell Layout.commit_hash ≡ take 64 (codes "beef"))
contribution-fields_example =
    contribution-fields demo (object Layout.contribution_block_size zeros) contribution_bytes 5 2
      (codes "c0de") (codes "beef") (codes "bob") (codes "ab12") 0 0 (omega arith) (omega arith)
      (ground arith) (ground arith) (ground arith) (ground arith) contribution_run

abbrev access_bytes : Buffer
access_bytes = object Layout.access_block_size (
    writes (access_writes 5 (codes "c0de") 1 2 (codes "eve") (codes "ann") (codes "ab12") (5, 250))
      zeros)

access_run :
    init_access_block demo
      (object Layout.access_block_size zeros)
      5
      (some (codes "c0de"))
      1
      2
      (some (codes "eve"))
      (some (codes "ann"))
      (some (codes "ab12"))
      0
    ≡ (ok access_bytes, 0)
unfolding init_access_block init_base_block strcpy store_u32 store get_trust_time
access_run = refl

access-fields_example :
    HasBase access_bytes.cell 5 (codes "c0de") 1 (codes "ann") (codes "ab12")
    × (read_u32 access_bytes.cell Layout.role ≡ 2)
    × (prefix 256 access_bytes.cell Layout.pubkey ≡ take 256 (codes "eve"))
access-fields_example =
    access-fields demo (object Layout.access_block_size zeros) access_bytes 5 1 2 (codes "c0de")
      (codes "eve") (codes "ann") (codes "ab12") 0 0 (omega arith) (omega arith) (omega arith)
      (ground arith) (ground arith) (ground arith) (ground arith) access_run
