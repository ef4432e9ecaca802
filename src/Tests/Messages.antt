-- ===== src/Tests/Messages.antt =====
-- A message of the host in the TA of the tests.
use trust_chain.Base.{All, ℕ, ◌≡◌, refl, Bytes, codes, some, ok, arith, if◌then◌else◌, str_eq}
use trust_chain.Memory.{Buffer}
use trust_chain.Memory.Laws.{IsText}
use trust_chain.Hex.RoundTrip.{IsByte}
use trust_chain.Ta.State.{Repo, Ta}
use trust_chain.Ta.AccessControl
use trust_chain.Ta.AccessControl.Roles.{role_of}
use trust_chain.Ta.State.{validate_and_get_repo}
use trust_chain.Memory.{
  load_str, scan, write, load_u32, read_u32, store, strcpy, store_u32, memcpy, prefix,
}
use trust_chain.KeyList.{key_exists_in_set, key_in}
use trust_chain.Utils.{
  verify_signature, verify_signature_common, public_key_pem_to_obj, write_key, fill_key,
  key_of_context, free_if, compute_sha256_hash,
}
use trust_chain.Hex.{hex_string_to_bytes, decode_pairs, hex_pair, hex_char_to_int}
use trust_chain.Decimal.{decimal, digits}
use trust_chain.KeyList.{
  add_key_to_set, find_and_remove_key, unlink, create_key_node, copy_key_string,
}
use trust_chain.Ta.AccessControl.{
  AccessRequest, check_access, read_access, update_key_sets, add_admin, access_request,
}
use trust_chain.Host.Text.{strncpy_bytes}
use trust_chain.Host.Message.{ac_message, op_number, role_number}
use trust_chain.Host.Message.RoundTrip.{ac_message-read}
use trust_chain.Host.Message.Roles.{meant, ac_message-roles}
use trust_chain.Tests.Demo.{demo, demo_repo, demo_state, zeros}
use trust_chain.Ta.Table.{IsSound}
use trust_chain.Tests.Sound.{demo-IsSound}

bob-IsText : IsText (codes "bob")
bob-IsText = (omega arith, (omega arith, (omega arith, tt)))

ann-IsText : IsText (codes "ann")
ann-IsText = (omega arith, (omega arith, (omega arith, tt)))

sig-IsText : IsText (codes "ab12")
sig-IsText = (omega arith, (omega arith, (omega arith, (omega arith, tt))))

bob-AreBytes : All IsByte (codes "bob")
bob-AreBytes = (omega arith, (omega arith, (omega arith, tt)))

ann-AreBytes : All IsByte (codes "ann")
ann-AreBytes = (omega arith, (omega arith, (omega arith, tt)))

sig-AreBytes : All IsByte (codes "ab12")
sig-AreBytes = (omega arith, (omega arith, (omega arith, (omega arith, tt))))

abbrev sent : Buffer
sent = ac_message zeros 0 (codes "ADD") (codes "WRITER") (codes "bob") (codes "ann") (codes "ab12")

ac_message-read_example :
    (load_u32 sent AccessControl.rep_id_at ≡ some 0)
    × (load_u32 sent AccessControl.op_at ≡ some (op_number (codes "ADD")))
    × (load_u32 sent AccessControl.role_at ≡ some (role_number (codes "WRITER")))
    × (load_str sent AccessControl.pubkey_at ≡ some (codes "bob"))
    × (load_str sent AccessControl.sigkey_at ≡ some (codes "ann"))
    × (load_str sent AccessControl.signature_at ≡ some (codes "ab12"))
ac_message-read_example =
    ac_message-read zeros 0 (codes "ADD") (codes "WRITER") (codes "bob") (codes "ann")
      (codes "ab12") (omega arith) bob-IsText ann-IsText sig-IsText (omega arith) (omega arith)
      (omega arith)

-- The TA with the parameters of the host, whose array for the block has 256 bytes.
abbrev receiving : Ta ℕ
receiving = record (demo_state sent) {
  param1 = record { memref = record { size = 256; cell = zeros }; a = 0 };
}

receiving-IsSound : IsSound receiving
receiving-IsSound = record {
  bounded = (demo-IsSound sent).bounded;
  used = (demo-IsSound sent).used;
  unused = (demo-IsSound sent).unused;
}

abbrev asked : AccessRequest
asked = record {
  rep_id = 0;
  op = 0;
  role = 1;
  pubkey = codes "bob";
  sigkey = codes "ann";
  signature = codes "ab12";
  repo = demo_repo;
}

checked_run : (check_access demo 101 receiving).0 ≡ ok asked
unfolding check_access read_access access_request validate_and_get_repo load_str scan write load_u32
    read_u32 store strcpy store_u32 memcpy prefix key_exists_in_set key_in verify_signature
    verify_signature_common public_key_pem_to_obj compute_sha256_hash hex_string_to_bytes
    decode_pairs hex_pair hex_char_to_int decimal digits str_eq write_key fill_key key_of_context
    free_if ac_message op_number role_number strncpy_bytes
checked_run = refl

abbrev after_check : Ta ℕ
after_check = (check_access demo 101 receiving).1

abbrev after_update : Ta ℕ
after_update = (update_key_sets demo 0 demo_repo 0 1 (codes "bob") after_check).1

updated_run : (update_key_sets demo 0 demo_repo 0 1 (codes "bob") after_check).0 ≡ ok tt
unfolding update_key_sets add_admin add_key_to_set find_and_remove_key unlink create_key_node
    copy_key_string key_exists_in_set key_in str_eq
updated_run = refl

ac_message-roles_example :
    (r : Repo) × (r' : Repo) × (receiving.repositories 0 ≡ some r)
    × (after_update.repositories 0 ≡ some r')
    × ((k : Bytes)
        → role_of r' k ≡ (
            if str_eq (codes "bob") k
            then meant (codes "ADD") (codes "WRITER") (role_of r k)
            else role_of r k))
ac_message-roles_example =
    ac_message-roles demo zeros 0 (codes "ADD") (codes "WRITER") (codes "bob") (codes "ann")
      (codes "ab12") 101 receiving after_check after_update asked (omega arith) bob-IsText
      ann-IsText sig-IsText (omega arith) (omega arith) (omega arith) refl receiving-IsSound
      (λ i. (checked_run i, after_check)) (λ i. (updated_run i, after_update))
