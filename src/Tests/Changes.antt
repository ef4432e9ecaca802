-- ===== src/Tests/Changes.antt =====
-- A change of the key sets that succeeds on the platform of the tests.
use trust_chain.Base.{ℕ, ◌≡◌, refl, codes, ok, inl, arith, str_eq}
use trust_chain.Memory.{load_str, scan, write, load_u32, read_u32}
use trust_chain.Hex.{hex_string_to_bytes, decode_pairs, hex_pair, hex_char_to_int}
use trust_chain.Hex.RoundTrip.{IsByte}
use trust_chain.KeyList.{key_exists_in_set, key_in}
use trust_chain.Utils.{
  verify_signature, verify_signature_common, public_key_pem_to_obj, write_key, fill_key,
  key_of_context, free_if, compute_sha256_hash,
}
use trust_chain.Ta.State.{Ta}
use trust_chain.Ta.AccessControl.{AccessRequest, access_control}
use trust_chain.Ta.AccessControl.Authorised.{IsAuthorised}
use trust_chain.Ta.AccessControl.Chain.{Changes}
use trust_chain.Ta.AccessControl.Succeeds.{IsReady, access_control_succeeds}
use trust_chain.Tests.Demo.{demo, demo_digest, demo_state, demo_repo, access_message}
use trust_chain.Tests.Sound.{demo-IsSound}
use trust_chain.Tests.Working.{demo-IsWorking}

abbrev promoted : AccessRequest
promoted = record {
  rep_id = 0;
  op = 0;
  role = 1;
  pubkey = codes "bob";
  sigkey = codes "ann";
  signature = codes "ab12";
  repo = demo_repo;
}

promoted-IsAuthorised : IsAuthorised demo (demo_state access_message) promoted
unfolding load_str scan write load_u32 read_u32 key_exists_in_set key_in str_eq verify_signature
    verify_signature_common public_key_pem_to_obj write_key fill_key key_of_context free_if
    compute_sha256_hash hex_string_to_bytes decode_pairs hex_pair hex_char_to_int
promoted-IsAuthorised = record {
  rep_id_read = refl;
  op_read = refl;
  role_read = refl;
  pubkey_read = refl;
  sigkey_read = refl;
  signature_read = refl;
  changes_keys = inl refl;
  exists = refl;
  admin = refl;
  signed = refl;
}

promoted-IsReady : IsReady (demo_state access_message) promoted
unfolding load_str scan write key_exists_in_set key_in str_eq
promoted-IsReady = record {
  applicable = refl;
  parent = codes "c0de";
  parent_read = refl;
  parent_short = omega arith;
  names_room = omega arith;
  pubkey_short = omega arith;
  sigkey_short = omega arith;
  signature_short = omega arith;
  block_room = omega arith;
}

message-IsByte : (a : ℕ) → IsByte ((demo_state access_message).param0.memref.cell a)
unfolding write
message-IsByte a = ground arith

access_control_succeeds_example :
    (s' : Ta ℕ) × (access_control demo 101 (demo_state access_message) ≡ (ok tt, s'))
    × Changes demo demo_digest (demo_state access_message) s'
access_control_succeeds_example =
    access_control_succeeds demo demo_digest demo-IsWorking (omega arith) (λ a n w. refl)
      (demo_state access_message) promoted (demo-IsSound access_message) message-IsByte
      (omega arith) promoted-IsAuthorised promoted-IsReady
