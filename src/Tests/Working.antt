-- ===== src/Tests/Working.antt =====
-- The platform of the tests works, and a commit on it succeeds.
use trust_chain.Base.{ℕ, ◌≡◌, refl, codes, [], ◌∷◌, ok, inl, arith, str_eq}
use trust_chain.Memory.{load_str, scan, write, load_u32, read_u32}
use trust_chain.Hex.{hex_string_to_bytes, decode_pairs, hex_pair, hex_char_to_int}
use trust_chain.KeyList.{key_exists_in_set, key_in}
use trust_chain.Utils.{
  verify_signature, verify_signature_common, public_key_pem_to_obj, write_key, fill_key,
  key_of_context, free_if, compute_sha256_hash,
}
use trust_chain.KeyManager.Working.{IsWorking}
use trust_chain.Ta.State.{Ta}
use trust_chain.Ta.Commit.{CommitRequest, commit}
use trust_chain.Ta.Commit.Authorised.{IsAuthorised}
use trust_chain.Ta.Commit.Chain.{Commits}
use trust_chain.Ta.Commit.Succeeds as CommitSucceeds
use trust_chain.Ta.Commit.Succeeds.{commit_succeeds}
use trust_chain.Ta.InitRepo.{init_repo}
use trust_chain.Ta.InitRepo.Chain.{Founds}
use trust_chain.Ta.InitRepo.Succeeds.{IsReady, init_repo_succeeds}
use trust_chain.Tests.Demo.{
  demo, demo_digest, demo-IsDigest, demo_state, demo_repo, commit_message, loaded_state,
}

pub demo-IsWorking : IsWorking demo demo_digest
demo-IsWorking = record {
  allocate_operation = λ a n w. (_, refl);
  set_operation_key = λ op key w. refl;
  digest_do_final = λ op text w. refl;
  digest_bytes = demo-IsDigest.bytes;
  digest_size = λ text. refl;
  asymmetric_sign_digest = λ op digest w. (_, refl, omega arith);
  open_persistent_object = λ id w. (_, refl);
}

abbrev pushed : CommitRequest
pushed = record {
  rep_id = 0;
  op = 2;
  commit_hash = codes "beef";
  sigkey = codes "bob";
  signature = codes "ab12";
  repo = demo_repo;
}

pushed-IsAuthorised : IsAuthorised demo (demo_state commit_message) pushed
unfolding load_str scan write load_u32 read_u32 key_exists_in_set key_in str_eq verify_signature
    verify_signature_common public_key_pem_to_obj write_key fill_key key_of_context free_if
    compute_sha256_hash hex_string_to_bytes decode_pairs hex_pair hex_char_to_int
pushed-IsAuthorised = record {
  rep_id_read = refl;
  op_read = refl;
  commit_hash_read = refl;
  sigkey_read = refl;
  signature_read = refl;
  commits = inl refl;
  exists = refl;
  member = refl;
  signed = refl;
}

pushed-IsReady : CommitSucceeds.IsReady demo (demo_state commit_message) pushed
unfolding load_str scan write hex_string_to_bytes decode_pairs hex_pair hex_char_to_int
pushed-IsReady = record {
  parent = codes "c0de";
  parent_read = refl;
  parent_short = omega arith;
  names_room = omega arith;
  commit_hash_short = omega arith;
  sigkey_short = omega arith;
  signature_short = omega arith;
  encrypted = codes "00";
  cipher = 0 ∷ [];
  key_read = refl;
  key_decoded = refl;
  key_decrypts = λ op w. (_, refl, omega arith);
  key_room = omega arith;
  block_room = omega arith;
}

commit_succeeds_example :
    (s' : Ta ℕ) × (commit demo 1653 (demo_state commit_message) ≡ (ok tt, s'))
    × Commits demo demo_digest (demo_state commit_message) s'
commit_succeeds_example =
    commit_succeeds demo demo_digest demo-IsWorking (omega arith) (demo_state commit_message) pushed
      (omega arith) pushed-IsAuthorised pushed-IsReady

init_message-IsReady : IsReady loaded_state (codes "eve")
unfolding load_str scan write
init_message-IsReady = record {
  place = omega arith;
  key_read = refl;
  key_short = omega arith;
  block_room = omega arith;
}

init_repo_succeeds_example :
    (s' : Ta ℕ) × (init_repo demo 1573 loaded_state ≡ (ok tt, s'))
    × Founds demo_digest 0 (codes "eve") loaded_state s'
init_repo_succeeds_example =
    init_repo_succeeds demo demo_digest demo-IsWorking (omega arith) (λ a n w. refl) loaded_state
      (codes "eve") init_message-IsReady
