-- ===== src/Tests/Runs.antt =====
-- The three commands that change repositories, each on one message, and what the properties say of
-- the runs.
use trust_chain.Base.{◌≡◌, refl, ok, str_eq}
use trust_chain.Tests.Demo.{
  demo, demo_state, loaded_state, commit_message, access_message, init_message,
}
use trust_chain.Ta.{invoke_command, cmd_init_repo}
use trust_chain.Ta.State.{validate_and_get_repo}
use trust_chain.Ta.Commit.{
  commit, check_commit, read_commit, apply_commit, contribution_block, decrypt_key, commit_request,
}
use trust_chain.Memory.{
  load_str, scan, write, load_u32, read_u32, store, strcpy, store_u32, memcpy, prefix,
}
use trust_chain.KeyList.{key_exists_in_set, key_in}
use trust_chain.Utils.{
  verify_signature, verify_signature_common, public_key_pem_to_obj, write_key, fill_key,
  key_of_context, free_if, compute_sha256_hash, hash_data, get_trust_time,
}
use trust_chain.Hex.{
  hex_string_to_bytes, decode_pairs, hex_pair, hex_char_to_int, hex, hex_digit, bytes_to_hex_string,
}
use trust_chain.Decimal.{decimal, digits}
use trust_chain.Ta.Query.{get_latest_hash}
use trust_chain.KeyManager.{
  tee_sign_data, tee_sign_hash, load_or_generate_key_pair, tee_decrypt_data,
}
use trust_chain.Block.{
  init_base_block, init_contribution_block, calculate_contribution_block_hash, contribution_text,
  base_text,
}
use trust_chain.Block.{init_access_block, calculate_access_block_hash, access_text}
use trust_chain.KeyList.{
  add_key_to_set, find_and_remove_key, unlink, create_key_node, copy_key_string,
}
use trust_chain.Ta.AccessControl.{
  access_control, check_access, read_access, apply_access, update_key_sets, add_admin,
  append_access_block, access_request,
}
use trust_chain.Ta.InitRepo.{
  init_repo, create_repo, allocate_repo, add_founder, genesis_block, return_repo,
}

pub commit_run : (commit demo 1653 (demo_state commit_message)).0 ≡ ok tt
unfolding commit check_commit read_commit apply_commit contribution_block decrypt_key commit_request
    tee_decrypt_data init_contribution_block calculate_contribution_block_hash contribution_text
    validate_and_get_repo load_str scan write load_u32 read_u32 store strcpy store_u32 memcpy prefix
    key_exists_in_set key_in verify_signature verify_signature_common public_key_pem_to_obj
    write_key fill_key key_of_context free_if compute_sha256_hash hash_data get_trust_time
    hex_string_to_bytes decode_pairs hex_pair hex_char_to_int hex hex_digit bytes_to_hex_string
    decimal digits tee_sign_hash load_or_generate_key_pair init_base_block base_text str_eq
commit_run = refl

pub access_control_run : (access_control demo 101 (demo_state access_message)).0 ≡ ok tt
unfolding access_control check_access read_access apply_access update_key_sets add_admin
    append_access_block access_request init_access_block calculate_access_block_hash access_text
    add_key_to_set find_and_remove_key unlink create_key_node copy_key_string validate_and_get_repo
    load_str scan write load_u32 read_u32 store strcpy store_u32 memcpy prefix key_exists_in_set
    key_in verify_signature verify_signature_common public_key_pem_to_obj write_key fill_key
    key_of_context free_if compute_sha256_hash hash_data get_trust_time hex_string_to_bytes
    decode_pairs hex_pair hex_char_to_int hex hex_digit bytes_to_hex_string decimal digits
    tee_sign_hash load_or_generate_key_pair init_base_block base_text str_eq
access_control_run = refl

pub init_repo_run : (init_repo demo 1573 (demo_state init_message)).0 ≡ ok tt
unfolding init_repo create_repo allocate_repo add_founder genesis_block return_repo
    init_access_block calculate_access_block_hash access_text add_key_to_set create_key_node
    copy_key_string validate_and_get_repo load_str scan write load_u32 read_u32 store strcpy
    store_u32 memcpy prefix key_exists_in_set key_in verify_signature verify_signature_common
    public_key_pem_to_obj write_key fill_key key_of_context free_if compute_sha256_hash hash_data
    get_trust_time hex_string_to_bytes decode_pairs hex_pair hex_char_to_int hex hex_digit
    bytes_to_hex_string decimal digits tee_sign_hash load_or_generate_key_pair init_base_block
    base_text str_eq
init_repo_run = refl

pub loaded_run : (invoke_command demo cmd_init_repo 1573 loaded_state).0 ≡ ok tt
unfolding invoke_command init_repo create_repo allocate_repo add_founder genesis_block return_repo
    init_access_block calculate_access_block_hash access_text add_key_to_set create_key_node
    copy_key_string validate_and_get_repo load_str scan write load_u32 read_u32 store strcpy
    store_u32 memcpy prefix key_exists_in_set key_in verify_signature verify_signature_common
    public_key_pem_to_obj write_key fill_key key_of_context free_if compute_sha256_hash hash_data
    get_trust_time hex_string_to_bytes decode_pairs hex_pair hex_char_to_int hex hex_digit
    bytes_to_hex_string decimal digits tee_sign_hash load_or_generate_key_pair init_base_block
    base_text str_eq
loaded_run = refl

pub get_latest_hash_run : (get_latest_hash demo 26129 (demo_state init_message)).0 ≡ ok tt
unfolding get_latest_hash tee_sign_data validate_and_get_repo load_str scan write load_u32 read_u32
    store strcpy store_u32 memcpy prefix key_exists_in_set key_in verify_signature
    verify_signature_common public_key_pem_to_obj write_key fill_key key_of_context free_if
    compute_sha256_hash hash_data get_trust_time hex_string_to_bytes decode_pairs hex_pair
    hex_char_to_int hex hex_digit bytes_to_hex_string decimal digits tee_sign_hash
    load_or_generate_key_pair init_base_block base_text str_eq
get_latest_hash_run = refl
