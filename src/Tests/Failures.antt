-- ===== src/Tests/Failures.antt =====
-- Commands that fail late, and a run of the TA.
use trust_chain.Base.{ℕ, ◌≡◌, ◌⊎◌, refl, err, generic, arith, str_eq}
use trust_chain.Hex.RoundTrip.{IsByte}
use trust_chain.Platform.{Platform}
use trust_chain.Ta.State.{Ta}
use trust_chain.Ta.AccessControl.Atomic.{head_at}
use trust_chain.Ta.Failed.{invoke_command_failed}
use trust_chain.Ta.Ledger.{HaveLedgers}
use trust_chain.Ta.History.{IsRun, started, served}
use trust_chain.Ta.Ledger.Runs.{run-HaveLedgers}
use trust_chain.Tests.Sound.{demo-IsSound}
use trust_chain.Tests.Runs.{loaded_run}
use trust_chain.Tests.Demo.{
  demo, demo_state, demo_digest, demo-IsDigest, loaded_state, access_message,
}
use trust_chain.Ta.{invoke_command, cmd_init_repo, cmd_access_control}
use trust_chain.Ta.State.{validate_and_get_repo}
use trust_chain.Memory.{
  load_str, scan, write, load_u32, read_u32, store, strcpy, store_u32, memcpy, prefix,
}
use trust_chain.KeyList.{key_exists_in_set, key_in}
use trust_chain.Utils.{
  verify_signature, verify_signature_common, public_key_pem_to_obj, write_key, fill_key,
  key_of_context, free_if, compute_sha256_hash, hash_data, get_trust_time,
}
use trust_chain.Hex.{
  hex_string_to_bytes, decode_pairs, hex_pair, hex_char_to_int, hex, hex_digit, bytes_to_hex_string,
}
use trust_chain.Decimal.{decimal, digits}
use trust_chain.KeyManager.{tee_sign_hash, load_or_generate_key_pair}
use trust_chain.Block.{init_base_block, base_text}
use trust_chain.Block.{init_access_block, calculate_access_block_hash, access_text}
use trust_chain.KeyList.{
  add_key_to_set, find_and_remove_key, unlink, create_key_node, copy_key_string,
}
use trust_chain.Ta.AccessControl.{
  access_control, check_access, read_access, apply_access, update_key_sets, add_admin,
  append_access_block, access_request,
}

-- Nothing can be signed.
abbrev unsigning : Platform ℕ
unsigning = record demo { asymmetric_sign_digest = λ o digest w. (err generic, w) }

access_control_failed_run :
    (access_control unsigning 101 (demo_state access_message)).0 ≡ err generic
unfolding access_control check_access read_access apply_access update_key_sets add_admin
    append_access_block access_request init_access_block calculate_access_block_hash access_text
    add_key_to_set find_and_remove_key unlink create_key_node copy_key_string validate_and_get_repo
    load_str scan write load_u32 read_u32 store strcpy store_u32 memcpy prefix key_exists_in_set
    key_in verify_signature verify_signature_common public_key_pem_to_obj write_key fill_key
    key_of_context free_if compute_sha256_hash hash_data get_trust_time hex_string_to_bytes
    decode_pairs hex_pair hex_char_to_int hex hex_digit bytes_to_hex_string decimal digits
    tee_sign_hash load_or_generate_key_pair init_base_block base_text str_eq
access_control_failed_run = refl

abbrev not_appended : Ta ℕ
not_appended = (invoke_command unsigning cmd_access_control 101 (demo_state access_message)).1

not_appended_run :
    invoke_command unsigning cmd_access_control 101 (demo_state access_message)
    ≡ (err generic, not_appended)
unfolding invoke_command
not_appended_run = λ i. (access_control_failed_run i, not_appended)

invoke_command_failed_example :
    (not_appended.repo_num ≡ 1)
    × ((j : ℕ)
        → head_at (not_appended.repositories j)
          ≡ head_at ((demo_state access_message).repositories j))
    × ((cmd_access_control ≡ cmd_access_control)
        ⊎ ((j : ℕ) → not_appended.repositories j ≡ (demo_state access_message).repositories j))
invoke_command_failed_example =
    invoke_command_failed unsigning cmd_access_control 101 (demo_state access_message) not_appended
      generic (demo-IsSound access_message) not_appended_run

abbrev pub served_once : Ta ℕ
served_once = (invoke_command demo cmd_init_repo 1573 loaded_state).1

founder-IsByte : (a : ℕ) → IsByte (loaded_state.param0.memref.cell a)
unfolding write
founder-IsByte a = ground arith

pub one_command : IsRun demo served_once.repo_num served_once.repositories
one_command =
    served cmd_init_repo 1573 loaded_state started founder-IsByte (ground (arith, loaded_run))

run-HaveLedgers_example : HaveLedgers demo demo_digest served_once.repositories
run-HaveLedgers_example =
    run-HaveLedgers demo demo_digest served_once.repo_num served_once.repositories demo-IsDigest
      one_command
