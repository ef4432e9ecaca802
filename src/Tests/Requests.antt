-- ===== src/Tests/Requests.antt =====
-- The host on a TA of the tests.
use trust_chain.Base.{
  ℕ, ◌≡◌, ◌≢◌, refl, Bytes, codes, [], ◌∷◌, some, none, Outcome, ok, err, fault, Action, arith,
  replicate, inl, str_eq, ◌+◌, if◌then◌else◌,
}
use trust_chain.Memory.Laws.{IsText}
use trust_chain.Ta.State.{Ta}
use trust_chain.Ta.{invoke_command}
use trust_chain.Ta.State.{validate_and_get_repo}
use trust_chain.Memory.{
  load_str, scan, write, load_u32, read_u32, store, strcpy, store_u32, memcpy, prefix,
}
use trust_chain.KeyList.{key_exists_in_set, key_in}
use trust_chain.Utils.{
  verify_signature, verify_signature_common, public_key_pem_to_obj, write_key, fill_key,
  key_of_context, free_if, compute_sha256_hash, hash_data, get_trust_time,
}
use trust_chain.Hex.{
  hex_string_to_bytes, decode_pairs, hex_pair, hex_char_to_int, hex, hex_digit, bytes_to_hex_string,
}
use trust_chain.Decimal.{decimal, digits}
use trust_chain.KeyManager.{tee_sign_hash, load_or_generate_key_pair}
use trust_chain.Block.{init_base_block, base_text}
use trust_chain.Block.{init_access_block, calculate_access_block_hash, access_text}
use trust_chain.KeyList.{add_key_to_set, create_key_node, copy_key_string}
use trust_chain.Ta.InitRepo.{
  init_repo, create_repo, allocate_repo, add_founder, genesis_block, return_repo,
}
use trust_chain.Host.Libraries.{Libraries, Operation}
use trust_chain.Host.Text.{behind}
use trust_chain.Host.Answer.{genesis_json, send_json_response}
use trust_chain.Host.Successes.{is_success, CountsSuccesses}
use trust_chain.Host.Handlers.{handle_init_repo}
use trust_chain.Host.Http.{parse_request, handle_http_request}
use trust_chain.Host.Connected.{carried, returned, IsConnected, handle_init_repo-Founds}
use trust_chain.Host.RequestLine.{
  IsWord, request_line, parse_request-line, handle_http_request-overflow,
}
use trust_chain.Tests.Demo.{demo, demo_digest, loaded_state, zeros}
use trust_chain.Ta.InitRepo.Chain.{Founds}
use trust_chain.Tests.Working.{demo-IsWorking}

abbrev delivery : ℕ → Operation → Action (Ta ℕ) Operation
delivery cmd_id o s =
    let (r, s') = invoke_command demo cmd_id o.param_types (carried o s) in
    elim r [
      | ok _ ↦ (ok (returned o.param_types s'), s')
      | err e ↦ (err e, s')
      | fault ↦ (fault, s')
    ]

abbrev delivered : ℕ → Operation → Action (Ta ℕ × ℕ) Operation
delivered cmd_id o w = let (r, s') = delivery cmd_id o w.0 in (r, (s', w.1))

-- The state is the TA and the number of answers with status 200. A JSON value is its text; every
-- member is the text "eve" and the number 0.
abbrev connected : Libraries (Ta ℕ × ℕ) Bytes
connected = record {
  initialize_context = λ s. (ok tt, s);
  finalize_context = λ s. s;
  open_session = λ s. (ok tt, s);
  close_session = λ s. s;
  invoke_command = delivered;
  json_loads = λ body s. (some body, s);
  json_decref = λ j s. s;
  json_object_get = λ root name. some root;
  json_string = λ j. some (codes "eve");
  json_integer = λ j. some 0;
  write = λ text w. (w.0, if is_success text then 1 + w.1 else w.1);
}

delivery-state :
    (cmd_id : ℕ) (o : Operation) (s : Ta ℕ)
    → (delivery cmd_id o s).1 ≡ (invoke_command demo cmd_id o.param_types (carried o s)).1
delivery-state cmd_id o s = ground arith

delivery-success :
    (cmd_id : ℕ) (o : Operation) (s : Ta ℕ)
    → let (r, s') = invoke_command demo cmd_id o.param_types (carried o s) in
      r ≡ ok tt → (delivery cmd_id o s).0 ≡ ok (returned o.param_types s')
delivery-success cmd_id o s run = ground (arith, run)

eve-IsText : IsText (codes "eve")
eve-IsText = (omega arith, (omega arith, (omega arith, tt)))

connected-IsConnected : IsConnected connected demo (λ w. w.0)
connected-IsConnected = record {
  state = λ cmd_id o w. delivery-state cmd_id o w.0;
  success = λ cmd_id o w. delivery-success cmd_id o w.0;
  loads_state = λ body w. refl;
  decref_state = λ j w. refl;
  write_state = λ text w. refl;
}

connected-CountsSuccesses : CountsSuccesses connected (λ w. w.1)
connected-CountsSuccesses = record {
  write = λ text w. refl;
  invoke = λ cmd_id o w. refl;
  loads = λ body w. refl;
  decref = λ j w. refl;
}

abbrev founded : Outcome (Unit {0}) × (Ta ℕ × ℕ)
founded = handle_init_repo connected zeros (codes "{}") (loaded_state, 0)

handle_init_repo-Founds_example :
    Founds demo_digest 0 (codes "eve") loaded_state founded.1.0
    × (founded.0 ≡ ok tt → founded.1.1 ≡ 1)
handle_init_repo-Founds_example =
    handle_init_repo-Founds connected zeros demo (λ w. w.0) demo_digest connected-IsConnected
      demo-IsWorking (omega arith) (λ a n w. refl) (λ w. w.1) connected-CountsSuccesses (codes "{}")
      (codes "eve") (codes "{}") (codes "{}") (loaded_state, 0) refl refl refl eve-IsText
      (omega arith) (omega arith)

-- The handler returns there, after its answer.
founded_run : founded.0 ≡ ok tt
unfolding invoke_command init_repo create_repo allocate_repo add_founder genesis_block return_repo
    init_access_block calculate_access_block_hash access_text add_key_to_set create_key_node
    copy_key_string validate_and_get_repo load_str scan write load_u32 read_u32 store strcpy
    store_u32 memcpy prefix key_exists_in_set key_in verify_signature verify_signature_common
    public_key_pem_to_obj compute_sha256_hash hash_data get_trust_time hex_string_to_bytes
    decode_pairs hex_pair hex_char_to_int hex hex_digit bytes_to_hex_string decimal digits
    tee_sign_hash load_or_generate_key_pair init_base_block base_text str_eq write_key fill_key
    key_of_context free_if handle_init_repo genesis_json send_json_response
founded_run = refl

some-ne-none : (c : ℕ) (s : Bytes) → (c ∷ s) ≢ []
some-ne-none c s e = ground (arith, e)

get-IsWord : IsWord (codes "GET")
get-IsWord = (some-ne-none _ _, ground arith)

path-IsWord : IsWord (codes "/latest-hash/0")
path-IsWord = (some-ne-none _ _, ground arith)

slash-IsWord : IsWord (codes "/")
slash-IsWord = (some-ne-none _ _, ground arith)

long-IsWord : IsWord (replicate 16 b'A')
long-IsWord = (some-ne-none _ _, ground arith)

abbrev options : Bytes
options = request_line (codes "GET") (codes "/latest-hash/0") (codes "HTTP/1.1\r\n\r\n")

parse_request-line_example :
    parse_request options
    ≡ some (
      codes "GET",
      codes "/latest-hash/0",
      elim (behind (codes "\r\n\r\n") options) [ none ↦ [] | some body ↦ body ],
    )
parse_request-line_example =
    parse_request-line (codes "GET") (codes "/latest-hash/0") (codes "HTTP/1.1\r\n\r\n") get-IsWord
      path-IsWord (omega arith) (omega arith)

handle_http_request-overflow_example :
    handle_http_request connected zeros
      (request_line (replicate 16 b'A') (codes "/") (codes "HTTP/1.1\r\n\r\n"))
      (loaded_state, 0)
    ≡ (fault, (loaded_state, 0))
handle_http_request-overflow_example =
    handle_http_request-overflow connected zeros (replicate 16 b'A') (codes "/")
      (codes "HTTP/1.1\r\n\r\n") (loaded_state, 0) long-IsWord slash-IsWord (inl (omega arith))
