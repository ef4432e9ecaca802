-- ===== src/Host/Handlers.antt =====
-- host/main.c: the handlers of the four requests. They send their answers by
-- `send_json_response`; a `return;` behind one is the end of the branch. `stack` is what the stack holds where a handler's locals lie.
use trust_chain.Base.{
  ℕ, ◌+◌, ◌%◌, ◌^◌, Bytes, codes, [], ◌∷◌, ◌++◌, Option, none, some, length, take, Action, ok, err,
  fault, defined, ◌>>=◌, ◌>>◌, modify, finally,
}
use trust_chain.Memory.{Cells, Buffer, write, load_str}
use trust_chain.Ta.State.{
  tee_param_types, no_param, value_input, value_output, memref_input, memref_output,
}
use trust_chain.Ta.{cmd_init_repo, cmd_access_control, cmd_get_latest_hash, cmd_commit}
use trust_chain.Host.Libraries.{Libraries, Param, Operation}
use trust_chain.Host.Message
use trust_chain.Host.Message.{ac_message}
use trust_chain.Host.Answer.{genesis_json, send_json_response}

-- A C string that is passed on with its NUL.
abbrev pub text_buffer : Bytes → Buffer
text_buffer s = record { size = length s + 1; cell = write (λ _. 0) 0 (s ++ 0 ∷ []) }

abbrev pub no_buffer : Buffer
no_buffer = record { size = 0; cell = λ _. 0 }

-- What `memset` leaves in a parameter, and what the handlers put into one.
abbrev pub unset : Param
unset = record { tmpref = no_buffer; a = 0; b = 0 }

abbrev pub tmpref_param : Buffer → Param
tmpref_param b = record { tmpref = b; a = 0; b = 0 }

abbrev pub value_param : ℕ → ℕ → Param
value_param a b = record { tmpref = no_buffer; a = a; b = b }

-- struct access_block as the host declares it, with a `uint64_t` time and padding at its end
abbrev pub access_block_size : ℕ
access_block_size = 2136

module _ {W J : Type 0} (lib : Libraries W J) (stack : Cells) where
  -- json_is_string and json_string_value, or json_is_integer and json_integer_value, of a member.
  abbrev string_member : J → Bytes → Option Bytes
  string_member root name = elim (lib.json_object_get root name) [
    | none ↦ none
    | some j ↦ lib.json_string j
  ]

  abbrev integer_member : J → Bytes → Option ℕ
  integer_member root name = elim (lib.json_object_get root name) [
    | none ↦ none
    | some j ↦ lib.json_integer j
  ]

  -- `parse_json_request`
  abbrev pub parse_json_request : Bytes → Action W (Option J)
  parse_json_request body w = let (root, w') = lib.json_loads body w in (ok root, w')

  abbrev send : ℕ → Bytes → Action W (Unit {0})
  send status json = send_json_response lib status json

  -- The answer to a body that is not JSON.
  abbrev invalid_json : Action W (Unit {0})
  invalid_json = send 400 (codes "{\"error\":\"Invalid JSON\"}")

  -- `json_decref(root); send_json_response(client_socket, 400, json);`
  abbrev rejected : J → Bytes → Action W (Unit {0})
  rejected root json = modify (lib.json_decref root) >> send 400 json

  -- TEEC_InvokeCommand, after which the root is given back.
  abbrev pub invoked : J → ℕ → Operation → Action W Operation
  invoked root cmd_id o = finally (lib.invoke_command cmd_id o) (lib.json_decref root)

  -- What is done with the result of TEEC_InvokeCommand.
  abbrev pub answered :
      Action W Operation
      → (Operation → Action W (Unit {0}))
      → Action W (Unit {0})
      → Action W (Unit {0})
  answered m succeeded failed w =
      let (r, w') = m w in
      elim r [ ok o ↦ succeeded o w' | err _ ↦ failed w' | fault ↦ (fault, w') ]

  abbrev pub init_operation : Bytes → Operation
  init_operation admin_key = record {
    param_types = tee_param_types memref_input value_output memref_output no_param;
    param0 = tmpref_param (text_buffer admin_key);
    param1 = value_param 0 0;
    param2 = tmpref_param (record { size = access_block_size; cell = stack });
    param3 = unset;
  }

  unfoldable pub handle_init_repo : Bytes → Action W (Unit {0})
  handle_init_repo body = do
    parsed ← parse_json_request body
    elim parsed [
      | none ↦ invalid_json
      | some root ↦ elim (string_member root (codes "admin_key")) [
        | none ↦ rejected root (codes "{\"error\":\"Missing required field: admin_key\"}")
        | some admin_key ↦
            answered (invoked root cmd_init_repo (init_operation admin_key))
              (λ o. do json ← genesis_json o.param1.a o.param2.tmpref; send 200 json)
              (send 500 (codes "{\"error\":\"Failed to initialize repository\"}"))
      ]
    ]

  abbrev pub commit_operation : ℕ → Bytes → Bytes → Operation
  commit_operation repo_id pubkey branch = record {
    param_types = tee_param_types value_input value_input memref_input memref_input;
    param0 = value_param repo_id Message.op_push;
    param1 = unset;
    param2 = tmpref_param (text_buffer pubkey);
    param3 = tmpref_param (text_buffer branch);
  }

  unfoldable pub handle_commit : Bytes → Action W (Unit {0})
  handle_commit body = do
    parsed ← parse_json_request body
    elim parsed [
      | none ↦ invalid_json
      | some root ↦
          let missing = codes "{\"error\":\"Missing required fields: repo_id, pubkey, branch\"}" in
          elim (integer_member root (codes "repo_id")) [
            | none ↦ rejected root missing
            | some repo_id ↦ elim (string_member root (codes "pubkey")) [
              | none ↦ rejected root missing
              | some pubkey ↦ elim (string_member root (codes "branch")) [
                | none ↦ rejected root missing
                | some branch ↦
                    answered
                      (invoked root cmd_commit (commit_operation (repo_id % 2 ^ 32) pubkey branch))
                      (λ _. send 200 (codes "{\"status\":\"success\"}"))
                      (send 500 (codes "{\"error\":\"Failed to commit\"}"))
              ]
            ]
          ]
    ]

  -- The message lies on the stack, and so does the array of 256 bytes for the block.
  abbrev pub access_operation : ℕ → Bytes → Bytes → Bytes → Bytes → Bytes → Operation
  access_operation repo_id operation role public_key signature_key signature = record {
    param_types = tee_param_types memref_input memref_output no_param no_param;
    param0 =
        tmpref_param (ac_message stack repo_id operation role public_key signature_key signature);
    param1 = tmpref_param (record { size = 256; cell = stack });
    param2 = unset;
    param3 = unset;
  }

  unfoldable pub handle_access_control : Bytes → Action W (Unit {0})
  handle_access_control body = do
    parsed ← parse_json_request body
    elim parsed [
      | none ↦ invalid_json
      | some root ↦
          let missing = codes "{\"error\":\"Missing required fields\"}" in
          elim (integer_member root (codes "repo_id")) [
            | none ↦ rejected root missing
            | some repo_id ↦ elim (string_member root (codes "operation")) [
              | none ↦ rejected root missing
              | some operation ↦ elim (string_member root (codes "role")) [
                | none ↦ rejected root missing
                | some role ↦ elim (string_member root (codes "public_key")) [
                  | none ↦ rejected root missing
                  | some public_key ↦ elim (string_member root (codes "signature_key")) [
                    | none ↦ rejected root missing
                    | some signature_key ↦ elim (string_member root (codes "signature")) [
                      | none ↦ rejected root missing
                      | some signature ↦
                          answered
                            (invoked root cmd_access_control (
                              access_operation (repo_id % 2 ^ 32) operation role public_key
                                signature_key signature))
                            (λ _. send 200 (codes "{\"status\":\"success\"}"))
                            (send 500 (codes "{\"error\":\"Failed to perform access control\"}"))
                    ]
                  ]
                ]
              ]
            ]
          ]
    ]

  abbrev pub hash_operation : ℕ → Operation
  hash_operation repo_id = record {
    param_types = tee_param_types value_input memref_output no_param no_param;
    param0 = value_param repo_id 0;
    param1 = tmpref_param (record { size = 256; cell = stack });
    param2 = unset;
    param3 = unset;
  }

  unfoldable pub handle_get_latest_hash : ℕ → Action W (Unit {0})
  handle_get_latest_hash repo_id =
      answered (lib.invoke_command cmd_get_latest_hash (hash_operation repo_id))
        (λ o. do
          hash ← defined (load_str (o.param1.tmpref) 0)
          send 200 (
              take 511 (codes "{\"status\":\"success\",\"latest_hash\":\"" ++ hash ++ codes "\"}")))
        (send 500 (codes "{\"error\":\"Failed to get latest hash\"}"))
