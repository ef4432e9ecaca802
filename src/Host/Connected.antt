-- ===== src/Host/Connected.antt =====
-- What a request for a new repository leaves in the TA behind the host.
use trust_chain.Base.{
  ℕ, ◌+◌, ◌<◌, ◌≡◌, true, Bytes, codes, length, some, ok, arith, sym, subst, ◌∙◌, ap, Outcome-cases,
  inl, inr, ◌>>=◌,
}
use trust_chain.Memory.{Cells, Buffer, load_str}
use trust_chain.Memory.Laws.{IsText, scan-write}
use trust_chain.Platform.{Allocation, Platform}
use trust_chain.KeyManager.Working.{IsWorking}
use trust_chain.Ta.State.{TeeParam, Ta, max_repo_id}
use trust_chain.Ta.InitRepo.Chain.{Founds}
use trust_chain.Ta.InitRepo.Succeeds.{IsReady, init_repo_succeeds}
use trust_chain.Ta.{invoke_command, cmd_init_repo}
use trust_chain.Host.Libraries.{Libraries, Param, Operation}
use trust_chain.Host.Answer.{genesis_json, send_json_response}
use trust_chain.Host.Successes.{CountsSuccesses, sent_200}
use trust_chain.Host.Handlers.{text_buffer, init_operation, handle_init_repo}

-- The TA with the parameters of an operation.
abbrev pub carried : {V : Type 0} → Operation → Ta V → Ta V
carried o s = record s {
  param0 = record { memref = o.param0.tmpref; a = o.param0.a };
  param1 = record { memref = o.param1.tmpref; a = o.param1.a };
  param2 = record { memref = o.param2.tmpref; a = o.param2.a };
  param3 = record { memref = o.param3.tmpref; a = o.param3.a };
}

abbrev back : TeeParam → Param
back q = record { tmpref = q.memref; a = q.a; b = 0 }

-- The operation as the TA leaves it.
abbrev pub returned : {V : Type 0} → ℕ → Ta V → Operation
returned types s = record {
  param_types = types;
  param0 = back s.param0;
  param1 = back s.param1;
  param2 = back s.param2;
  param3 = back s.param3;
}

-- The client's state holds the TA, which `ta` gives; a command runs there on the parameters of the
-- client, and what it wrote to them comes back. JSON values and sockets are no part of the TA.
pub record IsConnected {W J V : Type 0} (lib : Libraries W J) (p : Platform V) (ta : W → Ta V)
    : Type 0 where
  pub state :
      (cmd_id : ℕ) (o : Operation) (w : W)
      → ta (lib.invoke_command cmd_id o w).1
        ≡ (invoke_command p cmd_id o.param_types (carried o (ta w))).1
  pub success :
      (cmd_id : ℕ) (o : Operation) (w : W)
      → let (r, s') = invoke_command p cmd_id o.param_types (carried o (ta w)) in
        r ≡ ok tt → (lib.invoke_command cmd_id o w).0 ≡ ok (returned o.param_types s')
  pub loads_state : (body : Bytes) (w : W) → ta (lib.json_loads body w).1 ≡ ta w
  pub decref_state : (j : J) (w : W) → ta (lib.json_decref j w) ≡ ta w
  pub write_state : (text : Bytes) (w : W) → ta (lib.write text w) ≡ ta w

-- A C string that the host passes on is read as it was.
text_buffer-read : (key : Bytes) → IsText key → load_str (text_buffer key) 0 ≡ some key
unfolding load_str
text_buffer-read key text =
    ground (arith, scan-write (length key + 1) (λ _. 0) 0 key text (omega arith))

genesis_json-state : {W : Type 0} (id : ℕ) (b : Buffer) (w : W) → (genesis_json id b w).1 ≡ w
unfolding genesis_json
genesis_json-state id b w = ground arith

module _ {W J V : Type 0} (lib : Libraries W J) (stack : Cells) (p : Platform V) (ta : W → Ta V)
    (sha : Bytes → Bytes) (connected : IsConnected lib p ta) (working : IsWorking p sha)
    (spare : 64 < p.hash_room)
    (has_memory : (a : Allocation) (n : ℕ) (w : V) → (p.malloc a n w).0 ≡ true) (successes : W → ℕ)
    (counts : CountsSuccesses lib successes) where
  sent_state :
      (status : ℕ) (json : Bytes) (w : W) → ta (send_json_response lib status json w).1 ≡ ta w
  unfolding send_json_response
  sent_state status json w = connected.write_state _ w

  -- What follows a successful call: the answer with the block, and nothing in the TA.
  answer_genesis :
      (id : ℕ) (b : Buffer) (w : W)
      → let (r, w') = (do json ← genesis_json id b; send_json_response lib 200 json) w in
        (ta w' ≡ ta w) × (r ≡ ok tt → successes w' ≡ 1 + successes w)
  answer_genesis id b w =
      let w₁ = (genesis_json id b w).1 in
      let same = genesis_json-state id b w in
      elim (Outcome-cases (genesis_json id b w).0) [
        | inl (json, e) ↦ (
          ground (arith, e, same, sent_state 200 json w₁),
          λ _. ground (arith, e, same, sent_200 lib successes counts json w₁),
        )
        | inr (inl (e', failed)) ↦
            (ground (arith, failed, same), λ run. absurd (ground (arith, failed, run)))
        | inr (inr broken) ↦
            (ground (arith, broken, same), λ run. absurd (ground (arith, broken, run)))
      ]

  -- Where the host is connected with the TA, and the TA's platform works, has memory, and leaves a
  -- byte to spare behind the hash array, a request with
  -- a JSON object whose `admin_key` is a text of fewer than 512 characters makes a repository with
  -- that founder at the place `repo_num` of the TA, if there are fewer than 1000; no other repository
  -- changes, and where the handler returns, it has sent exactly one answer with status 200.
  pub handle_init_repo-Founds :
      (body key : Bytes) (root j : J) (w : W)
      → (lib.json_loads body w).0 ≡ some root
      → lib.json_object_get root (codes "admin_key") ≡ some j
      → lib.json_string j ≡ some key
      → IsText key
      → length key < 512
      → (ta w).repo_num < max_repo_id
      → let (r, w') = handle_init_repo lib stack body w in
        Founds sha (ta w).repo_num key (ta w) (ta w') × (r ≡ ok tt → successes w' ≡ 1 + successes w)
  unfolding handle_init_repo invoke_command
  handle_init_repo-Founds body key root j w loads member is_string text short place =
      let o = init_operation lib stack key in
      let w₁ = (lib.json_loads body w).1 in
      let ready : IsReady (carried o (ta w)) key = record {
        place = place;
        key_read = text_buffer-read key text;
        key_short = short;
        block_room = omega arith;
      } in
      let (s', run, founds) =
        init_repo_succeeds p sha working spare has_memory (carried o (ta w)) key ready in
      let there : invoke_command p cmd_init_repo o.param_types (carried o (ta w₁)) ≡ (ok tt, s') =
        ap (λ s. invoke_command p cmd_init_repo o.param_types (carried o s))
          (connected.loads_state body w)
        ∙ run in
      let s₁ = (invoke_command p cmd_init_repo o.param_types (carried o (ta w₁))).1 in
      let done = connected.success cmd_init_repo o w₁ (ap (λ x. x.0) there) in
      let w₂ = (lib.invoke_command cmd_init_repo o w₁).1 in
      let w₃ = lib.json_decref root w₂ in
      let (kept, sent) = answer_genesis s₁.param1.a s₁.param2.memref w₃ in
      let left : ta w₃ ≡ s' =
        connected.decref_state root w₂ ∙ connected.state cmd_init_repo o w₁ ∙ ap (λ x. x.1) there in
      let counted : successes w₃ ≡ successes w =
        counts.decref root w₂ ∙ counts.invoke cmd_init_repo o w₁ ∙ counts.loads body w in
      let same : handle_init_repo lib stack body w
          ≡ (do json ← genesis_json s₁.param1.a s₁.param2.memref; send_json_response lib 200 json)
              w₃ =
        ground (arith, loads, member, is_string, done) in
      (
        rw same (subst (λ x. Founds sha (ta w).repo_num key (ta w) x) (sym (kept ∙ left)) founds),
        rw same (λ ended. sent ended ∙ ap (λ n. 1 + n) counted),
      )
