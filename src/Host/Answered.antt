-- ===== src/Host/Answered.antt =====
-- How many answers a client gets.
use trust_chain.Base.{
  ℕ, ◌+◌, ◌-◌, ◌≡◌, none, some, ◌≢◌, Bytes, [], ◌∷◌, Outcome, ok, err, fault, refl, ◌⊎◌, inl, inr,
  arith, take, Option-cases,
}
use trust_chain.Memory.{Cells, before_nul}
use trust_chain.Host.Libraries.{Libraries, Operation}
use trust_chain.Host.Answer.{genesis_json, send_json_response}
use trust_chain.Host.Handlers.{
  handle_init_repo, handle_commit, handle_access_control, handle_get_latest_hash,
}
use trust_chain.Host.Http.{
  parse_request, preflight_response, dispatch, handle_http_request, answer_received,
}

-- What the libraries promise of answers and of the JSON roots that were not given back: `write` on a
-- client's socket is an answer, `json_loads` makes a root where it succeeds, `json_decref` gives one
-- back, and nothing else does either.
pub record CountsAnswers {W J : Type 0} (lib : Libraries W J) (answers roots : W → ℕ) : Type 0 where
  pub write_answers : (text : Bytes) (w : W) → answers (lib.write text w) ≡ 1 + answers w
  pub write_roots : (text : Bytes) (w : W) → roots (lib.write text w) ≡ roots w
  pub invoke_answers :
      (cmd_id : ℕ) (o : Operation) (w : W) → answers (lib.invoke_command cmd_id o w).1 ≡ answers w
  pub invoke_roots :
      (cmd_id : ℕ) (o : Operation) (w : W) → roots (lib.invoke_command cmd_id o w).1 ≡ roots w
  pub loads_answers : (body : Bytes) (w : W) → answers (lib.json_loads body w).1 ≡ answers w
  pub loads_some :
      (body : Bytes) (w : W) (root : J)
      → (lib.json_loads body w).0 ≡ some root
      → roots (lib.json_loads body w).1 ≡ 1 + roots w
  pub loads_none :
      (body : Bytes) (w : W)
      → (lib.json_loads body w).0 ≡ none
      → roots (lib.json_loads body w).1 ≡ roots w
  pub decref_answers : (j : J) (w : W) → answers (lib.json_decref j w) ≡ answers w
  pub decref_roots : (j : J) (w : W) → roots (lib.json_decref j w) ≡ roots w - 1

module _ {W J : Type 0} (lib : Libraries W J) (answers roots : W → ℕ)
    (counts : CountsAnswers lib answers roots) where
  -- A call that comes back without an error, and leaves `k` answers more than `n` there were, and the
  -- number `m` of roots; or no more answers where it runs into undefined behaviour.
  abbrev Answers : {A : Type 0} → ℕ → ℕ → ℕ → Outcome A × W → Type 0
  Answers k n m (ok _, w) = (answers w ≡ k + n) × (roots w ≡ m)
  Answers k n m (err _, w) = ⊥
  Answers k n m (fault, w) = answers w ≡ n

  module _ (stack : Cells) (body : Bytes) (n m : ℕ) (w : W) (before : answers w ≡ n)
      (held : roots w ≡ m) where
    handle_init_repo-Answers : Answers 1 n m (handle_init_repo lib stack body w)
    unfolding handle_init_repo genesis_json send_json_response
    handle_init_repo-Answers = grind (
      arith, before, held, counts.invoke_answers, counts.invoke_roots, counts.loads_answers,
      counts.loads_some, counts.loads_none, counts.decref_answers, counts.decref_roots,
      counts.write_answers, counts.write_roots,
    )

    handle_commit-Answers : Answers 1 n m (handle_commit lib stack body w)
    unfolding handle_commit send_json_response
    handle_commit-Answers = grind (
      arith, before, held, counts.invoke_answers, counts.invoke_roots, counts.loads_answers,
      counts.loads_some, counts.loads_none, counts.decref_answers, counts.decref_roots,
      counts.write_answers, counts.write_roots,
    )

    handle_access_control-Answers : Answers 1 n m (handle_access_control lib stack body w)
    unfolding handle_access_control send_json_response
    handle_access_control-Answers = grind (
      arith, before, held, counts.invoke_answers, counts.invoke_roots, counts.loads_answers,
      counts.loads_some, counts.loads_none, counts.decref_answers, counts.decref_roots,
      counts.write_answers, counts.write_roots,
    )

    handle_get_latest_hash-Answers :
        (id : ℕ) → Answers 1 n m (handle_get_latest_hash lib stack id w)
    unfolding handle_get_latest_hash send_json_response
    handle_get_latest_hash-Answers id = grind (
      arith, before, held, counts.invoke_answers, counts.invoke_roots, counts.loads_answers,
      counts.loads_some, counts.loads_none, counts.decref_answers, counts.decref_roots,
      counts.write_answers, counts.write_roots,
    )

    dispatch-Answers : (method path : Bytes) → Answers 1 n m (dispatch lib stack method path body w)
    unfolding dispatch send_json_response
    dispatch-Answers method path = grind (
      arith, before, held, handle_init_repo-Answers, handle_commit-Answers,
      handle_access_control-Answers, handle_get_latest_hash-Answers,
    )

  handle_http_request-Answers :
      (stack : Cells) (request : Bytes) (n m : ℕ) (w : W)
      → answers w ≡ n
      → roots w ≡ m
      → Answers 1 n m (handle_http_request lib stack request w)
  unfolding handle_http_request
  handle_http_request-Answers stack request n m w before held =
      elim (Option-cases (parse_request request)) [
        | inl unread ↦ ground (arith, unread, before)
        | inr ((method, path, body), read) ↦ ground (
          arith,
          read,
          before,
          held,
          counts.write_answers preflight_response w,
          counts.write_roots preflight_response w,
          dispatch-Answers stack body n m w before held method path,
        )
      ]

  decided :
      (n m : ℕ) (x : Outcome (Unit {0}) × W)
      → Answers 1 n m x
      → ((x.0 ≡ ok tt) × (answers x.1 ≡ 1 + n) × (roots x.1 ≡ m))
        ⊎ ((x.0 ≡ fault) × (answers x.1 ≡ n))
  decided n m (ok tt, w) (h, held) = inl (refl, h, held)
  decided n m (err e, w) h = absurd h
  decided n m (fault, w) h = inr (refl, h)

  -- Where answers and JSON roots are counted as the libraries promise: a thread that has received a
  -- request sends its client exactly one answer and gives back every JSON root it took, or runs into
  -- undefined behaviour before it has sent an answer; a thread that has received nothing sends none.
  -- No request ends with an error that is not answered.
  pub answer_received-Answers :
      (stack : Cells) (received : Bytes) (w : W)
      → let (r, w') = answer_received lib stack received w in
        ((r ≡ ok tt) × (received ≢ []) × (answers w' ≡ 1 + answers w) × (roots w' ≡ roots w))
        ⊎ ((r ≡ ok tt) × (received ≡ []) × (w' ≡ w))
        ⊎ ((r ≡ fault) × (answers w' ≡ answers w))
  unfolding answer_received
  answer_received-Answers stack [] w = inr (inl (ground arith, refl, ground arith))
  answer_received-Answers stack (c ∷ s) w =
      let request = before_nul (take 4095 (c ∷ s)) in
      let same : answer_received lib stack (c ∷ s) w ≡ handle_http_request lib stack request w =
        ground arith in
      elim (decided (answers w) (roots w) (handle_http_request lib stack request w)
        (handle_http_request-Answers stack request (answers w) (roots w) w refl refl)) [
          | inl (done, one, held) ↦
              rw same (inl (done, (λ e. absurd (ground (arith, e))), one, held))
          | inr broken ↦ rw same (inr (inr broken))
        ]
