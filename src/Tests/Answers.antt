-- ===== src/Tests/Answers.antt =====
-- A commit without its fields is answered, and its JSON root given back.
use trust_chain.Base.{
  ℕ, ◌+◌, ◌-◌, ◌≡◌, ◌≢◌, ◌⊎◌, refl, Bytes, [], codes, Outcome, none, some, ok, err, fault, generic,
  arith, str_eq,
}
use trust_chain.Memory.{before_nul}
use trust_chain.Host.Libraries.{Libraries}
use trust_chain.Host.Text.{scan_word, behind, starts_with}
use trust_chain.Host.Handlers.{handle_commit}
use trust_chain.Host.Http.{answer_received, handle_http_request, parse_request, dispatch}
use trust_chain.Host.Answer.{send_json_response}
use trust_chain.Host.Answered.{CountsAnswers, answer_received-Answers}

-- The state is the number of answers and that of roots; every text is a JSON object without members.
abbrev parsing : Libraries (ℕ × ℕ) (Unit {0})
parsing = record {
  initialize_context = λ w. (ok tt, w);
  finalize_context = λ w. w;
  open_session = λ w. (ok tt, w);
  close_session = λ w. w;
  invoke_command = λ cmd_id o w. (err generic, w);
  json_loads = λ text (a, r). (some tt, (a, 1 + r));
  json_decref = λ j (a, r). (a, r - 1);
  json_object_get = λ root name. none;
  json_string = λ j. none;
  json_integer = λ j. none;
  write = λ text (a, r). (1 + a, r);
}

parsing-CountsAnswers : CountsAnswers parsing (λ w. w.0) (λ w. w.1)
parsing-CountsAnswers = record {
  write_answers = λ text w. refl;
  write_roots = λ text w. refl;
  invoke_answers = λ cmd_id o w. refl;
  invoke_roots = λ cmd_id o w. refl;
  loads_answers = λ body w. refl;
  loads_some = λ body w root e. refl;
  loads_none = λ body w e. absurd (ground (arith, e));
  decref_answers = λ j w. refl;
  decref_roots = λ j w. refl;
}

abbrev empty_commit : Bytes
empty_commit = codes "POST /commit HTTP/1.1\r\n\r\n{}"

abbrev answering : Outcome (Unit {0}) × (ℕ × ℕ)
answering = answer_received parsing (λ a. 0) empty_commit (0, 0)

answering_run : (answering.0 ≡ ok tt) × (answering.1 ≡ (1, 0))
unfolding answer_received handle_http_request parse_request before_nul dispatch handle_commit
    send_json_response scan_word behind starts_with str_eq
answering_run = (refl, refl)

answer_received-Answers_example :
    let (r, w) = answering in
    ((r ≡ ok tt) × (empty_commit ≢ []) × (w.0 ≡ 1) × (w.1 ≡ 0))
    ⊎ ((r ≡ ok tt) × (empty_commit ≡ []) × (w ≡ (0, 0)))
    ⊎ ((r ≡ fault) × (w.0 ≡ 0))
answer_received-Answers_example =
    answer_received-Answers parsing (λ w. w.0) (λ w. w.1) parsing-CountsAnswers (λ a. 0)
      empty_commit (0, 0)
