-- ===== src/Tests/Sessions.antt =====
-- A host whose session cannot be opened: its state is the number of contexts and that of sessions.
use trust_chain.Base.{ℕ, ◌+◌, ◌-◌, ◌≡◌, refl, false, none, ok, err, generic, arith}
use trust_chain.Host.Libraries.{Libraries}
use trust_chain.Host.Session.{Host, init_tee_connection, close_tee_connection}
use trust_chain.Host.Session.Balance.{CountsSessions, IsBalanced, init_tee_connection-IsBalanced}

abbrev refusing : Libraries (ℕ × ℕ) (Unit {0})
refusing = record {
  initialize_context = λ (c, z). (ok tt, (1 + c, z));
  finalize_context = λ (c, z). (c - 1, z);
  open_session = λ w. (err generic, w);
  close_session = λ (c, z). (c, z - 1);
  invoke_command = λ cmd_id o w. (err generic, w);
  json_loads = λ text w. (none, w);
  json_decref = λ j w. w;
  json_object_get = λ root name. none;
  json_string = λ j. none;
  json_integer = λ j. none;
  write = λ text w. w;
}

refusing-CountsSessions : CountsSessions refusing (λ w. w.0) (λ w. w.1)
refusing-CountsSessions = record {
  initialize_contexts = λ w. refl;
  initialize_sessions = λ w. refl;
  finalize_contexts = λ w. refl;
  finalize_sessions = λ w. refl;
  open_contexts = λ w. refl;
  open_sessions = λ w. omega arith;
  close_contexts = λ w. refl;
  close_sessions = λ w. refl;
}

abbrev fresh : Host (ℕ × ℕ)
fresh = record { tee_initialized = false; world = (0, 0) }

connecting_run : (init_tee_connection refusing fresh).0 ≡ ok false
unfolding init_tee_connection
connecting_run = refl

init_tee_connection-IsBalanced_example :
    let (r, h') = init_tee_connection refusing fresh in
    IsBalanced refusing (λ w. w.0) (λ w. w.1) refusing-CountsSessions h'
    × (r ≡ ok h'.tee_initialized)
    × IsBalanced refusing
        (λ w. w.0)
        (λ w. w.1)
        refusing-CountsSessions
        (close_tee_connection refusing h')
    × ((close_tee_connection refusing h').tee_initialized ≡ false)
init_tee_connection-IsBalanced_example =
    init_tee_connection-IsBalanced refusing (λ w. w.0) (λ w. w.1) refusing-CountsSessions fresh
      (refl, refl) (λ e. absurd (ground (arith, connecting_run, e)))
