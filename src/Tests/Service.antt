-- ===== src/Tests/Service.antt =====
-- A service that accepts two clients and answers the first.
use trust_chain.Base.{
  Bytes, Option, ℕ, ◌+◌, ◌-◌, ◌≡◌, refl, Bool, true, false, [], ◌∷◌, codes, none, some, ok, err,
  generic, arith, ◌==◌, if◌then◌else◌, Outcome, str_eq,
}
use trust_chain.Memory.{before_nul}
use trust_chain.Host.Libraries.{Libraries}
use trust_chain.Host.Session.{init_tee_connection}
use trust_chain.Host.Text.{scan_word, behind, starts_with}
use trust_chain.Host.Answer.{send_json_response}
use trust_chain.Host.Http.{answer_received, handle_http_request, parse_request, dispatch}
use trust_chain.Host.Network.{Network}
use trust_chain.Host.Server.{
  Thread, begun, received, answered, Server, Phase, listening, open_listener, start_service,
  accept_client, handle_client, IsService, started, accepted, served,
}
use trust_chain.Host.Server.Counts.{Counts, HasThreads}
use trust_chain.Host.Server.Tidy.{service-HasThreads}

-- The state of the TEE and the clients is the number of answers.
abbrev counting : Libraries ℕ (Unit {0})
counting = record {
  initialize_context = λ w. (ok tt, w);
  finalize_context = λ w. w;
  open_session = λ w. (ok tt, w);
  close_session = λ w. w;
  invoke_command = λ cmd_id o w. (err generic, w);
  json_loads = λ text w. (none, w);
  json_decref = λ j w. w;
  json_object_get = λ root name. none;
  json_string = λ j. none;
  json_integer = λ j. none;
  write = λ text w. 1 + w;
}

-- The open connections, the number of allocated ints, and the next socket.
record System : Type 0 where
  opened : ℕ → Bool
  ints : ℕ
  next : ℕ

abbrev set_open : ℕ → Bool → System → System
set_open c b n = record n { opened = λ j. if c == j then b else n.opened j }

abbrev system : Network System
system = record {
  socket = λ n. (some 3, n);
  reuse_address = λ l n. n;
  bind = λ l p n. (true, n);
  listen = λ l q n. (true, n);
  accept = λ l n.
      if n.opened n.next
      then (none, n)
      else (some n.next, set_open n.next true (record n { next = 1 + n.next }));
  recv = λ c k n. (codes "PUT / HTTP/1.1\r\n\r\n", n);
  close = λ c n. set_open c false n;
  malloc = λ n. (true, record n { ints = 1 + n.ints });
  free = λ n. record n { ints = n.ints - 1 };
  pthread_create = λ n. (true, n);
}

system-Counts : Counts system (λ n. n.opened) (λ n. n.ints)
system-Counts = record {
  socket_open = λ n c. refl;
  socket_allocated = λ n. refl;
  reuse_open = λ l n c. refl;
  reuse_allocated = λ l n. refl;
  bind_open = λ l p n c. refl;
  bind_allocated = λ l p n. refl;
  listen_open = λ l q n c. refl;
  listen_allocated = λ l q n. refl;
  accept_new = λ l n c e. ground (arith, e);
  accept_open = λ l n c j e. ground (arith, e);
  accept_none = λ l n j e. ground (arith, e);
  accept_allocated = λ l n. ground arith;
  recv_open = λ c k n j. refl;
  recv_allocated = λ c k n. refl;
  close_open = λ c n j. refl;
  close_allocated = λ c n. refl;
  malloc_open = λ n j. refl;
  malloc_allocated = λ n. refl;
  free_open = λ n j. refl;
  free_allocated = λ n. refl;
  create_open = λ n j. refl;
  create_allocated = λ n. refl;
}

abbrev off : Server ℕ System
off = record {
  host = record { tee_initialized = false; world = 0 };
  net = record { opened = λ c. false; ints = 0; next = 4 };
  threads = [];
}

abbrev on : Server ℕ System
on = record off { host = record { tee_initialized = true; world = 0 } }

on_run : start_service counting system off ≡ (ok (listening 3), on)
unfolding start_service open_listener init_tee_connection
on_run = refl

abbrev one_client : Phase × Server ℕ System
one_client = accept_client counting system 3 on

one_client_phase : one_client.0 ≡ listening 3
unfolding accept_client
one_client_phase = refl

one_client_threads : one_client.1.threads ≡ begun 4 ∷ []
unfolding accept_client
one_client_threads = refl

-- The thread of the client, step by step, while a second client is accepted.
abbrev received_one : Outcome (Option Thread) × Server ℕ System
received_one = handle_client counting system (λ a. 0) (begun 4) one_client.1

abbrev request : Bytes
request = codes "PUT / HTTP/1.1\r\n\r\n"

received_run : received_one.0 ≡ ok (some (received 4 request))
unfolding handle_client
received_run = refl

abbrev with_request : Server ℕ System
with_request = record received_one.1 { threads = received 4 request ∷ [] }

abbrev two_clients : Phase × Server ℕ System
two_clients = accept_client counting system 3 with_request

two_clients_phase : two_clients.0 ≡ listening 3
unfolding accept_client handle_client
two_clients_phase = refl

two_clients_threads : two_clients.1.threads ≡ begun 5 ∷ received 4 request ∷ []
unfolding accept_client handle_client
two_clients_threads = refl

abbrev answered_one : Outcome (Option Thread) × Server ℕ System
answered_one = handle_client counting system (λ a. 0) (received 4 request) two_clients.1

answered_run : answered_one.0 ≡ ok (some (answered 4))
unfolding handle_client answer_received handle_http_request parse_request before_nul dispatch
    send_json_response scan_word behind starts_with str_eq
answered_run = refl

one_answer : answered_one.1.host.world ≡ 1
unfolding handle_client answer_received handle_http_request parse_request before_nul dispatch
    send_json_response scan_word behind starts_with str_eq accept_client
one_answer = refl

abbrev both_threads : Server ℕ System
both_threads = record answered_one.1 { threads = begun 5 ∷ answered 4 ∷ [] }

both_served : IsService counting system off (listening 3) both_threads
both_served =
    let one = rw one_client_phase at (accepted 3 on (started (listening 3) on on_run)) in
    let after_recv =
      served 3 (begun 4) (some (received 4 request)) [] [] (λ a. 0) one_client.1 received_one.1 one
        one_client_threads (λ i. (received_run i, received_one.1)) in
    let two = rw two_clients_phase at (accepted 3 with_request after_recv) in
    served 3 (received 4 request) (some (answered 4)) (begun 5 ∷ []) [] (λ a. 0) two_clients.1
      answered_one.1 two two_clients_threads (λ i. (answered_run i, answered_one.1))

service-HasThreads_example :
    HasThreads (λ n. n.opened) (λ n. n.ints) both_threads
    × (both_threads.host.tee_initialized ≡ true)
service-HasThreads_example =
    service-HasThreads counting system (λ n. n.opened) (λ n. n.ints) system-Counts off (listening 3)
      both_threads (record { one_each = λ c. refl; one_int = refl }) both_served
