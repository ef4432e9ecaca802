-- ===== src/Host/Server.antt =====
-- host/main.c: `main` and its threads, each of which runs `handle_client`.
pub mod Counts
pub mod Threads
pub mod Tidy
use trust_chain.Base.{
  ℕ, Bytes, Bool, true, false, List, [], ◌∷◌, ◌++◌, Option, none, some, ◌≡◌, Action, Outcome, ok,
  err, fault, if◌then◌else◌, not, ◌>>=◌, pure, ltb, length,
}
use trust_chain.Memory.{Cells}
use trust_chain.Host.Libraries.{Libraries}
use trust_chain.Host.Session.{Host, init_tee_connection, close_tee_connection}
use trust_chain.Host.Http.{answer_received}
use trust_chain.Host.Network.{Network}

-- A thread that runs `handle_client` for a connection, by what it has done.
pub data Thread : Type 0 where
  begun : ℕ → Thread
  received : ℕ → Bytes → Thread
  answered closed : ℕ → Thread

-- The process: the globals with the world of the TEE, the world of the operating system, and its
-- threads.
pub record Server (W N : Type 0) : Type 0 where
  pub host : Host W
  pub net : N
  pub threads : List Thread

-- Where `main` is: in its loop, with the socket it listens on, or back with an exit code.
pub data Phase : Type 0 where
  listening returned : ℕ → Phase

abbrev pub port : ℕ
port = 8080

abbrev pub backlog : ℕ
backlog = 10

-- The threads with one of them replaced by what is left of it.
abbrev pub still : Option Thread → List Thread → List Thread
still none after = after
still (some th) after = th ∷ after

module _ {W J N : Type 0} (lib : Libraries W J) (net : Network N) where
  -- From `socket` to `listen`.
  unfoldable pub open_listener : Action (Server W N) Phase
  open_listener s =
      let (made, n) = net.socket s.net in
      elim made [
        | none ↦ (ok (returned 1), record s { net = n })
        | some l ↦
            let (bound, n₁) = net.bind l port (net.reuse_address l n) in
            if not bound
            then (ok (returned 1), record s { net = n₁ })
            else (let (queued, n₂) = net.listen l backlog n₁ in
                if not queued
                then (ok (returned 1), record s { net = n₂ })
                else (ok (listening l), record s { net = n₂ }))
      ]

  -- `main`, up to its loop.
  unfoldable pub start_service : Action (Server W N) Phase
  start_service s =
      let (connected, h) = init_tee_connection lib s.host in
      let s₁ = record s { host = h } in
      elim connected [
        | ok there ↦ if there then open_listener s₁ else (ok (returned 1), s₁)
        | err e ↦ (err e, s₁)
        | fault ↦ (fault, s₁)
      ]

  -- One round of the loop of `main`, and the end of `main` where the loop ends.
  unfoldable pub accept_client : ℕ → Server W N → Phase × Server W N
  accept_client l s =
      let (accepted, n) = net.accept l s.net in
      elim accepted [
        | none ↦ (returned 0, record s { host = close_tee_connection lib s.host; net = n })
        | some c ↦
            let (room, n₁) = net.malloc n in
            if not room
            then (listening l, record s { net = net.close c n₁ })
            else (let (running, n₂) = net.pthread_create n₁ in
                if not running
                then (listening l, record s { net = net.close c (net.free n₂) })
                else (listening l, record s { net = n₂; threads = begun c ∷ s.threads }))
      ]

  -- What a thread does next, and what is left of it: it calls `recv`, it answers what it received,
  -- it closes the connection, and it frees its int and ends. `stack` is what its stack holds.
  unfoldable pub handle_client : Cells → Thread → Action (Server W N) (Option Thread)
  handle_client stack (begun c) s =
      let (bytes, n) = net.recv c 4095 s.net in (ok (some (received c bytes)), record s { net = n })
  handle_client stack (received c bytes) s =
      let (r, w) = answer_received lib stack bytes s.host.world in
      let s' = record s { host = record s.host { world = w } } in
      elim r [ ok _ ↦ (ok (some (answered c)), s') | err e ↦ (err e, s') | fault ↦ (fault, s') ]
  handle_client stack (answered c) s = (ok (some (closed c)), record s { net = net.close c s.net })
  handle_client stack (closed c) s = (ok none, record s { net = net.free s.net })

  -- What the process goes through from a start at `s₀`: `main` goes into its loop, and from then on
  -- the loop goes round, or one of the threads does its next step, in any order, without undefined
  -- behaviour. When `main` has returned, the process is over.
  pub data IsService (s₀ : Server W N) : Phase → Server W N → Type 0 where
    started :
        (phase : Phase) (s : Server W N) → start_service s₀ ≡ (ok phase, s) → IsService s₀ phase s
    accepted :
        (l : ℕ) (s : Server W N)
        → IsService s₀ (listening l) s
        → IsService s₀ (accept_client l s).0 (accept_client l s).1
    served :
        (l : ℕ) (th : Thread) (next : Option Thread) (before after : List Thread) (stack : Cells)
        (s s' : Server W N)
        → IsService s₀ (listening l) s
        → s.threads ≡ before ++ th ∷ after
        → handle_client stack th s ≡ (ok next, s')
        → IsService s₀ (listening l) (record s' { threads = before ++ still next after })
