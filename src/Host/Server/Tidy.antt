-- ===== src/Host/Server/Tidy.antt =====
-- Which connections are open while the service runs.
use trust_chain.Base.{
  ℕ, zero, suc, ◌≡◌, Bool, true, false, ok, err, fault, Outcome, Outcome-cases, inl, inr, arith,
  ◌∙◌, subst, Option-cases,
}
use trust_chain.Host.Libraries.{Libraries}
use trust_chain.Host.Session.{init_tee_connection, close_tee_connection}
use trust_chain.Host.Network.{Network}
use trust_chain.Host.Server.Counts.{HasThreads, Counts}
use trust_chain.Host.Server.{
  Server, Phase, listening, returned, port, backlog, open_listener, start_service, accept_client,
  IsService, started, accepted, served,
}
use trust_chain.Host.Server.Threads.{handle_client-EndsTidy, handle_client-connected}

module _ {W J N : Type 0} (lib : Libraries W J) (net : Network N) (is_open : N → ℕ → Bool)
    (allocated : N → ℕ) where
  -- While `main` is in its loop there is a session, and when it has returned 0 there is none.
  abbrev pub IsConnected : Phase → Server W N → Type 0
  IsConnected (listening l) s = s.host.tee_initialized ≡ true
  IsConnected (returned zero) s = s.host.tee_initialized ≡ false
  IsConnected (returned (suc k)) s = Unit

  abbrev EndsConnected : Outcome Phase × Server W N → Type 0
  EndsConnected (ok phase, s) = IsConnected phase s
  EndsConnected (err _, s) = Unit
  EndsConnected (fault, s) = Unit

  start_service-EndsConnected : (s : Server W N) → EndsConnected (start_service lib net s)
  unfolding start_service open_listener init_tee_connection
  start_service-EndsConnected s = ground arith

  module _ (counts : Counts net is_open allocated) where
    open_listener-HasThreads :
        (s s' : Server W N) (phase : Phase)
        → HasThreads is_open allocated s
        → open_listener lib net s ≡ (ok phase, s')
        → HasThreads is_open allocated s'
    unfolding open_listener
    open_listener-HasThreads s s' phase t run =
        let (made, n) = net.socket s.net in
        elim (Option-cases made) [
          | inl none_there ↦ record {
            one_each =
                λ c. ground (arith, none_there, run, t.one_each c, counts.socket_open s.net c);
            one_int = ground (arith, none_there, run, t.one_int, counts.socket_allocated s.net);
          }
          | inr (l, there) ↦
              let n₁ = net.reuse_address l n in
              let n₂ = (net.bind l port n₁).1 in
              record {
                one_each = λ c. ground (
                  arith,
                  there,
                  run,
                  t.one_each c,
                  counts.socket_open s.net c,
                  counts.reuse_open l n c,
                  counts.bind_open l port n₁ c,
                  counts.listen_open l backlog n₂ c,
                );
                one_int = ground (
                  arith,
                  there,
                  run,
                  t.one_int,
                  counts.socket_allocated s.net,
                  counts.reuse_allocated l n,
                  counts.bind_allocated l port n₁,
                  counts.listen_allocated l backlog n₂,
                );
              }
        ]

    start_service-HasThreads :
        (s s' : Server W N) (phase : Phase)
        → HasThreads is_open allocated s
        → start_service lib net s ≡ (ok phase, s')
        → HasThreads is_open allocated s'
    unfolding start_service
    start_service-HasThreads s s' phase t run =
        let (connected, h) = init_tee_connection lib s.host in
        let s₁ = record s { host = h } in
        let t₁ : HasThreads is_open allocated s₁ = record {
          one_each = t.one_each;
          one_int = t.one_int;
        } in
        elim (Outcome-cases connected) [
          | inl (true, e) ↦ open_listener-HasThreads s₁ s' phase t₁ (ground (arith, e, run))
          | inl (false, e) ↦
              let same : s₁ ≡ s' = ground (arith, e, run) in
              subst (HasThreads is_open allocated) same t₁
          | inr failed ↦ absurd (ground (arith, failed, run))
        ]

    accept_client-HasThreads :
        (l : ℕ) (s : Server W N)
        → HasThreads is_open allocated s
        → s.host.tee_initialized ≡ true
        → let (phase, s') = accept_client lib net l s in
          HasThreads is_open allocated s' × IsConnected phase s'
    unfolding accept_client close_tee_connection
    accept_client-HasThreads l s t connected = elim (Option-cases (net.accept l s.net).0) [
      | inl none_there ↦ (
        record {
          one_each = λ c. ground (arith, none_there, t.one_each c, counts.accept_none l s.net c);
          one_int = ground (arith, none_there, t.one_int, counts.accept_allocated l s.net);
        },
        ground (arith, none_there, connected),
      )
      | inr (c, there) ↦
          let n = (net.accept l s.net).1 in
          let n₁ = (net.malloc n).1 in
          let n₂ = (net.pthread_create n₁).1 in
          (
            record {
              one_each = λ j. ground (
                arith,
                there,
                t.one_each j,
                t.one_each c,
                counts.accept_new l s.net c there,
                counts.accept_open l s.net c j there,
                counts.malloc_open n j,
                counts.create_open n₁ j,
                counts.free_open n₂ j,
                counts.close_open c n₁ j,
                counts.close_open c (net.free n₂) j,
              );
              one_int = ground (
                arith,
                there,
                t.one_int,
                counts.accept_allocated l s.net,
                counts.malloc_allocated n,
                counts.create_allocated n₁,
                counts.free_allocated n₂,
                counts.close_allocated c n₁,
                counts.close_allocated c (net.free n₂),
              );
            },
            ground (arith, there, connected),
          )
    ]

    -- Where the operating system opens, closes and allocates what it was asked to and no more: from a
    -- process without threads, open connections and allocated memory, after any rounds of the loop
    -- and any steps of the threads, one after the other in any order, also where memory or threads
    -- ran out, each open connection has exactly one thread that has not closed it, a closed one has
    -- none, and there is one allocated int for each thread that has not ended. While `main` is in its
    -- loop the host has its session; when it returns 0, it has closed it.
    pub service-HasThreads :
        (s₀ : Server W N) (phase : Phase) (s : Server W N)
        → HasThreads is_open allocated s₀
        → IsService lib net s₀ phase s
        → HasThreads is_open allocated s × IsConnected phase s
    service-HasThreads s₀ phase s t (started _ _ run) =
        (start_service-HasThreads s₀ s phase t run, rw run at (start_service-EndsConnected s₀))
    service-HasThreads s₀ phase s t (accepted l s₁ before) =
        let (t₁, connected) = service-HasThreads s₀ (listening l) s₁ t before in
        accept_client-HasThreads l s₁ t₁ connected
    service-HasThreads s₀ phase s t (served l th next front back stack s₁ s₂ before there run) =
        let (t₁, connected) = service-HasThreads s₀ (listening l) s₁ t before in
        (
          rw run at (
              handle_client-EndsTidy lib net is_open allocated counts front back stack th s₁ there
                t₁),
          (rw run at (handle_client-connected lib net is_open allocated counts stack th s₁))
              ∙ connected,
        )
