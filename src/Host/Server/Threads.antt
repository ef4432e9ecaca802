-- ===== src/Host/Server/Threads.antt =====
-- The steps of the threads, and the connections they hold.
use trust_chain.Base.{
  ℕ, ◌≡◌, refl, sym, Bool, List, Option, some, ◌∷◌, ◌++◌, ok, err, fault, Outcome, Outcome-cases,
  inl, inr, arith, subst,
}
use trust_chain.Memory.{Cells}
use trust_chain.Host.Libraries.{Libraries}
use trust_chain.Host.Http.{answer_received}
use trust_chain.Host.Network.{Network}
use trust_chain.Host.Server.Counts.{HasThreads, holds, count-append, length-insert, Counts}
use trust_chain.Host.Server.{
  Thread, begun, received, answered, closed, still, Server, handle_client,
}

module _ {W J N : Type 0} (lib : Libraries W J) (net : Network N) (is_open : N → ℕ → Bool)
    (allocated : N → ℕ) where
  module _ (counts : Counts net is_open allocated) where
    -- A thread's step, with the others before and behind it.
    module _ (before after : List Thread) where
      -- A step that keeps the thread, its connection and its int.
      kept-HasThreads :
          (th th' : Thread) (s s' : Server W N)
          → s.threads ≡ before ++ th ∷ after
          → HasThreads is_open allocated s
          → ((j : ℕ) → holds j th' ≡ holds j th)
          → ((j : ℕ) → is_open s'.net j ≡ is_open s.net j)
          → allocated s'.net ≡ allocated s.net
          → HasThreads is_open allocated (record s' { threads = before ++ th' ∷ after })
      kept-HasThreads th th' s s' there t held opened ints = record {
        one_each = λ j. ground (
          arith,
          rw there at (t.one_each j),
          held j,
          opened j,
          count-append j before (th ∷ after),
          count-append j before (th' ∷ after),
        );
        one_int = ground (
          arith,
          rw there at t.one_int,
          ints,
          length-insert th before after,
          length-insert th' before after,
        );
      }

      closing-HasThreads :
          (c : ℕ) (s : Server W N)
          → s.threads ≡ before ++ answered c ∷ after
          → HasThreads is_open allocated s
          → HasThreads is_open allocated
              (record s { net = net.close c s.net; threads = before ++ closed c ∷ after })
      closing-HasThreads c s there t = record {
        one_each = λ j. ground (
          arith,
          rw there at (t.one_each j),
          rw there at (t.one_each c),
          counts.close_open c s.net j,
          count-append j before (answered c ∷ after),
          count-append c before (answered c ∷ after),
          count-append j before (closed c ∷ after),
        );
        one_int = ground (
          arith,
          rw there at t.one_int,
          counts.close_allocated c s.net,
          length-insert (answered c) before after,
          length-insert (closed c) before after,
        );
      }

      ending-HasThreads :
          (c : ℕ) (s : Server W N)
          → s.threads ≡ before ++ closed c ∷ after
          → HasThreads is_open allocated s
          → HasThreads is_open allocated
              (record s { net = net.free s.net; threads = before ++ after })
      ending-HasThreads c s there t = record {
        one_each = λ j. ground (
          arith,
          rw there at (t.one_each j),
          counts.free_open s.net j,
          count-append j before (closed c ∷ after),
          count-append j before after,
        );
        one_int = ground (
          arith,
          rw there at t.one_int,
          counts.free_allocated s.net,
          length-insert (closed c) before after,
        );
      }

      abbrev pub EndsTidy : Outcome (Option Thread) × Server W N → Type 0
      EndsTidy (ok next, s') =
          HasThreads is_open allocated (record s' { threads = before ++ still next after })
      EndsTidy (err _, s') = Unit
      EndsTidy (fault, s') = Unit

      pub handle_client-EndsTidy :
          (stack : Cells) (th : Thread) (s : Server W N)
          → s.threads ≡ before ++ th ∷ after
          → HasThreads is_open allocated s
          → EndsTidy (handle_client lib net stack th s)
      unfolding handle_client
      handle_client-EndsTidy stack (begun c) s there t =
          let (bytes, n) = net.recv c 4095 s.net in
          kept-HasThreads (begun c) (received c bytes) s (record s { net = n }) there t (λ j. refl)
            (counts.recv_open c 4095 s.net) (counts.recv_allocated c 4095 s.net)
      handle_client-EndsTidy stack (received c bytes) s there t =
          let (r, w) = answer_received lib stack bytes s.host.world in
          let s' = record s { host = record s.host { world = w } } in
          let step = handle_client lib net stack (received c bytes) s in
          elim (Outcome-cases r) [
            | inl (_, e) ↦
                let done : step ≡ (ok (some (answered c)), s') = ground (arith, e) in
                subst EndsTidy (sym done) (
                  kept-HasThreads (received c bytes) (answered c) s s' there t (λ j. refl)
                    (λ j. refl) refl)
            | inr (inl (e', e)) ↦
                let failed : step ≡ (err e', s') = ground (arith, e) in
                subst EndsTidy (sym failed) tt
            | inr (inr e) ↦
                let broken : step ≡ (fault, s') = ground (arith, e) in
                subst EndsTidy (sym broken) tt
          ]
      handle_client-EndsTidy stack (answered c) s there t = closing-HasThreads c s there t
      handle_client-EndsTidy stack (closed c) s there t = ending-HasThreads c s there t

    pub handle_client-connected :
        (stack : Cells) (th : Thread) (s : Server W N)
        → (handle_client lib net stack th s).1.host.tee_initialized ≡ s.host.tee_initialized
    unfolding handle_client
    handle_client-connected stack (begun c) s = refl
    handle_client-connected stack (received c bytes) s = ground arith
    handle_client-connected stack (answered c) s = refl
    handle_client-connected stack (closed c) s = refl
