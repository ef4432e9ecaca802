-- ===== src/Host/Session/Balance.antt =====
-- The context and the session of the host.
use trust_chain.Base.{ℕ, ◌+◌, ◌-◌, ◌≡◌, ◌≢◌, false, if◌then◌else◌, Outcome, ok, err, fault, arith}
use trust_chain.Host.Libraries.{Libraries}
use trust_chain.Host.Session.{Host, init_tee_connection, close_tee_connection}

abbrev pub one_if_ok : {A : Type 0} → Outcome A → ℕ
one_if_ok (ok _) = 1
one_if_ok (err _) = 0
one_if_ok fault = 0

-- The TEE Client API counts contexts and sessions: a call that succeeds opens one, and the calls that
-- close one take one away.
pub record CountsSessions {W J : Type 0} (lib : Libraries W J) (contexts sessions : W → ℕ)
    : Type 0 where
  pub initialize_contexts :
      (w : W)
      → contexts (lib.initialize_context w).1 ≡ one_if_ok (lib.initialize_context w).0 + contexts w
  pub initialize_sessions : (w : W) → sessions (lib.initialize_context w).1 ≡ sessions w
  pub finalize_contexts : (w : W) → contexts (lib.finalize_context w) ≡ contexts w - 1
  pub finalize_sessions : (w : W) → sessions (lib.finalize_context w) ≡ sessions w
  pub open_contexts : (w : W) → contexts (lib.open_session w).1 ≡ contexts w
  pub open_sessions :
      (w : W) → sessions (lib.open_session w).1 ≡ one_if_ok (lib.open_session w).0 + sessions w
  pub close_contexts : (w : W) → contexts (lib.close_session w) ≡ contexts w
  pub close_sessions : (w : W) → sessions (lib.close_session w) ≡ sessions w - 1

module _ {W J : Type 0} (lib : Libraries W J) (contexts sessions : W → ℕ)
    (counts : CountsSessions lib contexts sessions) where
  -- There is one context and one session where the host is connected, and none elsewhere.
  abbrev pub IsBalanced : Host W → Type 0
  IsBalanced h =
      (contexts h.world ≡ (if h.tee_initialized then 1 else 0))
      × (sessions h.world ≡ (if h.tee_initialized then 1 else 0))

  close_tee_connection-IsBalanced :
      (h : Host W)
      → IsBalanced h
      → IsBalanced (close_tee_connection lib h)
        × ((close_tee_connection lib h).tee_initialized ≡ false)
  unfolding close_tee_connection
  close_tee_connection-IsBalanced h (c, z) =
      let w = lib.close_session h.world in
      (
        (
          ground (arith, c, counts.finalize_contexts w, counts.close_contexts h.world),
          ground (arith, z, counts.finalize_sessions w, counts.close_sessions h.world),
        ),
        ground arith,
      )

  connect-IsBalanced :
      (h : Host W)
      → IsBalanced h
      → (init_tee_connection lib h).0 ≢ fault
      → let (r, h') = init_tee_connection lib h in IsBalanced h' × (r ≡ ok h'.tee_initialized)
  unfolding init_tee_connection
  connect-IsBalanced h (c, z) defined =
      let w₁ = (lib.initialize_context h.world).1 in
      let w₂ = (lib.open_session w₁).1 in
      (
        (
          ground (
            arith,
            c,
            defined,
            counts.initialize_contexts h.world,
            counts.open_contexts w₁,
            counts.finalize_contexts w₂,
          ),
          ground (
            arith,
            z,
            defined,
            counts.initialize_sessions h.world,
            counts.open_sessions w₁,
            counts.finalize_sessions w₂,
          ),
        ),
        ground (arith, defined),
      )

  -- Where the TEE Client API counts contexts and sessions: a host that has one of each if it is connected
  -- and none if it is not, is so again after it tried to connect, whether that succeeds, which it
  -- reports, or fails at either step, and after it then disconnects, which leaves none.
  pub init_tee_connection-IsBalanced :
      (h : Host W)
      → IsBalanced h
      → (init_tee_connection lib h).0 ≢ fault
      → let (r, h') = init_tee_connection lib h in
        IsBalanced h'
        × (r ≡ ok h'.tee_initialized)
        × IsBalanced (close_tee_connection lib h')
        × ((close_tee_connection lib h').tee_initialized ≡ false)
  init_tee_connection-IsBalanced h balanced defined =
      let h' = (init_tee_connection lib h).1 in
      let (kept, reported) = connect-IsBalanced h balanced defined in
      let (closed, off) = close_tee_connection-IsBalanced h' kept in (kept, reported, closed, off)
