-- ===== src/Host/Session.antt =====
-- host/main.c: `init_tee_connection` and `close_tee_connection`.
pub mod Balance
use trust_chain.Base.{Bool, true, false, Action, ok, err, fault, if◌then◌else◌}
use trust_chain.Host.Libraries.{Libraries}

-- The globals of the host.
pub record Host (W : Type 0) : Type 0 where
  pub tee_initialized : Bool
  pub world : W

module _ {W J : Type 0} (lib : Libraries W J) where
  -- Whether there is a session; a context without a session is finalised again.
  unfoldable pub init_tee_connection : Action (Host W) Bool
  init_tee_connection h =
      if h.tee_initialized
      then (ok true, h)
      else (let (r, w) = lib.initialize_context h.world in
          elim r [
            | ok _ ↦
                let (r', w') = lib.open_session w in
                elim r' [
                  | ok _ ↦ (ok true, record { tee_initialized = true; world = w' })
                  | err _ ↦ (ok false, record h { world = lib.finalize_context w' })
                  | fault ↦ (fault, record h { world = w' })
                ]
            | err _ ↦ (ok false, record h { world = w })
            | fault ↦ (fault, record h { world = w })
          ])

  unfoldable pub close_tee_connection : Host W → Host W
  close_tee_connection h =
      if h.tee_initialized
      then record {
        tee_initialized = false;
        world = lib.finalize_context (lib.close_session h.world);
      }
      else h
