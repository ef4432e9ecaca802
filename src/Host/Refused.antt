-- ===== src/Host/Refused.antt =====
-- Which requests to the host the TA can carry out.
use trust_chain.Base.{ℕ, ◌≡◌, ◌≢◌, ok, TeeError, err, ◌>>=◌}
use trust_chain.Platform.{Platform}
use trust_chain.Ta.State.{TeeParam, Ta}
use trust_chain.Ta.{invoke_command}
use trust_chain.Host.Libraries.{Libraries, Param, Operation}

abbrev view : Param → TeeParam
view q = record { memref = q.tmpref; a = q.a }

-- A state of the TA in which a command runs on the parameters of an operation.
abbrev pub Carries : {V : Type 0} → Operation → Ta V → Type 0
Carries o s =
    (s.param0 ≡ view o.param0)
    × (s.param1 ≡ view o.param1)
    × (s.param2 ≡ view o.param2)
    × (s.param3 ≡ view o.param3)

-- A command that the TA refuses with an error fails for the client: where it succeeds, it has run in
-- the TA, on the client's parameters, without an error. Of a run with undefined behaviour nothing is
-- known; it may well look successful.
pub record IsDelivered {W J V : Type 0} (lib : Libraries W J) (p : Platform V) : Type 0 where
  pub success :
      (cmd_id : ℕ) (o o' : Operation) (w : W)
      → (lib.invoke_command cmd_id o w).0 ≡ ok o'
      → (s : Ta V) × Carries o s
        × ((e : TeeError) → (invoke_command p cmd_id o.param_types s).0 ≢ err e)
