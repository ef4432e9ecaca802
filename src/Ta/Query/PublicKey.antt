-- ===== src/Ta/Query/PublicKey.antt =====
-- What `get_tee_public_key` gives its caller.
use trust_chain.Base.{ℕ, ◌≡◌, ◌≢◌, ok, arith}
use trust_chain.Memory.{Buffer}
use trust_chain.Platform.{Platform, Handle}
use trust_chain.Utils.Pem.{estimated_len, public_key_obj_to_pem}
use trust_chain.Ta.State.{Ta}
use trust_chain.Ta.Query.{get_tee_public_key}

module _ {W : Type 0} (p : Platform W) where
  no_room :
      (key_obj : Handle) (b : Buffer) (w : W) (x : Buffer × ℕ)
      → (public_key_obj_to_pem p key_obj b 0 w).0 ≢ ok x
  unfolding public_key_obj_to_pem estimated_len
  no_room key_obj b w x run = ground arith

  -- The command never succeeds, whatever its parameters and the platform do: the PEM text is asked
  -- for with a room of 0 bytes. No repository changes and nothing is written to the parameters.
  pub get_tee_public_key-refused :
      (t : ℕ) (s : Ta W)
      → let (r, s') = get_tee_public_key p t s in
        (r ≢ ok tt)
        × (s'.repositories ≡ s.repositories)
        × (s'.param0 ≡ s.param0)
        × (s'.param1 ≡ s.param1)
  unfolding get_tee_public_key
  get_tee_public_key-refused t s = grind (arith, no_room)
