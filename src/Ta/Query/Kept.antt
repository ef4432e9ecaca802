-- ===== src/Ta/Query/Kept.antt =====
-- What `get_latest_hash` leaves.
use trust_chain.Base.{ℕ, ◌≡◌, arith}
use trust_chain.Platform.{Platform}
use trust_chain.Ta.State.{Ta, validate_and_get_repo}
use trust_chain.Ta.Query.{get_latest_hash}

pub get_latest_hash-repositories :
    {W : Type 0} (p : Platform W) (t : ℕ) (s : Ta W)
    → (get_latest_hash p t s).1.repositories ≡ s.repositories
unfolding get_latest_hash validate_and_get_repo
get_latest_hash-repositories p t s = ground arith
