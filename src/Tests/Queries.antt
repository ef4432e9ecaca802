-- ===== src/Tests/Queries.antt =====
-- A repository is asked for its latest hash, with a nonce without a zero byte.
use trust_chain.Base.{ℕ, ◌≡◌, refl, ◌++◌, some, ok, arith, [], ◌∷◌, codes}
use trust_chain.Memory.{load_str, scan, write, read_u32, u32_bytes, before_nul}
use trust_chain.KeyManager.{tee_sign_data}
use trust_chain.Ta.State.{Ta, latest_hash}
use trust_chain.Ta.Query.{get_latest_hash, nonce_at, latest_hash_at}
use trust_chain.Ta.Query.Succeeds.{get_latest_hash_succeeds}
use trust_chain.Tests.Demo.{demo, demo_digest, demo_repo, demo_state, init_message, object, zeros}
use trust_chain.Tests.Working.{demo-IsWorking}

abbrev asking : Ta ℕ
asking = record (demo_state init_message) {
  param1 = record { memref = object 0 zeros; a = 16909060 };
}

latest_read : load_str demo_repo.names latest_hash ≡ some (codes "c0de")
unfolding load_str scan write
latest_read = refl

get_latest_hash_succeeds_example :
    let (r, s') = get_latest_hash demo 26129 asking in
    (r ≡ ok tt)
    × (read_u32 s'.param2.memref.cell nonce_at ≡ 16909060)
    × (load_str s'.param2.memref latest_hash_at ≡ some (codes "c0de"))
    × ((tee_sign_data demo
          (before_nul (u32_bytes 16909060 ++ codes "c0de"))
          (object 600 zeros)
          0
          0).0
        ≡ ok s'.param3.memref)
    × (s'.repositories ≡ asking.repositories)
get_latest_hash_succeeds_example =
    get_latest_hash_succeeds demo demo_digest demo-IsWorking asking demo_repo (codes "c0de")
      (omega arith) refl latest_read (omega arith) (omega arith) (omega arith)

-- The text that is signed there holds the whole hash; with a nonce of 1 it is one byte.
whole_hash : before_nul (u32_bytes 16909060 ++ codes "c0de") ≡ 4 ∷ 3 ∷ 2 ∷ 1 ∷ codes "c0de"
unfolding before_nul
whole_hash = refl

no_hash : before_nul (u32_bytes 1 ++ codes "c0de") ≡ 1 ∷ []
unfolding before_nul
no_hash = refl
