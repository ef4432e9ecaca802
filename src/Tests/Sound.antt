-- ===== src/Tests/Sound.antt =====
-- The table of the tests is well formed.
use trust_chain.Base.{refl, codes, arith, str_eq, str_eq_iff, ◌∷◌, []}
use trust_chain.Memory.{Buffer}
use trust_chain.KeyList.{key_in, key_exists_in_set}
use trust_chain.Ta.Table.{AreSets, IsSound}
use trust_chain.Tests.Demo.{demo_state, demo_repo, demo_list}

pub demo-AreSets : AreSets (demo_list (codes "ann" ∷ [])) (demo_list (codes "bob" ∷ []))
unfolding key_in key_exists_in_set str_eq
demo-AreSets = record {
  admins_valid = record { distinct = (refl, tt); counted = omega arith };
  writers_valid = record { distinct = (refl, tt); counted = omega arith };
  apart = λ key h. ground (arith, h, str_eq_iff (codes "ann") key, str_eq_iff (codes "bob") key);
}

pub demo-IsSound : (message : Buffer) → IsSound (demo_state message)
demo-IsSound message = record {
  bounded = omega arith;
  used = λ i lt. (demo_repo, ground arith, (_, _, refl, refl, demo-AreSets));
  unused = λ i h. ground arith;
}
