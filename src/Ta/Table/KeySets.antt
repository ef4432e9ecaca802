-- ===== src/Ta/Table/KeySets.antt =====
-- The two key sets of a repository stay apart when a key moves between them.
use trust_chain.Base.{◌≡◌, Bool, false, Bytes, ok, arith, str_eq_iff}
use trust_chain.KeyList.{KeyList, key_exists_in_set}
use trust_chain.KeyList.Membership.{Removes, Adds}
use trust_chain.Ta.Table.{AreSets}

-- What is left when a key was taken out of one set.
pub without_writer-AreSets :
    {W : Type 0} (admins writers writers' : KeyList) (key : Bytes) (found : Bool) (w : W)
    → AreSets admins writers
    → Removes writers key (ok (writers', found), w)
    → AreSets admins writers'
without_writer-AreSets admins writers writers' key found w v (valid, _, members) = record {
  admins_valid = v.admins_valid;
  writers_valid = valid;
  apart = λ j h. ground (arith, members j, v.apart j h);
}

pub without_admin-AreSets :
    {W : Type 0} (admins admins' writers : KeyList) (key : Bytes) (found : Bool) (w : W)
    → AreSets admins writers
    → Removes admins key (ok (admins', found), w)
    → AreSets admins' writers
without_admin-AreSets admins admins' writers key found w v (valid, _, members) = record {
  admins_valid = valid;
  writers_valid = v.writers_valid;
  apart = λ j h. v.apart j (ground (arith, members j));
}

pub with_writer-AreSets :
    {W : Type 0} (admins writers writers' : KeyList) (key : Bytes) (w : W)
    → AreSets admins writers
    → key_exists_in_set admins key ≡ false
    → Adds writers key (ok writers', w)
    → AreSets admins writers'
with_writer-AreSets admins writers writers' key w v no_admin (valid, members) = record {
  admins_valid = v.admins_valid;
  writers_valid = valid;
  apart = λ j h. ground (arith, members j, v.apart j h, str_eq_iff key j);
}

pub with_admin-AreSets :
    {W : Type 0} (admins admins' writers writers' : KeyList) (key : Bytes) (found : Bool) (w w' : W)
    → AreSets admins writers
    → Removes writers key (ok (writers', found), w)
    → Adds admins key (ok admins', w')
    → AreSets admins' writers'
with_admin-AreSets admins admins' writers writers' key found w w' v (valid, _, left)
      (valid', members) =
    record {
      admins_valid = valid';
      writers_valid = valid;
      apart = λ j h. ground (arith, members j, left j, v.apart j, str_eq_iff key j);
    }
