-- ===== src/Ta/Table.antt =====
-- The table of repositories and what keeps it well formed.
pub mod KeySets
pub mod AccessControl
pub mod InitRepo
pub mod Commit
pub mod Invoke
use trust_chain.Base.{
  ℕ, ◌+◌, ◌≤◌, ◌<◌, ◌≡◌, refl, true, false, Bytes, Option, none, some, Action, Outcome, ◌>>=◌,
  >>=-rule, resume, leb, inl, inr, Bool-cases, Option-cases, ok, err, fault, ◌==◌, if◌then◌else◌,
  arith, subst, sym, ◌∙◌, dec_lt, ℕ_discrete, some-injective,
}
use trust_chain.KeyList.{KeyList, key_exists_in_set}
use trust_chain.KeyList.Membership.{IsValid}
use trust_chain.Ta.State.{Repo, Ta, max_repo_id, on_world}

-- The two key sets of a repository: each holds a key once, and they have no key in common.
pub record AreSets (admins writers : KeyList) : Type 0 where
  pub admins_valid : IsValid admins
  pub writers_valid : IsValid writers
  pub apart :
      (key : Bytes) → key_exists_in_set admins key ≡ true → key_exists_in_set writers key ≡ false

abbrev pub IsComplete : Repo → Type 0
IsComplete r =
    (admins : KeyList) × (writers : KeyList) × (r.admin_keys ≡ some admins)
    × (r.writer_keys ≡ some writers)
    × AreSets admins writers

-- The repositories below `repo_num` are there and complete; the places from it on are empty.
pub record IsTable (n : ℕ) (t : ℕ → Option Repo) : Type 0 where
  pub bounded : n ≤ max_repo_id
  pub used : (i : ℕ) → i < n → (r : Repo) × (t i ≡ some r) × IsComplete r
  pub unused : (i : ℕ) → n ≤ i → t i ≡ none

abbrev pub IsSound : {W : Type 0} → Ta W → Type 0
IsSound s = IsTable s.repo_num s.repositories

-- A handler that returns, with or without an error, leaves a sound state.
abbrev pub EndsSound : {W : Type 0} {A : Type 0} → Outcome A × Ta W → Type 0
EndsSound (ok _, s) = IsSound s
EndsSound (err _, s) = IsSound s
EndsSound (fault, s) = Unit

-- The key sets at a place of the table.
abbrev pub keys_at : Option Repo → Option (Option KeyList × Option KeyList)
keys_at none = none
keys_at (some r) = some (r.admin_keys, r.writer_keys)

pub same_keys-IsComplete :
    (o : Option Repo) (r : Repo)
    → IsComplete r
    → keys_at o ≡ some (r.admin_keys, r.writer_keys)
    → (r' : Repo) × (o ≡ some r') × IsComplete r'
same_keys-IsComplete none r c e = absurd (ground arith)
same_keys-IsComplete (some r') r (admins, writers, ea, ew, v) e =
    (r', refl, (admins, writers, ground arith, ground arith, v))

module _ {n : ℕ} {t : ℕ → Option Repo} (table : IsTable n t) where
  -- A repository that is found is complete.
  pub found-IsComplete : (i : ℕ) (r : Repo) → t i ≡ some r → (i < n) × IsComplete r
  found-IsComplete i r e = elim (dec_lt i n) [
    | yes lt ↦
        let (r', e', c) = table.used i lt in (lt, subst IsComplete (some-injective (sym e' ∙ e)) c)
    | no ge ↦ absurd (cc (table.unused i (omega arith)))
  ]

  -- A complete repository may take the place of another.
  pub put-IsTable :
      (i : ℕ) (r : Repo) → i < n → IsComplete r → IsTable n (λ j. if j == i then some r else t j)
  put-IsTable i r lt c = record {
    bounded = table.bounded;
    used = λ j h. elim (ℕ_discrete j i) [
      | yes e ↦ (r, ground arith, c)
      | no ne ↦ let (r', e', c') = table.used j h in (r', ground (arith, e'), c')
    ];
    unused = λ j h. ground (arith, table.unused j h);
  }

-- A call into the modules without state, whose end satisfies `Q`: a later state is sound if it is
-- after every such end.
pub world-rule :
    {W A B : Type 0} (Q : Outcome A × W → Type 0) (m : Action W A) (f : A → Action (Ta W) B)
    (s : Ta W)
    → IsSound s
    → Q (m s.world)
    → ((a : A) (w : W) → Q (ok a, w) → EndsSound (f a (record s { world = w })))
    → EndsSound ((on_world m >>= f) s)
world-rule {W} {A} Q m f s sound q rest = go (m s.world) q
  where
    go :
        (r : Outcome A × W)
        → Q r
        → EndsSound (resume f (let (o, w) = r in (o, record s { world = w })))
    go (ok a, w) q = rest a w q
    go (err e, w) q = sound
    go (fault, w) q = tt

-- A table with the same key sets at every place.
pub same_keys-IsTable :
    (n : ℕ) (t t' : ℕ → Option Repo)
    → ((i : ℕ) → keys_at (t' i) ≡ keys_at (t i))
    → IsTable n t
    → IsTable n t'
same_keys-IsTable n t t' same table = record {
  bounded = table.bounded;
  used = λ i lt.
      let (r, e, c) = table.used i lt in
      same_keys-IsComplete (t' i) r c (ground (arith, same i, e));
  unused = λ i h. ground (arith, same i, table.unused i h);
}

-- Two states with the same key sets at every place.
abbrev pub SameKeys : {W : Type 0} → Ta W → Ta W → Type 0
SameKeys s s' =
    ((i : ℕ) → keys_at (s'.repositories i) ≡ keys_at (s.repositories i))
    × (s'.repo_num ≡ s.repo_num)

pub SameKeys-IsSound : {W : Type 0} (s s' : Ta W) → SameKeys s s' → IsSound s → IsSound s'
SameKeys-IsSound s s' (same, num) sound =
    subst (λ n. IsTable n s'.repositories) (sym num)
      (same_keys-IsTable s.repo_num s.repositories s'.repositories same sound)

pub SameKeys-EndsSound :
    {W A : Type 0} (s : Ta W) (x : Outcome A × Ta W) → SameKeys s x.1 → IsSound s → EndsSound x
SameKeys-EndsSound s (ok a, s') same sound = SameKeys-IsSound s s' same sound
SameKeys-EndsSound s (err e, s') same sound = SameKeys-IsSound s s' same sound
SameKeys-EndsSound s (fault, s') same sound = tt

-- The rest of a handler runs from a sound state.
pub sound-rule :
    {W A B : Type 0} (m : Action (Ta W) A) (f : A → Action (Ta W) B) (s : Ta W)
    → EndsSound (m s)
    → ((a : A) (s' : Ta W) → m s ≡ (ok a, s') → IsSound s' → EndsSound (f a s'))
    → EndsSound ((m >>= f) s)
sound-rule m f s ends rest =
    >>=-rule EndsSound m f s (λ a s' run. rest a s' run (rw run at ends))
      (λ e s' run. rw run at ends) (λ s' run. tt)
