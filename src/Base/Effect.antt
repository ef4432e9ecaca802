-- ===== src/Base/Effect.antt =====
-- How the C code runs: a function of the state that ends with a value, with an error code, or in
-- undefined behaviour.
use mathlib.Core.Path.{◌≡◌, refl}
use mathlib.Core.Logic.{◌⊎◌, inl, inr}
use mathlib.Core.Bool.{Bool, true, false}
use mathlib.Core.Option.{Option, none, some}
use Prim.Native.Nat.{ℕ}

-- The codes of `TEE_Result` other than TEE_SUCCESS; `platform` is any code that only the
-- platform's own calls return.
pub data TeeError : Type 0 where
  bad_parameters item_not_found access_denied security out_of_memory bad_format generic : TeeError
  short_buffer : TeeError
  platform : ℕ → TeeError

-- `fault` is an access outside the C object that the code names.
pub data Outcome {ℓ} (A : Type ℓ) : Type ℓ where
  ok : A → Outcome A
  err : TeeError → Outcome A
  fault : Outcome A

pub ok-injective : {A : Type 0} {a b : A} → ok a ≡ ok b → a ≡ b
ok-injective e = cc

pub Outcome-cases :
    {A : Type 0} (r : Outcome A)
    → ((a : A) × (r ≡ ok a)) ⊎ (((e : TeeError) × (r ≡ err e)) ⊎ (r ≡ fault))
Outcome-cases (ok a) = inl (a, refl)
Outcome-cases (err e) = inr (inl (e, refl))
Outcome-cases fault = inr (inr refl)

-- What was written stays written, also when the call ends with an error.
abbrev pub Action : Type 0 → Type 0 → Type 0
Action S A = S → Outcome A × S

module _ {S A : Type 0} where
  abbrev pub pure : A → Action S A
  pure a s = (ok a, s)

  abbrev pub raise : TeeError → Action S A
  raise e s = (err e, s)

  abbrev pub undefined : Action S A
  undefined s = (fault, s)

  abbrev pub gets : (S → A) → Action S A
  gets f s = (ok (f s), s)

  -- An access that is defined only inside its object.
  abbrev pub defined : Option A → Action S A
  defined none = undefined
  defined (some a) = pure a

  -- A computation that neither reads nor writes the state.
  abbrev pub outcome : Outcome A → Action S A
  outcome r s = (r, s)

-- The rest of a `do` block, after its first statement.
abbrev pub resume : {S A B : Type 0} → (A → Action S B) → Outcome A × S → Outcome B × S
resume f (ok a, s) = f a s
resume f (err e, s) = (err e, s)
resume f (fault, s) = (fault, s)

infixl 5 ◌>>=◌ ◌>>◌
abbrev pub ◌>>=◌ : {S A B : Type 0} → Action S A → (A → Action S B) → Action S B
m >>= f = λ s. resume f (m s)

abbrev pub ◌>>◌ : {S B : Type 0} → Action S (Unit {0}) → Action S B → Action S B
m >> k = m >>= λ _. k

abbrev pub modify : {S : Type 0} → (S → S) → Action S (Unit {0})
modify f s = (ok tt, f s)

-- `if (bad) return e;`
abbrev pub raise_if : {S : Type 0} → Bool → TeeError → Action S (Unit {0})
raise_if true e s = (err e, s)
raise_if false e s = (ok tt, s)

module _ {S A : Type 0} where
  -- `cleanup: f(); return res;`, on success and on error
  abbrev pub finally : Action S A → (S → S) → Action S A
  finally m f s =
      let (r, s') = m s in
      elim r [ ok a ↦ (ok a, f s') | err e ↦ (err e, f s') | fault ↦ (fault, s') ]

  -- `if (res != TEE_SUCCESS) { f(); return res; }`
  abbrev pub on_error : Action S A → (S → S) → Action S A
  on_error m f s =
      let (r, s') = m s in
      elim r [ ok a ↦ (ok a, s') | err e ↦ (err e, f s') | fault ↦ (fault, s') ]

  -- `if (res != TEE_SUCCESS) return e;`
  abbrev pub with_error : Action S A → TeeError → Action S A
  with_error m e s =
      let (r, s') = m s in elim r [ ok a ↦ (ok a, s') | err _ ↦ (err e, s') | fault ↦ (fault, s') ]

  -- A second try where the first call ends with an error.
  abbrev pub or_else : Action S A → Action S A → Action S A
  or_else m k s =
      let (r, s') = m s in elim r [ ok a ↦ (ok a, s') | err _ ↦ k s' | fault ↦ (fault, s') ]
