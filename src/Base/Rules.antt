-- ===== src/Base/Rules.antt =====
-- Rules that take a predicate on how a run ends through a `do` block, one statement at a time.
use mathlib.Core.Path.{◌≡◌, refl, sym, ap, ◌∙◌}
use mathlib.Core.Bool.{Bool, true, false}
use mathlib.Core.Option.{Option, none, some}
use native.Mathlib.Omega.{arith}
use trust_chain.Base.Effect.{
  TeeError, Outcome, ok, err, fault, Action, ◌>>=◌, ◌>>◌, resume, defined, raise_if,
}

module _ {S A B : Type 0} (P : Outcome B × S → Type 0) where
  pub >>=-rule :
      (m : Action S A) (f : A → Action S B) (s : S)
      → ((a : A) (s' : S) → m s ≡ (ok a, s') → P (f a s'))
      → ((e : TeeError) (s' : S) → m s ≡ (err e, s') → P (err e, s'))
      → ((s' : S) → m s ≡ (fault, s') → P (fault, s'))
      → P ((m >>= f) s)
  >>=-rule m f s on_ok on_err on_fault = go (m s).0 (m s).1 refl
    where
      go : (r : Outcome A) (s' : S) → m s ≡ (r, s') → P (resume f (r, s'))
      go (ok a) s' e = on_ok a s' e
      go (err x) s' e = on_err x s' e
      go fault s' e = on_fault s' e

  pub defined-rule :
      (o : Option A) (f : A → Action S B) (s : S)
      → P (fault, s)
      → ((a : A) → o ≡ some a → P (f a s))
      → P ((defined o >>= f) s)
  defined-rule none f s on_fault on_some = on_fault
  defined-rule (some a) f s on_fault on_some = on_some a refl

module _ {S B : Type 0} (P : Outcome B × S → Type 0) where
  pub raise_if-rule :
      (b : Bool) (e : TeeError) (k : Action S B) (s : S)
      → (b ≡ true → P (err e, s))
      → (b ≡ false → P (k s))
      → P ((raise_if b e >> k) s)
  raise_if-rule true e k s on_true on_false = on_true refl
  raise_if-rule false e k s on_true on_false = on_false refl

-- What a block that succeeded went through.
pub >>=-ok :
    {S A B : Type 0} (m : Action S A) (f : A → Action S B) (s s' : S) (b : B)
    → (m >>= f) s ≡ (ok b, s')
    → (a : A) × (s₁ : S) × (m s ≡ (ok a, s₁)) × (f a s₁ ≡ (ok b, s'))
>>=-ok {S} {A} {B} m f s s' b run = go (m s).0 (m s).1 refl
  where
    go :
        (r : Outcome A) (s₁ : S)
        → m s ≡ (r, s₁)
        → (a : A) × (s₁ : S) × (m s ≡ (ok a, s₁)) × (f a s₁ ≡ (ok b, s'))
    go (ok a) s₁ e = (a, s₁, e, ap (resume f) (sym e) ∙ run)
    go (err x) s₁ e = absurd (ground (arith, ap (resume f) e))
    go fault s₁ e = absurd (ground (arith, ap (resume f) e))
