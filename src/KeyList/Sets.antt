-- ===== src/KeyList/Sets.antt =====
-- The key list as a finite multiset of keys: what is left when the order of the nodes is forgotten.
pub mod Refinement
use trust_chain.Base.{
  ℕ, ◌+◌, ◌-◌, ◌<◌, length, ◌≡◌, refl, sym, ap, ◌∙◌, Bool, Bytes, List, [], ◌∷◌, none, some, str_eq,
  str_eq_iff, suc, arith, inl, inr, Option-cases, if◌then◌else◌, ltb, ◌%◌, ◌^◌,
}
use mathlib.Core.Quot
use native.Mathlib.Nat.{ℕ_set}
use mathlib.Core.Quot.{Quot, Quot-set}
use trust_chain.KeyList.{KeyList, key_in, unlink}

-- How often a key stands in a list.
pub times : Bytes → List Bytes → ℕ
times j [] = 0
times j (k ∷ ks) = (if str_eq k j then 1 else 0) + times j ks

-- Two lists with the same keys in them, each as often.
abbrev pub SameKeys : List Bytes → List Bytes → Type 0
SameKeys xs ys = (j : Bytes) → times j xs ≡ times j ys

abbrev pub KeyBag : Type 0
KeyBag = Quot SameKeys

-- The keys of a list of the TA.
abbrev pub keys_of : KeyList → KeyBag
keys_of l = Quot.mk l.head

unfoldable pub multiplicity : Bytes → KeyBag → ℕ
multiplicity j = Quot.lift ℕ_set (times j) (λ xs ys h. h j)

-- A list with a key taken out once, if it is there.
pub without : Bytes → List Bytes → List Bytes
without key [] = []
without key (k ∷ ks) = if str_eq k key then ks else k ∷ without key ks

times-without :
    (key j : Bytes) (ks : List Bytes)
    → times j (without key ks) ≡ times j ks - (if str_eq key j then 1 else 0)
unfolding times without
times-without key j [] = ground arith
times-without key j (k ∷ ks) =
    ground (arith, times-without key j ks, str_eq_iff k key, str_eq_iff key j, str_eq_iff k j)

length-without :
    (key : Bytes) (ks : List Bytes) → 0 < times key ks → length ks ≡ suc (length (without key ks))
unfolding times without
length-without key [] h = absurd (omega (arith, h))
length-without key (k ∷ ks) h = ground (arith, length-without key ks, h)

times-cons :
    (key j : Bytes) (ks : List Bytes)
    → times j (key ∷ ks) ≡ (if str_eq key j then 1 else 0) + times j ks
unfolding times
times-cons key j ks = refl

pub SameKeys-insert :
    (key : Bytes) (xs ys : List Bytes) → SameKeys xs ys → SameKeys (key ∷ xs) (key ∷ ys)
SameKeys-insert key xs ys same j =
    times-cons key j xs
    ∙ ap (λ n. (if str_eq key j then 1 else 0) + n) (same j)
    ∙ sym (times-cons key j ys)

pub SameKeys-without :
    (key : Bytes) (xs ys : List Bytes) → SameKeys xs ys → SameKeys (without key xs) (without key ys)
SameKeys-without key xs ys same j =
    times-without key j xs
    ∙ ap (λ n. n - (if str_eq key j then 1 else 0)) (same j)
    ∙ sym (times-without key j ys)

unfoldable pub insert : Bytes → KeyBag → KeyBag
insert key =
    Quot.lift Quot-set (λ xs. Quot.mk (key ∷ xs))
      (λ xs ys h. Quot.sound (SameKeys-insert key xs ys h))

unfoldable pub erase : Bytes → KeyBag → KeyBag
erase key =
    Quot.lift Quot-set (λ xs. Quot.mk (without key xs))
      (λ xs ys h. Quot.sound (SameKeys-without key xs ys h))

-- Each step takes one key out of both lists.
pub length-SameKeys : (xs ys : List Bytes) → SameKeys xs ys → length xs ≡ length ys
unfolding times
length-SameKeys [] [] same = refl
length-SameKeys [] (y ∷ ys) same = absurd (ground (arith, same y, str_eq_iff y y))
length-SameKeys (x ∷ xs) ys same =
    let rest =
      length-SameKeys xs (without x ys) (λ j. ground (arith, same j, times-without x j ys)) in
    ground (arith, rest, same x, str_eq_iff x x, length-without x ys)

unfoldable pub size : KeyBag → ℕ
size = Quot.lift ℕ_set length length-SameKeys

-- A list stands for a multiset of keys: they are the keys of its nodes, and its count is their number.
abbrev pub Represents : KeyList → KeyBag → Type 0
Represents l s = (keys_of l ≡ s) × (l.count ≡ size s % 2 ^ 32)

pub key_in-times : (j : Bytes) (ks : List Bytes) → key_in j ks ≡ ltb 0 (times j ks)
unfolding key_in times
key_in-times j [] = ground arith
key_in-times j (k ∷ ks) = ground (arith, key_in-times j ks)

pub unlink-without-none : (key : Bytes) (ks : List Bytes) → unlink key ks ≡ none → times key ks ≡ 0
unfolding unlink times
unlink-without-none key [] e = refl
unlink-without-none key (k ∷ ks) e = elim (Option-cases (unlink key ks)) [
  | inl missing ↦ ground (arith, unlink-without-none key ks missing, e)
  | inr (r, found) ↦ absurd (ground (arith, found, e))
]

pub unlink-without :
    (key : Bytes) (ks rest : List Bytes)
    → unlink key ks ≡ some rest
    → (rest ≡ without key ks) × (0 < times key ks)
unfolding unlink without times
unlink-without key [] rest e = absurd (ground (arith, e))
unlink-without key (k ∷ ks) rest e = elim (Option-cases (unlink key ks)) [
  | inl missing ↦ ground (arith, missing, e)
  | inr (r, found) ↦ ground (arith, found, e, unlink-without key ks r found)
]

pub unlink-missing : (key : Bytes) (ks : List Bytes) → unlink key ks ≡ none → without key ks ≡ ks
unfolding unlink without
unlink-missing key [] e = refl
unlink-missing key (k ∷ ks) e = elim (Option-cases (unlink key ks)) [
  | inl missing ↦ ground (arith, unlink-missing key ks missing, e)
  | inr (r, found) ↦ absurd (ground (arith, found, e))
]
