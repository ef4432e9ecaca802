-- ===== src/Ta/SignedText.antt =====
-- What the signature of a message speaks about: the text that `access_control` and `commit` check it
-- against determines the request.
use trust_chain.Base.{
  ℕ, zero, suc, ◌+◌, ◌^◌, ◌≤◌, ◌<◌, ◌≡◌, ◌≢◌, refl, sym, ap, ◌∙◌, ◌⊎◌, Bytes, [], ◌∷◌, All, length,
  take, length-append, arith,
}
use trust_chain.Decimal.{decimal}
use trust_chain.Decimal.RoundTrip.{IsDigit, decimal-IsDigit, length-decimal, decimal-injective}
use trust_chain.Block.{◌⟨:⟩◌}
use trust_chain.Ta.State.{op_add, op_delete, op_push, op_pr}
use trust_chain.Ta.AccessControl.{access_request}
use trust_chain.Ta.Commit.{commit_request}

take-whole : (n : ℕ) (s : Bytes) → length s ≤ n → take n s ≡ s
take-whole zero [] h = refl
take-whole (suc n) [] h = refl
take-whole zero (x ∷ s) h = absurd (omega arith)
take-whole (suc n) (x ∷ s) h = ap (λ t. x ∷ t) (take-whole n s (omega arith))

-- The digits before the first colon.
colon-split :
    (s t u v : Bytes) → All IsDigit s → All IsDigit t → (s ⟨:⟩ u) ≡ (t ⟨:⟩ v) → (s ≡ t) × (u ≡ v)
colon-split [] [] u v hs ht e = (refl, ground (arith, e))
colon-split [] (y ∷ t) u v hs ht e = absurd (ground (arith, e, ht.0))
colon-split (x ∷ s) [] u v hs ht e = absurd (ground (arith, e, hs.0))
colon-split (x ∷ s) (y ∷ t) u v hs ht e =
    let (same, rest) = colon-split s t u v hs.1 ht.1 (ground (arith, e)) in
    (ground (arith, e, same), rest)

number-split :
    (n m : ℕ) (u v : Bytes)
    → n < 2 ^ 32
    → m < 2 ^ 32
    → (decimal n ⟨:⟩ u) ≡ (decimal m ⟨:⟩ v)
    → (n ≡ m) × (u ≡ v)
number-split n m u v hn hm e =
    let (same, rest) =
      colon-split (decimal n) (decimal m) u v (decimal-IsDigit n) (decimal-IsDigit m) e in
    (decimal-injective n m hn hm same, rest)

length-colon : (n : ℕ) (u : Bytes) → length (decimal n ⟨:⟩ u) ≤ 11 + length u
length-colon n u = omega (arith, length-append (decimal n) (b':' ∷ u), length-decimal n)

commit_request-whole :
    (id op : ℕ) (h : Bytes)
    → length h ≤ 1000
    → commit_request id op h ≡ (decimal id ⟨:⟩ decimal op ⟨:⟩ h)
unfolding commit_request
commit_request-whole id op h fits =
    take-whole 1023 _ (omega (arith, length-colon id (decimal op ⟨:⟩ h), length-colon op h))

access_request-whole :
    (id op role : ℕ) (key : Bytes)
    → length key ≤ 989
    → access_request id op role key ≡ (decimal id ⟨:⟩ decimal op ⟨:⟩ decimal role ⟨:⟩ key)
unfolding access_request
access_request-whole id op role key fits = take-whole 1023 _ (
    omega (
      arith,
      length-colon id (decimal op ⟨:⟩ decimal role ⟨:⟩ key),
      length-colon op (decimal role ⟨:⟩ key),
      length-colon role key,
    ))

-- Two commit requests of `uint32_t` numbers and hashes of at most 1000 characters that are signed by
-- the same text are the same request.
commit_request-injective :
    (id id' op op' : ℕ) (h h' : Bytes)
    → id < 2 ^ 32
    → id' < 2 ^ 32
    → op < 2 ^ 32
    → op' < 2 ^ 32
    → length h ≤ 1000
    → length h' ≤ 1000
    → commit_request id op h ≡ commit_request id' op' h'
    → (id ≡ id') × (op ≡ op') × (h ≡ h')
commit_request-injective id id' op op' h h' hi hi' ho ho' fits fits' e =
    let (same_id, rest) =
      number-split id id' _ _ hi hi'
        (sym (commit_request-whole id op h fits) ∙ e ∙ commit_request-whole id' op' h' fits') in
    let (same_op, same_h) = number-split op op' h h' ho ho' rest in (same_id, same_op, same_h)

-- Two access control requests of `uint32_t` numbers and keys of at most 989 characters that are
-- signed by the same text are the same request.
access_request-injective :
    (id id' op op' role role' : ℕ) (key key' : Bytes)
    → id < 2 ^ 32
    → id' < 2 ^ 32
    → op < 2 ^ 32
    → op' < 2 ^ 32
    → role < 2 ^ 32
    → role' < 2 ^ 32
    → length key ≤ 989
    → length key' ≤ 989
    → access_request id op role key ≡ access_request id' op' role' key'
    → (id ≡ id') × (op ≡ op') × (role ≡ role') × (key ≡ key')
access_request-injective id id' op op' role role' key key' hi hi' ho ho' hr hr' fits fits' e =
    let (same_id, rest) = number-split id id' _ _ hi hi' (
      sym (access_request-whole id op role key fits)
      ∙ e
      ∙ access_request-whole id' op' role' key' fits') in
    let (same_op, rest') = number-split op op' _ _ ho ho' rest in
    let (same_role, same_key) = number-split role role' key key' hr hr' rest' in
    (same_id, same_op, same_role, same_key)

-- A text that signs an access control request, ADD or DELETE with a key of at most 989 characters,
-- signs no commit, PUSH or PR with a hash of at most 1000 characters, of any repositories.
commit_request-ne-access_request :
    (id id' op op' role : ℕ) (h key : Bytes)
    → id < 2 ^ 32
    → id' < 2 ^ 32
    → (op ≡ op_push) ⊎ (op ≡ op_pr)
    → (op' ≡ op_add) ⊎ (op' ≡ op_delete)
    → length h ≤ 1000
    → length key ≤ 989
    → commit_request id op h ≢ access_request id' op' role key
commit_request-ne-access_request id id' op op' role h key hi hi' commits changes fits fits' e =
    let (same_id, rest) =
      number-split id id' _ _ hi hi' (
        sym (commit_request-whole id op h fits)
        ∙ e
        ∙ access_request-whole id' op' role key fits') in
    let (same_op, _) =
      number-split op op' _ _ (ground (arith, commits)) (ground (arith, changes)) rest in
    ground (arith, same_op, commits, changes)

-- The two kinds of requests whose texts the keys of a repository sign.
pub data SignedRequest : Type 0 where
  committing : (id op : ℕ) (commit_hash : Bytes) → SignedRequest
  changing_keys : (id op role : ℕ) (key : Bytes) → SignedRequest

abbrev pub signed_text : SignedRequest → Bytes
signed_text (committing id op commit_hash) = commit_request id op commit_hash
signed_text (changing_keys id op role key) = access_request id op role key

-- `uint32_t` numbers, an operation of the command, and a string that the buffer of the text has room
-- for.
abbrev pub IsRequest : SignedRequest → Type 0
IsRequest (committing id op commit_hash) =
    (id < 2 ^ 32) × ((op ≡ op_push) ⊎ (op ≡ op_pr)) × (length commit_hash ≤ 1000)
IsRequest (changing_keys id op role key) =
    (id < 2 ^ 32) × ((op ≡ op_add) ⊎ (op ≡ op_delete)) × (role < 2 ^ 32) × (length key ≤ 989)

-- A text signs one request only: two requests, a commit (PUSH or PR) with a hash of at most 1000
-- characters or a change of the key sets (ADD or DELETE) with a key of at most 989 characters, of
-- `uint32_t` numbers, that are signed by the same text are the same request, with the same
-- repository, operation, role, and hash or key.
pub signed_text-injective :
    (x y : SignedRequest) → IsRequest x → IsRequest y → signed_text x ≡ signed_text y → x ≡ y
signed_text-injective (committing id op h) (committing id' op' h') (hi, ho, fits) (hi', ho', fits')
      e =
    let (i, o, s) =
      commit_request-injective id id' op op' h h' hi hi' (ground (arith, ho)) (ground (arith, ho'))
        fits fits' e in
    λ j. committing (i j) (o j) (s j)
signed_text-injective (changing_keys id op role k) (changing_keys id' op' role' k')
      (hi, ho, hr, fits) (hi', ho', hr', fits') e =
    let (i, o, r, s) =
      access_request-injective id id' op op' role role' k k' hi hi' (ground (arith, ho))
        (ground (arith, ho')) hr hr' fits fits' e in
    λ j. changing_keys (i j) (o j) (r j) (s j)
signed_text-injective (committing id op h) (changing_keys id' op' role k) (hi, ho, fits)
      (hi', ho', hr, fits') e =
    absurd (commit_request-ne-access_request id id' op op' role h k hi hi' ho ho' fits fits' e)
signed_text-injective (changing_keys id' op' role k) (committing id op h) (hi', ho', hr, fits')
      (hi, ho, fits) e =
    absurd
      (commit_request-ne-access_request id id' op op' role h k hi hi' ho ho' fits fits' (sym e))
