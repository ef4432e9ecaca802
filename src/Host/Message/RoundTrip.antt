-- ===== src/Host/Message/RoundTrip.antt =====
-- The message that the host makes, as ta/trust_chain_ta.c reads it.
use trust_chain.Base.{
  ℕ, zero, suc, ◌-◌, ◌^◌, ◌<◌, ◌≡◌, refl, ◌∙◌, List, [], ◌∷◌, ◌++◌, Bytes, length, take, drop,
  replicate, length-append, length-take, some, ap, arith,
}
use trust_chain.Memory.{Cells, write, scan, read_u32, write_u32, u32_bytes, load_u32, load_str}
use trust_chain.Memory.Laws.{
  IsText, Apart, scan-write_out, scan-write_padded, scan-more, read_u32-write_out,
  read_u32-write_u32,
}
use trust_chain.Memory.Writes.{writes}
use trust_chain.Host.Text.{strncpy_bytes}
use trust_chain.Host.Message.{ac_message, op_number, role_number}
use trust_chain.Ta.AccessControl

-- No write of the list reaches into the `n` bytes at `off`.
abbrev Clear : ℕ → ℕ → List (ℕ × Bytes) → Type 0
Clear off n [] = Unit
Clear off n ((at, s) ∷ ws) = Apart off n at (length s) × Clear off n ws

scan-Clear :
    (n off : ℕ) (ws : List (ℕ × Bytes)) (c : Cells)
    → Clear off n ws
    → scan n (writes ws c) off ≡ scan n c off
scan-Clear n off [] c h = refl
scan-Clear n off ((at, s) ∷ ws) c h =
    scan-Clear n off ws (write c at s) h.1 ∙ scan-write_out n c off at s h.0

read_u32-Clear :
    (off : ℕ) (ws : List (ℕ × Bytes)) (c : Cells)
    → Clear off 4 ws
    → read_u32 (writes ws c) off ≡ read_u32 c off
read_u32-Clear off [] c h = refl
read_u32-Clear off ((at, s) ∷ ws) c h =
    read_u32-Clear off ws (write c at s) h.1 ∙ read_u32-write_out c off at s h.0

length-replicate : (n a : ℕ) → length (replicate n a) ≡ n
length-replicate zero a = refl
length-replicate (suc n) a = omega (arith, length-replicate n a)

length-strncpy_bytes : (n : ℕ) (s : Bytes) → length (strncpy_bytes n s) ≡ n
unfolding strncpy_bytes
length-strncpy_bytes n s = omega (
  arith,
  length-append (take n s) (replicate (n - length s) 0),
  length-take n s,
  length-replicate (n - length s) 0,
)

-- A text with room for its NUL is copied whole.
strncpy_bytes-short :
    (n : ℕ) (s : Bytes) → length s < n → strncpy_bytes n s ≡ s ++ 0 ∷ replicate (n - length s - 1) 0
unfolding strncpy_bytes
strncpy_bytes-short zero s h = absurd (omega arith)
strncpy_bytes-short (suc n) [] h =
    let same : ◌≡◌ {A = ℕ} (suc n - 0) (suc (suc n - 0 - 1)) = omega arith in
    ap (λ m. replicate m 0) same
strncpy_bytes-short (suc n) (x ∷ s) h =
    let less : ◌≡◌ {A = ℕ} (suc n - suc (length s)) (n - length s) = omega arith in
    rw less (ap (λ t. x ∷ t) (strncpy_bytes-short n s (omega arith)))

-- A field that `strncpy` filled, and that later writes leave alone.
strncpy_field :
    (off : ℕ) (s : Bytes) (ws : List (ℕ × Bytes)) (c : Cells)
    → IsText s
    → length s < 511
    → Clear off 511 ws
    → scan 511 (writes ((off, strncpy_bytes 511 s) ∷ ws) c) off ≡ some s
strncpy_field off s ws c text fits clear =
    scan-Clear 511 off ws (write c off (strncpy_bytes 511 s)) clear
    ∙ ap (λ b. scan 511 (write c off b) off) (strncpy_bytes-short 511 s fits)
    ∙ scan-write_padded 511 c off s (replicate (511 - length s - 1) 0) text fits

u32_field :
    (off x : ℕ) (ws : List (ℕ × Bytes)) (c : Cells)
    → x < 2 ^ 32
    → Clear off 4 ws
    → read_u32 (writes ((off, u32_bytes x) ∷ ws) c) off ≡ x
unfolding write_u32
u32_field off x ws c lt clear =
    read_u32-Clear off ws (write c off (u32_bytes x)) clear ∙ read_u32-write_u32 c off x lt

op_number_bound : (operation : Bytes) → op_number operation < 2 ^ 32
unfolding op_number
op_number_bound operation = ground arith

role_number_bound : (role : Bytes) → role_number role < 2 ^ 32
unfolding role_number
role_number_bound role = ground arith

module _ (stack : Cells) (repo_id : ℕ) (operation role pubkey sigkey signature : Bytes) where
  -- The assignments that make the message, in their order.
  abbrev message_writes : List (ℕ × Bytes)
  message_writes =
      (0, u32_bytes repo_id)
      ∷ (4, u32_bytes (op_number operation))
      ∷ (8, u32_bytes (role_number role))
      ∷ (12, strncpy_bytes 511 pubkey)
      ∷ (523, 0 ∷ [])
      ∷ (524, strncpy_bytes 511 sigkey)
      ∷ (523, 0 ∷ [])
      ∷ (1036, strncpy_bytes 511 signature)
      ∷ (523, 0 ∷ [])
      ∷ []

  ac_message-writes :
      (ac_message stack repo_id operation role pubkey sigkey signature).cell
      ≡ writes message_writes stack
  unfolding ac_message
  ac_message-writes = refl

  abbrev after : ℕ → Cells
  after k = writes (take k message_writes) stack

  numbers_read :
      repo_id < 2 ^ 32
      → let c = writes message_writes stack in
        (read_u32 c 0 ≡ repo_id)
        × (read_u32 c 4 ≡ op_number operation)
        × (read_u32 c 8 ≡ role_number role)
  numbers_read small =
      let lp = length-strncpy_bytes 511 pubkey in
      let lk = length-strncpy_bytes 511 sigkey in
      let lg = length-strncpy_bytes 511 signature in
      (
        u32_field 0 repo_id (drop 1 message_writes) (after 0) small (omega (arith, lp, lk, lg)),
        u32_field 4 (op_number operation) (drop 2 message_writes) (after 1)
            (op_number_bound operation) (omega (arith, lp, lk, lg)),
        u32_field 8 (role_number role) (drop 3 message_writes) (after 2) (role_number_bound role)
            (omega (arith, lp, lk, lg)),
      )

  texts_read :
      IsText pubkey
      → IsText sigkey
      → IsText signature
      → length pubkey < 511
      → length sigkey < 511
      → length signature < 511
      → let c = writes message_writes stack in
        (scan 511 c 12 ≡ some pubkey)
        × (scan 511 c 524 ≡ some sigkey)
        × (scan 511 c 1036 ≡ some signature)
  texts_read tp tk tg fp fk fg =
      let lk = length-strncpy_bytes 511 sigkey in
      let lg = length-strncpy_bytes 511 signature in
      (
        strncpy_field 12 pubkey (drop 4 message_writes) (after 3) tp fp (omega (arith, lk, lg)),
        strncpy_field 524 sigkey (drop 6 message_writes) (after 5) tk fk (omega (arith, lg)),
        strncpy_field 1036 signature (drop 8 message_writes) (after 7) tg fg (omega arith),
      )

-- A message made from a `uint32_t` and three texts of fewer than 511 characters reads back in the TA,
-- whatever the stack held: the repository, the numbers that the host has for the operation and the
-- role, and the three texts whole.
pub ac_message-read :
    (stack : Cells) (repo_id : ℕ) (operation role pubkey sigkey signature : Bytes)
    → repo_id < 2 ^ 32
    → IsText pubkey
    → IsText sigkey
    → IsText signature
    → length pubkey < 511
    → length sigkey < 511
    → length signature < 511
    → let m = ac_message stack repo_id operation role pubkey sigkey signature in
      (load_u32 m AccessControl.rep_id_at ≡ some repo_id)
      × (load_u32 m AccessControl.op_at ≡ some (op_number operation))
      × (load_u32 m AccessControl.role_at ≡ some (role_number role))
      × (load_str m AccessControl.pubkey_at ≡ some pubkey)
      × (load_str m AccessControl.sigkey_at ≡ some sigkey)
      × (load_str m AccessControl.signature_at ≡ some signature)
unfolding load_u32 load_str ac_message
ac_message-read stack repo_id operation role pubkey sigkey signature small tp tk tg fp fk fg =
    let (id, op, ro) = numbers_read stack repo_id operation role pubkey sigkey signature small in
    let (key, signer, sig) =
      texts_read stack repo_id operation role pubkey sigkey signature tp tk tg fp fk fg in
    let c = (ac_message stack repo_id operation role pubkey sigkey signature).cell in
    (
      ap some id,
      ap some op,
      ap some ro,
      scan-more 511 1536 c 12 pubkey (omega arith) key,
      scan-more 511 1024 c 524 sigkey (omega arith) signer,
      scan-more 511 512 c 1036 signature (omega arith) sig,
    )
