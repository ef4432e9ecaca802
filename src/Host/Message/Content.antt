-- ===== src/Host/Message/Content.antt =====
-- The message of `handle_access_control` consists of bytes.
use trust_chain.Base.{
  ℕ, zero, suc, ◌-◌, Bytes, [], ◌∷◌, All, All-append, arith, length, take, replicate,
}
use trust_chain.Memory.{Cells, write, u32_bytes}
use trust_chain.Hex.RoundTrip.{IsByte}
use trust_chain.Host.Text.{strncpy_bytes}
use trust_chain.Host.Message.{ac_message, op_number, role_number}

abbrev pub AreBytes : Cells → Type 0
AreBytes c = (a : ℕ) → IsByte (c a)

write-AreBytes :
    (c : Cells) (off : ℕ) (s : Bytes) → AreBytes c → All IsByte s → AreBytes (write c off s)
unfolding write
write-AreBytes c off [] old new a = old a
write-AreBytes c off (x ∷ s) old new a =
    ground (arith, new.0, write-AreBytes c (suc off) s old new.1 a)

take-IsByte : (n : ℕ) (s : Bytes) → All IsByte s → All IsByte (take n s)
take-IsByte zero s h = ground arith
take-IsByte (suc n) [] h = tt
take-IsByte (suc n) (x ∷ s) h = (h.0, take-IsByte n s h.1)

zeros-IsByte : (n : ℕ) → All IsByte (replicate n 0)
zeros-IsByte zero = tt
zeros-IsByte (suc n) = (omega arith, zeros-IsByte n)

strncpy_bytes-IsByte : (n : ℕ) (s : Bytes) → All IsByte s → All IsByte (strncpy_bytes n s)
unfolding strncpy_bytes
strncpy_bytes-IsByte n s h =
    All-append IsByte (take n s) (replicate (n - length s) 0) (take-IsByte n s h)
      (zeros-IsByte (n - length s))

u32_bytes-IsByte : (x : ℕ) → All IsByte (u32_bytes x)
u32_bytes-IsByte x = (omega arith, (omega arith, (omega arith, (omega arith, tt))))

pub ac_message-AreBytes :
    (stack : Cells) (repo_id : ℕ) (operation role pubkey sigkey signature : Bytes)
    → AreBytes stack
    → All IsByte pubkey
    → All IsByte sigkey
    → All IsByte signature
    → AreBytes (ac_message stack repo_id operation role pubkey sigkey signature).cell
unfolding ac_message
ac_message-AreBytes stack repo_id operation role pubkey sigkey signature old key signer sig =
    let zero_byte : All IsByte (0 ∷ []) = (omega arith, tt) in
    write-AreBytes _ 523 (0 ∷ [])
      (write-AreBytes _ 1036 (strncpy_bytes 511 signature)
        (write-AreBytes _ 523 (0 ∷ [])
          (write-AreBytes _ 524 (strncpy_bytes 511 sigkey)
            (write-AreBytes _ 523 (0 ∷ [])
              (write-AreBytes _ 12 (strncpy_bytes 511 pubkey)
                (write-AreBytes _ 8 _
                  (write-AreBytes _ 4 _ (write-AreBytes stack 0 _ old (u32_bytes-IsByte repo_id))
                    (u32_bytes-IsByte (op_number operation)))
                  (u32_bytes-IsByte (role_number role)))
                (strncpy_bytes-IsByte 511 pubkey key))
              zero_byte)
            (strncpy_bytes-IsByte 511 sigkey signer))
          zero_byte)
        (strncpy_bytes-IsByte 511 signature sig))
      zero_byte
