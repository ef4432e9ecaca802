-- ===== src/Host/Text.antt =====
-- The functions of the C library that host/main.c takes requests apart with.
use trust_chain.Base.{
  ℕ, ◌-◌, ◌%◌, ◌^◌, Bool, true, false, ◌&&◌, ◌||◌, Bytes, [], ◌∷◌, ◌++◌, Option, none, some, length,
  take, drop, replicate, ltb, leb, ◌==◌, if◌then◌else◌,
}
use trust_chain.Decimal.{digits_value}

-- isspace in the C locale
abbrev pub is_space : ℕ → Bool
is_space c = c == 32 || leb 9 c && leb c 13

-- The white space that `%s` skips.
unfoldable pub skip_spaces : Bytes → Bytes
skip_spaces [] = []
skip_spaces (c ∷ s) = let rest = skip_spaces s in if is_space c then rest else c ∷ s

-- The characters that `%s` takes, and those behind them.
unfoldable pub word : Bytes → Bytes × Bytes
word [] = ([], [])
word (c ∷ s) =
    let rest : Bytes × Bytes = (let (t, u) = word s in (c ∷ t, u)) in
    if is_space c then ([], c ∷ s) else rest

-- One `%s` into an array of `room` bytes: none if there is nothing to take, or no room for it and
-- its NUL.
unfoldable pub scan_word : ℕ → Bytes → Option (Bytes × Bytes)
unfolding skip_spaces word
scan_word room s =
    let (t, u) = word (skip_spaces s) in
    if length t == 0 || leb room (length t) then none else some (t, u)

-- strncmp(s, t, strlen(t)) == 0
unfoldable pub starts_with : Bytes → Bytes → Bool
starts_with [] s = true
starts_with (c ∷ t) [] = false
starts_with (c ∷ t) (d ∷ s) = c == d && starts_with t s

-- What stands behind the first occurrence of `t`, by `strstr`.
unfoldable pub behind : Bytes → Bytes → Option Bytes
unfolding starts_with
behind t [] = if length t == 0 then some [] else none
behind t (c ∷ s) =
    let rest = behind t s in if starts_with t (c ∷ s) then some (drop (length t) (c ∷ s)) else rest

-- `atoi`, as a `uint32_t`; a value that is no `int` is undefined.
unfoldable pub atoi : Bytes → Option ℕ
unfolding digits_value
atoi [] = some 0
atoi (c ∷ s) =
    if c == b'-'
    then (let n = digits_value 0 s in if leb n (2 ^ 31) then some ((2 ^ 32 - n) % 2 ^ 32) else none)
    else (let n = digits_value 0 (if c == b'+' then s else c ∷ s) in
        if ltb n (2 ^ 31) then some n else none)

-- The bytes that strncpy(dst, s, n) writes.
unfoldable pub strncpy_bytes : ℕ → Bytes → Bytes
strncpy_bytes n s = take n s ++ replicate (n - length s) 0
