-- ===== src/Memory/Writes.antt =====
-- A struct that is filled field by field: a list of writes, in the order of their making, of which
-- each field keeps what was written to it if the later writes lie behind it.
use trust_chain.Base.{
  ℕ, ◌+◌, ◌≤◌, ◌<◌, ◌^◌, ◌≡◌, refl, ◌∙◌, List, [], ◌∷◌, ◌++◌, Bytes, length, take, inl, some, arith,
}
use trust_chain.Memory.{Cells, write, prefix, scan, read_u32, write_u32, u32_bytes}
use trust_chain.Memory.Laws.{
  IsText, prefix-write_out, prefix-write, scan-write_out, scan-write, read_u32-write_out,
  read_u32-write_u32,
}

abbrev pub writes : List (ℕ × Bytes) → Cells → Cells
writes [] c = c
writes ((at, s) ∷ ws) c = writes ws (write c at s)

-- All the writes begin at `bound` or later.
abbrev pub Behind : ℕ → List (ℕ × Bytes) → Type 0
Behind bound [] = Unit
Behind bound ((at, s) ∷ ws) = (bound ≤ at) × Behind bound ws

pub Behind-append :
    (k m : ℕ) (ws more : List (ℕ × Bytes))
    → Behind k ws
    → Behind m more
    → k ≤ m
    → Behind k (ws ++ more)
Behind-append k m [] [] h hm le = tt
Behind-append k m [] ((at, s) ∷ more) h hm le = (omega arith, Behind-append k m [] more h hm.1 le)
Behind-append k m ((at, s) ∷ ws) more h hm le = (h.0, Behind-append k m ws more h.1 hm le)

prefix-writes :
    (n off : ℕ) (ws : List (ℕ × Bytes)) (c : Cells)
    → Behind (off + n) ws
    → prefix n (writes ws c) off ≡ prefix n c off
prefix-writes n off [] c h = refl
prefix-writes n off ((at, s) ∷ ws) c h =
    prefix-writes n off ws (write c at s) h.1 ∙ prefix-write_out n c off at s (inl h.0)

scan-writes :
    (n off : ℕ) (ws : List (ℕ × Bytes)) (c : Cells)
    → Behind (off + n) ws
    → scan n (writes ws c) off ≡ scan n c off
scan-writes n off [] c h = refl
scan-writes n off ((at, s) ∷ ws) c h =
    scan-writes n off ws (write c at s) h.1 ∙ scan-write_out n c off at s (inl h.0)

read_u32-writes :
    (off : ℕ) (ws : List (ℕ × Bytes)) (c : Cells)
    → Behind (off + 4) ws
    → read_u32 (writes ws c) off ≡ read_u32 c off
read_u32-writes off [] c h = refl
read_u32-writes off ((at, s) ∷ ws) c h =
    read_u32-writes off ws (write c at s) h.1 ∙ read_u32-write_out c off at s (inl h.0)

pub text_field :
    (n off : ℕ) (s : Bytes) (ws : List (ℕ × Bytes)) (c : Cells)
    → IsText s
    → Behind (off + n) ws
    → prefix n (writes ((off, s ++ 0 ∷ []) ∷ ws) c) off ≡ take n s
text_field n off s ws c text h =
    prefix-writes n off ws (write c off (s ++ 0 ∷ [])) h ∙ prefix-write n c off s text

pub whole_text_field :
    (n off : ℕ) (s : Bytes) (ws : List (ℕ × Bytes)) (c : Cells)
    → IsText s
    → length s < n
    → Behind (off + n) ws
    → scan n (writes ((off, s ++ 0 ∷ []) ∷ ws) c) off ≡ some s
whole_text_field n off s ws c text fits h =
    scan-writes n off ws (write c off (s ++ 0 ∷ [])) h ∙ scan-write n c off s text fits

pub u32_field :
    (off x : ℕ) (ws : List (ℕ × Bytes)) (c : Cells)
    → x < 2 ^ 32
    → Behind (off + 4) ws
    → read_u32 (writes ((off, u32_bytes x) ∷ ws) c) off ≡ x
unfolding write_u32
u32_field off x ws c lt h =
    read_u32-writes off ws (write c off (u32_bytes x)) h ∙ read_u32-write_u32 c off x lt
