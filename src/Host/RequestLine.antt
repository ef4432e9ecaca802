-- ===== src/Host/RequestLine.antt =====
-- The request line, and the arrays that `handle_http_request` scans it into.
use trust_chain.Base.{
  ℕ, ◌≤◌, ◌<◌, ◌≡◌, ◌≢◌, refl, false, Bytes, codes, [], ◌∷◌, ◌++◌, none, some, length, All, fault,
  arith, dec_lt, ◌∙◌, ◌⊎◌, inl, inr,
}
use trust_chain.Memory.{Cells}
use trust_chain.Host.Libraries.{Libraries}
use trust_chain.Host.Text.{is_space, skip_spaces, word, scan_word, behind}
use trust_chain.Host.Http.{parse_request, handle_http_request}

-- A word of a request line.
abbrev pub IsWord : Bytes → Type 0
IsWord s = (s ≢ []) × All (λ c. is_space c ≡ false) s

word-append :
    (s rest : Bytes) → All (λ c. is_space c ≡ false) s → word (s ++ 32 ∷ rest) ≡ (s, 32 ∷ rest)
unfolding word
word-append [] rest h = refl
word-append (c ∷ s) rest h = ground (arith, h.0, word-append s rest h.1)

skip_spaces-word : (s rest : Bytes) → IsWord s → skip_spaces (s ++ rest) ≡ s ++ rest
unfolding skip_spaces
skip_spaces-word [] rest (some_there, h) = absurd (some_there refl)
skip_spaces-word (c ∷ s) rest (some_there, h) = ground (arith, h.0)

skip_spaces-space : (s : Bytes) → skip_spaces (32 ∷ s) ≡ skip_spaces s
unfolding skip_spaces
skip_spaces-space s = refl

scan_word-fits :
    (room : ℕ) (s rest : Bytes)
    → IsWord s
    → length s < room
    → scan_word room (s ++ 32 ∷ rest) ≡ some (s, 32 ∷ rest)
unfolding scan_word
scan_word-fits room [] rest (some_there, h) fits = absurd (some_there refl)
scan_word-fits room (c ∷ s) rest h fits =
    rw (skip_spaces-word (c ∷ s) (32 ∷ rest) h, word-append (c ∷ s) rest h.1) (ground arith)

scan_word-overflow :
    (room : ℕ) (s rest : Bytes)
    → IsWord s
    → room ≤ length s
    → scan_word room (s ++ 32 ∷ rest) ≡ none
unfolding scan_word
scan_word-overflow room s rest h long =
    rw (skip_spaces-word s (32 ∷ rest) h, word-append s rest h.1) (ground arith)

scan_word-space : (room : ℕ) (s : Bytes) → scan_word room (32 ∷ s) ≡ scan_word room s
unfolding scan_word
scan_word-space room s = rw skip_spaces-space

abbrev pub request_line : Bytes → Bytes → Bytes → Bytes
request_line method path rest = method ++ (32 ∷ (path ++ (32 ∷ rest)))

-- A request line with a method of at most 15 and a path of at most 255 characters is read as it was
-- written, and the body is what stands behind the first empty line, or nothing.
pub parse_request-line :
    (method path rest : Bytes)
    → IsWord method
    → IsWord path
    → length method < 16
    → length path < 256
    → let request = request_line method path rest in
      parse_request request
      ≡ some
          (method, path, elim (behind (codes "\r\n\r\n") request) [ none ↦ [] | some body ↦ body ])
unfolding parse_request
parse_request-line method path rest wm wp fm fp =
    let m = scan_word-fits 16 method (path ++ 32 ∷ rest) wm fm in
    let q = scan_word-space 256 (path ++ 32 ∷ rest) ∙ scan_word-fits 256 path rest wp fp in
    ground (arith, m, q)

-- A method of 16 characters or more, or a path of 256 or more, is written past its array, whatever
-- follows.
pub handle_http_request-overflow :
    {W J : Type 0} (lib : Libraries W J) (stack : Cells) (method path rest : Bytes) (w : W)
    → IsWord method
    → IsWord path
    → (16 ≤ length method) ⊎ (256 ≤ length path)
    → handle_http_request lib stack (request_line method path rest) w ≡ (fault, w)
unfolding handle_http_request parse_request
handle_http_request-overflow lib stack method path rest w wm wp (inl long) =
    ground (arith, scan_word-overflow 16 method (path ++ 32 ∷ rest) wm long)
handle_http_request-overflow lib stack method path rest w wm wp (inr long) =
    elim (dec_lt (length method) 16) [
      | yes fits ↦
          let m = scan_word-fits 16 method (path ++ 32 ∷ rest) wm fits in
          let q =
            scan_word-space 256 (path ++ 32 ∷ rest) ∙ scan_word-overflow 256 path rest wp long in
          ground (arith, m, q)
      | no too_long ↦
          ground (arith, scan_word-overflow 16 method (path ++ 32 ∷ rest) wm (omega arith))
    ]
