-- ===== src/Host/Server/Counts.antt =====
-- What the operating system promises of the calls of Host/Network, and counting threads.
use trust_chain.Base.{
  ℕ, ◌+◌, ◌-◌, ◌≡◌, Bool, true, false, List, [], ◌∷◌, ◌++◌, none, some, length, ◌==◌, if◌then◌else◌,
  arith,
}
use trust_chain.Host.Network.{Network}
use trust_chain.Host.Server.{Server, Thread, begun, received, answered, closed}

-- Whether a thread has the connection's socket `c` and has not closed it.
abbrev pub holds : ℕ → Thread → ℕ
holds c (begun x) = if x == c then 1 else 0
holds c (received x _) = if x == c then 1 else 0
holds c (answered x) = if x == c then 1 else 0
holds c (closed x) = 0

-- How many threads of a list have it.
abbrev pub count : ℕ → List Thread → ℕ
count c [] = 0
count c (th ∷ ths) = holds c th + count c ths

pub count-append : (c : ℕ) (xs ys : List Thread) → count c (xs ++ ys) ≡ count c xs + count c ys
count-append c [] ys = omega arith
count-append c (x ∷ xs) ys = omega (arith, count-append c xs ys)

pub length-insert :
    (th : Thread) (xs ys : List Thread) → length (xs ++ th ∷ ys) ≡ 1 + length (xs ++ ys)
length-insert th [] ys = omega arith
length-insert th (x ∷ xs) ys = omega (arith, length-insert th xs ys)

-- What the operating system promises: a socket that `accept` returns was not open and is so from
-- then on, `close` closes one socket, `malloc` and `free` count, and nothing else opens or closes a
-- connection, or allocates or frees.
pub record Counts {N : Type 0} (net : Network N) (is_open : N → ℕ → Bool) (allocated : N → ℕ)
    : Type 0 where
  pub socket_open : (n : N) (c : ℕ) → is_open (net.socket n).1 c ≡ is_open n c
  pub socket_allocated : (n : N) → allocated (net.socket n).1 ≡ allocated n
  pub reuse_open : (l : ℕ) (n : N) (c : ℕ) → is_open (net.reuse_address l n) c ≡ is_open n c
  pub reuse_allocated : (l : ℕ) (n : N) → allocated (net.reuse_address l n) ≡ allocated n
  pub bind_open : (l p : ℕ) (n : N) (c : ℕ) → is_open (net.bind l p n).1 c ≡ is_open n c
  pub bind_allocated : (l p : ℕ) (n : N) → allocated (net.bind l p n).1 ≡ allocated n
  pub listen_open : (l q : ℕ) (n : N) (c : ℕ) → is_open (net.listen l q n).1 c ≡ is_open n c
  pub listen_allocated : (l q : ℕ) (n : N) → allocated (net.listen l q n).1 ≡ allocated n
  pub accept_new : (l : ℕ) (n : N) (c : ℕ) → (net.accept l n).0 ≡ some c → is_open n c ≡ false
  pub accept_open :
      (l : ℕ) (n : N) (c j : ℕ)
      → (net.accept l n).0 ≡ some c
      → is_open (net.accept l n).1 j ≡ (if c == j then true else is_open n j)
  pub accept_none :
      (l : ℕ) (n : N) (j : ℕ)
      → (net.accept l n).0 ≡ none
      → is_open (net.accept l n).1 j ≡ is_open n j
  pub accept_allocated : (l : ℕ) (n : N) → allocated (net.accept l n).1 ≡ allocated n
  pub recv_open : (c k : ℕ) (n : N) (j : ℕ) → is_open (net.recv c k n).1 j ≡ is_open n j
  pub recv_allocated : (c k : ℕ) (n : N) → allocated (net.recv c k n).1 ≡ allocated n
  pub close_open :
      (c : ℕ) (n : N) (j : ℕ) → is_open (net.close c n) j ≡ (if c == j then false else is_open n j)
  pub close_allocated : (c : ℕ) (n : N) → allocated (net.close c n) ≡ allocated n
  pub malloc_open : (n : N) (j : ℕ) → is_open (net.malloc n).1 j ≡ is_open n j
  pub malloc_allocated :
      (n : N)
      → allocated (net.malloc n).1 ≡ (if (net.malloc n).0 then 1 + allocated n else allocated n)
  pub free_open : (n : N) (j : ℕ) → is_open (net.free n) j ≡ is_open n j
  pub free_allocated : (n : N) → allocated (net.free n) ≡ allocated n - 1
  pub create_open : (n : N) (j : ℕ) → is_open (net.pthread_create n).1 j ≡ is_open n j
  pub create_allocated : (n : N) → allocated (net.pthread_create n).1 ≡ allocated n

-- Each open connection has one thread that has not closed it, a closed one has none, and each thread
-- has its int on the heap.
pub record HasThreads {W N : Type 0} (is_open : N → ℕ → Bool) (allocated : N → ℕ) (s : Server W N)
    : Type 0 where
  pub one_each : (c : ℕ) → count c s.threads ≡ (if is_open s.net c then 1 else 0)
  pub one_int : allocated s.net ≡ length s.threads
