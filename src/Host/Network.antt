-- ===== src/Host/Network.antt =====
-- What the service in host/main.c calls of the operating system: sockets, the heap and threads. `N` is
-- the state of that world.
use trust_chain.Base.{ℕ, Bool, Option, Bytes}

pub record Network (N : Type 0) : Type 0 where
  -- a TCP socket; none for -1
  pub socket : N → Option ℕ × N
  -- setsockopt with SO_REUSEADDR
  pub reuse_address : ℕ → N → N
  -- whether bind, to any address and the port, and listen, with the length of the queue, succeed
  pub bind : ℕ → ℕ → N → Bool × N
  pub listen : ℕ → ℕ → N → Bool × N
  -- the connection's socket; none for a negative result
  pub accept : ℕ → N → Option ℕ × N
  -- what was received, at most as many bytes as given, and nothing after an error or at the end
  pub recv : ℕ → ℕ → N → Bytes × N
  pub close : ℕ → N → N
  -- malloc of one int: whether there is memory
  pub malloc : N → Bool × N
  pub free : N → N
  -- pthread_create: whether there is a new thread
  pub pthread_create : N → Bool × N
