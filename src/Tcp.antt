-- ===== src/Tcp.antt =====
-- The parts of Boost.Asio that tcp_transport.hpp, tcp_client.hpp and tcp_server.hpp use and that this
-- repository does not hold: sockets. What the network does is in the socket; the laws are the
-- documented behaviour.
pub mod Memory
pub mod Transport
pub mod Client
pub mod Server
pub mod Drain
pub mod Draining
pub mod Returning
use rillnet.Base.{ℕ, ◌≤◌, ◌≡◌, Bool, false, Option, none, List, ◌++◌, length, String}

-- What async_read_some completes with: bytes, the error eof, or another error.
pub data Received : Type 0 where
  received : List ℕ → Received
  received_eof : Received
  received_error : Received

pub record SocketApi : Type 1 where
  pub Socket : Type 0
  pub is_open : Socket → Bool
  -- At most so many bytes.
  pub async_read_some : ℕ → Socket → Socket × Received
  -- The message of the error, if there is one.
  pub async_write : List ℕ → Socket → Socket × Option String
  pub shutdown : Socket → Socket
  pub close : Socket → Socket
  -- The bytes that were written to the socket so far.
  pub sent : Socket → List ℕ
  pub read_size :
      (n : ℕ) (s s' : Socket) (bytes : List ℕ)
      → async_read_some n s ≡ (s', received bytes)
      → length bytes ≤ n
  pub read_sends_nothing : (n : ℕ) (s : Socket) → sent (async_read_some n s).0 ≡ sent s
  pub write_done :
      (bytes : List ℕ) (s s' : Socket)
      → async_write bytes s ≡ (s', none)
      → sent s' ≡ sent s ++ bytes
  pub shutdown_sends_nothing : (s : Socket) → sent (shutdown s) ≡ sent s
  pub close_sends_nothing : (s : Socket) → sent (close s) ≡ sent s
  pub close_closes : (s : Socket) → is_open (close s) ≡ false
