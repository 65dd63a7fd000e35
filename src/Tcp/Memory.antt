-- ===== src/Tcp/Memory.antt =====
-- A socket that meets the laws of `SocketApi`: what it will receive is a list of results, and writes
-- fail once it has been closed. The tests run on it.
use rillnet.Base.{
  ℕ, ◌≤◌, ◌≡◌, refl, Bool, true, false, Option, none, some, List, [], ◌∷◌, ◌++◌, length, take,
  length-take, String, arith,
}
use rillnet.Tcp.{Received, received, received_eof, received_error, SocketApi}

pub record Memory : Type 0 where
  pub incoming : List Received
  pub outgoing : List ℕ
  pub open_flag : Bool

abbrev pub first_part : ℕ → Received → Received
first_part n (received bytes) = received (take n bytes)
first_part n r = r

-- With nothing left to receive a read meets the end.
abbrev pub receive : ℕ → List Received → Memory → Memory × Received
receive n [] m = (m, received_eof)
receive n (r ∷ rest) m = (record m { incoming = rest }, first_part n r)

abbrev pub put : Bool → List ℕ → Memory → Memory × Option String
put true bytes m = (record m { outgoing = m.outgoing ++ bytes }, none)
put false bytes m = (m, some "not connected")

pub receive_size :
    (n : ℕ) (rs : List Received) (m m' : Memory) (bytes : List ℕ)
    → receive n rs m ≡ (m', received bytes)
    → length bytes ≤ n
receive_size n [] m m' bytes e = cc e
receive_size n (received xs ∷ rest) m m' bytes e = ground (arith, length-take n xs)
receive_size n (received_eof ∷ rest) m m' bytes e = cc e
receive_size n (received_error ∷ rest) m m' bytes e = cc e

pub receive_keeps :
    (n : ℕ) (rs : List Received) (m : Memory) → (receive n rs m).0.outgoing ≡ m.outgoing
receive_keeps n [] m = refl
receive_keeps n (r ∷ rest) m = refl

pub put_done :
    (b : Bool) (bytes : List ℕ) (m m' : Memory)
    → put b bytes m ≡ (m', none)
    → m'.outgoing ≡ m.outgoing ++ bytes
put_done true bytes m m' e = ground arith
put_done false bytes m m' e = cc e

abbrev pub memory : SocketApi
memory = record {
  Socket = Memory;
  is_open = λ m. m.open_flag;
  async_read_some = λ n m. receive n m.incoming m;
  async_write = λ bytes m. put m.open_flag bytes m;
  shutdown = λ m. m;
  close = λ m. record m { open_flag = false };
  sent = λ m. m.outgoing;
  read_size = λ n m m' bytes e. receive_size n m.incoming m m' bytes e;
  read_sends_nothing = λ n m. receive_keeps n m.incoming m;
  write_done = λ bytes m m' e. put_done m.open_flag bytes m m' e;
  shutdown_sends_nothing = λ m. refl;
  close_sends_nothing = λ m. refl;
  close_closes = λ m. refl;
}
