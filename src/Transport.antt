-- ===== src/Transport.antt =====
-- include/rillnet/transport.hpp: what a connection sees of its transport. A connection keeps whether
-- the transport is open; what a read comes to is an input of the model of a connection.
use rillnet.Base.{ℕ, Bool, List}

-- A read returns bytes, returns 0, or throws a system_error. The transport of the last two says
-- whether it stays open.
pub data Read : Type 0 where
  read_bytes : List ℕ → Read
  end_of_input : Bool → Read
  read_error : Bool → Read
