-- ===== src/Tcp/Transport.antt =====
-- include/rillnet/tcp_transport.hpp: a transport on a socket.
use rillnet.Base.{
  ℕ, ◌≤◌, ◌≡◌, refl, sym, ap, ◌∙◌, Bool, true, false, not, ◌&&◌, Option, none, some, List, [], ◌∷◌,
  length, subst, String, arith, if◌then◌else◌, Bool-cases, inl, inr,
}
use rillnet.Transport.{Read, read_bytes, end_of_input, read_error}
use rillnet.Tcp.{Received, received, received_eof, received_error, SocketApi}

pub record TcpTransport (net : SocketApi) : Type 0 where
  pub socket : net.Socket
  pub open_flag : Bool

module _ (net : SocketApi) where
  unfoldable pub new_transport : net.Socket → TcpTransport net
  new_transport socket = record { socket = socket; open_flag = true }

  unfoldable pub is_open : TcpTransport net → Bool
  is_open t = t.open_flag && net.is_open t.socket

  unfoldable pub close : TcpTransport net → TcpTransport net
  close t =
      if t.open_flag
      then record { socket = net.close (net.shutdown t.socket); open_flag = false }
      else t

  -- Behind the co_await of read.
  abbrev pub read_completed : Received → TcpTransport net → TcpTransport net × Read
  read_completed (received bytes) t = (t, read_bytes bytes)
  read_completed received_eof t = (close t, end_of_input false)
  read_completed received_error t = (close t, read_error false)

  unfoldable pub read : ℕ → TcpTransport net → TcpTransport net × Read
  unfolding is_open close
  read size t =
      if not (is_open t)
      then (t, end_of_input false)
      else let (socket', result) = net.async_read_some size t.socket in
        read_completed result (record t { socket = socket' })

  -- Behind the co_await of write: `some` is the message of the system_error that is thrown.
  abbrev pub write_completed : Option String → TcpTransport net → TcpTransport net × Option String
  write_completed none t = (t, none)
  write_completed (some message) t = (close t, some message)

  unfoldable pub write : List ℕ → TcpTransport net → TcpTransport net × Option String
  unfolding is_open close
  write buffer t =
      if not (is_open t)
      then (t, some "not connected")
      else let (socket', error) = net.async_write buffer t.socket in
        write_completed error (record t { socket = socket' })

-- A call of a method of the transport, the destructor being a close.
pub data Call : Type 0 where
  reads : ℕ → Call
  writes : List ℕ → Call
  closes : Call

module _ (net : SocketApi) where
  unfoldable pub apply : Call → TcpTransport net → TcpTransport net
  apply (reads size) t = (read net size t).0
  apply (writes buffer) t = (write net buffer t).0
  apply closes t = close net t

  unfoldable pub apply_all : List Call → TcpTransport net → TcpTransport net
  unfolding apply
  apply_all [] t = t
  apply_all (c ∷ cs) t = apply_all cs (apply c t)

  close_closed : (t : TcpTransport net) → is_open net (close net t) ≡ false
  unfolding is_open close
  close_closed t = ground arith

  -- What a read returns, by its size and by the transport before and after.
  abbrev pub Reads : ℕ → TcpTransport net → TcpTransport net × Read → Type 0
  Reads size t (t', read_bytes bytes) = (is_open net t ≡ true) × (length bytes ≤ size)
  Reads size t (t', end_of_input stays) = (is_open net t' ≡ false) × (stays ≡ false)
  Reads size t (t', read_error stays) =
      (is_open net t ≡ true) × (is_open net t' ≡ false) × (stays ≡ false)

  read_completed-Reads :
      (size : ℕ) (t t' : TcpTransport net) (s : net.Socket) (r : Received)
      → is_open net t ≡ true
      → net.async_read_some size t.socket ≡ (s, r)
      → Reads size t (read_completed net r t')
  read_completed-Reads size t t' s (received bytes) opened e =
      (opened, net.read_size size t.socket s bytes e)
  read_completed-Reads size t t' s received_eof opened e = (close_closed t', refl)
  read_completed-Reads size t t' s received_error opened e = (opened, close_closed t', refl)

  -- A read returns at most as many bytes as its buffer holds, and only from an open transport; after
  -- an end of input and after an error the transport is closed, which the result says; an error
  -- comes only from a transport that was open.
  pub read_lem : (size : ℕ) (t : TcpTransport net) → Reads size t (read net size t)
  unfolding read
  read_lem size t = elim (Bool-cases (is_open net t)) [
    | inr shut ↦ rw (shut, read) (shut, refl)
    | inl opened ↦
        rw (opened, read)
          (read_completed-Reads size t _ _ (net.async_read_some size t.socket).1 opened refl)
  ]

  apply_closed : (c : Call) (t : TcpTransport net) → t.open_flag ≡ false → apply c t ≡ t
  unfolding apply read write close is_open
  apply_closed (reads size) t e = ground arith
  apply_closed (writes buffer) t e = ground arith
  apply_closed closes t e = ground arith

  all_closed : (cs : List Call) (t : TcpTransport net) → t.open_flag ≡ false → apply_all cs t ≡ t
  unfolding apply_all
  all_closed [] t e = refl
  all_closed (c ∷ cs) t e = ap (apply_all cs) (apply_closed c t e) ∙ all_closed cs t e

  abbrev Refuses : ℕ → List ℕ → TcpTransport net → Type 0
  Refuses size buffer t =
      (read net size t ≡ (t, end_of_input false)) × (write net buffer t ≡ (t, some "not connected"))

  closed-Refuses :
      (size : ℕ) (buffer : List ℕ) (t : TcpTransport net)
      → t.open_flag ≡ false
      → Refuses size buffer t
  unfolding read write is_open
  closed-Refuses size buffer t e = ground arith

  -- A transport that has been closed is never touched again: whatever calls follow, it and its
  -- socket stay as they are, every read returns the end of input and every write fails.
  pub apply_all-close :
      (cs : List Call) (size : ℕ) (buffer : List ℕ) (t : TcpTransport net)
      → let t' = apply_all cs (close net t) in
        (t' ≡ close net t)
        × (read net size t' ≡ (t', end_of_input false))
        × (write net buffer t' ≡ (t', some "not connected"))
  apply_all-close cs size buffer t =
      let shut : (close net t).open_flag ≡ false = unfold close in ground arith in
      let same = all_closed cs (close net t) shut in
      let (reads_end, writes_fail) =
        subst (Refuses size buffer) (sym same) (closed-Refuses size buffer (close net t) shut) in
      (same, reads_end, writes_fail)
