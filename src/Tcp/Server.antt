-- ===== src/Tcp/Server.antt =====
-- include/rillnet/tcp_server.hpp: accepting connections, stop, and the draining of shutdown. The
-- acceptor is a part of Boost.Asio: a completion of async_accept is an input. Handlers are numbers.
use rillnet.Base.{
  ℕ, suc, ◌≤◌, ◌≡◌, sym, ap, ◌∙◌, Bool, true, false, not, List, [], ◌∷◌, ◌++◌, length,
  length-append, append-nil, append_assoc, arith, if◌then◌else◌,
}
use rillnet.Tcp.{SocketApi}
use rillnet.Tcp.Transport.{TcpTransport, new_transport}

module _ (net : SocketApi) where
  -- What async_accept completes with: a socket, operation_aborted, or another error.
  pub data Accept : Type 0 where
    accepted : net.Socket → Accept
    accept_aborted : Accept
    accept_failed : Accept

  -- `handed` are the transports that the connection handler was given, oldest first; `running` says
  -- whether the coroutine of run is at its co_await.
  pub record TcpServer : Type 0 where
    pub acceptor_open : Bool
    pub connection_handler : Bool
    pub connection_shutdown_handlers : List ℕ
    pub stopping : Bool
    pub running : Bool
    pub handed : List (TcpTransport net)

  unfoldable pub new_server : TcpServer
  new_server = record {
    acceptor_open = true;
    connection_handler = false;
    connection_shutdown_handlers = [];
    stopping = false;
    running = false;
    handed = [];
  }

  unfoldable pub on_connection : TcpServer → TcpServer
  on_connection s = record s { connection_handler = true }

  unfoldable pub register_connection_shutdown : ℕ → TcpServer → TcpServer
  register_connection_shutdown handler s = record s {
    connection_shutdown_handlers = s.connection_shutdown_handlers ++ handler ∷ [];
  }

  unfoldable pub stop : TcpServer → TcpServer
  stop s = if s.stopping then s else record s { stopping = true; acceptor_open = false }

  -- The head of the loop of run.
  unfoldable pub run : TcpServer → TcpServer
  run s = record s { running = not s.stopping }

  -- Behind the co_await: the handler is called, and the loop is at its head again.
  unfoldable pub accept_pass : Accept → TcpServer → TcpServer
  unfolding run new_transport
  accept_pass (accepted socket) s = run (
      if s.connection_handler
      then record s { handed = s.handed ++ new_transport net socket ∷ [] }
      else s)
  accept_pass accept_aborted s = record s { running = false }
  accept_pass accept_failed s = if s.stopping then record s { running = false } else run s

-- What happens to a server while run may be waiting in async_accept.
pub data Event (net : SocketApi) : Type 0 where
  sets_handler : Event net
  registers : ℕ → Event net
  runs : Event net
  completes : Accept net → Event net
  stops : Event net

module _ (net : SocketApi) where
  -- async_accept completes only where run waits for it, and run is called once at a time.
  unfoldable pub apply : Event net → TcpServer net → TcpServer net
  apply sets_handler s = on_connection net s
  apply (registers handler) s = register_connection_shutdown net handler s
  apply runs s = if s.running then s else run net s
  apply (completes a) s = if s.running then accept_pass net a s else s
  apply stops s = stop net s

  unfoldable pub apply_all : List (Event net) → TcpServer net → TcpServer net
  unfolding apply
  apply_all [] s = s
  apply_all (e ∷ es) s = apply_all es (apply e s)

  -- After a stop at which `n` connections had been handed over: none more while run is still at its
  -- co_await, and at most one once it is not.
  abbrev Bounded : ℕ → ℕ → Bool → Type 0
  Bounded n handed true = handed ≡ n
  Bounded n handed false = handed ≤ suc n

  abbrev Stopped : ℕ → TcpServer net → Type 0
  Stopped n s =
      (s.stopping ≡ true) × (s.acceptor_open ≡ false) × Bounded n (length s.handed) s.running

  apply-Stopped : (n : ℕ) (e : Event net) (s : TcpServer net) → Stopped n s → Stopped n (apply e s)
  unfolding apply on_connection register_connection_shutdown run accept_pass stop
  apply-Stopped n sets_handler s v = v
  apply-Stopped n (registers h) s v = v
  apply-Stopped n runs s v = ground arith
  apply-Stopped n (completes (accepted socket)) s v =
      ground (arith, length-append s.handed (new_transport net socket ∷ []))
  apply-Stopped n (completes accept_aborted) s v = ground arith
  apply-Stopped n (completes accept_failed) s v = ground arith
  apply-Stopped n stops s v = ground arith

  apply_all-Stopped :
      (n : ℕ) (es : List (Event net)) (s : TcpServer net) → Stopped n s → Stopped n (apply_all es s)
  unfolding apply_all
  apply_all-Stopped n [] s v = v
  apply_all-Stopped n (e ∷ es) s v = apply_all-Stopped n es (apply e s) (apply-Stopped n e s v)

  Bounded-le : (n handed : ℕ) (b : Bool) → Bounded n handed b → handed ≤ suc n
  Bounded-le n handed true v = omega arith
  Bounded-le n handed false v = v

  -- Whatever happens after stop on a server that was not stopping, the server stays stopped with its
  -- acceptor closed, and hands over one more connection at most, the one that async_accept may
  -- already have had.
  pub apply_all-stop :
      (es : List (Event net)) (s : TcpServer net)
      → s.stopping ≡ false
      → let s' = apply_all es (stop net s) in
        (s'.stopping ≡ true)
        × (s'.acceptor_open ≡ false)
        × (length s'.handed ≤ suc (length s.handed))
  apply_all-stop es s e =
      let first : Stopped (length s.handed) (stop net s) = unfold stop in ground arith in
      let last = apply_all-Stopped (length s.handed) es (stop net s) first in
      let s' = apply_all es (stop net s) in
      (last.0, last.1, Bounded-le (length s.handed) (length s'.handed) s'.running last.2)

  -- The transports of the sockets that were accepted.
  unfoldable pub transports : List (Accept net) → List (TcpTransport net)
  transports [] = []
  transports (accepted socket ∷ rs) = new_transport net socket ∷ transports rs
  transports (accept_aborted ∷ rs) = transports rs
  transports (accept_failed ∷ rs) = transports rs

  unfoldable pub no_abort : List (Accept net) → Bool
  no_abort [] = true
  no_abort (accept_aborted ∷ rs) = false
  no_abort (a ∷ rs) = no_abort rs

  unfoldable pub accept_all : List (Accept net) → TcpServer net → TcpServer net
  accept_all [] s = s
  accept_all (a ∷ rs) s = accept_all rs (apply (completes a) s)

  -- While run is at its co_await on a server that has a connection handler and is not stopping, the
  -- handler is given a transport for each accepted socket, in order; other errors than
  -- operation_aborted are passed over, and run goes on.
  pub accept_all_lem :
      (rs : List (Accept net)) (s : TcpServer net)
      → no_abort rs ≡ true
      → s.running ≡ true
      → s.stopping ≡ false
      → s.connection_handler ≡ true
      → ((accept_all rs s).handed ≡ s.handed ++ transports rs) × ((accept_all rs s).running ≡ true)
  unfolding accept_all transports no_abort apply accept_pass run
  accept_all_lem [] s e r t h = (sym (append-nil s.handed), r)
  accept_all_lem (accepted socket ∷ rs) s e r t h =
      let s' = apply (completes (accepted socket)) s in
      let one : s'.handed ≡ s.handed ++ new_transport net socket ∷ [] = ground arith in
      let (rest, more) = accept_all_lem rs s' e (ground arith) (ground arith) (ground arith) in
      (
        rest
            ∙ ap (λ ts. ts ++ transports rs) one
            ∙ append_assoc s.handed (new_transport net socket ∷ []) (transports rs),
        more,
      )
  accept_all_lem (accept_aborted ∷ rs) s e r t h = cc e
  accept_all_lem (accept_failed ∷ rs) s e r t h =
      let s' = apply (completes accept_failed) s in
      let one : s'.handed ≡ s.handed = ground arith in
      let (rest, more) = accept_all_lem rs s' e (ground arith) (ground arith) (ground arith) in
      (rest ∙ ap (λ ts. ts ++ transports rs) one, more)
