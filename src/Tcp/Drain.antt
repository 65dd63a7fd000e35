-- ===== src/Tcp/Drain.antt =====
-- tcp_server.hpp: shutdown. The registered handlers run at the same time; each, when it returns or
-- throws, sends to a channel whose capacity is their number, and shutdown receives that often.
use rillnet.Base.{
  ℕ, zero, suc, ◌==◌, ltb, Bool, true, false, Option, none, some, List, [], ◌∷◌, length,
  if◌then◌else◌,
}
use rillnet.Channel.{Asio}
use rillnet.Tcp.{SocketApi}
use rillnet.Tcp.Server.{TcpServer, stop}

module _ (io : Asio) where
  -- `running` are the handlers that have not ended, `waiting` the number of those that have and wait
  -- for room in the channel, `received` the rounds of the second loop so far.
  pub record Drain : Type 0 where
    pub completion : io.signals.Channel
    pub running : List ℕ
    pub waiting : ℕ
    pub received : ℕ
    pub expected : ℕ

  -- Up to the first co_await of the second loop.
  unfoldable pub start_drain : List ℕ → Drain
  start_drain handlers = record {
    completion = io.signals.make (length handlers);
    running = handlers;
    waiting = 0;
    received = 0;
    expected = length handlers;
  }

  abbrev pub sent : Option io.signals.Channel → Drain → Drain
  sent none d = record d { waiting = suc d.waiting }
  sent (some completion') d = record d { completion = completion' }

  -- The coroutine of the handler at the front ends: async_send.
  unfoldable pub send_completion : Drain → Drain
  send_completion d = sent (io.signals.try_send tt d.completion) d

  unfoldable pub take_out : ℕ → List ℕ → Option (List ℕ)
  take_out h [] = none
  take_out h (x ∷ xs) =
      if x == h then some xs else elim (take_out h xs) [ none ↦ none | some rest ↦ some (x ∷ rest) ]

  unfoldable pub handler_ends : ℕ → Drain → Drain
  unfolding send_completion take_out
  handler_ends h d = elim (take_out h d.running) [
    | none ↦ d
    | some rest ↦ send_completion (record d { running = rest })
  ]

  -- A waiting sender gets the room that a receive makes.
  abbrev pub admit : ℕ → Drain → Drain
  admit zero d = d
  admit (suc n) d = send_completion (record d { waiting = n })

  abbrev pub got : Option (Unit {0} × io.signals.Channel) → Drain → Drain
  got none d = d
  got (some (u, completion')) d =
      admit d.waiting (record d { completion = completion'; received = suc d.received })

  -- One round of the second loop, which waits where the channel holds nothing.
  unfoldable pub receive_completion : Drain → Drain
  unfolding send_completion
  receive_completion d =
      if ltb d.received d.expected then got (io.signals.receive d.completion) d else d

  -- The second loop is done.
  unfoldable pub returned : Drain → Bool
  returned d = d.received == d.expected

  -- register_connection_shutdown while shutdown is in its second loop, whose bound is the size of the
  -- vector.
  unfoldable pub register_late : Drain → Drain
  unfolding returned
  register_late d = if returned d then d else record d { expected = suc d.expected }

  -- shutdown, up to its first wait, and behind the second loop.
  unfoldable pub shutdown : (net : SocketApi) → TcpServer net → TcpServer net × Drain
  unfolding stop start_drain
  shutdown net s = let s' = stop net s in (s', start_drain s'.connection_shutdown_handlers)

  unfoldable pub shutdown_finished : (net : SocketApi) → TcpServer net → TcpServer net
  shutdown_finished net s = record s { connection_shutdown_handlers = [] }

-- A handler that ends, a round of the second loop, or a registration.
pub data Event : Type 0 where
  ends : ℕ → Event
  receives : Event
  registers : Event

module _ (io : Asio) where
  unfoldable pub apply : Event → Drain io → Drain io
  unfolding handler_ends receive_completion register_late
  apply (ends h) d = handler_ends io h d
  apply receives d = receive_completion io d
  apply registers d = register_late io d

  unfoldable pub apply_all : List Event → Drain io → Drain io
  unfolding apply
  apply_all [] d = d
  apply_all (e ∷ es) d = apply_all es (apply e d)

  unfoldable pub no_registration : List Event → Bool
  no_registration [] = true
  no_registration (registers ∷ es) = false
  no_registration (e ∷ es) = no_registration es

  unfoldable pub rounds : ℕ → Drain io → Drain io
  rounds zero d = d
  rounds (suc n) d = rounds n (receive_completion io d)
