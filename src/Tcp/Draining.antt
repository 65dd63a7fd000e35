-- ===== src/Tcp/Draining.antt =====
-- tcp_server.hpp: the drain of shutdown, in every order of the ends of its handlers.
use rillnet.Base.{
  ℕ, suc, ◌+◌, ◌≤◌, ◌≡◌, refl, ◌==◌, ltb, true, not, ◌||◌, Option, none, some, List, [], ◌∷◌,
  length, length-append, arith, Bool-cases, Option-cases, inl, inr,
}
use rillnet.Channel.{Asio}
use rillnet.Tcp.Drain.{
  Drain, start_drain, sent, send_completion, take_out, handler_ends, got, receive_completion,
  returned, Event, ends, receives, registers, register_late, apply, apply_all,
}

module _ (io : Asio) where
  -- No sender waits, and each of the `n` handlers that were spawned is running, in the channel, or
  -- received.
  pub record Inv (n : ℕ) (d : Drain io) : Type 0 where
    pub none_waits : d.waiting ≡ 0
    pub accounted : length d.running + length (io.signals.held d.completion) + d.received ≡ n
    pub room : io.signals.capacity d.completion ≡ n
    pub open_channel : io.signals.is_open d.completion ≡ true
    pub enough : n ≤ d.expected

  start_drain-Inv : (handlers : List ℕ) → Inv (length handlers) (start_drain io handlers)
  unfolding start_drain
  start_drain-Inv handlers =
      let made = io.signals.make_new (length handlers) in
      record {
        none_waits = refl;
        accounted = ground (arith, made);
        room = made.2;
        open_channel = made.1;
        enough = omega arith;
      }

  length-take_out :
      (h : ℕ) (xs rest : List ℕ) → take_out io h xs ≡ some rest → length xs ≡ suc (length rest)
  unfolding take_out
  length-take_out h [] rest e = cc e
  length-take_out h (x ∷ xs) rest e = elim (Option-cases (take_out io h xs)) [
    | inl gone ↦ ground arith
    | inr (r, there) ↦ ground (arith, length-take_out h xs r there)
  ]

  -- A handler that ends while the channel has room for all.
  sent-Inv :
      (n : ℕ) (rest : List ℕ) (d : Drain io) (o : Option io.signals.Channel)
      → length d.running ≡ suc (length rest)
      → io.signals.try_send tt d.completion ≡ o
      → Inv n d
      → Inv n (sent io o (record d { running = rest }))
  sent-Inv n rest d none l e v = absurd (
      ground
        (arith, io.signals.try_send_none tt d.completion e, v.accounted, v.room, v.open_channel))
  sent-Inv n rest d (some c) l e v =
      let more = io.signals.try_send_some tt d.completion c e in
      record {
        none_waits = v.none_waits;
        accounted =
            ground
              (arith, more, length-append (io.signals.held d.completion) (tt ∷ []), v.accounted);
        room = ground (arith, more, v.room);
        open_channel = more.2;
        enough = v.enough;
      }

  got-Inv :
      (n : ℕ) (d : Drain io) (o : Option (Unit {0} × io.signals.Channel))
      → io.signals.receive d.completion ≡ o
      → Inv n d
      → Inv n (got io o d)
  unfolding send_completion
  got-Inv n d none e v = v
  got-Inv n d (some (u, c)) e v =
      let less = io.signals.receive_some d.completion u c e in
      rw v.none_waits (record {
        none_waits = refl;
        accounted = ground (arith, less, v.accounted);
        room = ground (arith, less, v.room);
        open_channel = ground (arith, less, v.open_channel);
        enough = v.enough;
      })

  handler_ends-Inv : (n h : ℕ) (d : Drain io) → Inv n d → Inv n (handler_ends io h d)
  unfolding handler_ends send_completion
  handler_ends-Inv n h d v = elim (Option-cases (take_out io h d.running)) [
    | inl gone ↦ rw (gone, handler_ends) v
    | inr (rest, there) ↦
        rw (there, handler_ends)
          (sent-Inv n rest d (io.signals.try_send tt d.completion)
            (length-take_out h d.running rest there) refl v)
  ]

  pub receive_completion-Inv : (n : ℕ) (d : Drain io) → Inv n d → Inv n (receive_completion io d)
  unfolding receive_completion
  receive_completion-Inv n d v = elim (Bool-cases (ltb d.received d.expected)) [
    | inl more ↦
        rw (more, receive_completion) (got-Inv n d (io.signals.receive d.completion) refl v)
    | inr done ↦ rw (done, receive_completion) v
  ]

  pub register_late-Inv : (n : ℕ) (d : Drain io) → Inv n d → Inv n (register_late io d)
  unfolding register_late
  register_late-Inv n d v = elim (Bool-cases (returned io d)) [
    | inl done ↦ rw (done, register_late) v
    | inr more ↦
        rw (more, register_late)
          (record {
            none_waits = v.none_waits;
            accounted = v.accounted;
            room = v.room;
            open_channel = v.open_channel;
            enough = ground (arith, v.enough);
          })
  ]

  apply-Inv : (n : ℕ) (e : Event) (d : Drain io) → Inv n d → Inv n (apply io e d)
  unfolding apply
  apply-Inv n (ends h) d v = handler_ends-Inv n h d v
  apply-Inv n receives d v = receive_completion-Inv n d v
  apply-Inv n registers d v = register_late-Inv n d v

  pub apply_all-Inv : (n : ℕ) (es : List Event) (d : Drain io) → Inv n d → Inv n (apply_all io es d)
  unfolding apply_all
  apply_all-Inv n [] d v = v
  apply_all-Inv n (e ∷ es) d v = apply_all-Inv n es (apply io e d) (apply-Inv n e d v)

  pub drained-Inv :
      (handlers : List ℕ) (es : List Event)
      → Inv (length handlers) (apply_all io es (start_drain io handlers))
  drained-Inv handlers es =
      apply_all-Inv (length handlers) es (start_drain io handlers) (start_drain-Inv handlers)

  -- In whatever order the handlers end, shutdown receives and others are registered, before shutdown
  -- returns and after: no handler waits to report its end; the handlers that are running, the ends in
  -- the completion channel and the ends received are together as many as the handlers that were
  -- spawned; and shutdown has not returned unless no handler is running.
  pub shutdown_waits :
      (handlers : List ℕ) (es : List Event)
      → let d = apply_all io es (start_drain io handlers) in
        (d.waiting ≡ 0)
        × (length d.running + length (io.signals.held d.completion) + d.received ≡ length handlers)
        × ((not (returned io d) || (length d.running == 0)) ≡ true)
  unfolding returned
  shutdown_waits handlers es =
      let d = apply_all io es (start_drain io handlers) in
      let v = drained-Inv handlers es in
      (v.none_waits, v.accounted, ground (arith, v.accounted, v.enough))
