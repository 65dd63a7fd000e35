-- ===== src/Tcp/Returning.antt =====
-- tcp_server.hpp: whether shutdown returns, and what a registration during it does.
use rillnet.Base.{
  ℕ, zero, suc, ◌≤◌, ◌<◌, ◌≡◌, refl, sym, subst, ◌∙◌, ltb, true, false, Option, none, some, List,
  [], ◌∷◌, length, arith, Bool-cases, Option-cases, inl, inr,
}
use rillnet.Channel.{Asio}
use rillnet.Tcp.Drain.{
  Drain, start_drain, sent, send_completion, take_out, handler_ends, admit, got, receive_completion,
  returned, Event, ends, receives, registers, register_late, no_registration, apply, apply_all,
  rounds,
}
use rillnet.Tcp.Draining.{
  Inv, register_late-Inv, receive_completion-Inv, apply_all-Inv, drained-Inv,
}

module _ (io : Asio) where
  sent_expected :
      (o : Option io.signals.Channel) (d : Drain io) → (sent io o d).expected ≡ d.expected
  sent_expected none d = refl
  sent_expected (some c) d = refl

  handler_ends_expected : (h : ℕ) (d : Drain io) → (handler_ends io h d).expected ≡ d.expected
  unfolding handler_ends send_completion
  handler_ends_expected h d = elim (Option-cases (take_out io h d.running)) [
    | inl gone ↦ rw (gone, handler_ends)
    | inr (rest, there) ↦
        rw (there, handler_ends) (sent_expected (io.signals.try_send tt d.completion) _)
  ]

  admit_expected : (n : ℕ) (d : Drain io) → (admit io n d).expected ≡ d.expected
  unfolding send_completion
  admit_expected zero d = refl
  admit_expected (suc n) d = sent_expected (io.signals.try_send tt d.completion) _

  got_expected :
      (o : Option (Unit {0} × io.signals.Channel)) (d : Drain io)
      → (got io o d).expected ≡ d.expected
  got_expected none d = refl
  got_expected (some (u, c)) d = admit_expected d.waiting _

  receive_expected : (d : Drain io) → (receive_completion io d).expected ≡ d.expected
  unfolding receive_completion
  receive_expected d = elim (Bool-cases (ltb d.received d.expected)) [
    | inl more ↦ rw (more, receive_completion) (got_expected (io.signals.receive d.completion) d)
    | inr done ↦ rw (done, receive_completion)
  ]

  apply_expected : (e : Event) (d : Drain io) → d.expected ≤ (apply io e d).expected
  unfolding apply register_late
  apply_expected (ends h) d = rw (handler_ends_expected h d) (omega arith)
  apply_expected receives d = rw (receive_expected d) (omega arith)
  apply_expected registers d = ground arith

  all_expected : (es : List Event) (d : Drain io) → d.expected ≤ (apply_all io es d).expected
  unfolding apply_all
  all_expected [] d = omega arith
  all_expected (e ∷ es) d =
      let one = apply_expected e d in let rest = all_expected es (apply io e d) in omega arith

  expected_same :
      (es : List Event) (d : Drain io)
      → no_registration io es ≡ true
      → (apply_all io es d).expected ≡ d.expected
  unfolding apply_all apply no_registration
  expected_same [] d e = refl
  expected_same (ends h ∷ es) d e =
      expected_same es (handler_ends io h d) e ∙ handler_ends_expected h d
  expected_same (receives ∷ es) d e =
      expected_same es (receive_completion io d) e ∙ receive_expected d
  expected_same (registers ∷ es) d e = cc e

  received_one :
      (k : ℕ) (d : Drain io) (o : Option (Unit {0} × io.signals.Channel)) (n : ℕ)
      → io.signals.receive d.completion ≡ o
      → Inv io k d
      → k ≡ d.expected
      → d.running ≡ []
      → d.received < d.expected
      → length (io.signals.held d.completion) ≤ suc n
      → let d' = got io o d in (length (io.signals.held d'.completion) ≤ n) × (d'.running ≡ [])
  received_one k d none n e v w r l b =
      absurd (ground (arith, io.signals.receive_none d.completion e, v.accounted))
  received_one k d (some (u, c)) n e v w r l b =
      rw v.none_waits (ground (arith, io.signals.receive_some d.completion u c e), r)

  rounds_return :
      (n k : ℕ) (d : Drain io)
      → Inv io k d
      → k ≡ d.expected
      → d.running ≡ []
      → length (io.signals.held d.completion) ≤ n
      → returned io (rounds io n d) ≡ true
  unfolding rounds returned
  rounds_return zero k d v w r l = ground (arith, v.accounted)
  rounds_return (suc n) k d v w r l = elim (Bool-cases (ltb d.received d.expected)) [
    | inl more ↦
        let next =
          received_one k d (io.signals.receive d.completion) n refl v w r (ground arith) l in
        let same : receive_completion io d ≡ got io (io.signals.receive d.completion) d =
          unfold receive_completion in rw (more, receive_completion) in
        let (fewer, still) =
          subst (λ d'. (length (io.signals.held d'.completion) ≤ n) × (d'.running ≡ [])) (sym same)
            next in
        rounds_return n k (receive_completion io d) (receive_completion-Inv io k d v)
          (w ∙ sym (receive_expected d)) still fewer
    | inr done ↦
        let same : receive_completion io d ≡ d =
          unfold receive_completion in rw (done, receive_completion) in
        let empty : length (io.signals.held d.completion) ≤ n = ground (arith, v.accounted) in
        subst (λ d'. returned io (rounds io n d') ≡ true) (sym same)
          (rounds_return n k d v w r empty)
  ]

  -- In whatever order the handlers end and shutdown receives, without a registration in between:
  -- once every handler has ended, shutdown returns within as many rounds of its second loop as there
  -- are to be.
  pub shutdown_returns :
      (handlers : List ℕ) (es : List Event)
      → no_registration io es ≡ true
      → (apply_all io es (start_drain io handlers)).running ≡ []
      → let d = apply_all io es (start_drain io handlers) in
        returned io (rounds io d.expected d) ≡ true
  unfolding start_drain
  shutdown_returns handlers es e r =
      let d = apply_all io es (start_drain io handlers) in
      let v = drained-Inv io handlers es in
      let same : length handlers ≡ d.expected =
        sym (expected_same es (start_drain io handlers) e) in
      rounds_return d.expected (length handlers) d v same r (ground (arith, v.accounted, same))

  -- A handler that is registered while shutdown has not returned keeps it from returning: whatever
  -- order of ends, rounds and registrations follows, it never does.
  pub shutdown_hangs :
      (handlers : List ℕ) (before after : List Event)
      → returned io (apply_all io before (start_drain io handlers)) ≡ false
      → returned io
          (apply_all io after (register_late io (apply_all io before (start_drain io handlers))))
        ≡ false
  unfolding returned
  shutdown_hangs handlers before after e =
      let d0 = apply_all io before (start_drain io handlers) in
      let d1 = register_late io d0 in
      let v0 = drained-Inv io handlers before in
      let v =
        apply_all-Inv io (length handlers) after d1
          (register_late-Inv io (length handlers) d0 v0) in
      let more = all_expected after d1 in
      let late : d1.expected ≡ suc d0.expected = unfold register_late in rw (e, register_late) in
      ground (arith, v.accounted, v0.enough, more, late)
