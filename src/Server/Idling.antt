-- ===== src/Server/Idling.antt =====
-- server_connection.hpp: the write queue of an idle connection, after any events.
use rillnet.Base.{
  ℕ, ◌≡◌, refl, sym, ◌∙◌, ◌==◌, Bool, true, false, not, ◌&&◌, none, some, List, [], ◌∷◌, arith,
  if◌then◌else◌, length, ap, ◌+◌, ◌-◌, ◌%◌, ◌^◌, Bool-cases, Option-cases, inl, inr,
}
use rillnet.Base.Keys.{lookup, without}
use rillnet.Lifecycle.{closed, connection_transition}
use rillnet.Operation
use rillnet.Operation.{Operation}
use rillnet.Frame.{Frame}
use rillnet.Decoder.{push}
use rillnet.Registry.{is_some}
use rillnet.Message.{Outcome, is_ok}
use rillnet.Channel.{Asio}
use rillnet.Client.Reading.{observe_frame}
use rillnet.Transport.{Read, read_bytes, end_of_input, read_error}
use rillnet.Client.Reading.{observe_read}
use rillnet.Diagnostics.{DiagnosticsHooks}
use rillnet.Server.{
  fail_operations, Server, new_server, handle, send_operation_error, close_queue_when_idle, run_on,
  dispatch, handler_decodes, completed, handler_responds, handler_resumed, handler_ends,
  fail_operations_on_connection_close, begin_shutdown, notify_closed,
}
use rillnet.Server.Serving.{
  dispatch_all, check_decoder, read_pass, read_finished, open_connection, write_pass,
  shutdown_finished,
}
use rillnet.Server.Handlers.{Inv, handler_ends-Inv}
use rillnet.Server.Events.{
  Event, opens, handles, reads, finishes_reading, writes, decodes, responds, resumes, ends,
  begins_shutdown, finishes_shutdown, apply, apply_all, apply_all-new_server-Inv, failed-Inv,
  if-Inv, apply-Inv,
}
use rillnet.WriteQueue.{close}
use rillnet.Server.Idle.{
  Idle, Keeps, Keeps-Idle, if-Keeps, then-Keeps, enqueue_closed, enqueue_woken_closed,
  write_pass-Keeps, send_operation_error-Keeps, run_on-Keeps, dispatch-Keeps,
}

module _ (io : Asio) where
  dispatch_all-Keeps : (frames : List Frame) (s : Server io) → Keeps io s (dispatch_all io frames s)
  unfolding dispatch_all
  dispatch_all-Keeps [] s = (refl, (λ e. e), (λ e. e))
  dispatch_all-Keeps (frame ∷ frames) s =
      let seen = record s { diagnostics = observe_frame frame s.diagnostics } in
      let s' = dispatch io frame seen in
      let first : Keeps io s s' = dispatch-Keeps io frame seen in
      if-Keeps io s'.transport_open s (dispatch_all io frames s') s'
        (then-Keeps io s s' (dispatch_all io frames s') first (dispatch_all-Keeps frames s')) first

  check_decoder-Keeps : (s : Server io) → Keeps io s (check_decoder io s).0
  unfolding check_decoder
  check_decoder-Keeps s = elim (Option-cases s.decoder.error) [
    | inl e ↦ ground (arith, e)
    | inr (x, e) ↦ ground (arith, e)
  ]

  read_pass-Keeps : (read : Read) (s : Server io) → Keeps io s (read_pass io read s).0
  unfolding read_pass
  read_pass-Keeps (read_error stays) s = (refl, (λ e. e), (λ e. e))
  read_pass-Keeps (end_of_input stays) s = (refl, (λ e. e), (λ e. e))
  read_pass-Keeps (read_bytes []) s = (refl, (λ e. e), (λ e. e))
  read_pass-Keeps (read_bytes (b ∷ chunk)) s =
      let (decoder', frames) = push s.decoder (b ∷ chunk) in
      let start = record s {
        decoder = decoder';
        diagnostics = observe_read (length (b ∷ chunk)) s.diagnostics;
      } in
      let s' = dispatch_all io frames start in
      let all : Keeps io s s' = dispatch_all-Keeps frames start in
      then-Keeps io s s' (check_decoder io s').0 all (check_decoder-Keeps s')

  handler_decodes-Keeps :
      (decoded : Outcome Frame) (stream : ℕ) (s : Server io)
      → Keeps io s (handler_decodes io decoded stream s).0
  unfolding handler_decodes
  handler_decodes-Keeps decoded stream s = elim (Bool-cases (is_ok decoded)) [
    | inl fine ↦ rw (fine, handler_decodes) (refl, (λ e. e), (λ e. e))
    | inr bad ↦ elim (Option-cases (lookup stream s.operations)) [
      | inl e ↦
          rw (bad, handler_decodes) (rw e (send_operation_error-Keeps io stream decoded.status s))
      | inr (o, e) ↦
          let m = Operation.fail decoded.status decoded.message in
          let failed = (run_on io m stream o s).0 in
          rw (bad, handler_decodes)
            (rw e (
              then-Keeps io s failed (send_operation_error io stream decoded.status failed)
                (run_on-Keeps io m stream o s)
                (send_operation_error-Keeps io stream decoded.status failed)))
    ]
  ]

  completed-Keeps : (frame : Frame) (r : Server io × Bool) → Keeps io r.0 (completed io frame r).0
  completed-Keeps frame (s, false) = (refl, (λ e. e), (λ e. e))
  completed-Keeps frame (s, true) = (refl, (λ e. e), (λ e. enqueue_closed io _ s.queue ∙ e))

  handler_responds-Keeps :
      (encoded : Outcome Frame) (stream : ℕ) (s : Server io)
      → Keeps io s (handler_responds io encoded stream s).0
  unfolding handler_responds
  handler_responds-Keeps encoded stream s = elim (Bool-cases (is_ok encoded)) [
    | inr bad ↦ rw (bad, handler_responds) (refl, (λ e. e), (λ e. e))
    | inl fine ↦ elim (Option-cases encoded.value) [
      | inl e ↦ rw (fine, handler_responds) (simp e (refl, (λ a. a), (λ a. a)))
      | inr (frame, e) ↦ elim (Option-cases (lookup stream s.operations)) [
        | inl f ↦ rw (fine, handler_responds) (simp (e, f) (refl, (λ a. a), (λ a. a)))
        | inr (o, f) ↦
            let m = Operation.complete "response ready" in
            let r = run_on io m stream o s in
            rw (fine, handler_responds)
              (simp (e, f)
                (then-Keeps io s r.0 (completed io frame r).0 (run_on-Keeps io m stream o s)
                  (completed-Keeps frame r)))
      ]
    ]
  ]

  fail_operations_empty :
      (os : List (ℕ × Operation DiagnosticsHooks)) (d : DiagnosticsHooks)
      → (fail_operations io os d).0 ≡ []
      → os ≡ []
  unfolding fail_operations
  fail_operations_empty [] d e = refl
  fail_operations_empty ((stream, o) ∷ os) d e = cc e

  failed-Keeps : (s : Server io) → Keeps io s (fail_operations_on_connection_close io s)
  unfolding fail_operations_on_connection_close
  failed-Keeps s = (refl, fail_operations_empty s.operations s.diagnostics, (λ e. e))

  notify_closed-Keeps : (s : Server io) → Keeps io s (notify_closed io s)
  unfolding notify_closed
  notify_closed-Keeps s =
      if-Keeps io s.closed_notified s s _ (refl, (λ e. e), (λ e. e)) (refl, (λ e. e), (λ e. e))

  shutdown_finished-Keeps : (s : Server io) → Keeps io s (shutdown_finished io s)
  unfolding shutdown_finished
  shutdown_finished-Keeps s =
      let drained =
        if s.active_handlers == 0 then s else fail_operations_on_connection_close io s in
      let s' = record drained {
        transport_open = false;
        lifecycle = (connection_transition drained.lifecycle closed).0;
      } in
      let first : Keeps io s s' =
        if-Keeps io (s.active_handlers == 0) s s (fail_operations_on_connection_close io s)
          (refl, (λ e. e), (λ e. e)) (failed-Keeps s) in
      then-Keeps io s s' (notify_closed io s') first (notify_closed-Keeps s')

  closes-Idle :
      (s : Server io)
      → s.active_handlers ≡ length s.operations % 2 ^ 64
      → Idle io (close_queue_when_idle io s)
  unfolding close_queue_when_idle close
  closes-Idle s counted = elim (Bool-cases (not s.reading && (s.active_handlers == 0))) [
    | inl idle ↦ rw (idle, close_queue_when_idle) (λ r o. refl)
    | inr busy ↦
        rw (busy, close_queue_when_idle)
          (λ r o.
            let none_active : s.active_handlers ≡ 0 = counted ∙ ap (λ xs. length xs % 2 ^ 64) o in
            absurd (ground (arith, busy, r, none_active)))
  ]

  close_same :
      (s : Server io)
      → ((close_queue_when_idle io s).active_handlers ≡ s.active_handlers)
        × ((close_queue_when_idle io s).operations ≡ s.operations)
  unfolding close_queue_when_idle
  close_same s = ground arith

  ends-Idle :
      (stream : ℕ) (b : Bool) (s : Server io)
      → is_some (lookup stream s.spawned) ≡ b
      → Inv io s
      → Idle io s
      → Idle io (if b then handler_ends io stream s else s)
  unfolding handler_ends
  ends-Idle stream false s e v w = w
  ends-Idle stream true s e v w =
      let left = record s {
        operations = without stream s.operations;
        spawned = without stream s.spawned;
        active_handlers = (s.active_handlers + 2 ^ 64 - 1) % 2 ^ 64;
      } in
      let counted : (close_queue_when_idle io left).active_handlers
          ≡ length (close_queue_when_idle io left).operations % 2 ^ 64 =
        (handler_ends-Inv io stream s e v).1 in
      let (active, operations) = close_same left in
      closes-Idle left (sym active ∙ counted ∙ ap (λ xs. length xs % 2 ^ 64) operations)

  read_finished-Idle : (lost : Bool) (s : Server io) → Inv io s → Idle io (read_finished io lost s)
  unfolding read_finished
  read_finished-Idle lost s v =
      let failed = if lost then fail_operations_on_connection_close io s else s in
      let w : Inv io failed =
        if-Inv io lost (fail_operations_on_connection_close io s) s (failed-Inv io s v) v in
      let idle = close_queue_when_idle io (record failed { reading = false }) in
      let ended = record idle { lifecycle = (connection_transition idle.lifecycle closed).0 } in
      Keeps-Idle io ended (notify_closed io ended) (notify_closed-Keeps ended)
        (closes-Idle (record failed { reading = false }) w.1)

  apply-Idle : (event : Event) (s : Server io) → Inv io s → Idle io s → Idle io (apply io event s)
  unfolding apply
  apply-Idle opens s v w = unfold open_connection in ground arith
  apply-Idle (handles none handler) s v w = unfold handle in w
  apply-Idle (handles (some t) handler) s v w = unfold handle in w
  apply-Idle (reads read) s v w = Keeps-Idle io s (read_pass io read s).0 (read_pass-Keeps read s) w
  apply-Idle (finishes_reading lost) s v w = read_finished-Idle lost s v
  apply-Idle (writes error) s v w =
      Keeps-Idle io s (write_pass io error s).0 (write_pass-Keeps io error s) w
  apply-Idle (decodes decoded stream) s v w =
      Keeps-Idle io s (handler_decodes io decoded stream s).0
        (handler_decodes-Keeps decoded stream s) w
  apply-Idle (responds encoded stream) s v w =
      Keeps-Idle io s (handler_responds io encoded stream s).0
        (handler_responds-Keeps encoded stream s) w
  apply-Idle (resumes error frame) s v w =
      unfold handler_resumed in (λ r o. enqueue_woken_closed io error frame s.queue ∙ w r o)
  apply-Idle (ends stream) s v w = ends-Idle stream (is_some (lookup stream s.spawned)) s refl v w
  apply-Idle begins_shutdown s v w = unfold begin_shutdown in w
  apply-Idle finishes_shutdown s v w =
      Keeps-Idle io s (shutdown_finished io s) (shutdown_finished-Keeps s) w

  apply_all-Idle :
      (events : List Event) (s : Server io) → Inv io s → Idle io s → Idle io (apply_all io events s)
  unfolding apply_all
  apply_all-Idle [] s v w = w
  apply_all-Idle (event ∷ events) s v w =
      apply_all-Idle events (apply io event s) (apply-Inv io event s v) (apply-Idle event s v w)

  -- After any sequence of events on a new server connection: if the read loop has ended and no
  -- operation is left, the write queue is closed.
  pub apply_all-new_server-Idle :
      (max_frames max_bytes max_payload_size : ℕ) (hooked : Bool) (events : List Event)
      → (apply_all io events (new_server io max_frames max_bytes max_payload_size hooked)).reading
        ≡ false
      → (apply_all io events
          (new_server io max_frames max_bytes max_payload_size hooked)).operations
        ≡ []
      → (apply_all io events
          (new_server io max_frames max_bytes max_payload_size hooked)).queue.closed
        ≡ true
  apply_all-new_server-Idle max_frames max_bytes max_payload_size hooked events =
      let s = new_server io max_frames max_bytes max_payload_size hooked in
      let new : Inv io s =
        unfold apply_all in
        apply_all-new_server-Inv io max_frames max_bytes max_payload_size hooked [] in
      apply_all-Idle events s new (unfold new_server in (λ r o. cc r))
