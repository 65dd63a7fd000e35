-- ===== src/Server/Idle.antt =====
-- server_connection.hpp: that the write queue is closed once the connection is idle, through every
-- operation of a server connection.
use rillnet.Base.{
  ℕ, ◌≡◌, refl, sym, ◌∙◌, ◌==◌, Bool, true, false, not, Option, none, some, List, [], ◌∷◌, String,
  arith, if◌then◌else◌, Option-cases, inl, inr,
}
use rillnet.Base.Keys.{lookup, contains}
use rillnet.Status.{
  StatusCode, connection_closed, malformed_frame, unknown_stream, decode_error,
  unknown_message_type,
}
use rillnet.Operation
use rillnet.Operation.{Operation}
use rillnet.Frame.{Frame, request}
use rillnet.Frame.Flags
use rillnet.Frame.Flags.{has_flag, end_of_stream}
use rillnet.Message.{peek_message_type}
use rillnet.Channel.{Asio}
use rillnet.Client.Requests.{is_shutting_down}
use rillnet.Client.Reading.{observe_write}
use rillnet.Frame.Errors.{make_error_frame}
use rillnet.Diagnostics.{DiagnosticsHooks}
use rillnet.Base.Keys
use rillnet.Server.{
  new_server_operation, accept_request, Server, send_operation_error, mark_terminal,
  fail_connection, run_on, dispatch_cancel, reject_request, dispatch_request, dispatch,
}
use rillnet.Server.Serving.{write_pass}
use rillnet.WriteQueue.{
  WriteQueue, Writer, try_enqueue, enqueue, enqueue_woken, enqueue_round, close, take_and_write,
  write_frame, take_frame, run_pass,
}

module _ (io : Asio) where
  -- Once the read loop has ended and no operation is left, the queue is closed.
  abbrev pub Idle : Server io → Type 0
  Idle s = s.reading ≡ false → s.operations ≡ [] → s.queue.closed ≡ true

  -- From `s` to `s'`: nothing that would make it idle, and the queue is not opened again.
  abbrev pub Keeps : Server io → Server io → Type 0
  Keeps s s' =
      (s'.reading ≡ s.reading)
      × (s'.operations ≡ [] → s.operations ≡ [])
      × (s.queue.closed ≡ true → s'.queue.closed ≡ true)

  pub Keeps-Idle : (s s' : Server io) → Keeps s s' → Idle s → Idle s'
  Keeps-Idle s s' (same, more, stays) v r o = stays (v (sym same ∙ r) (more o))

  pub if-Keeps :
      (b : Bool) (s t u : Server io) → Keeps s t → Keeps s u → Keeps s (if b then t else u)
  if-Keeps true s t u v w = v
  if-Keeps false s t u v w = w

  pub then-Keeps : (s t u : Server io) → Keeps s t → Keeps t u → Keeps s u
  then-Keeps s t u (r, o, c) (r', o', c') = (r' ∙ r, (λ e. o (o' e)), (λ e. c' (c e)))

  try_enqueue_closed : (f : Frame) (q : WriteQueue io) → (try_enqueue io f q).0.closed ≡ q.closed
  unfolding try_enqueue
  try_enqueue_closed f q = ground arith

  pub enqueue_closed : (f : Frame) (q : WriteQueue io) → (enqueue io f q).0.closed ≡ q.closed
  unfolding enqueue enqueue_round
  enqueue_closed f q = ground (arith, try_enqueue_closed f q)

  pub enqueue_woken_closed :
      (error : Option String) (f : Frame) (q : WriteQueue io)
      → (enqueue_woken io error f q).0.closed ≡ q.closed
  unfolding enqueue_woken enqueue_round
  enqueue_woken_closed (some message) f q = refl
  enqueue_woken_closed none f q = elim (Option-cases (io.signals.receive q.space)) [
    | inl empty ↦ rw (empty, enqueue_woken) refl
    | inr ((u, space'), got) ↦
        rw (got, enqueue_woken) (ground (arith, try_enqueue_closed f (record q { space = space' })))
  ]

  taken_closed :
      {S : Type 0} (observer : Option (Frame → ℕ → S → S)) (error : Option String)
      (o : Option (Frame × io.frames.Channel)) (w : Writer io S)
      → w.queue.closed ≡ true
      → (take_and_write io observer error o w).0.queue.closed ≡ true
  unfolding write_frame take_frame close
  taken_closed observer error none w e = ground (arith, e)
  taken_closed observer none (some (f, ch)) w e = e
  taken_closed observer (some message) (some (f, ch)) w e = refl

  pub write_pass-Keeps : (error : Option String) (s : Server io) → Keeps s (write_pass io error s).0
  unfolding write_pass run_pass
  write_pass-Keeps error s = (
    refl,
    (λ e. e),
    taken_closed (some observe_write) error (io.frames.receive s.queue.channel) (record {
      queue = s.queue;
      wire = s.wire;
      transport_open = s.transport_open;
      observed = s.diagnostics;
    }),
  )

  mark_terminal-Keeps : (frame : Frame) (s : Server io) → Keeps s (mark_terminal io frame s)
  unfolding mark_terminal
  mark_terminal-Keeps frame s =
      if-Keeps (has_flag frame.header.flags end_of_stream) s _ s (refl, (λ e. e), (λ e. e))
        (refl, (λ e. e), (λ e. e))

  pub send_operation_error-Keeps :
      (stream : ℕ) (status : StatusCode) (s : Server io)
      → Keeps s (send_operation_error io stream status s)
  unfolding send_operation_error
  send_operation_error-Keeps stream status s =
      (refl, (λ e. e), (λ e. try_enqueue_closed (make_error_frame stream status) s.queue ∙ e))

  reject_request-Keeps :
      (frame : Frame) (status : StatusCode) (s : Server io)
      → Keeps s (reject_request io frame status s)
  unfolding reject_request
  reject_request-Keeps frame status s =
      let sent = send_operation_error io frame.header.stream status s in
      then-Keeps s sent (mark_terminal io frame sent)
        (send_operation_error-Keeps frame.header.stream status s) (mark_terminal-Keeps frame sent)

  fail_connection-Keeps :
      (status : StatusCode) (message : String) (s : Server io)
      → Keeps s (fail_connection io status message s)
  unfolding fail_connection
  fail_connection-Keeps status message s = ground arith

  assign_something : {V : Type 0} (k : ℕ) (v : V) (m : List (ℕ × V)) → Keys.assign k v m ≡ [] → ⊥
  unfolding Keys.assign
  assign_something k v [] e = cc e
  assign_something k v ((j, w) ∷ m) e = ground arith

  pub run_on-Keeps :
      (m : Operation DiagnosticsHooks
        → DiagnosticsHooks
        → Operation DiagnosticsHooks × DiagnosticsHooks × Bool)
      (stream : ℕ) (o : Operation DiagnosticsHooks) (s : Server io)
      → Keeps s (run_on io m stream o s).0
  unfolding run_on
  run_on-Keeps m stream o s =
      (refl, (λ e. absurd (assign_something stream (m o s.diagnostics).0 s.operations e)), (λ e. e))

  accept_request-Keeps :
      (frame : Frame) (handler : ℕ) (s : Server io) → Keeps s (accept_request io frame handler s)
  unfolding accept_request
  accept_request-Keeps frame handler s =
      let stream = frame.header.stream in
      elim (Option-cases (lookup stream s.operations)) [
        | inl e ↦
            rw (e, accept_request)
              (
                refl,
                (λ a.
                    absurd (assign_something stream (new_server_operation stream) s.operations a)),
                (λ a. a),
              )
        | inr (o, e) ↦ rw (e, accept_request) (refl, (λ a. a), (λ a. a))
      ]

  dispatch_cancel-Keeps : (frame : Frame) (s : Server io) → Keeps s (dispatch_cancel io frame s)
  unfolding dispatch_cancel
  dispatch_cancel-Keeps frame s =
      let m = Operation.cancel "operation cancelled by peer" in
      elim (Option-cases (lookup frame.header.stream s.operations)) [
        | inl e ↦
            rw (e, dispatch_cancel)
              (fail_connection-Keeps unknown_stream "cancellation for an unknown stream" s)
        | inr (o, e) ↦
            rw (e, dispatch_cancel)
              (then-Keeps s (run_on io m frame.header.stream o s).0
                (mark_terminal io frame (run_on io m frame.header.stream o s).0)
                (run_on-Keeps m frame.header.stream o s)
                (mark_terminal-Keeps frame (run_on io m frame.header.stream o s).0))
      ]

  dispatch_request-Keeps : (frame : Frame) (s : Server io) → Keeps s (dispatch_request io frame s)
  unfolding dispatch_request
  dispatch_request-Keeps frame s = elim (Option-cases (peek_message_type frame.payload)) [
    | inl e ↦ rw (e, dispatch_request) (reject_request-Keeps frame decode_error s)
    | inr (t, e) ↦ elim (Option-cases (lookup t s.handlers)) [
      | inl f ↦ rw (e, dispatch_request) (rw f (reject_request-Keeps frame unknown_message_type s))
      | inr (handler, f) ↦ rw (e, dispatch_request) (rw f (accept_request-Keeps frame handler s))
    ]
  ]

  pub dispatch-Keeps : (frame : Frame) (s : Server io) → Keeps s (dispatch io frame s)
  unfolding dispatch
  dispatch-Keeps frame s =
      if-Keeps (is_shutting_down s.lifecycle) s _ _ (reject_request-Keeps frame connection_closed s)
        (if-Keeps (not (frame.header.type == request)) s _ _
          (fail_connection-Keeps malformed_frame "server received a non-request frame" s)
          (if-Keeps (contains frame.header.stream s.terminal_streams) s _ _
            (fail_connection-Keeps malformed_frame "duplicate terminal frame" s)
            (if-Keeps (has_flag frame.header.flags Flags.cancel) s _ _
              (dispatch_cancel-Keeps frame s) (dispatch_request-Keeps frame s))))
