-- ===== src/Server/Events.antt =====
-- server_connection.hpp: every operation of a server connection, as an event; the invariant after any.
use rillnet.Base.{
  ℕ, ◌≡◌, refl, ◌==◌, Bool, true, false, not, ◌&&◌, Option, none, some, List, [], ◌∷◌, String,
  arith, if◌then◌else◌, Bool-cases, Option-cases, inl, inr,
}
use rillnet.Base.Keys.{lookup, contains}
use rillnet.Status.{
  StatusCode, status_category, connection_closed, malformed_frame, unknown_stream, decode_error,
  unknown_message_type,
}
use rillnet.Lifecycle.{ConnectionState, closed, is_connection, connection_transition}
use rillnet.Operation
use rillnet.Operation.{Operation}
use rillnet.Frame.{Frame, request}
use rillnet.Frame.Flags
use rillnet.Frame.Flags.{has_flag, end_of_stream}
use rillnet.Decoder.{push}
use rillnet.Registry.{is_some}
use rillnet.Message.{Outcome, is_ok, peek_message_type}
use rillnet.Channel.{Asio}
use rillnet.Client.{is_protocol}
use rillnet.Client.Requests.{is_shutting_down}
use rillnet.Client.Reading.{observe_frame}
use rillnet.Transport.{Read, read_bytes, end_of_input, read_error}
use rillnet.Server.{
  Server, new_server, handle, send_operation_error, mark_terminal, fail_connection,
  close_queue_when_idle, run_on, dispatch_cancel, reject_request, dispatch_request, dispatch,
  handler_decodes, completed, handler_responds, handler_resumed, handler_ends,
  fail_operations_on_connection_close, begin_shutdown, notify_closed,
}
use rillnet.Server.Serving.{
  dispatch_all, check_decoder, read_pass, read_finished, open_connection, write_pass,
  shutdown_finished,
}
use rillnet.Server.Handlers.{
  Inv, fail_operations_keys, fail_operations-Distinct, run_on-Inv, accept_request-Inv,
  handler_ends-Inv,
}

-- An event of a server connection: a handler registered, a pass of a loop or its end, a step of the
-- handler of a stream, a wait for room that is over, a part of shutdown.
pub data Event : Type 0 where
  opens : Event
  handles : Option ℕ → ℕ → Event
  reads : Read → Event
  finishes_reading : Bool → Event
  writes : Option String → Event
  decodes : Outcome Frame → ℕ → Event
  responds : Outcome Frame → ℕ → Event
  resumes : Option String → Frame → Event
  ends : ℕ → Event
  begins_shutdown : Event
  finishes_shutdown : Event

module _ (io : Asio) where
  -- Only a handler that runs can end.
  unfoldable pub apply : Event → Server io → Server io
  apply opens s = open_connection io s
  apply (handles message_type handler) s = handle io message_type handler s
  apply (reads read) s = (read_pass io read s).0
  apply (finishes_reading connection_lost) s = read_finished io connection_lost s
  apply (writes error) s = (write_pass io error s).0
  apply (decodes decoded stream) s = (handler_decodes io decoded stream s).0
  apply (responds encoded stream) s = (handler_responds io encoded stream s).0
  apply (resumes error frame) s = (handler_resumed io error frame s).0
  apply (ends stream) s = if is_some (lookup stream s.spawned) then handler_ends io stream s else s
  apply begins_shutdown s = begin_shutdown io s
  apply finishes_shutdown s = shutdown_finished io s

  unfoldable pub apply_all : List Event → Server io → Server io
  unfolding apply
  apply_all [] s = s
  apply_all (event ∷ events) s = apply_all events (apply event s)

  pub if-Inv : (b : Bool) (s t : Server io) → Inv io s → Inv io t → Inv io (if b then s else t)
  if-Inv true s t v w = v
  if-Inv false s t v w = w

  mark_terminal-Inv : (frame : Frame) (s : Server io) → Inv io s → Inv io (mark_terminal io frame s)
  unfolding mark_terminal
  mark_terminal-Inv frame s v = if-Inv (has_flag frame.header.flags end_of_stream) _ s v v

  reject_request-Inv :
      (frame : Frame) (status : StatusCode) (s : Server io)
      → Inv io s
      → Inv io (reject_request io frame status s)
  unfolding reject_request send_operation_error
  reject_request-Inv frame status s v = mark_terminal-Inv frame _ v

  fail_connection-Inv :
      (status : StatusCode) (message : String) (s : Server io)
      → Inv io s
      → Inv io (fail_connection io status message s)
  unfolding fail_connection
  fail_connection-Inv status message s v =
      elim (Bool-cases (is_protocol io (status_category status))) [
        | inl reports ↦ rw (reports, fail_connection) v
        | inr silent ↦ rw (silent, fail_connection) v
      ]

  dispatch_cancel-Inv :
      (frame : Frame) (s : Server io) → Inv io s → Inv io (dispatch_cancel io frame s)
  unfolding dispatch_cancel
  dispatch_cancel-Inv frame s v = elim (Option-cases (lookup frame.header.stream s.operations)) [
    | inl e ↦
        rw (e, dispatch_cancel)
          (fail_connection-Inv unknown_stream "cancellation for an unknown stream" s v)
    | inr (o, e) ↦
        rw (e, dispatch_cancel)
          (mark_terminal-Inv frame _ (
            run_on-Inv io (Operation.cancel "operation cancelled by peer") frame.header.stream o s e
              v))
  ]

  dispatch_request-Inv :
      (frame : Frame) (s : Server io) → Inv io s → Inv io (dispatch_request io frame s)
  unfolding dispatch_request
  dispatch_request-Inv frame s v = elim (Option-cases (peek_message_type frame.payload)) [
    | inl e ↦ rw (e, dispatch_request) (reject_request-Inv frame decode_error s v)
    | inr (t, e) ↦ elim (Option-cases (lookup t s.handlers)) [
      | inl f ↦ rw (e, dispatch_request) (rw f (reject_request-Inv frame unknown_message_type s v))
      | inr (handler, f) ↦ rw (e, dispatch_request) (rw f (accept_request-Inv io frame handler s v))
    ]
  ]

  dispatch-Inv : (frame : Frame) (s : Server io) → Inv io s → Inv io (dispatch io frame s)
  unfolding dispatch
  dispatch-Inv frame s v =
      if-Inv (is_shutting_down s.lifecycle) _ _ (reject_request-Inv frame connection_closed s v) (
        if-Inv (not (frame.header.type == request)) _ _
          (fail_connection-Inv malformed_frame "server received a non-request frame" s v)
          (if-Inv (contains frame.header.stream s.terminal_streams) _ _
            (fail_connection-Inv malformed_frame "duplicate terminal frame" s v)
            (if-Inv (has_flag frame.header.flags Flags.cancel) _ _ (dispatch_cancel-Inv frame s v)
              (dispatch_request-Inv frame s v))))

  dispatch_all-Inv :
      (frames : List Frame) (s : Server io) → Inv io s → Inv io (dispatch_all io frames s)
  unfolding dispatch_all
  dispatch_all-Inv [] s v = v
  dispatch_all-Inv (frame ∷ frames) s v =
      let s' = dispatch io frame (record s { diagnostics = observe_frame frame s.diagnostics }) in
      let v' : Inv io s' =
        dispatch-Inv frame (record s { diagnostics = observe_frame frame s.diagnostics }) v in
      if-Inv s'.transport_open (dispatch_all io frames s') s' (dispatch_all-Inv frames s' v') v'

  check_decoder-Inv : (s : Server io) → Inv io s → Inv io (check_decoder io s).0
  unfolding check_decoder
  check_decoder-Inv s v = elim (Option-cases s.decoder.error) [
    | inl e ↦ simp (e, check_decoder) v
    | inr (x, e) ↦ simp (e, check_decoder) v
  ]

  read_pass-Inv : (read : Read) (s : Server io) → Inv io s → Inv io (read_pass io read s).0
  unfolding read_pass
  read_pass-Inv (read_error stays) s v = v
  read_pass-Inv (end_of_input stays) s v = v
  read_pass-Inv (read_bytes []) s v = v
  read_pass-Inv (read_bytes (b ∷ chunk)) s v =
      check_decoder-Inv _ (dispatch_all-Inv (push s.decoder (b ∷ chunk)).1 _ v)

  pub failed-Inv : (s : Server io) → Inv io s → Inv io (fail_operations_on_connection_close io s)
  unfolding fail_operations_on_connection_close
  failed-Inv s (distinct, counted, same) =
      let (length_same, keys) = fail_operations_keys io s.operations s.diagnostics in
      (
        fail_operations-Distinct io s.operations s.diagnostics distinct,
        ground (arith, length_same),
        (λ k. ground (arith, same k, keys k)),
      )

  pub close_queue_when_idle-Inv : (s : Server io) → Inv io s → Inv io (close_queue_when_idle io s)
  unfolding close_queue_when_idle
  close_queue_when_idle-Inv s v = if-Inv (not s.reading && (s.active_handlers == 0)) _ s v v

  notify_closed-Inv : (s : Server io) → Inv io s → Inv io (notify_closed io s)
  unfolding notify_closed
  notify_closed-Inv s v = if-Inv s.closed_notified s _ v v

  read_finished-Inv : (lost : Bool) (s : Server io) → Inv io s → Inv io (read_finished io lost s)
  unfolding read_finished
  read_finished-Inv lost s v =
      let failed = if lost then fail_operations_on_connection_close io s else s in
      let stopped : Server io = record failed { reading = false } in
      let w : Inv io failed =
        if-Inv lost (fail_operations_on_connection_close io s) s (failed-Inv s v) v in
      let idle = close_queue_when_idle io stopped in
      let w' : Inv io idle = close_queue_when_idle-Inv stopped w in
      notify_closed-Inv
        (record idle { lifecycle = (connection_transition idle.lifecycle closed).0 }) w'

  shutdown_finished-Inv : (s : Server io) → Inv io s → Inv io (shutdown_finished io s)
  unfolding shutdown_finished
  shutdown_finished-Inv s v = notify_closed-Inv _ (
      if-Inv (s.active_handlers == 0) s (fail_operations_on_connection_close io s) v
        (failed-Inv s v))

  handler_decodes-Inv :
      (decoded : Outcome Frame) (stream : ℕ) (s : Server io)
      → Inv io s
      → Inv io (handler_decodes io decoded stream s).0
  unfolding handler_decodes send_operation_error
  handler_decodes-Inv decoded stream s v = elim (Bool-cases (is_ok decoded)) [
    | inl fine ↦ rw (fine, handler_decodes) v
    | inr bad ↦ elim (Option-cases (lookup stream s.operations)) [
      | inl e ↦ rw (bad, handler_decodes) (rw e v)
      | inr (o, e) ↦
          rw (bad, handler_decodes)
            (rw e (run_on-Inv io (Operation.fail decoded.status decoded.message) stream o s e v))
    ]
  ]

  completed-Inv :
      (frame : Frame) (r : Server io × Bool) → Inv io r.0 → Inv io (completed io frame r).0
  completed-Inv frame (s, false) v = v
  completed-Inv frame (s, true) v = v

  handler_responds-Inv :
      (encoded : Outcome Frame) (stream : ℕ) (s : Server io)
      → Inv io s
      → Inv io (handler_responds io encoded stream s).0
  unfolding handler_responds
  handler_responds-Inv encoded stream s v = elim (Bool-cases (is_ok encoded)) [
    | inr bad ↦ rw (bad, handler_responds) v
    | inl fine ↦ elim (Option-cases encoded.value) [
      | inl e ↦ rw (fine, handler_responds) (simp e v)
      | inr (frame, e) ↦ elim (Option-cases (lookup stream s.operations)) [
        | inl f ↦ rw (fine, handler_responds) (simp (e, f) v)
        | inr (o, f) ↦
            rw (fine, handler_responds)
              (simp (e, f)
                (completed-Inv frame (run_on io (Operation.complete "response ready") stream o s)
                  (run_on-Inv io (Operation.complete "response ready") stream o s f v)))
      ]
    ]
  ]

  ends-Inv :
      (stream : ℕ) (b : Bool) (s : Server io)
      → is_some (lookup stream s.spawned) ≡ b
      → Inv io s
      → Inv io (if b then handler_ends io stream s else s)
  ends-Inv stream true s e v = handler_ends-Inv io stream s e v
  ends-Inv stream false s e v = v

  pub apply-Inv : (event : Event) (s : Server io) → Inv io s → Inv io (apply event s)
  unfolding apply
  apply-Inv opens s v =
      unfold open_connection in if-Inv (is_connection s.lifecycle ConnectionState.created) _ s v v
  apply-Inv (handles none handler) s v = unfold handle in v
  apply-Inv (handles (some t) handler) s v = unfold handle in v
  apply-Inv (reads read) s v = read_pass-Inv read s v
  apply-Inv (finishes_reading lost) s v = read_finished-Inv lost s v
  apply-Inv (writes error) s v = unfold write_pass in v
  apply-Inv (decodes decoded stream) s v = handler_decodes-Inv decoded stream s v
  apply-Inv (responds encoded stream) s v = handler_responds-Inv encoded stream s v
  apply-Inv (resumes error frame) s v = unfold handler_resumed in v
  apply-Inv (ends stream) s v = ends-Inv stream (is_some (lookup stream s.spawned)) s refl v
  apply-Inv begins_shutdown s v = unfold begin_shutdown in v
  apply-Inv finishes_shutdown s v = shutdown_finished-Inv s v

  apply_all-Inv : (events : List Event) (s : Server io) → Inv io s → Inv io (apply_all events s)
  unfolding apply_all
  apply_all-Inv [] s v = v
  apply_all-Inv (event ∷ events) s v = apply_all-Inv events (apply event s) (apply-Inv event s v)

  -- After any sequence of events on a new server connection, the streams of the running handlers are
  -- those of the operations, each of which stands once, and active_handlers_ is the number of
  -- operations, modulo 2 ^ 64.
  pub apply_all-new_server-Inv :
      (max_frames max_bytes max_payload_size : ℕ) (hooked : Bool) (events : List Event)
      → Inv io (apply_all events (new_server io max_frames max_bytes max_payload_size hooked))
  apply_all-new_server-Inv max_frames max_bytes max_payload_size hooked events =
      apply_all-Inv events _ (unfold new_server lookup in (tt, refl, (λ k. refl)))
