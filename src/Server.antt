-- ===== src/Server.antt =====
-- include/rillnet/server_connection.hpp: the state of a server connection, what a request frame
-- does, and the life of a handler. An Operation is held by the map operations_ until its handler has
-- ended, so the map is the store of the operations. A user's handler is a coroutine this repository does not hold:
-- it enters by the number it was registered under, and by what it comes to.
pub mod Serving
pub mod Handlers
pub mod Events
pub mod Idle
pub mod Idling
pub mod Accepting
pub mod Answering
use rillnet.Base.{
  ℕ, suc, ◌+◌, ◌-◌, ◌%◌, ◌^◌, ◌==◌, Bool, true, false, not, ◌&&◌, ◌||◌, Option, none, some, List,
  [], ◌∷◌, String, if◌then◌else◌,
}
use rillnet.Base.Keys
use rillnet.Base.Keys.{lookup, assign, without, contains}
use rillnet.Status.{
  StatusCode, status_category, connection_closed, malformed_frame, unknown_stream, decode_error,
  unknown_message_type,
}
use rillnet.Lifecycle.{ConnectionState, accepting, draining, is_connection, connection_transition}
use rillnet.Diagnostics.{
  DiagnosticsEventType, DiagnosticsHooks, notify_diagnostics, plain_event, protocol_error,
  request_started,
}
use rillnet.Operation
use rillnet.Operation.{Operation}
use rillnet.Frame.{Frame, request}
use rillnet.Frame.Flags
use rillnet.Frame.Flags.{has_flag, flags_or, end_of_stream}
use rillnet.Frame.Errors.{make_error_frame}
use rillnet.Decoder.{FrameDecoder, new_decoder}
use rillnet.Message.{Outcome, is_ok, peek_message_type}
use rillnet.Channel.{Asio}
use rillnet.WriteQueue.{WriteQueue, Enqueued, new_queue, try_enqueue, enqueue, enqueue_woken, close}
use rillnet.Client.{is_protocol, report_completion}
use rillnet.Client.Requests.{is_shutting_down}

-- `spawned` are the handler coroutines that have been started: a stream, the handler and the frame.
pub record Server (io : Asio) : Type 0 where
  pub transport_open : Bool
  pub wire : List ℕ
  pub queue : WriteQueue io
  pub decoder : FrameDecoder
  pub handlers : List (ℕ × ℕ)
  pub operations : List (ℕ × Operation DiagnosticsHooks)
  pub spawned : List (ℕ × (ℕ × Frame))
  pub terminal_streams : List ℕ
  pub active_handlers : ℕ
  pub reading : Bool
  pub lifecycle : ConnectionState
  pub diagnostics : DiagnosticsHooks
  pub closed_notified : Bool

-- SessionContext::is_cancelled, on the operation that the context shares
unfoldable pub is_cancelled : Operation DiagnosticsHooks → Bool
is_cancelled operation = operation.cancellation_requested

-- The operation of a request, activated.
unfoldable pub new_server_operation : ℕ → Operation DiagnosticsHooks
unfolding Operation.new_operation Operation.activate Operation.set_completion_handler
    report_completion
new_server_operation stream =
    (Operation.activate (
      Operation.set_completion_handler (some (report_completion stream))
        (Operation.new_operation stream none))).0

module _ (io : Asio) where
  unfoldable pub new_server : ℕ → ℕ → ℕ → Bool → Server io
  unfolding new_queue new_decoder
  new_server max_frames max_bytes max_payload_size hooked = record {
    transport_open = true;
    wire = [];
    queue = new_queue io max_frames max_bytes;
    decoder = new_decoder max_payload_size;
    handlers = [];
    operations = [];
    spawned = [];
    terminal_streams = [];
    active_handlers = 0;
    reading = true;
    lifecycle = ConnectionState.created;
    diagnostics = record { hooked = hooked; seen = [] };
    closed_notified = false;
  }

  -- handle<Request>: a type that is not registered is ignored.
  unfoldable pub handle : Option ℕ → ℕ → Server io → Server io
  handle none handler s = s
  handle (some message_type) handler s = record s {
    handlers = assign message_type handler s.handlers;
  }

  unfoldable pub send_operation_error : ℕ → StatusCode → Server io → Server io
  unfolding try_enqueue make_error_frame
  send_operation_error stream status s = record s {
    queue = (try_enqueue io (make_error_frame stream status) s.queue).0;
  }

  unfoldable pub mark_terminal : Frame → Server io → Server io
  unfolding has_flag
  mark_terminal frame s =
      if has_flag frame.header.flags end_of_stream
      then record s { terminal_streams = Keys.insert frame.header.stream s.terminal_streams }
      else s

  unfoldable pub fail_connection : StatusCode → String → Server io → Server io
  unfolding status_category notify_diagnostics
  fail_connection status message s =
      let reported =
        if is_protocol io (status_category status)
        then record s {
          diagnostics =
              notify_diagnostics
                (record {
                  type = protocol_error;
                  stream = 0;
                  status = status;
                  bytes = 0;
                  inbound = true;
                  message = message;
                })
                s.diagnostics;
        }
        else s in
      record reported { transport_open = false }

  unfoldable pub close_queue_when_idle : Server io → Server io
  unfolding close
  close_queue_when_idle s =
      if not s.reading && (s.active_handlers == 0) then record s { queue = close io s.queue } else s

  -- A call of a method of the operation of a stream.
  unfoldable pub run_on :
      (Operation DiagnosticsHooks
        → DiagnosticsHooks
        → Operation DiagnosticsHooks × DiagnosticsHooks × Bool)
      → ℕ
      → Operation DiagnosticsHooks
      → Server io
      → Server io × Bool
  run_on method stream o s =
      let (operation', diagnostics', done) = method o s.diagnostics in
      (
        record s { operations = assign stream operation' s.operations; diagnostics = diagnostics' },
        done,
      )

  -- A request whose message type has the handler `handler`; a stream in use closes the transport.
  unfoldable pub accept_request : Frame → ℕ → Server io → Server io
  unfolding new_server_operation notify_diagnostics
  accept_request frame handler s =
      let stream = frame.header.stream in
      elim (lookup stream s.operations) [
        | some o ↦ record s { transport_open = false }
        | none ↦ record s {
          operations = assign stream (new_server_operation stream) s.operations;
          diagnostics = notify_diagnostics (plain_event request_started stream) s.diagnostics;
          active_handlers = (s.active_handlers + 1) % 2 ^ 64;
          spawned = assign stream (handler, frame) s.spawned;
        }
      ]

  -- The part of dispatch that cancels.
  unfoldable pub dispatch_cancel : Frame → Server io → Server io
  unfolding run_on fail_connection mark_terminal
  dispatch_cancel frame s = elim (lookup frame.header.stream s.operations) [
    | none ↦ fail_connection unknown_stream "cancellation for an unknown stream" s
    | some o ↦
        mark_terminal frame
          (run_on (Operation.cancel "operation cancelled by peer") frame.header.stream o s).0
  ]

  -- A request that is answered with an error frame at once.
  unfoldable pub reject_request : Frame → StatusCode → Server io → Server io
  unfolding send_operation_error mark_terminal
  reject_request frame status s =
      mark_terminal frame (send_operation_error frame.header.stream status s)

  -- The part of dispatch that looks for the handler.
  unfoldable pub dispatch_request : Frame → Server io → Server io
  unfolding reject_request accept_request peek_message_type
  dispatch_request frame s = elim (peek_message_type frame.payload) [
    | none ↦ reject_request frame decode_error s
    | some message_type ↦ elim (lookup message_type s.handlers) [
      | none ↦ reject_request frame unknown_message_type s
      | some handler ↦ accept_request frame handler s
    ]
  ]

  unfoldable pub dispatch : Frame → Server io → Server io
  unfolding is_shutting_down reject_request fail_connection dispatch_cancel dispatch_request
  dispatch frame s =
      if is_shutting_down s.lifecycle
      then reject_request frame connection_closed s
      else if not (frame.header.type == request)
      then fail_connection malformed_frame "server received a non-request frame" s
      else if contains frame.header.stream s.terminal_streams
      then fail_connection malformed_frame "duplicate terminal frame" s
      else if has_flag frame.header.flags Flags.cancel
      then dispatch_cancel frame s
      else dispatch_request frame s

  -- The coroutine of handle: the request is decoded; a failure ends the operation and is sent. The
  -- Boolean says whether the user's handler is called.
  unfoldable pub handler_decodes : {T : Type 0} → Outcome T → ℕ → Server io → Server io × Bool
  unfolding run_on send_operation_error is_ok
  handler_decodes decoded stream s = if is_ok decoded then (s, true) else (
    send_operation_error stream decoded.status (elim (lookup stream s.operations) [
      | none ↦ s
      | some o ↦ (run_on (Operation.fail decoded.status decoded.message) stream o s).0
    ]),
    false,
  )

  -- Behind the user's handler: the frame of the response goes to the write queue if the operation can be
  -- completed. `none` is a wait that is over or has not begun.
  abbrev pub response_enqueued : Server io → WriteQueue io × Enqueued → Server io × Option Enqueued
  response_enqueued s (queue', outcome) = (record s { queue = queue' }, some outcome)

  abbrev pub completed : Frame → Server io × Bool → Server io × Option Enqueued
  completed frame (s, false) = (s, none)
  completed frame (s, true) = response_enqueued s (
      enqueue io
        (record frame {
          header = record frame.header { flags = flags_or frame.header.flags end_of_stream };
        })
        s.queue)

  unfoldable pub handler_responds : Outcome Frame → ℕ → Server io → Server io × Option Enqueued
  unfolding run_on enqueue is_ok
  handler_responds encoded stream s =
      if not (is_ok encoded) then (s, none) else elim encoded.value [
        | none ↦ (s, none)
        | some frame ↦ elim (lookup stream s.operations) [
          | none ↦ (s, none)
          | some o ↦ completed frame (run_on (Operation.complete "response ready") stream o s)
        ]
      ]

  -- The wait for room of a handler's response is over: with a signal, or the error of the space
  -- channel.
  unfoldable pub handler_resumed : Option String → Frame → Server io → Server io × Option Enqueued
  unfolding enqueue_woken
  handler_resumed error frame s = response_enqueued s (enqueue_woken io error frame s.queue)

  -- run_handler behind the handler, which returned or threw.
  unfoldable pub handler_ends : ℕ → Server io → Server io
  unfolding close_queue_when_idle
  handler_ends stream s = close_queue_when_idle (record s {
    operations = without stream s.operations;
    spawned = without stream s.spawned;
    active_handlers = (s.active_handlers + 2 ^ 64 - 1) % 2 ^ 64;
  })

  -- fail_operations_on_connection_close: every operation in turn.
  unfoldable pub fail_operations :
      List (ℕ × Operation DiagnosticsHooks)
      → DiagnosticsHooks
      → List (ℕ × Operation DiagnosticsHooks) × DiagnosticsHooks
  unfolding Operation.request_cancellation Operation.fail
  fail_operations [] d = ([], d)
  fail_operations ((stream, o) ∷ rest) d =
      let (o', d', done) =
        Operation.fail connection_closed "connection closed while processing a request"
          (Operation.request_cancellation o).0 d in
      let (rest', d'') = fail_operations rest d' in ((stream, o') ∷ rest', d'')

  unfoldable pub fail_operations_on_connection_close : Server io → Server io
  unfolding fail_operations
  fail_operations_on_connection_close s =
      let (operations', diagnostics') = fail_operations s.operations s.diagnostics in
      record s { operations = operations'; diagnostics = diagnostics' }

  unfoldable pub begin_shutdown : Server io → Server io
  unfolding is_connection connection_transition
  begin_shutdown s =
      let opened =
        if is_connection s.lifecycle ConnectionState.created
        then (connection_transition (connection_transition s.lifecycle accepting).0
            ConnectionState.active).0
        else s.lifecycle in
      record s {
        lifecycle =
            if is_connection opened ConnectionState.active
            then (connection_transition opened draining).0
            else opened;
      }

  unfoldable pub notify_closed : Server io → Server io
  unfolding notify_diagnostics
  notify_closed s = if s.closed_notified then s else record s {
    closed_notified = true;
    diagnostics =
        notify_diagnostics
          (record {
            type = DiagnosticsEventType.connection_closed;
            stream = 0;
            status = connection_closed;
            bytes = 0;
            inbound = false;
            message = "connection closed";
          })
          s.diagnostics;
  }
