-- ===== src/Tests/Requests.antt =====
-- Runs of the client connection and of the server connection.
use rillnet.Base.{ℕ, ◌≡◌, refl, true, false, Option, none, some, List, [], ◌∷◌}
use rillnet.Base.Keys
use rillnet.Base.Keys.{lookup, without, contains}
use rillnet.Status.{
  same_status, status_category, timeout_error, connection_closed, unknown_message_type,
}
use rillnet.Lifecycle.{is_connection, OperationState, is_operation}
use rillnet.Operation
use rillnet.Frame.Errors.{make_error_frame}
use rillnet.Client.Errors.{
  Rejected, dispatch-make_error_frame_local, dispatch-make_error_frame_peer,
}
use rillnet.Frame.{Frame}
use rillnet.Registry.{is_some}
use rillnet.Message.{success}
use rillnet.Channel.Buffer.{buffers}
use rillnet.Client.{PendingRequest, Client, new_client, fail_pending, begin_shutdown, new_pending}
use rillnet.Client.Requests.{refused, start_request, async_wait}
use rillnet.Client.Reading.{dispatch, read_finished, shutdown_finished}
use rillnet.Client.Failing.{Settled, fail_pending_lem}
use rillnet.Client.Objects.{Inv}
use rillnet.Client.Invariant.{Streams}
use rillnet.Client.Reachable
use rillnet.Client.Reachable.{
  Call, starts, opens, cancels, apply_all-new_client-Inv, apply_all-new_client-Streams,
}
use rillnet.Client.Draining.{
  Drained, ClosingReported, read_error, drained, is_violation, read_finished_lem,
  shutdown_finished_lem, dispatch_violation, read_finished_answers, start_request-begin_shutdown,
}
use rillnet.Transport.{read_bytes}
use rillnet.Frame.RoundTrip.{encode_all}
use native.Mathlib.Omega.{arith}
use rillnet.Server.{Server, new_server, handler_ends}
use rillnet.Server.Handlers
use rillnet.Server.Serving
use rillnet.Server.{handler_responds, handle, dispatch_request}
use rillnet.Frame.Codec.{encode_frame, decode_frame_header, read_be16, read_be32, read_be64}
use rillnet.Frame.{validate_frame}
use rillnet.Frame.Flags.{has_only_known_flags, has_flag}
use rillnet.Decoder.{push}
use rillnet.Server.Idling.{apply_all-new_server-Idle}
use rillnet.Server.Events
use rillnet.Server.Events.{
  Event, handles, reads, responds, finishes_reading, ends, apply_all-new_server-Inv,
}
use rillnet.Tests.Data.{two_bytes_frame, request_21}

abbrev fresh_client : Client buffers
fresh_client = new_client buffers 4 100 9 64 true

-- Two requests, the first of them cancelled.
abbrev calls : List Call
calls =
    starts (λ stream. success two_bytes_frame)
    ∷ starts (λ stream. success two_bytes_frame)
    ∷ cancels (some 0) "no longer needed"
    ∷ []

abbrev busy : Client buffers
busy = Reachable.apply_all buffers calls fresh_client

busy-Inv : Inv buffers busy
busy-Inv = apply_all-new_client-Inv buffers 4 100 9 64 true calls

apply_all-new_client-Inv_example :
    Inv buffers (Reachable.apply_all buffers (opens ∷ calls) (new_client buffers 4 100 9 64 true))
apply_all-new_client-Inv_example = apply_all-new_client-Inv buffers 4 100 9 64 true (opens ∷ calls)

fail_pending_lem_example :
    let c' = fail_pending buffers timeout_error "late" busy in
    (c'.pending ≡ [])
    × ((stream h : ℕ) → lookup stream busy.pending ≡ some h → Settled buffers (lookup h c'.heap))
fail_pending_lem_example =
    fail_pending_lem buffers timeout_error "late" busy (unfold same_status in refl) busy-Inv.0

read_finished_lem_example :
    let c' = read_finished buffers busy in
    Drained buffers busy c'
    × (c'.queue.closed ≡ true)
    × ClosingReported buffers busy (fail_pending buffers connection_closed read_error busy) c'
read_finished_lem_example = read_finished_lem buffers busy busy-Inv

shutdown_finished_lem_example :
    let c' = shutdown_finished buffers busy in
    Drained buffers busy c'
    × (c'.transport_open ≡ false)
    × ClosingReported buffers busy (drained buffers busy) c'
shutdown_finished_lem_example = shutdown_finished_lem buffers busy busy-Inv

dispatch_violation_example :
    let c' = dispatch buffers two_bytes_frame busy in
    Drained buffers busy c' × (c'.transport_open ≡ false)
dispatch_violation_example =
    dispatch_violation buffers two_bytes_frame busy (unfold is_violation in refl) busy-Inv

abbrev one_call : List Call
one_call = starts (λ stream. success two_bytes_frame) ∷ []

first_pending : lookup 1 (Reachable.apply_all buffers one_call fresh_client).pending ≡ some 0
unfolding Reachable.apply_all new_client start_request lookup Keys.assign
first_pending = refl

read_finished_answers_example :
    is_some
      (async_wait buffers
        (λ (f : Frame). success f)
        (some 0)
        (read_finished buffers
          (Reachable.apply_all buffers one_call (new_client buffers 4 100 9 64 true)))).1
    ≡ true
read_finished_answers_example =
    read_finished_answers buffers (λ (f : Frame). success f) 4 100 9 64 true one_call 1 0
      first_pending

start_request-begin_shutdown_example :
    ((start_request buffers
        (λ stream. success two_bytes_frame)
        (begin_shutdown buffers fresh_client)).0
      ≡ begin_shutdown buffers fresh_client)
    × ((start_request buffers
          (λ stream. success two_bytes_frame)
          (begin_shutdown buffers fresh_client)).1
        ≡ refused connection_closed "connection is shutting down")
start_request-begin_shutdown_example =
    start_request-begin_shutdown buffers (λ stream. success two_bytes_frame) fresh_client
      (unfold new_client is_connection in refl) (unfold new_client is_connection in refl)

-- A handler for the registered type 21, a request for it, the response, the end of the handler.
abbrev events : List Event
events =
    handles (some 21) 0
    ∷ Event.opens
    ∷ reads (read_bytes (encode_all (request_21 ∷ [])))
    ∷ responds (success two_bytes_frame) 3
    ∷ finishes_reading true
    ∷ ends 3
    ∷ []

apply_all-new_server-Inv_example :
    Handlers.Inv buffers (Events.apply_all buffers events (new_server buffers 4 100 64 true))
apply_all-new_server-Inv_example = apply_all-new_server-Inv buffers 4 100 64 true events

abbrev one_request : Client buffers
one_request = Reachable.apply_all buffers one_call (new_client buffers 4 100 9 64 true)

one_request-Inv : Inv buffers one_request
one_request-Inv = apply_all-new_client-Inv buffers 4 100 9 64 true one_call

dispatch-make_error_frame_local_example :
    let c' = dispatch buffers (make_error_frame 1 connection_closed) one_request in
    Drained buffers one_request c' × (c'.transport_open ≡ false)
dispatch-make_error_frame_local_example =
    dispatch-make_error_frame_local buffers 1 connection_closed one_request
      (unfold status_category in refl) one_request-Inv

one_request_known : lookup 1 one_request.pending ≡ some 0
one_request_known = first_pending

one_request_found : lookup 0 one_request.heap ≡ some (new_pending buffers 1)
unfolding Reachable.apply_all new_client start_request lookup Keys.assign
one_request_found = refl

one_request_active :
    is_operation (new_pending buffers 1).operation.state OperationState.active ≡ true
unfolding new_pending Operation.activate is_operation
one_request_active = refl

one_request_open : contains 1 one_request.terminal_streams ≡ false
unfolding Reachable.apply_all new_client start_request contains
one_request_open = refl

dispatch-make_error_frame_peer_example :
    let c' = dispatch buffers (make_error_frame 1 unknown_message_type) one_request in
    (c'.transport_open ≡ one_request.transport_open)
    × (c'.pending ≡ without 1 one_request.pending)
    × Rejected buffers unknown_message_type (lookup 0 c'.heap)
dispatch-make_error_frame_peer_example =
    dispatch-make_error_frame_peer buffers 1 unknown_message_type 0 (new_pending buffers 1)
      one_request (unfold status_category in refl) one_request-Inv one_request_known
      one_request_found one_request_active one_request_open

apply_all-new_client-Streams_example :
    let c = Reachable.apply_all buffers calls (new_client buffers 4 100 9 64 true) in
    Streams buffers c.heap c.pending c.stream_ids c.queue
apply_all-new_client-Streams_example =
    apply_all-new_client-Streams buffers 4 100 9 64 true calls (omega arith) (omega arith)

-- The cancelled request of `busy`.
abbrev object_or : PendingRequest buffers → Option (PendingRequest buffers) → PendingRequest buffers
object_or p none = p
object_or p (some q) = q

abbrev cancelled_request : PendingRequest buffers
cancelled_request = object_or (new_pending buffers 1) (lookup 0 busy.heap)

-- A server that has answered its one request, and whose read loop has ended.
abbrev ended_events : List Event
ended_events =
    handles (some 21) 0
    ∷ Event.opens
    ∷ reads (read_bytes (encode_all (request_21 ∷ [])))
    ∷ responds (success two_bytes_frame) 3
    ∷ finishes_reading false
    ∷ ends 3
    ∷ []

abbrev ended_server : Server buffers
ended_server = Events.apply_all buffers ended_events (new_server buffers 4 100 64 true)

ended_reading : ended_server.reading ≡ false
unfolding Events.apply_all new_server lookup Keys.assign Keys.without Serving.read_finished
    handler_responds Serving.read_pass encode_all encode_frame push Serving.open_connection handle
    decode_frame_header validate_frame read_be16 has_only_known_flags read_be64 read_be32 contains
    handler_ends dispatch_request has_flag is_operation Operation.complete
ended_reading = refl

ended_operations : ended_server.operations ≡ []
unfolding Events.apply_all new_server lookup Keys.assign Keys.without Serving.read_finished
    handler_responds Serving.read_pass encode_all encode_frame push Serving.open_connection handle
    decode_frame_header validate_frame read_be16 has_only_known_flags read_be64 read_be32 contains
    handler_ends dispatch_request has_flag is_operation Operation.complete
ended_operations = refl

apply_all-new_server-Idle_example :
    (Events.apply_all buffers ended_events (new_server buffers 4 100 64 true)).queue.closed ≡ true
apply_all-new_server-Idle_example =
    apply_all-new_server-Idle buffers 4 100 64 true ended_events ended_reading ended_operations
