-- ===== src/Client.antt =====
-- include/rillnet/client_connection.hpp: the state of a client connection and the operations on a
-- pending request. A std::shared_ptr<PendingRequest> is a handle into `heap`, so that the map
-- pending_, a RequestOperation and a timer can share one object. Coroutines are cut at co_await.
pub mod Requesting
pub mod Requests
pub mod Reading
pub mod Failing
pub mod Invariant
pub mod Objects
pub mod Keeping
pub mod Starting
pub mod Dispatching
pub mod Reachable
pub mod Draining
pub mod Errors
pub mod Freeing
pub mod Crossing
pub mod Answering
pub mod Responding
pub mod Sending
use rillnet.Base.{
  ℕ, zero, suc, length, ◌+◌, ◌==◌, Bool, true, false, not, ◌&&◌, ◌||◌, Option, none, some, List, [],
  ◌∷◌, String, if◌then◌else◌,
}
use rillnet.Base.Keys
use rillnet.Base.Keys.{lookup, assign, without}
use rillnet.Status.{
  StatusCode, StatusCategory, status_category, connection_closed, cancelled, timeout_error,
  same_status,
}
use rillnet.Lifecycle.{ConnectionState, connecting, draining, is_connection, connection_transition}
use rillnet.Diagnostics.{
  DiagnosticsEvent, DiagnosticsEventType, DiagnosticsHooks, notify_diagnostics, plain_event,
  cancellation, timeout, request_completed, protocol_error,
}
use rillnet.Operation
use rillnet.Operation.{Operation, OperationResult, is_terminal}
use rillnet.Stream.{StreamIdAllocator, StreamInitiator, new_allocator, release}
use rillnet.Frame.{Frame, default_header, request}
use rillnet.Frame.Flags
use rillnet.Frame.Flags.{flags_or, end_of_stream}
use rillnet.Decoder.{FrameDecoder, new_decoder}
use rillnet.Channel.{Asio}
use rillnet.WriteQueue.{WriteQueue, new_queue, try_enqueue}

-- timer is the time that it was set to, while it runs.
pub record PendingRequest (io : Asio) : Type 0 where
  pub channel : io.frames.Channel
  pub timer : Option ℕ
  pub operation : Operation DiagnosticsHooks
  pub removed : Bool
  pub stream_released : Bool

pub record Client (io : Asio) : Type 0 where
  pub transport_open : Bool
  pub wire : List ℕ
  pub queue : WriteQueue io
  pub stream_ids : StreamIdAllocator
  pub decoder : FrameDecoder
  pub heap : List (ℕ × PendingRequest io)
  pub next_handle : ℕ
  pub pending : List (ℕ × ℕ)
  pub terminal_streams : List ℕ
  pub lifecycle : ConnectionState
  pub diagnostics : DiagnosticsHooks
  pub closed_notified : Bool

-- The event that the completion handler of a request reports.
unfoldable pub completion_type : StatusCode → DiagnosticsEventType
unfolding same_status
completion_type status =
    if same_status status cancelled
    then cancellation
    else if same_status status timeout_error
    then timeout
    else request_completed

unfoldable pub report_completion : ℕ → OperationResult → DiagnosticsHooks → DiagnosticsHooks
unfolding completion_type notify_diagnostics
report_completion stream result = notify_diagnostics (record {
  type = completion_type result.status;
  stream = stream;
  status = result.status;
  bytes = 0;
  inbound = false;
  message = result.message;
})

module _ (io : Asio) where
  unfoldable pub new_client : ℕ → ℕ → ℕ → ℕ → Bool → Client io
  unfolding new_queue new_allocator new_decoder
  new_client max_frames max_bytes maximum_stream_id max_payload_size hooked = record {
    transport_open = true;
    wire = [];
    queue = new_queue io max_frames max_bytes;
    stream_ids = new_allocator StreamInitiator.client maximum_stream_id;
    decoder = new_decoder max_payload_size;
    heap = [];
    next_handle = 0;
    pending = [];
    terminal_streams = [];
    lifecycle = ConnectionState.created;
    diagnostics = record { hooked = hooked; seen = [] };
    closed_notified = false;
  }

  -- The constructor of PendingRequest, which activates the operation.
  unfoldable pub new_pending : ℕ → PendingRequest io
  unfolding Operation.new_operation Operation.activate report_completion
  new_pending stream = record {
    channel = io.frames.make 1;
    timer = none;
    operation =
        (Operation.activate (Operation.new_operation stream (some (report_completion stream)))).0;
    removed = false;
    stream_released = false;
  }

  -- A write through a handle.
  abbrev pub store : ℕ → PendingRequest io → Client io → Client io
  store h p c = record c { heap = assign h p c.heap }

  -- A call of a method of the operation of `p`, which may run its completion handler.
  unfoldable pub run_on :
      (Operation DiagnosticsHooks
        → DiagnosticsHooks
        → Operation DiagnosticsHooks × DiagnosticsHooks × Bool)
      → ℕ
      → PendingRequest io
      → Client io
      → Client io × Bool
  run_on method h p c =
      let (operation', diagnostics', done) = method p.operation c.diagnostics in
      (
        record c {
          heap = assign h (record p { operation = operation' }) c.heap;
          diagnostics = diagnostics';
        },
        done,
      )

  unfoldable pub close_channel : ℕ → Client io → Client io
  close_channel h c = elim (lookup h c.heap) [
    | none ↦ c
    | some p ↦ store h (record p { channel = io.frames.close p.channel }) c
  ]

  -- `found->second == pending`
  abbrev pub is_handle : Option ℕ → ℕ → Bool
  is_handle none h = false
  is_handle (some j) h = j == h

  -- The two halves of cleanup_pending.
  unfoldable pub remove_pending : ℕ → PendingRequest io → Client io → Client io
  remove_pending h p c = if p.removed then c else record c {
    heap = assign h (record p { removed = true; timer = none }) c.heap;
    pending =
        if is_handle (lookup p.operation.stream c.pending) h
        then without p.operation.stream c.pending
        else c.pending;
  }

  unfoldable pub release_pending : Bool → ℕ → PendingRequest io → Client io → Client io
  release_pending release_stream h p c =
      if release_stream && not p.stream_released
      then record c {
        heap = assign h (record p { stream_released = true }) c.heap;
        stream_ids = release p.operation.stream c.stream_ids;
      }
      else c

  unfoldable pub cleanup_pending : ℕ → Bool → Client io → Client io
  unfolding remove_pending release_pending
  cleanup_pending h release_stream c = elim (lookup h c.heap) [
    | none ↦ c
    | some p ↦
        release_pending release_stream h
          (if p.removed then p else record p { removed = true; timer = none })
          (remove_pending h p c)
  ]

  unfoldable pub cancellation_frame : ℕ → Frame
  cancellation_frame stream = record {
    header = record default_header {
      type = request;
      flags = flags_or Flags.cancel end_of_stream;
      stream = stream;
      payload_size = 0;
    };
    payload = [];
  }

  unfoldable pub send_cancellation : ℕ → Client io → Client io
  unfolding cancellation_frame try_enqueue
  send_cancellation stream c = record c {
    queue = (try_enqueue io (cancellation_frame stream) c.queue).0;
  }

  unfoldable pub mark_terminal : Frame → Client io → Client io
  unfolding Flags.has_flag
  mark_terminal frame c =
      if Flags.has_flag frame.header.flags end_of_stream
      then record c { terminal_streams = Keys.insert frame.header.stream c.terminal_streams }
      else c

  -- A method that ends the operation, and where it did: a cancellation frame, the channel closed,
  -- the request removed.
  abbrev pub ended_locally : ℕ → ℕ → Client io × Bool → Client io × Bool
  ended_locally h stream (c, false) = (c, false)
  ended_locally h stream (c, true) =
      (cleanup_pending h false (close_channel h (send_cancellation stream c)), true)

  unfoldable pub timeout_pending : ℕ → Client io → Client io
  unfolding run_on cleanup_pending close_channel send_cancellation
  timeout_pending h c = elim (lookup h c.heap) [
    | none ↦ c
    | some p ↦
        (ended_locally h p.operation.stream
          (run_on (Operation.timeout "operation deadline exceeded") h p c)).0
  ]

  unfoldable pub cancel_pending : ℕ → String → Client io → Client io × Bool
  unfolding run_on cleanup_pending close_channel send_cancellation
  cancel_pending h message c = elim (lookup h c.heap) [
    | none ↦ (c, false)
    | some p ↦ ended_locally h p.operation.stream (run_on (Operation.cancel message) h p c)
  ]

  unfoldable pub discard_pending : ℕ → Client io → Client io
  unfolding run_on cleanup_pending close_channel send_cancellation
  discard_pending h c = elim (lookup h c.heap) [
    | none ↦ c
    | some p ↦ cleanup_pending h true (
        if is_terminal p.operation
        then c
        else close_channel h (
            send_cancellation p.operation.stream
              (run_on (Operation.cancel "operation handle released") h p c).0))
  ]

  -- One round of fail_pending: the request that begin() finds.
  unfoldable pub fail_one : StatusCode → String → ℕ → Client io → Client io
  unfolding run_on close_channel cleanup_pending
  fail_one status message h c = elim (lookup h c.heap) [
    | none ↦ c
    | some p ↦
        cleanup_pending h false (close_channel h (run_on (Operation.fail status message) h p c).0)
  ]

  -- The loop runs while pending_ is not empty; the fuel is its size.
  unfoldable pub fail_pending_loop : ℕ → StatusCode → String → Client io → Client io
  unfolding fail_one
  fail_pending_loop zero status message c = c
  fail_pending_loop (suc fuel) status message c = elim c.pending [
    | [] ↦ c
    | (stream, h) ∷ rest ↦ fail_pending_loop fuel status message (fail_one status message h c)
  ]

  unfoldable pub fail_pending : StatusCode → String → Client io → Client io
  unfolding fail_pending_loop
  fail_pending status message c = fail_pending_loop (length c.pending) status message c

  abbrev pub is_protocol : StatusCategory → Bool
  is_protocol StatusCategory.protocol = true
  is_protocol _ = false

  unfoldable pub fail_connection : StatusCode → String → Client io → Client io
  unfolding fail_pending status_category notify_diagnostics
  fail_connection status message c =
      let reported =
        if is_protocol (status_category status)
        then record c {
          diagnostics =
              notify_diagnostics
                (record {
                  type = protocol_error;
                  stream = 0;
                  status = status;
                  bytes = 0;
                  inbound = true;
                  message = message;
                })
                c.diagnostics;
        }
        else c in
      record (fail_pending status message reported) { transport_open = false }

  unfoldable pub begin_shutdown : Client io → Client io
  unfolding is_connection connection_transition
  begin_shutdown c =
      let opened =
        if is_connection c.lifecycle ConnectionState.created
        then (connection_transition (connection_transition c.lifecycle connecting).0
            ConnectionState.active).0
        else c.lifecycle in
      record c {
        lifecycle =
            if is_connection opened ConnectionState.active
            then (connection_transition opened draining).0
            else opened;
      }

  unfoldable pub notify_closed : Client io → Client io
  unfolding notify_diagnostics
  notify_closed c = if c.closed_notified then c else record c {
    closed_notified = true;
    diagnostics =
        notify_diagnostics
          (record {
            type = DiagnosticsEventType.connection_closed;
            stream = 0;
            status = connection_closed;
            bytes = 0;
            inbound = false;
            message = "connection closed";
          })
          c.diagnostics;
  }
