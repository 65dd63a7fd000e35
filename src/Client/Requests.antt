-- ===== src/Client/Requests.antt =====
-- client_connection.hpp: start_request, request, the RequestOperation handle and deadlines. The
-- frame of a request, which encode_message makes for the stream, is a function of the stream here;
-- `request_frame` is the one of the sources.
use rillnet.Base.{
  ℕ, ◌+◌, suc, Bool, true, false, not, ◌||◌, Option, none, some, List, String, if◌then◌else◌,
}
use rillnet.Base.Keys.{lookup, assign}
use rillnet.Status.{StatusCode, connection_closed, operation_error}
use rillnet.Lifecycle.{ConnectionState, draining, closing, closed, is_connection}
use rillnet.Diagnostics.{notify_diagnostics, plain_event, request_started}
use rillnet.Operation
use rillnet.Operation.{Operation, OperationResult}
use rillnet.Stream.{StreamIdAllocator, StreamIdAllocation, allocate}
use rillnet.Frame.{Frame, current_protocol_version, default_max_payload_size, request}
use rillnet.Frame.Flags
use rillnet.Registry.{MessageRegistry}
use rillnet.Message.{CodecApi, Outcome, encode_message, failure, is_ok}
use rillnet.Channel.{Asio}
use rillnet.WriteQueue.{WriteQueue, write_ok, Enqueued, returned, waiting, enqueue, enqueue_woken}
use rillnet.Client.{
  PendingRequest, Client, new_pending, run_on, close_channel, cleanup_pending, cancel_pending,
  discard_pending, timeout_pending, store,
}

-- encode_message(registry_, value, stream), with its default arguments
unfoldable pub request_frame :
    {T : Type 0} → CodecApi T → ℕ → MessageRegistry → T → ℕ → Outcome Frame
request_frame codec type registry value stream =
    encode_message codec type registry value stream request Flags.none default_max_payload_size
      current_protocol_version

-- What start_request has come to: a StartRequestResult, or the wait for room in the write queue.
pub data Started : Type 0 where
  started : ℕ → Started
  refused : StatusCode → String → Started
  enqueueing : ℕ → Frame → Started

-- `state() == draining || state() == closing || state() == closed`
unfoldable pub is_shutting_down : ConnectionState → Bool
unfolding is_connection
is_shutting_down state =
    is_connection state draining || (is_connection state closing || is_connection state closed)

module _ (io : Asio) where
  -- Behind the co_await on the write queue.
  unfoldable pub request_enqueued :
      ℕ → Frame → WriteQueue io × Enqueued → Client io → Client io × Started
  unfolding run_on close_channel cleanup_pending write_ok
  request_enqueued h frame (queue', waiting) c = (record c { queue = queue' }, enqueueing h frame)
  request_enqueued h frame (queue', returned sent) c =
      let c' = record c { queue = queue' } in
      if write_ok sent then (c', started h) else (
        cleanup_pending io h true (
            close_channel io h (elim (lookup h c'.heap) [
              | none ↦ c'
              | some p ↦ (run_on io (Operation.fail sent.status sent.message) h p c').0
            ])),
        refused sent.status sent.message,
      )

  -- pending_.emplace: an entry that is there stays.
  abbrev pub emplace : ℕ → ℕ → Option ℕ → List (ℕ × ℕ) → List (ℕ × ℕ)
  emplace stream h none pending = assign stream h pending
  emplace stream h (some other) pending = pending

  -- The request is made known and its frame offered to the write queue.
  unfoldable pub register_request : ℕ → Frame → Client io → Client io × Started
  unfolding new_pending request_enqueued notify_diagnostics enqueue
  register_request stream frame c =
      let h = c.next_handle in
      let registered = record c {
        heap = assign h (new_pending io stream) c.heap;
        next_handle = suc h;
        pending = emplace stream h (lookup stream c.pending) c.pending;
        diagnostics = notify_diagnostics (plain_event request_started stream) c.diagnostics;
      } in
      request_enqueued h frame (enqueue io frame registered.queue) registered

  -- With the stream that was allocated, and what encoding for it gave. A failure here does not
  -- release the stream.
  abbrev pub encoded_request : ℕ → Outcome Frame → Client io → Client io × Started
  encoded_request stream encoded c =
      if not (is_ok encoded)
      then (c, refused encoded.status encoded.message)
      else elim encoded.value [
        | none ↦ (c, refused encoded.status encoded.message)
        | some frame ↦ register_request stream frame c
      ]

  abbrev pub allocated_request :
      (ℕ → Outcome Frame) → StreamIdAllocator × StreamIdAllocation → Client io → Client io × Started
  allocated_request encode (stream_ids', allocation) c = elim allocation.stream [
    | none ↦ (
      record c { stream_ids = stream_ids' },
      refused allocation.status "stream identifiers exhausted",
    )
    | some stream ↦ encoded_request stream (encode stream) (record c { stream_ids = stream_ids' })
  ]

  unfoldable pub start_request : (ℕ → Outcome Frame) → Client io → Client io × Started
  unfolding is_shutting_down register_request allocate is_ok
  start_request encode c =
      if is_shutting_down c.lifecycle
      then (c, refused connection_closed "connection is shutting down")
      else allocated_request encode (allocate c.stream_ids) c

  -- A waiting start_request is woken by the space channel, or by its error.
  unfoldable pub resume_start_request : Option String → ℕ → Frame → Client io → Client io × Started
  unfolding request_enqueued enqueue_woken
  resume_start_request error h frame c =
      request_enqueued h frame (enqueue_woken io error frame c.queue) c

  -- What the overload with a deadline adds where the request was started.
  unfoldable pub arm_deadline : ℕ → ℕ → Client io → Client io
  unfolding Operation.set_deadline
  arm_deadline deadline h c = elim (lookup h c.heap) [
    | none ↦ c
    | some p ↦
        store io h
          (record p {
            operation = (Operation.set_deadline deadline p.operation).0;
            timer = some deadline;
          })
          c
  ]

  -- The overload with a deadline, and the one with a time-out, which reads the clock.
  abbrev pub deadline_started : ℕ → Client io × Started → Client io × Started
  deadline_started deadline (c, started h) = (arm_deadline deadline h c, started h)
  deadline_started deadline (c, refused status message) = (c, refused status message)
  deadline_started deadline (c, enqueueing h frame) = (c, enqueueing h frame)

  unfoldable pub start_request_by : ℕ → (ℕ → Outcome Frame) → Client io → Client io × Started
  unfolding start_request arm_deadline
  start_request_by deadline encode c = deadline_started deadline (start_request encode c)

  unfoldable pub start_request_within :
      ℕ → ℕ → (ℕ → Outcome Frame) → Client io → Client io × Started
  unfolding start_request_by
  start_request_within now timeout encode c = start_request_by (now + timeout) encode c

  -- The timer's callback, which does nothing if the wait was cancelled.
  unfoldable pub timer_fires : ℕ → Client io → Client io
  unfolding timeout_pending
  timer_fires h c = elim (lookup h c.heap) [
    | none ↦ c
    | some p ↦ elim p.timer [ none ↦ c | some deadline ↦ timeout_pending io h c ]
  ]

  -- RequestOperation: a connection and a request, or empty. Its destructor and the assignment of
  -- another handle over it discard the request.
  unfoldable pub drop_handle : Option ℕ → Client io → Client io
  unfolding discard_pending
  drop_handle none c = c
  drop_handle (some h) c = discard_pending io h c

  unfoldable pub cancel_handle : Option ℕ → String → Client io → Client io × Bool
  unfolding cancel_pending
  cancel_handle none message c = (c, false)
  cancel_handle (some h) message c = cancel_pending io h message c

  unfoldable pub handle_stream : Option ℕ → Client io → ℕ
  handle_stream none c = 0
  handle_stream (some h) c = elim (lookup h c.heap) [ none ↦ 0 | some p ↦ p.operation.stream ]

  module _ {T : Type 0} (decode : Frame → Outcome T) where
    abbrev pub failed_wait : Option OperationResult → Outcome T
    failed_wait none = failure connection_closed "connection closed while awaiting a response"
    failed_wait (some result) = failure result.status result.message

    -- The receive of async_wait: a frame, the error of a closed channel, or none yet. A request
    -- that is done is cleaned up and its stream released.
    abbrev pub received :
        ℕ
        → PendingRequest io
        → Option (Frame × io.frames.Channel)
        → Client io
        → Client io × Option (Outcome T)
    received h p none c =
        if io.frames.is_open p.channel
        then (c, none)
        else (cleanup_pending io h true c, some (failed_wait p.operation.result))
    received h p (some (frame, channel')) c = (
      cleanup_pending io h true (store io h (record p { channel = channel' }) c),
      some (decode frame),
    )

    unfoldable pub async_wait : Option ℕ → Client io → Client io × Option (Outcome T)
    unfolding cleanup_pending
    async_wait none c = (c, some (failure operation_error "operation handle is empty"))
    async_wait (some h) c = elim (lookup h c.heap) [
      | none ↦ (c, some (failure operation_error "operation handle is empty"))
      | some p ↦ received h p (io.frames.receive p.channel) c
    ]
