-- ===== src/Tests/Connection.antt =====
-- Runs of lifecycles, operations, the stream id allocator and the write queue.
use rillnet.Base.{ℕ, ◌+◌, ◌<◌, ◌≡◌, refl, ◌⊎◌, true, none, some, List, [], ◌∷◌, arith}
use rillnet.Operation
use rillnet.Lifecycle.{ConnectionState, connecting, draining}
use rillnet.Lifecycle.Order.{stage, connection_states, connection_states_forward}
use rillnet.Operation.{Operation, OperationResult, new_operation, is_terminal, failure_result}
use rillnet.Operation.Calls
use rillnet.Operation.Calls.{activates, sets_handler, completes, fails, cancels, times_out}
use rillnet.Operation.Once.{Settles, completes_once, ended_stays}
use rillnet.Stream.{StreamInitiator, StreamIdAllocator, new_allocator, allocate}
use rillnet.Stream.Invariant
use rillnet.Stream.Invariant.{allocates, releases, Grants, allocate_lem, apply_all-new-Inv}
use rillnet.Channel.Buffer.{buffers}
use rillnet.WriteQueue.{WriteQueue, new_queue, try_enqueue, frame_bytes, take_frame}
use rillnet.WriteQueue.Bytes
use rillnet.WriteQueue.Bytes.{new_queue-Inv, try_enqueue-Inv, take_frame-Inv}
use rillnet.WriteQueue.Steps.{enqueues, takes, writes, closes, steps, Ordered}
use rillnet.WriteQueue.Order.{start, steps-start-Ordered}
use rillnet.Tests.Data.{two_bytes_frame, empty_frame}

connection_states_forward_example :
    (connection_states connecting (ConnectionState.active ∷ draining ∷ connecting ∷ [])
      ≡ connecting)
    ⊎ (stage connecting
        < stage
            (connection_states connecting (ConnectionState.active ∷ draining ∷ connecting ∷ [])))
connection_states_forward_example =
    connection_states_forward connecting (ConnectionState.active ∷ draining ∷ connecting ∷ [])

-- A completion handler that lists the results it is given.
abbrev record_result : OperationResult → List OperationResult → List OperationResult
record_result r rs = r ∷ rs

-- The handler is taken out and put in again before the operation ends, and then replaced.
abbrev operation_calls : List (Calls.Call (List OperationResult))
operation_calls =
    sets_handler none
    ∷ activates
    ∷ sets_handler (some record_result)
    ∷ times_out "late"
    ∷ sets_handler none
    ∷ completes ""
    ∷ []

completes_once_example :
    let o : Operation (List OperationResult) = new_operation 3 (some record_result) in
    Settles o [] operation_calls (Calls.apply_all operation_calls o [])
completes_once_example = completes_once 3 (some record_result) [] operation_calls

abbrev ended : Operation (List OperationResult)
ended =
    (Calls.apply_all (activates ∷ times_out "late" ∷ []) (new_operation 3 (some record_result))
      []).0

ended_terminal : is_terminal ended ≡ true
unfolding Calls.apply_all is_terminal new_operation Operation.timeout Operation.activate
ended_terminal = refl

ended_stays_example :
    let (o', s') = Calls.apply_all (completes "" ∷ cancels "" ∷ []) ended [] in
    (o'.state ≡ ended.state)
    × (o'.result ≡ ended.result)
    × (o'.deadline ≡ ended.deadline)
    × (o'.cancellation_requested ≡ ended.cancellation_requested)
    × (o'.timed_out ≡ ended.timed_out)
    × (s' ≡ [])
ended_stays_example = ended_stays (completes "" ∷ cancels "" ∷ []) ended [] ended_terminal

-- Two ids out, the first of them back.
abbrev used : StreamIdAllocator
used =
    Invariant.apply_all (allocates ∷ allocates ∷ releases 1 ∷ [])
      (new_allocator StreamInitiator.client 9)

used-Inv : Invariant.Inv used
used-Inv =
    apply_all-new-Inv StreamInitiator.client 9 (allocates ∷ allocates ∷ releases 1 ∷ [])
      (omega arith)

allocate_lem_example :
    Grants used (allocate used).0 (allocate used).1.status (allocate used).1.stream
allocate_lem_example = allocate_lem used used-Inv

apply_all-new-Inv_example : Invariant.Inv (
    Invariant.apply_all
      (allocates ∷ releases 7 ∷ releases 1 ∷ allocates ∷ [])
      (new_allocator StreamInitiator.server 9))
apply_all-new-Inv_example =
    apply_all-new-Inv StreamInitiator.server 9
      (allocates ∷ releases 7 ∷ releases 1 ∷ allocates ∷ []) (omega arith)

steps-start-Ordered_example : Ordered buffers {S = ℕ} (
    steps buffers none
      (enqueues two_bytes_frame
        ∷ enqueues empty_frame
        ∷ takes
        ∷ closes
        ∷ writes none
        ∷ takes
        ∷ writes (some "reset")
        ∷ [])
      (start buffers none 2 100 0))
steps-start-Ordered_example =
    steps-start-Ordered buffers none 2 100 0
      (enqueues two_bytes_frame
        ∷ enqueues empty_frame
        ∷ takes
        ∷ closes
        ∷ writes none
        ∷ takes
        ∷ writes (some "reset")
        ∷ [])
      (omega arith)

-- A queue that holds one frame.
abbrev loaded : WriteQueue buffers
loaded = (try_enqueue buffers two_bytes_frame (new_queue buffers 2 100)).0

abbrev emptied : buffers.frames.Channel
emptied = buffers.frames.make 2

loaded_first : buffers.frames.receive loaded.channel ≡ some (two_bytes_frame, emptied)
unfolding try_enqueue new_queue frame_bytes
loaded_first = refl

take_frame-Inv_example :
    Bytes.Inv buffers (take_frame buffers two_bytes_frame emptied loaded)
    × (loaded.queued_bytes
        ≡ frame_bytes two_bytes_frame
          + (take_frame buffers two_bytes_frame emptied loaded).queued_bytes)
take_frame-Inv_example = take_frame-Inv buffers two_bytes_frame emptied loaded loaded_first (
    try_enqueue-Inv buffers two_bytes_frame (new_queue buffers 2 100)
      (new_queue-Inv buffers 2 100 (omega arith)))
