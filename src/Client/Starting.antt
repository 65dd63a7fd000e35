-- ===== src/Client/Starting.antt =====
-- client_connection.hpp: the invariant through the starting of a request and its handle.
use rillnet.Base.{
  ℕ, suc, ◌≡◌, refl, Bool, true, false, not, Option, none, some, String, arith, Bool-cases,
  Option-cases, inl, inr,
}
use rillnet.Base.Keys.{lookup, assign, lookup-assign}
use rillnet.Status.{connection_closed}
use rillnet.Lifecycle.{OperationState, is_operation}
use rillnet.Diagnostics.{notify_diagnostics, plain_event, request_started}
use rillnet.Operation
use rillnet.Stream.{allocate}
use rillnet.Frame.{Frame}
use rillnet.Message.{Outcome, is_ok}
use rillnet.Channel.{Asio}
use rillnet.WriteQueue.{WriteQueue, Enqueued, returned, waiting, enqueue, write_ok}
use rillnet.Client.{PendingRequest, Client, run_on, close_channel, store, new_pending}
use rillnet.Client.Requests.{
  Started, request_enqueued, emplace, register_request, encoded_request, allocated_request,
  is_shutting_down, start_request, arm_deadline, timer_fires, drop_handle, cancel_handle, received,
  async_wait,
}
use rillnet.WriteQueue.Bytes
use rillnet.WriteQueue.Bytes.{enqueue-Inv}
use rillnet.Client.Invariant.{
  Holds, Granted, queue-Extra, register-Extra, allocate-Extra, allocate-Granted,
}
use rillnet.Client.Objects.{
  fail-Tame, update-Inv, run_on-Inv, found-Inv, close_channel-Inv, cleanup_pending-Inv,
  timeout_pending-Inv, cancel_pending-Inv, discard_pending-Inv,
}
use rillnet.Client.Keeping.{opt-Inv, pair_if-Inv, pair_opt-Inv}

module _ (io : Asio) (full : Bool) where
  -- Starting a request.
  pub request_enqueued-Inv :
      (h : ℕ) (frame : Frame) (r : WriteQueue io × Enqueued) (c : Client io)
      → (Bytes.Inv io c.queue → Bytes.Inv io r.0)
      → Holds io full c
      → Holds io full (request_enqueued io h frame r c).0
  unfolding request_enqueued
  request_enqueued-Inv h frame (queue', waiting) c keeps (linked, fresh, extra) =
      (linked, fresh, queue-Extra io full c.heap c.pending c.stream_ids c.queue queue' keeps extra)
  request_enqueued-Inv h frame (queue', returned sent) c keeps (linked, fresh, extra) =
      let v : Holds io full (record c { queue = queue' }) = (
        linked,
        fresh,
        queue-Extra io full c.heap c.pending c.stream_ids c.queue queue' keeps extra,
      ) in
      let c' : Client io = record c { queue = queue' } in
      let failed : Client io = elim (lookup h c'.heap) [
        | none ↦ c'
        | some p ↦ (run_on io (Operation.fail sent.status sent.message) h p c').0
      ] in
      let w : Holds io full failed =
        found-Inv io full (lookup h c'.heap) h c'
          (λ p. (run_on io (Operation.fail sent.status sent.message) h p c').0) refl v
          (λ p e.
            run_on-Inv io full (Operation.fail sent.status sent.message) h p c'
              (fail-Tame sent.status sent.message) e v) in
      elim (Bool-cases (write_ok sent)) [
        | inl fine ↦ rw (fine, request_enqueued) v
        | inr bad ↦
            rw (bad, request_enqueued)
              (cleanup_pending-Inv io full h true (close_channel io h failed)
                (close_channel-Inv io full h failed w))
      ]

  pub register_request-Inv :
      (stream : ℕ) (frame : Frame) (c : Client io)
      → Granted io full stream c.heap c.stream_ids
      → Holds io full c
      → Holds io full (register_request io stream frame c).0
  unfolding register_request
  register_request-Inv stream frame c grant (linked, fresh, extra) =
      let p = new_pending io stream in
      let same : p.operation.stream ≡ stream = unfold new_pending in refl in
      let live : p.removed ≡ false = unfold new_pending in refl in
      let begun : is_operation p.operation.state OperationState.created ≡ false =
        unfold new_pending Operation.activate is_operation in refl in
      let unused = fresh c.next_handle (omega arith) in
      request_enqueued-Inv c.next_handle frame (enqueue io frame c.queue)
        (record c {
          heap = assign c.next_handle (new_pending io stream) c.heap;
          next_handle = suc c.next_handle;
          pending = emplace io stream c.next_handle (lookup stream c.pending) c.pending;
          diagnostics = notify_diagnostics (plain_event request_started stream) c.diagnostics;
        })
        (enqueue-Inv io frame c.queue)
        (
          (λ s k known. ground (
            arith,
            linked s k,
            lookup-assign k c.next_handle p c.heap,
            lookup-assign s stream c.next_handle c.pending,
          )),
          (λ k le. ground (arith, fresh k, lookup-assign k c.next_handle p c.heap)),
          register-Extra io full c.next_handle stream p c.heap c.pending
              (emplace io stream c.next_handle (lookup stream c.pending) c.pending) c.stream_ids
              c.queue same (unfold new_pending in refl) unused
              (λ s known. ground (arith, linked s c.next_handle, unused))
              (λ s k known. ground (arith, lookup-assign s stream c.next_handle c.pending)) grant
              extra,
        )

  pub encoded_request-Inv :
      (stream : ℕ) (encoded : Outcome Frame) (c : Client io)
      → Granted io full stream c.heap c.stream_ids
      → Holds io full c
      → Holds io full (encoded_request io stream encoded c).0
  encoded_request-Inv stream encoded c grant v =
      let refusal : Client io × Started = (c, Started.refused encoded.status encoded.message) in
      let made : Client io × Started = elim encoded.value [
        | none ↦ refusal
        | some frame ↦ register_request io stream frame c
      ] in
      pair_if-Inv io full (not (is_ok encoded)) refusal made v (
        pair_opt-Inv io full encoded.value refusal (λ frame. register_request io stream frame c) v
          (λ frame e. register_request-Inv stream frame c grant v))

  pub allocated_request-Inv :
      (encode : ℕ → Outcome Frame) (c : Client io)
      → Holds io full c
      → Holds io full (allocated_request io encode (allocate c.stream_ids) c).0
  allocated_request-Inv encode c (linked, fresh, extra) =
      let (stream_ids', allocation) = allocate c.stream_ids in
      let c' : Client io = record c { stream_ids = stream_ids' } in
      let v : Holds io full c' =
        (linked, fresh, allocate-Extra io full c.heap c.pending c.stream_ids c.queue extra) in
      pair_opt-Inv io full allocation.stream
        (c', Started.refused allocation.status "stream identifiers exhausted")
        (λ stream. encoded_request io stream (encode stream) c') v
        (λ stream e.
          encoded_request-Inv stream (encode stream) c'
            (allocate-Granted io full stream c.heap c.pending c.stream_ids c.queue e extra) v)

  pub start_request-Inv :
      (encode : ℕ → Outcome Frame) (c : Client io)
      → Holds io full c
      → Holds io full (start_request io encode c).0
  unfolding start_request
  start_request-Inv encode c v =
      pair_if-Inv io full (is_shutting_down c.lifecycle)
        (c, Started.refused connection_closed "connection is shutting down")
        (allocated_request io encode (allocate c.stream_ids) c) v (allocated_request-Inv encode c v)

  -- Handles and deadlines.
  pub arm_deadline-Inv :
      (deadline h : ℕ) (c : Client io)
      → Holds io full c
      → Holds io full (arm_deadline io deadline h c)
  unfolding arm_deadline Operation.set_deadline is_operation
  arm_deadline-Inv deadline h c v = elim (Option-cases (lookup h c.heap)) [
    | inl e ↦ rw (e, arm_deadline) v
    | inr (p, e) ↦
        rw (e, arm_deadline)
          (update-Inv io full h p
            (record p {
              operation = (Operation.set_deadline deadline p.operation).0;
              timer = some deadline;
            })
            c e (ground arith) refl refl (ground arith) v)
  ]

  pub timer_fires-Inv :
      (h : ℕ) (c : Client io) → Holds io full c → Holds io full (timer_fires io h c)
  unfolding timer_fires
  timer_fires-Inv h c v = opt-Inv io full (lookup h c.heap) c _ v (λ p.
      opt-Inv io full p.timer c (λ deadline. _) v (λ deadline. timeout_pending-Inv io full h c v))

  pub drop_handle-Inv :
      (handle : Option ℕ) (c : Client io)
      → Holds io full c
      → Holds io full (drop_handle io handle c)
  unfolding drop_handle
  drop_handle-Inv none c v = v
  drop_handle-Inv (some h) c v = discard_pending-Inv io full h c v

  pub cancel_handle-Inv :
      (handle : Option ℕ) (message : String) (c : Client io)
      → Holds io full c
      → Holds io full (cancel_handle io handle message c).0
  unfolding cancel_handle
  cancel_handle-Inv none message c v = v
  cancel_handle-Inv (some h) message c v = cancel_pending-Inv io full h message c v

  module _ {T : Type 0} (decode : Frame → Outcome T) where
    pub received-Inv :
        (h : ℕ) (p : PendingRequest io) (o : Option (Frame × io.frames.Channel)) (c : Client io)
        → lookup h c.heap ≡ some p
        → Holds io full c
        → Holds io full (received io decode h p o c).0
    received-Inv h p none c e v = elim (Bool-cases (io.frames.is_open p.channel)) [
      | inl waits ↦ rw waits v
      | inr ended ↦ rw ended (cleanup_pending-Inv io full h true c v)
    ]
    received-Inv h p (some (frame, channel')) c e v =
        cleanup_pending-Inv io full h true (store io h (record p { channel = channel' }) c)
          (update-Inv io full h p (record p { channel = channel' }) c e refl refl refl (λ x. x) v)

    pub async_wait-Inv :
        (handle : Option ℕ) (c : Client io)
        → Holds io full c
        → Holds io full (async_wait io decode handle c).0
    unfolding async_wait
    async_wait-Inv none c v = v
    async_wait-Inv (some h) c v = elim (Option-cases (lookup h c.heap)) [
      | inl e ↦ rw (e, async_wait) v
      | inr (p, e) ↦ rw (e, async_wait) (received-Inv h p (io.frames.receive p.channel) c e v)
    ]
