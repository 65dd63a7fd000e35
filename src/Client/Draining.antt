-- ===== src/Client/Draining.antt =====
-- client_connection.hpp: the requests of a connection that closes.
use rillnet.Base.{
  ℕ, ◌≡◌, refl, ◌==◌, Bool, true, false, not, ◌&&◌, ◌||◌, ◌∷◌, length, if◌then◌else◌, Option, none,
  some, List, [], String, arith, Bool-cases, Option-cases, inl, inr,
}
use rillnet.Base.Keys.{lookup, contains}
use rillnet.Status.{
  StatusCode, same_status, status_category, malformed_frame, unknown_stream, connection_closed,
}
use rillnet.Lifecycle.{connecting, accepting, closed, is_connection, connection_transition}
use rillnet.Frame.{Frame, response}
use rillnet.Diagnostics.{DiagnosticsEvent, DiagnosticsEventType, notify_diagnostics}
use rillnet.Registry.{is_some}
use rillnet.Message.{Outcome}
use rillnet.Channel.{Asio}
use rillnet.WriteQueue.{close}
use rillnet.Client.{
  PendingRequest, Client, is_protocol, fail_connection, fail_pending, begin_shutdown, notify_closed,
  new_client,
}
use rillnet.Client.Requests.{refused, is_shutting_down, start_request, received, async_wait}
use rillnet.Client.Reading.{dispatch_found, dispatch, read_finished, shutdown_finished}
use rillnet.Client.Failing.{Settled, fail_pending_lem, fail_pending-closed_notified}
use rillnet.Client.Objects.{Inv}
use rillnet.Client.Reachable.{Call, apply_all, apply_all-new_client-Inv}

-- The event of a connection that has closed.
abbrev pub closing : DiagnosticsEvent
closing = record {
  type = DiagnosticsEventType.connection_closed;
  stream = 0;
  status = connection_closed;
  bytes = 0;
  inbound = false;
  message = "connection closed";
}

-- What the requests fail with.
abbrev pub read_error : String
read_error = "connection closed while awaiting a response"

abbrev drain_error : String
drain_error = "connection drain period expired"

module _ (io : Asio) where
  -- From `c` to `c'`: no request is pending, and each one that was has ended, with its channel
  -- closed.
  abbrev pub Drained : Client io → Client io → Type 0
  Drained c c' =
      (c'.pending ≡ [])
      × ((stream h : ℕ) → lookup stream c.pending ≡ some h → Settled io (lookup h c'.heap))

  -- `c'` has the closing of `c` reported: to what the hook, where there is one, had been told by
  -- `failed`, the event is added, unless `c` had reported it before; and the mark is set.
  abbrev pub ClosingReported : Client io → Client io → Client io → Type 0
  ClosingReported c failed c' =
      (c'.diagnostics.seen ≡ (
        if failed.diagnostics.hooked && not c.closed_notified
        then closing ∷ failed.diagnostics.seen
        else failed.diagnostics.seen))
      × (c'.closed_notified ≡ true)

  notify_closed-ClosingReported :
      (c failed : Client io)
      → failed.closed_notified ≡ c.closed_notified
      → ClosingReported c failed (notify_closed io failed)
  unfolding notify_closed notify_diagnostics
  notify_closed-ClosingReported c failed same = ground arith

  notify_closed_same :
      (c : Client io)
      → ((notify_closed io c).pending ≡ c.pending)
        × ((notify_closed io c).heap ≡ c.heap)
        × ((notify_closed io c).transport_open ≡ c.transport_open)
        × ((notify_closed io c).queue ≡ c.queue)
  unfolding notify_closed
  notify_closed_same c = ground arith

  -- Where the invariant holds, the end of the read loop leaves no request pending, ends each that
  -- was and closes its channel, closes the write queue, and has the closing reported: where a hook is
  -- installed and the closing had not been reported before, the event is the last that the hook is
  -- told, after what it is told as the requests fail, and otherwise it is told nothing more.
  pub read_finished_lem :
      (c : Client io)
      → Inv io c
      → let c' = read_finished io c in
        Drained c c'
        × (c'.queue.closed ≡ true)
        × ClosingReported c (fail_pending io connection_closed read_error c) c'
  unfolding read_finished notify_closed close
  read_finished_lem c v =
      let failed = fail_pending io connection_closed read_error c in
      let (empty, settled) =
        fail_pending_lem io connection_closed read_error c (unfold same_status in refl) v.0 in
      (
        (ground (arith, empty), (λ s h known. ground (arith, settled s h known))),
        ground arith,
        notify_closed-ClosingReported c
            (record failed {
              queue = close io failed.queue;
              lifecycle = (connection_transition failed.lifecycle closed).0;
            })
            (fail_pending-closed_notified io connection_closed read_error c),
      )

  -- The client that shutdown closes, whose requests have failed if any is pending.
  unfoldable pub drained : Client io → Client io
  drained c = if length c.pending == 0 then c else fail_pending io connection_closed drain_error c

  drained-closed_notified : (c : Client io) → (drained c).closed_notified ≡ c.closed_notified
  unfolding drained
  drained-closed_notified c =
      ground (arith, fail_pending-closed_notified io connection_closed drain_error c)

  -- Where the invariant holds, the end of shutdown, whether or not the requests have drained, leaves
  -- no request pending, ends each that was and closes its channel, closes the transport, and has the
  -- closing reported: where a hook is installed and the closing had not been reported before, the
  -- event is the last that the hook is told, after what it is told as the requests fail, and
  -- otherwise it is told nothing more.
  pub shutdown_finished_lem :
      (c : Client io)
      → Inv io c
      → let c' = shutdown_finished io c in
        Drained c c' × (c'.transport_open ≡ false) × ClosingReported c (drained c) c'
  unfolding shutdown_finished notify_closed drained
  shutdown_finished_lem c v =
      let (empty, settled) =
        fail_pending_lem io connection_closed drain_error c (unfold same_status in refl) v.0 in
      (
        (ground (arith, empty), (λ s h known. ground (arith, settled s h known))),
        ground arith,
        notify_closed-ClosingReported c
            (record (drained c) {
              transport_open = false;
              lifecycle = (connection_transition (drained c).lifecycle closed).0;
            })
            (drained-closed_notified c),
      )

  pub fail_connection_lem :
      (status : StatusCode) (message : String) (c : Client io)
      → same_status status StatusCode.ok ≡ false
      → Inv io c
      → let c' = fail_connection io status message c in Drained c c' × (c'.transport_open ≡ false)
  unfolding fail_connection
  fail_connection_lem status message c e v =
      elim (Bool-cases (is_protocol io (status_category status))) [
        | inl reports ↦
            rw (reports, fail_connection) (fail_pending_lem io status message _ e v.0, refl)
        | inr silent ↦
            rw (silent, fail_connection) (fail_pending_lem io status message c e v.0, refl)
      ]

  -- A frame that a client must not be sent: not a response, or for a stream on which no request is
  -- pending, or on one that has had its terminal frame.
  unfoldable pub is_violation : Frame → Client io → Bool
  is_violation frame c =
      not (frame.header.type == response)
      || (not (is_some (lookup frame.header.stream c.pending))
          || contains frame.header.stream c.terminal_streams)

  -- Where the invariant holds, a frame that is not a response, or is for a stream with no pending
  -- request, or for a stream that has had its terminal frame, brings the connection down: the
  -- transport is closed, no request is pending, and each that was has ended.
  pub dispatch_violation :
      (frame : Frame) (c : Client io)
      → is_violation frame c ≡ true
      → Inv io c
      → let c' = dispatch io frame c in Drained c c' × (c'.transport_open ≡ false)
  unfolding dispatch is_violation
  dispatch_violation frame c e v = elim (Bool-cases (frame.header.type == response)) [
    | inr other ↦
        rw (other, dispatch)
          (fail_connection_lem malformed_frame "client received a non-response frame" c
            (unfold same_status in refl) v)
    | inl fine ↦ elim (Option-cases (lookup frame.header.stream c.pending)) [
      | inl gone ↦
          rw (fine, dispatch)
            (rw gone (
              fail_connection_lem unknown_stream "response received for an unknown stream" c
                (unfold same_status in refl) v))
      | inr (h, known) ↦
          let again : contains frame.header.stream c.terminal_streams ≡ true = ground arith in
          rw (fine, dispatch)
            (rw known (
              rw (again, dispatch_found)
                (fail_connection_lem malformed_frame "duplicate terminal frame" c
                  (unfold same_status in refl) v)))
    ]
  ]

  module _ {T : Type 0} (decode : Frame → Outcome T) where
    received_answers :
        (h : ℕ) (p : PendingRequest io) (o : Option (Frame × io.frames.Channel)) (c : Client io)
        → io.frames.is_open p.channel ≡ false
        → is_some (received io decode h p o c).1 ≡ true
    received_answers h p none c e = rw e
    received_answers h p (some x) c e = refl

    async_wait_answers :
        (h : ℕ) (o : Option (PendingRequest io)) (c : Client io)
        → lookup h c.heap ≡ o
        → Settled io o
        → is_some (async_wait io decode (some h) c).1 ≡ true
    unfolding async_wait
    async_wait_answers h none c e settled = elim settled [ ]
    async_wait_answers h (some p) c e settled =
        rw (e, async_wait) (received_answers h p (io.frames.receive p.channel) c settled.1)

    -- After any calls on a new client, whichever request is pending, once the read loop has ended a
    -- wait for it returns: it does not go on waiting.
    pub read_finished_answers :
        (max_frames max_bytes maximum_stream_id max_payload_size : ℕ) (hooked : Bool)
        (calls : List Call) (stream h : ℕ)
        → let c =
            apply_all io calls
              (new_client io max_frames max_bytes maximum_stream_id max_payload_size hooked) in
          lookup stream c.pending ≡ some h
          → is_some (async_wait io decode (some h) (read_finished io c)).1 ≡ true
    read_finished_answers max_frames max_bytes maximum_stream_id max_payload_size hooked calls
          stream h known =
        let c =
          apply_all io calls
            (new_client io max_frames max_bytes maximum_stream_id max_payload_size hooked) in
        let v =
          apply_all-new_client-Inv io max_frames max_bytes maximum_stream_id max_payload_size hooked
            calls in
        async_wait_answers h (lookup h (read_finished io c).heap) (read_finished io c) refl
          ((read_finished_lem c v).0.1 stream h known)

  -- Once shutdown has begun on a client that is not in the middle of connecting, a request is refused
  -- with connection_closed, and nothing of the client changes.
  pub start_request-begin_shutdown :
      (encode : ℕ → Outcome Frame) (c : Client io)
      → is_connection c.lifecycle connecting ≡ false
      → is_connection c.lifecycle accepting ≡ false
      → (start_request io encode (begin_shutdown io c)).0 ≡ begin_shutdown io c
        × (start_request io encode (begin_shutdown io c)).1
          ≡ refused connection_closed "connection is shutting down"
  unfolding start_request begin_shutdown is_shutting_down is_connection connection_transition
  start_request-begin_shutdown encode c e f = ground arith
