-- ===== src/Client/Errors.antt =====
-- client_connection.hpp and protocol_violation.hpp: the error frames of a server, at the client.
use rillnet.Base.{
  ℕ, ◌≡◌, refl, sym, ap, ◌∙◌, ◌==◌, subst, true, false, Option, none, some, String, arith,
  Bool-cases, Option-cases, inl, inr,
}
use rillnet.Base.Keys.{lookup, assign, without, contains, lookup-assign_same}
use rillnet.Status.{StatusCode, same_status, status_category, malformed_frame}
use rillnet.Lifecycle.{OperationState, is_operation}
use rillnet.Diagnostics.{DiagnosticsHooks}
use rillnet.Operation
use rillnet.Operation.{Operation, failure_result}
use rillnet.Frame.{Frame, response}
use rillnet.Frame.Flags
use rillnet.Frame.Flags.{has_flag}
use rillnet.Frame.Errors.{make_error_frame, decode_error_status}
use rillnet.Frame.Validation.{crosses, decode_error_status-make_error_frame}
use rillnet.Channel.{Asio}
use rillnet.Client.{
  PendingRequest, Client, run_on, close_channel, cleanup_pending, remove_pending, release_pending,
  mark_terminal, fail_connection,
}
use rillnet.Client.Reading.{dispatch_error, dispatch_found, dispatch}
use rillnet.Client.Failing.{Points, fail-stream, close_channel_lem}
use rillnet.Client.Objects.{Inv}
use rillnet.Client.Draining.{Drained, is_violation, dispatch_violation, fail_connection_lem}

module _ (io : Asio) where
  pub dispatch_pending :
      (frame : Frame) (h : ℕ) (c : Client io)
      → (frame.header.type == response) ≡ true
      → lookup frame.header.stream c.pending ≡ some h
      → dispatch io frame c ≡ dispatch_found io frame h c
  unfolding dispatch
  dispatch_pending frame h c e known = rw (e, dispatch) (rw known refl)

  dispatch_found_object :
      (frame : Frame) (h : ℕ) (p : PendingRequest io) (c : Client io)
      → contains frame.header.stream c.terminal_streams ≡ false
      → has_flag frame.header.flags Flags.cancel ≡ false
      → has_flag frame.header.flags Flags.error ≡ true
      → lookup h c.heap ≡ some p
      → dispatch_found io frame h c ≡ dispatch_error io frame h p c
  unfolding dispatch_found
  dispatch_found_object frame h p c first plain wrong e =
      rw (first, dispatch_found) (rw plain (rw e (rw wrong refl)))

  dispatch_error_malformed :
      (frame : Frame) (h : ℕ) (p : PendingRequest io) (c : Client io)
      → decode_error_status frame ≡ none
      → dispatch_error io frame h p c
        ≡ fail_connection io malformed_frame "malformed protocol error payload" c
  unfolding dispatch_error
  dispatch_error_malformed frame h p c e = rw (e, dispatch_error)

  error_frame_flags :
      (stream : ℕ) (status : StatusCode)
      → let f = make_error_frame stream status in
        ((f.header.type == response) ≡ true)
        × (has_flag f.header.flags Flags.cancel ≡ false)
        × (has_flag f.header.flags Flags.error ≡ true)
        × (f.header.stream ≡ stream)
  unfolding make_error_frame has_flag
  error_frame_flags stream status = (refl, refl, refl, refl)

  -- Where the invariant holds, an error frame whose status is `ok` or a transport failure, such as
  -- the connection_closed that a draining server sends, brings the client's whole connection down: the transport is
  -- closed, no request is pending, and each that was has ended.
  pub dispatch-make_error_frame_local :
      (stream : ℕ) (status : StatusCode) (c : Client io)
      → crosses (status_category status) ≡ false
      → Inv io c
      → let c' = dispatch io (make_error_frame stream status) c in
        Drained io c c' × (c'.transport_open ≡ false)
  dispatch-make_error_frame_local stream status c e v =
      let f = make_error_frame stream status in
      let (response_type, plain, wrong, same) = error_frame_flags stream status in
      elim (Bool-cases (is_violation io f c)) [
        | inl bad ↦ dispatch_violation io f c bad v
        | inr fine ↦ elim (Option-cases (lookup f.header.stream c.pending)) [
          | inl gone ↦ absurd (unfold is_violation in ground (arith, gone, response_type, fine))
          | inr (h, known) ↦ elim (Option-cases (lookup h c.heap)) [
            | inl lost ↦ absurd (ground (arith, v.0 f.header.stream h known, lost))
            | inr (p, found) ↦
                let first : contains f.header.stream c.terminal_streams ≡ false =
                  unfold is_violation in ground (arith, known, response_type, fine) in
                let undecoded : decode_error_status f ≡ none =
                  decode_error_status-make_error_frame stream status ∙ rw e refl in
                subst (λ c'. Drained io c c' × (c'.transport_open ≡ false))
                  (sym (
                    dispatch_pending f h c response_type known
                    ∙ dispatch_found_object f h p c first plain wrong found
                    ∙ dispatch_error_malformed f h p c undecoded))
                  (fail_connection_lem io malformed_frame "malformed protocol error payload" c
                    (unfold same_status in refl) v)
          ]
        ]
      ]

  pub cleanup_released :
      (h : ℕ) (p : PendingRequest io) (c : Client io)
      → lookup h c.heap ≡ some p
      → p.removed ≡ false
      → lookup p.operation.stream c.pending ≡ some h
      → let c' = cleanup_pending io h true c in
        (c'.pending ≡ without p.operation.stream c.pending)
        × (c'.transport_open ≡ c.transport_open)
        × (lookup h c'.heap
            ≡ some (record p { removed = true; timer = none; stream_released = true }))
  unfolding cleanup_pending remove_pending release_pending
  cleanup_released h p c e live known =
      let marked : PendingRequest io = record p { removed = true; timer = none } in
      let released : PendingRequest io = record marked { stream_released = true } in
      ground (
        arith,
        lookup-assign_same h marked c.heap,
        lookup-assign_same h released (assign h marked c.heap),
      )

  dispatch_error_decoded :
      (frame : Frame) (status : StatusCode) (h : ℕ) (p : PendingRequest io) (c : Client io)
      → decode_error_status frame ≡ some status
      → dispatch_error io frame h p c
        ≡ mark_terminal io frame (
            cleanup_pending io h true (
              close_channel io h
                (run_on io (Operation.fail status "peer rejected the operation") h p c).0))
  unfolding dispatch_error
  dispatch_error_decoded frame status h p c e = rw (e, dispatch_error)

  -- The request ended with this status, and its channel is closed.
  abbrev pub Rejected : StatusCode → Option (PendingRequest io) → Type 0
  Rejected status none = ⊥
  Rejected status (some p) =
      (p.operation.result ≡ some (failure_result status "peer rejected the operation"))
      × (io.frames.is_open p.channel ≡ false)

  pub mark_terminal_same :
      (frame : Frame) (c : Client io)
      → ((mark_terminal io frame c).pending ≡ c.pending)
        × ((mark_terminal io frame c).transport_open ≡ c.transport_open)
        × ((mark_terminal io frame c).heap ≡ c.heap)
  unfolding mark_terminal
  mark_terminal_same frame c = ground arith

  fail_active :
      (status : StatusCode) (message : String) (o : Operation DiagnosticsHooks)
      (d : DiagnosticsHooks)
      → same_status status StatusCode.ok ≡ false
      → is_operation o.state OperationState.active ≡ true
      → (Operation.fail status message o d).0.result ≡ some (failure_result status message)
  unfolding Operation.fail Operation.finish is_operation
  fail_active status message o d e a = ground arith

  crosses_failure :
      (status : StatusCode)
      → crosses (status_category status) ≡ true
      → same_status status StatusCode.ok ≡ false
  unfolding status_category same_status
  crosses_failure status e = ground arith

  -- An error frame of any other status, on a stream with an active pending request that has had no
  -- terminal frame, ends that request alone: it gets the status as its result and its channel is closed, it leaves
  -- the map, and the transport stays as it was.
  pub dispatch-make_error_frame_peer :
      (stream : ℕ) (status : StatusCode) (h : ℕ) (p : PendingRequest io) (c : Client io)
      → crosses (status_category status) ≡ true
      → Inv io c
      → lookup stream c.pending ≡ some h
      → lookup h c.heap ≡ some p
      → is_operation p.operation.state OperationState.active ≡ true
      → contains stream c.terminal_streams ≡ false
      → let c' = dispatch io (make_error_frame stream status) c in
        (c'.transport_open ≡ c.transport_open)
        × (c'.pending ≡ without stream c.pending)
        × Rejected status (lookup h c'.heap)
  dispatch-make_error_frame_peer stream status h p c e v known found active first =
      let f = make_error_frame stream status in
      let (response_type, plain, wrong, same) = error_frame_flags stream status in
      let m = Operation.fail status "peer rejected the operation" p.operation c.diagnostics in
      let c1 = (run_on io (Operation.fail status "peer rejected the operation") h p c).0 in
      let p1 : PendingRequest io = record p { operation = m.0 } in
      let p2 : PendingRequest io = record p1 { channel = io.frames.close p1.channel } in
      let points : Points io stream (some p) =
        subst (Points io stream) found (v.0 stream h known) in
      let stream_same =
        fail-stream status "peer rejected the operation" p.operation c.diagnostics in
      let found1 : lookup h c1.heap ≡ some p1 = unfold run_on in lookup-assign_same h p1 c.heap in
      let closed = close_channel_lem io h p1 c1 found1 in
      let found2 : lookup h (close_channel io h c1).heap ≡ some p2 =
        rw closed (lookup-assign_same h p2 c1.heap) in
      let known2 : lookup p2.operation.stream (close_channel io h c1).pending ≡ some h =
        rw (closed, stream_same, points.0) (unfold run_on in known) in
      let (map, transport, object) =
        cleanup_released h p2 (close_channel io h c1) found2 points.1 known2 in
      let c2 = cleanup_pending io h true (close_channel io h c1) in
      let (map', transport', heap') = mark_terminal_same f c2 in
      let decoded : decode_error_status f ≡ some status =
        decode_error_status-make_error_frame stream status ∙ rw e refl in
      let known_f : lookup f.header.stream c.pending ≡ some h = rw same known in
      let first_f : contains f.header.stream c.terminal_streams ≡ false = rw same first in
      let chain : dispatch io f c ≡ mark_terminal io f c2 =
        dispatch_pending f h c response_type known_f
        ∙ dispatch_found_object f h p c first_f plain wrong found
        ∙ dispatch_error_decoded f status h p c decoded in
      let kept : (close_channel io h c1).transport_open ≡ c.transport_open =
        rw closed (unfold run_on in refl) in
      let others : (close_channel io h c1).pending ≡ c.pending =
        rw closed (unfold run_on in refl) in
      let left : without p2.operation.stream (close_channel io h c1).pending
          ≡ without stream c.pending =
        rw (others, stream_same, points.0) in
      subst
        (λ c'.
          (c'.transport_open ≡ c.transport_open)
          × (c'.pending ≡ without stream c.pending)
          × Rejected status (lookup h c'.heap))
        (sym chain)
        (
          transport' ∙ transport ∙ kept,
          map' ∙ map ∙ left,
          subst (Rejected status) (sym (ap (lookup h) heap' ∙ object)) (
            fail_active status "peer rejected the operation" p.operation c.diagnostics
                (crosses_failure status e) active,
            (io.frames.close_closed p.channel).1,
          ),
        )
