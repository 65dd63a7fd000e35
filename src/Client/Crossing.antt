-- ===== src/Client/Crossing.antt =====
-- client_connection.hpp: a response that crosses the cancellation of its request.
use rillnet.Base.{ℕ, ◌≡◌, refl, ap, ◌∙◌, ◌==◌, Bool, true, false, none, some, String, arith, subst}
use rillnet.Base.Keys.{lookup, assign, lookup-assign_same, lookup-without}
use rillnet.Lifecycle.{OperationState, is_operation}
use rillnet.Diagnostics.{DiagnosticsHooks}
use rillnet.Operation
use rillnet.Operation.{Operation}
use rillnet.Frame.{Frame, response}
use rillnet.Channel.{Asio}
use rillnet.Client.{
  PendingRequest, Client, run_on, close_channel, send_cancellation, cleanup_pending, cancel_pending,
  ended_locally,
}
use rillnet.Client.Requests.{cancel_handle}
use rillnet.Client.Reading.{dispatch}
use rillnet.Client.Failing.{Points, close_channel_lem, cleanup_pending_lem}
use rillnet.Client.Objects.{Inv}
use rillnet.Client.Starting.{cancel_handle-Inv}
use rillnet.Client.Draining.{Drained, is_violation, dispatch_violation}

module _ (io : Asio) where
  cancel_active :
      (message : String) (o : Operation DiagnosticsHooks) (d : DiagnosticsHooks)
      → is_operation o.state OperationState.active ≡ true
      → let r = Operation.cancel message o d in (r.2 ≡ true) × (r.0.stream ≡ o.stream)
  unfolding Operation.cancel Operation.request_cancellation Operation.is_terminal Operation.finish
      is_operation
  cancel_active message o d a = ground arith

  ended_true :
      (h stream : ℕ) (r : Client io × Bool)
      → r.1 ≡ true
      → ended_locally io h stream r
        ≡ (cleanup_pending io h false (close_channel io h (send_cancellation io stream r.0)), true)
  ended_true h stream (c, false) e = cc e
  ended_true h stream (c, true) e = refl

  cancel_lem :
      (h : ℕ) (p : PendingRequest io) (message : String) (c : Client io)
      → lookup h c.heap ≡ some p
      → cancel_handle io (some h) message c
        ≡ ended_locally io h p.operation.stream (run_on io (Operation.cancel message) h p c)
  unfolding cancel_handle cancel_pending
  cancel_lem h p message c e = rw (e, cancel_pending) refl

  -- An active request that is cancelled is not pending any more.
  cancelled_gone :
      (h stream : ℕ) (p : PendingRequest io) (message : String) (c : Client io)
      → lookup h c.heap ≡ some p
      → Points io stream (some p)
      → lookup stream c.pending ≡ some h
      → is_operation p.operation.state OperationState.active ≡ true
      → lookup stream (cancel_handle io (some h) message c).0.pending ≡ none
  cancelled_gone h stream p message c found points known active =
      let m = Operation.cancel message in
      let r = run_on io m h p c in
      let (done, kept) = cancel_active message p.operation c.diagnostics active in
      let p1 : PendingRequest io = record p { operation = (m p.operation c.diagnostics).0 } in
      let p2 : PendingRequest io = record p1 { channel = io.frames.close p1.channel } in
      let c1 = send_cancellation io p.operation.stream r.0 in
      let found1 : lookup h c1.heap ≡ some p1 =
        unfold run_on send_cancellation in lookup-assign_same h p1 c.heap in
      let shut = close_channel_lem io h p1 c1 found1 in
      let c2 = record c1 { heap = assign h p2 c1.heap } in
      let known2 : lookup p2.operation.stream c2.pending ≡ some h =
        unfold run_on send_cancellation in ap (λ s. lookup s c.pending) (kept ∙ points.0) ∙ known in
      let cleaned =
        cleanup_pending_lem io h p2 c2 (lookup-assign_same h p2 c1.heap) points.1 known2 in
      let same : p2.operation.stream ≡ stream = kept ∙ points.0 in
      let ended : r.1 ≡ true = unfold run_on in done in
      ap (λ x. lookup stream x.0.pending)
        (cancel_lem h p message c found ∙ ended_true h p.operation.stream r ended)
      ∙ ap (λ x. lookup stream (cleanup_pending io h false x).pending) shut
      ∙ ap (λ x. lookup stream x.pending) cleaned
      ∙ lookup-without stream p2.operation.stream c2.pending
      ∙ ground (arith, same)

  -- Where the invariant holds and an active pending request is cancelled, a response on its stream
  -- that the peer sent before it had the cancellation brings the whole connection down: the transport
  -- is closed, no request is pending, and each one that was still pending has ended.
  pub dispatch-cancel_handle :
      (frame : Frame) (h : ℕ) (p : PendingRequest io) (message : String) (c : Client io)
      → (frame.header.type == response) ≡ true
      → Inv io c
      → lookup frame.header.stream c.pending ≡ some h
      → lookup h c.heap ≡ some p
      → is_operation p.operation.state OperationState.active ≡ true
      → let c1 = (cancel_handle io (some h) message c).0 in
        let c2 = dispatch io frame c1 in Drained io c1 c2 × (c2.transport_open ≡ false)
  dispatch-cancel_handle frame h p message c kind (linked, fresh) known found active =
      let stream = frame.header.stream in
      let c1 = (cancel_handle io (some h) message c).0 in
      let points : Points io stream (some p) =
        subst (Points io stream) found (linked stream h known) in
      let gone = cancelled_gone h stream p message c found points known active in
      let bad : is_violation io frame c1 ≡ true =
        unfold is_violation in ground (arith, gone, kind) in
      let (linked', fresh', extra) =
        cancel_handle-Inv io false (some h) message c (linked, fresh, tt) in
      dispatch_violation io frame c1 bad (linked', fresh')
