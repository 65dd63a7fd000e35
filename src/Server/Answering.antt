-- ===== src/Server/Answering.antt =====
-- server_connection.hpp: a response that goes out at once, from the handler to the bytes on the wire.
use rillnet.Base.{
  ℕ, ◌≡◌, refl, sym, ap, ◌∙◌, subst, Bool, true, false, none, some, [], ◌∷◌, ◌++◌, String,
}
use rillnet.Base.Keys.{lookup}
use rillnet.Lifecycle.{OperationState, is_operation}
use rillnet.Diagnostics.{DiagnosticsHooks}
use rillnet.Operation
use rillnet.Operation.{Operation}
use rillnet.Frame.{Frame}
use rillnet.Frame.Flags.{flags_or, end_of_stream}
use rillnet.Frame.Codec.{encode_frame}
use rillnet.Message.{success, is_ok}
use rillnet.Channel.{Asio}
use rillnet.WriteQueue.{returned, write_success, enqueue}
use rillnet.WriteQueue.Single.{Idle, enqueue-Idle, run_pass_single}
use rillnet.Client.Reading.{observe_write}
use rillnet.Client.Answering.{complete_active}
use rillnet.Server.{Server, run_on, response_enqueued, completed, handler_responds}
use rillnet.Server.Serving.{write_pass}

-- The response as the handler sends it.
abbrev pub ending : Frame → Frame
ending frame = record frame {
  header = record frame.header { flags = flags_or frame.header.flags end_of_stream };
}

module _ (io : Asio) where
  completed_succeeds :
      (frame : Frame) (r : Server io × Bool)
      → r.1 ≡ true
      → completed io frame r ≡ response_enqueued io r.0 (enqueue io (ending frame) r.0.queue)
  completed_succeeds frame (s, false) e = cc e
  completed_succeeds frame (s, true) e = refl

  responds_lem :
      (frame : Frame) (stream : ℕ) (o : Operation DiagnosticsHooks) (s : Server io)
      → lookup stream s.operations ≡ some o
      → handler_responds io (success frame) stream s
        ≡ completed io frame (run_on io (Operation.complete "response ready") stream o s)
  unfolding handler_responds is_ok
  responds_lem frame stream o s e = rw (e, handler_responds) refl

  -- A handler whose operation is active puts its response, as the last frame of the stream, into an
  -- idle queue.
  pub handler_responds-Idle :
      (frame : Frame) (stream : ℕ) (o : Operation DiagnosticsHooks) (s : Server io)
      → lookup stream s.operations ≡ some o
      → is_operation o.state OperationState.active ≡ true
      → Idle io (ending frame) s.queue
      → let (s', sent) = handler_responds io (success frame) stream s in
        (io.frames.held s'.queue.channel ≡ ending frame ∷ [])
        × (s'.wire ≡ s.wire)
        × (sent ≡ some (returned write_success))
  handler_responds-Idle frame stream o s e active idle =
      let message : String = "response ready" in
      let r = run_on io (Operation.complete message) stream o s in
      let (done, kept) = complete_active io message o s.diagnostics active in
      let queue_same : r.0.queue ≡ s.queue = unfold run_on in refl in
      let wire_same : r.0.wire ≡ s.wire = unfold run_on in refl in
      let done' : r.1 ≡ true = unfold run_on in done in
      let (ch, sent, holds) =
        enqueue-Idle io (ending frame) r.0.queue
          (subst (Idle io (ending frame)) (sym queue_same) idle) in
      subst
        (λ x.
          (io.frames.held x.0.queue.channel ≡ ending frame ∷ [])
          × (x.0.wire ≡ s.wire)
          × (x.1 ≡ some (returned write_success)))
        (sym (
          responds_lem frame stream o s e
          ∙ completed_succeeds frame r done'
          ∙ ap (response_enqueued io r.0) sent))
        (holds, wire_same, refl)

  pub write_pass_single :
      (f : Frame) (s : Server io)
      → io.frames.held s.queue.channel ≡ f ∷ []
      → (write_pass io none s).0.wire ≡ s.wire ++ encode_frame f
  unfolding write_pass
  write_pass_single f s holds =
      (run_pass_single io (some observe_write) f
        (record {
          queue = s.queue;
          wire = s.wire;
          transport_open = s.transport_open;
          observed = s.diagnostics;
        })
        holds).0
