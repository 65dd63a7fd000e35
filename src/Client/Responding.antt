-- ===== src/Client/Responding.antt =====
-- client_connection.hpp: a pass of the read loop over the bytes of one response.
use rillnet.Base.{
  ℕ, ◌≤◌, ◌<◌, ◌≡◌, refl, sym, ap, ◌∙◌, ◌==◌, subst, true, false, none, some, List, [], ◌∷◌, length,
  arith, Bool-cases, inl, inr,
}
use rillnet.Base.Keys.{lookup, without, contains}
use rillnet.Lifecycle.{OperationState, is_operation}
use rillnet.Frame.{Frame, response}
use rillnet.Frame.Flags
use rillnet.Frame.Flags.{has_flag}
use rillnet.Message.{Outcome}
use rillnet.Channel.{Asio}
use rillnet.Client.{PendingRequest, Client}
use rillnet.Client.Requests.{async_wait}
use rillnet.Transport.{read_bytes}
use rillnet.Decoder.{FrameDecoder, push}
use rillnet.Client.Reading.{
  observe_frame, observe_read, dispatch_all, check_decoder, read_pass, dispatch,
}
use rillnet.Channel.Single.{try_send_empty}
use rillnet.Frame.Codec.{encode_frame}
use rillnet.Decoder.Stream.{in_header}
use rillnet.Decoder.State
use rillnet.Decoder.State.{view}
use rillnet.Decoder.Laws.{Sendable, length-encode_frame, push-encode_frame}
use rillnet.Client.Failing.{Points}
use rillnet.Client.Objects.{Inv}
use rillnet.Client.Answering.{dispatch_delivers, async_wait-Holding}

module _ (io : Asio) where
  dispatch_one :
      (frame : Frame) (c : Client io)
      → dispatch_all io (frame ∷ []) c
        ≡ dispatch io frame (record c { diagnostics = observe_frame frame c.diagnostics })
  unfolding dispatch_all
  dispatch_one frame c =
      let c' = dispatch io frame (record c { diagnostics = observe_frame frame c.diagnostics }) in
      elim (Bool-cases c'.transport_open) [ inl e ↦ rw e refl | inr e ↦ rw e refl ]

  check_fine : (c : Client io) → c.decoder.error ≡ none → check_decoder io c ≡ (c, true)
  unfolding check_decoder
  check_fine c e = ground (arith, e)

  -- The client behind the push of a chunk that gives one frame.
  abbrev pushed : FrameDecoder → ℕ → Frame → Client io → Client io
  pushed decoder' size frame c = record c {
    decoder = decoder';
    diagnostics = observe_frame frame (observe_read size c.diagnostics);
  }

  read_chunk :
      (chunk : List ℕ) (frame : Frame) (c : Client io)
      → 0 < length chunk
      → (push c.decoder chunk).1 ≡ frame ∷ []
      → let c' = dispatch io frame (pushed (push c.decoder chunk).0 (length chunk) frame c) in
        c'.decoder.error ≡ none → read_pass io (read_bytes chunk) c ≡ (c', true)
  unfolding read_pass
  read_chunk [] frame c some_bytes one fine = absurd (omega arith)
  read_chunk (b ∷ bytes) frame c some_bytes one fine =
      let chunk = b ∷ bytes in
      let decoder' = (push c.decoder chunk).0 in
      let read = record c {
        decoder = decoder';
        diagnostics = observe_read (length chunk) c.diagnostics;
      } in
      let c' = dispatch io frame (pushed decoder' (length chunk) frame c) in
      ap (λ frames. check_decoder io (dispatch_all io frames read)) one
      ∙ ap (check_decoder io) (dispatch_one frame read)
      ∙ check_fine c' fine

  -- Where the invariant holds and the decoder stands between two frames, the bytes of a plain
  -- response on a stream with an active pending request, whose channel is open and empty and which
  -- has had no terminal frame: the read loop goes on with the transport as it was, the stream is
  -- not pending any more, and a wait on the request returns what the response decodes to.
  pub read_response_answers :
      {T : Type 0} (decode : Frame → Outcome T) (frame : Frame) (h : ℕ) (p : PendingRequest io)
      (c : Client io)
      → Inv io c
      → State.Inv c.decoder
      → view c.decoder ≡ in_header []
      → Sendable c.decoder.max_payload_size frame
      → (frame.header.type == response) ≡ true
      → has_flag frame.header.flags Flags.cancel ≡ false
      → has_flag frame.header.flags Flags.error ≡ false
      → contains frame.header.stream c.terminal_streams ≡ false
      → lookup frame.header.stream c.pending ≡ some h
      → lookup h c.heap ≡ some p
      → is_operation p.operation.state OperationState.active ≡ true
      → io.frames.held p.channel ≡ []
      → io.frames.is_open p.channel ≡ true
      → 1 ≤ io.frames.capacity p.channel
      → let (c', more) = read_pass io (read_bytes (encode_frame frame)) c in
        (more ≡ true)
        × (c'.transport_open ≡ c.transport_open)
        × (c'.pending ≡ without frame.header.stream c.pending)
        × ((async_wait io decode (some h) c').1 ≡ some (decode frame))
  read_response_answers decode frame h p c v w between fits kind plain fine first known found active
        empty opened room =
      let points : Points io frame.header.stream (some p) =
        subst (Points io frame.header.stream) found (v.0 frame.header.stream h known) in
      let (ch, sent, holds) = try_send_empty io.frames frame p.channel empty opened room in
      let (one, alive) = push-encode_frame c.decoder frame w between fits in
      let bytes = encode_frame frame in
      let c1 = pushed (push c.decoder bytes).0 (length bytes) frame c in
      let c' = dispatch io frame c1 in
      let (transport, map, decoder_same, holding) =
        dispatch_delivers io frame h p ch c1 kind plain fine first known found points.0 points.1
          active sent holds in
      let chain =
        read_chunk bytes frame c (length-encode_frame frame) one
          (ap (λ d. d.error) decoder_same ∙ alive) in
      subst
        (λ r.
          (r.1 ≡ true)
          × (r.0.transport_open ≡ c.transport_open)
          × (r.0.pending ≡ without frame.header.stream c.pending)
          × ((async_wait io decode (some h) r.0).1 ≡ some (decode frame)))
        (sym chain) (refl, transport, map, async_wait-Holding io decode frame h c' holding)
