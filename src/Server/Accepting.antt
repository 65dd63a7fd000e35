-- ===== src/Server/Accepting.antt =====
-- server_connection.hpp: a pass of the read loop over the bytes of one request.
use rillnet.Base.{
  ℕ, ◌+◌, ◌%◌, ◌^◌, ◌<◌, ◌≡◌, refl, sym, ap, ◌∙◌, ◌==◌, subst, true, false, none, some, List, [],
  ◌∷◌, length, arith, Bool-cases, inl, inr,
}
use rillnet.Base.Keys.{lookup, assign, contains}
use rillnet.Diagnostics.{notify_diagnostics, plain_event, request_started}
use rillnet.Frame.{Frame, request}
use rillnet.Frame.Flags
use rillnet.Frame.Flags.{has_flag}
use rillnet.Frame.Codec.{encode_frame}
use rillnet.Message.{peek_message_type}
use rillnet.Channel.{Asio}
use rillnet.Transport.{read_bytes}
use rillnet.Decoder.{FrameDecoder, push}
use rillnet.Decoder.Stream.{in_header}
use rillnet.Decoder.State
use rillnet.Decoder.State.{view}
use rillnet.Decoder.Laws.{Sendable, length-encode_frame, push-encode_frame}
use rillnet.Client.Requests.{is_shutting_down}
use rillnet.Client.Reading.{observe_frame, observe_read}
use rillnet.Server.{Server, new_server_operation, accept_request, dispatch_request, dispatch}
use rillnet.Server.Serving.{dispatch_all, check_decoder, read_pass}

module _ (io : Asio) where
  -- The server behind the push of a chunk that gives one frame.
  abbrev pushed : FrameDecoder → ℕ → Frame → Server io → Server io
  pushed decoder' size frame s = record s {
    decoder = decoder';
    diagnostics = observe_frame frame (observe_read size s.diagnostics);
  }

  -- The server with the request in hand.
  abbrev pub taken : Frame → ℕ → Server io → Server io
  taken frame handler s =
      let stream = frame.header.stream in
      record s {
        operations = assign stream (new_server_operation stream) s.operations;
        diagnostics = notify_diagnostics (plain_event request_started stream) s.diagnostics;
        active_handlers = (s.active_handlers + 1) % 2 ^ 64;
        spawned = assign stream (handler, frame) s.spawned;
      }

  dispatch_accepts :
      (frame : Frame) (message_type handler : ℕ) (s : Server io)
      → is_shutting_down s.lifecycle ≡ false
      → (frame.header.type == request) ≡ true
      → contains frame.header.stream s.terminal_streams ≡ false
      → has_flag frame.header.flags Flags.cancel ≡ false
      → peek_message_type frame.payload ≡ some message_type
      → lookup message_type s.handlers ≡ some handler
      → lookup frame.header.stream s.operations ≡ none
      → dispatch io frame s ≡ taken frame handler s
  unfolding dispatch dispatch_request accept_request
  dispatch_accepts frame message_type handler s running kind first plain peeked registered free =
      rw (running, dispatch)
        (rw kind (
          rw first (
            rw plain
              (rw (peeked, dispatch_request) (rw registered (rw (free, accept_request) refl))))))

  dispatch_one :
      (frame : Frame) (s : Server io)
      → dispatch_all io (frame ∷ []) s
        ≡ dispatch io frame (record s { diagnostics = observe_frame frame s.diagnostics })
  unfolding dispatch_all
  dispatch_one frame s =
      let s' = dispatch io frame (record s { diagnostics = observe_frame frame s.diagnostics }) in
      elim (Bool-cases s'.transport_open) [ inl e ↦ rw e refl | inr e ↦ rw e refl ]

  check_fine : (s : Server io) → s.decoder.error ≡ none → check_decoder io s ≡ (s, true)
  unfolding check_decoder
  check_fine s e = ground (arith, e)

  read_chunk :
      (chunk : List ℕ) (frame : Frame) (s : Server io)
      → 0 < length chunk
      → (push s.decoder chunk).1 ≡ frame ∷ []
      → let s' = dispatch io frame (pushed (push s.decoder chunk).0 (length chunk) frame s) in
        s'.decoder.error ≡ none → read_pass io (read_bytes chunk) s ≡ (s', true, false)
  unfolding read_pass
  read_chunk [] frame s some_bytes one fine = absurd (omega arith)
  read_chunk (b ∷ bytes) frame s some_bytes one fine =
      let chunk = b ∷ bytes in
      let decoder' = (push s.decoder chunk).0 in
      let read = record s {
        decoder = decoder';
        diagnostics = observe_read (length chunk) s.diagnostics;
      } in
      let s' = dispatch io frame (pushed decoder' (length chunk) frame s) in
      let checked : check_decoder io (dispatch_all io (push s.decoder chunk).1 read) ≡ (s', true) =
        ap (λ frames. check_decoder io (dispatch_all io frames read)) one
        ∙ ap (check_decoder io) (dispatch_one frame read)
        ∙ check_fine s' fine in
      ap (λ r. (r.0, r.1, false)) checked

  -- Where the decoder stands between two frames, the bytes of a plain request whose type has a
  -- handler, on a stream that is not in use and has had no terminal frame, read by a server that is
  -- not shutting down: the read loop goes on with the transport and the queue as they were, the
  -- stream has an active operation, and one handler more runs, the registered one, on this frame.
  pub read_request_spawns :
      (frame : Frame) (message_type handler : ℕ) (s : Server io)
      → State.Inv s.decoder
      → view s.decoder ≡ in_header []
      → Sendable s.decoder.max_payload_size frame
      → is_shutting_down s.lifecycle ≡ false
      → (frame.header.type == request) ≡ true
      → contains frame.header.stream s.terminal_streams ≡ false
      → has_flag frame.header.flags Flags.cancel ≡ false
      → peek_message_type frame.payload ≡ some message_type
      → lookup message_type s.handlers ≡ some handler
      → lookup frame.header.stream s.operations ≡ none
      → let (s', more, lost) = read_pass io (read_bytes (encode_frame frame)) s in
        (more ≡ true)
        × (s'.transport_open ≡ s.transport_open)
        × (s'.queue ≡ s.queue)
        × (s'.wire ≡ s.wire)
        × (s'.operations
            ≡ assign frame.header.stream (new_server_operation frame.header.stream) s.operations)
        × (s'.spawned ≡ assign frame.header.stream (handler, frame) s.spawned)
        × (s'.active_handlers ≡ (s.active_handlers + 1) % 2 ^ 64)
  read_request_spawns frame message_type handler s w between fits running kind first plain peeked
        registered free =
      let bytes = encode_frame frame in
      let (one, alive) = push-encode_frame s.decoder frame w between fits in
      let s1 = pushed (push s.decoder bytes).0 (length bytes) frame s in
      let done =
        dispatch_accepts frame message_type handler s1 running kind first plain peeked registered
          free in
      let chain =
        read_chunk bytes frame s (length-encode_frame frame) one
          (ap (λ x. x.decoder.error) done ∙ alive) in
      subst
        (λ r.
          (r.1 ≡ true)
          × (r.0.transport_open ≡ s.transport_open)
          × (r.0.queue ≡ s.queue)
          × (r.0.wire ≡ s.wire)
          × (r.0.operations
              ≡ assign frame.header.stream (new_server_operation frame.header.stream) s.operations)
          × (r.0.spawned ≡ assign frame.header.stream (handler, frame) s.spawned)
          × (r.0.active_handlers ≡ (s.active_handlers + 1) % 2 ^ 64))
        (sym (chain ∙ ap (λ x. (x, true, false)) done)) (refl, refl, refl, refl, refl, refl, refl)
