-- ===== src/Exchange.antt =====
-- client_connection.hpp and server_connection.hpp: a request and its response between two new
-- connections, over the bytes that the one gives to its transport and the other reads.
pub mod Messages
pub mod Sides
use rillnet.Base.{
  ℕ, ◌+◌, ◌^◌, ◌≤◌, ◌<◌, ◌≡◌, ◌≢◌, ◌⊎◌, inl, inr, refl, sym, ap, ◌∙◌, ◌==◌, subst, Bool, true,
  false, Option, none, some, List, [], ◌∷◌, ◌++◌, length, length-append, arith,
}
use rillnet.Base.Keys.{lookup}
use rillnet.Lifecycle.{OperationState, is_operation}
use rillnet.Frame.{Frame, request, response, default_max_payload_size, current_protocol_version}
use rillnet.Frame.Flags
use rillnet.Frame.Flags.{has_flag, flags_or, end_of_stream}
use rillnet.Frame.Codec.{encode_frame, write_be32, frame_header_size}
use rillnet.Operation
use rillnet.Registry.{MessageRegistry, message_type}
use rillnet.Message.{CodecApi, Outcome, success, peek_message_type, encode_message, decode_message}
use rillnet.Message.RoundTrip.{
  RoundTrips, message_frame, encode_message_fits, decode_message_frame, message_frame-valid,
  peek_prefixed, length-prefixed,
}
use rillnet.Decoder.Laws.{Sendable}
use rillnet.Channel.{Asio}
use rillnet.Transport.{read_bytes}
use rillnet.WriteQueue.{frame_bytes, new_queue}
use rillnet.WriteQueue.Single.{Idle, new_queue-Idle}
use rillnet.Client.{Client}
use rillnet.Client.Requests.{started, start_request, async_wait, request_frame}
use rillnet.Client.Reading.{read_pass, write_pass}
use rillnet.Server.{Server, new_server_operation, handler_responds}
use rillnet.Server.Serving
use rillnet.Server.Answering
use rillnet.Server.Answering.{ending, handler_responds-Idle}
use rillnet.Exchange.Sides.{
  opened_client, Sent, client_sends, client_receives, opened_server, Taken, server_takes,
}
use rillnet.Exchange.Messages.{
  Fits, Carries, first_frame, first_frame-Carries, encode_first_frame, decode_first_frame,
}

module _ (io : Asio) where
  -- The server's part: from the frame of the request to the bytes of the response.
  responds :
      (f g : Frame) (encoded : Outcome Frame) (handler max_frames max_bytes : ℕ) (s : Server io)
      → Taken io f handler max_frames max_bytes s
      → encoded ≡ success g
      → 1 ≤ max_frames
      → frame_bytes (ending g) ≤ max_bytes
      → (Serving.write_pass io none (handler_responds io encoded 1 s).0).0.wire
        ≡ encode_frame (ending g)
  responds f g encoded handler max_frames max_bytes s v e some_frames fits =
      let idle = new_queue-Idle io max_frames max_bytes (ending g) some_frames fits in
      let active : is_operation (new_server_operation 1).state OperationState.active ≡ true =
        unfold new_server_operation Operation.activate is_operation in refl in
      let (holds, wire, sent) =
        handler_responds-Idle io g 1 (new_server_operation 1) s v.operation active
          (subst (Idle io (ending g)) (sym v.queue) idle) in
      subst
        (λ x.
          (Serving.write_pass io none (handler_responds io x 1 s).0).0.wire
          ≡ encode_frame (ending g))
        (sym e)
        (Answering.write_pass_single io (ending g) (handler_responds io (success g) 1 s).0 holds
          ∙ ap (λ bs. bs ++ encode_frame (ending g)) (wire ∙ v.wire))

  -- Both sides, on the frames of the request and of the response.
  frames_exchanged :
      {U : Type 0} (decode : Frame → Outcome U) (encode : ℕ → Outcome Frame)
      (encoded : Outcome Frame) (f g : Frame)
      (id handler max_frames max_bytes maximum server_frames server_bytes : ℕ)
      (client_hooked server_hooked : Bool)
      → encode 1 ≡ success f
      → Carries request max_bytes f
      → peek_message_type f.payload ≡ some id
      → encoded ≡ success g
      → Carries response server_bytes (ending g)
      → 1 ≤ max_frames
      → 1 ≤ server_frames
      → 1 ≤ maximum
      → let c0 = opened_client io max_frames max_bytes maximum client_hooked in
        let s0 = opened_server io id handler server_frames server_bytes server_hooked in
        let c2 = (write_pass io none (start_request io encode c0).0).0 in
        let s1 = (Serving.read_pass io (read_bytes c2.wire) s0).0 in
        let s3 = (Serving.write_pass io none (handler_responds io encoded 1 s1).0).0 in
        let c3 = (read_pass io (read_bytes s3.wire) c2).0 in
        (lookup 1 s1.spawned ≡ some (handler, f))
        × ((async_wait io decode (some 0) c3).1 ≡ some (decode (ending g)))
  frames_exchanged decode encode encoded f g id handler max_frames max_bytes maximum server_frames
        server_bytes client_hooked server_hooked e v peeked e' w some_frames some_server_frames
        some_streams =
      let c0 = opened_client io max_frames max_bytes maximum client_hooked in
      let c2 = (write_pass io none (start_request io encode c0).0).0 in
      let s0 = opened_server io id handler server_frames server_bytes server_hooked in
      let s1 = (Serving.read_pass io (read_bytes c2.wire) s0).0 in
      let (begun, sent) =
        client_sends io encode f max_frames max_bytes maximum client_hooked e some_frames v.size
          some_streams in
      let taken : Taken io f handler server_frames server_bytes s1 =
        subst
          (λ bs.
            Taken io f handler server_frames server_bytes
              (Serving.read_pass io (read_bytes bs) s0).0)
          (sym sent.wire)
          (server_takes io f id handler server_frames server_bytes server_hooked v.sendable
            v.of_kind v.plain v.on_first peeked) in
      (
        taken.spawned,
        subst
            (λ bs.
              (async_wait io decode (some 0) (read_pass io (read_bytes bs) c2).0).1
              ≡ some (decode (ending g)))
            (sym (
              responds f g encoded handler server_frames server_bytes s1 taken e' some_server_frames
                w.size))
            (client_receives io decode f (ending g) c2 sent w.sendable w.of_kind w.plain w.fine
              w.on_first),
      )

module _ (io : Asio) {T U : Type 0} (request_codec : CodecApi T) (response_codec : CodecApi U)
    (request_type response_type request_id response_id : ℕ) (registry : MessageRegistry) where
  -- For two messages whose types are registered for the current version with 32-bit wire ids, whose
  -- codecs give back what they encode, and which fit into a frame and into the queue of their sender:
  -- a new client with a stream to give sends the first to a new server that has a handler for its
  -- type, each queue takes a frame at least, and each side reads the bytes that the other has
  -- written. Then the handler is started on a frame that decodes to the request, and once it has
  -- responded with the second, the wait on the request returns that response.
  pub exchange_answers :
      (value : T) (answer : U) (bytes answer_bytes : List ℕ)
      (handler max_frames max_bytes maximum_stream_id server_frames server_bytes : ℕ)
      (client_hooked server_hooked : Bool)
      → Fits request_codec request_type request_id max_bytes registry value bytes
      → Fits response_codec response_type response_id server_bytes registry answer answer_bytes
      → 1 ≤ max_frames
      → 1 ≤ server_frames
      → 1 ≤ maximum_stream_id
      → let c0 = opened_client io max_frames max_bytes maximum_stream_id client_hooked in
        let s0 = opened_server io request_id handler server_frames server_bytes server_hooked in
        let c1 =
          (start_request io (request_frame request_codec request_type registry value) c0).0 in
        let c2 = (write_pass io none c1).0 in
        let s1 = (Serving.read_pass io (read_bytes c2.wire) s0).0 in
        let encoded =
          encode_message response_codec response_type registry answer 1 response Flags.none
            default_max_payload_size current_protocol_version in
        let s2 = (handler_responds io encoded 1 s1).0 in
        let s3 = (Serving.write_pass io none s2).0 in
        let c3 = (read_pass io (read_bytes s3.wire) c2).0 in
        ((f : Frame) × (lookup 1 s1.spawned ≡ some (handler, f))
          × (decode_message request_codec request_type registry f ≡ success value))
        × ((async_wait io (decode_message response_codec response_type registry) (some 0) c3).1
            ≡ some (success answer))
  unfolding request_frame
  exchange_answers value answer bytes answer_bytes handler max_frames max_bytes maximum
        server_frames server_bytes client_hooked server_hooked v w some_frames some_server_frames
        some_streams =
      let f = first_frame request_codec request_type request_id max_bytes registry value bytes v in
      let g =
        first_frame response_codec response_type response_id server_bytes registry answer
          answer_bytes w in
      let (spawned, answered) =
        frames_exchanged io (decode_message response_codec response_type registry)
          (request_frame request_codec request_type registry value)
          (encode_message response_codec response_type registry answer 1 response Flags.none
            default_max_payload_size current_protocol_version)
          (f request Flags.none) (g response Flags.none) request_id handler max_frames max_bytes
          maximum server_frames server_bytes client_hooked server_hooked
          (encode_first_frame request_codec request_type request_id max_bytes registry value bytes v
            request)
          (first_frame-Carries request_codec request_type request_id max_bytes registry value bytes
            v request Flags.none (inl refl) (inl refl))
          (peek_prefixed request_id bytes v.id_fits)
          (encode_first_frame response_codec response_type response_id server_bytes registry answer
            answer_bytes w response)
          (first_frame-Carries response_codec response_type response_id server_bytes registry answer
            answer_bytes w response end_of_stream (inr refl) (inr refl))
          some_frames some_server_frames some_streams in
      (
        (
          f request Flags.none,
          spawned,
          decode_first_frame request_codec request_type request_id max_bytes registry value bytes v
              request Flags.none,
        ),
        answered
            ∙ ap some (
                decode_first_frame response_codec response_type response_id server_bytes registry
                  answer answer_bytes w response end_of_stream),
      )
