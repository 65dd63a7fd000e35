-- ===== src/Tests/Exchange.antt =====
-- A request and its response between a client and a server, and a response that a client reads.
use rillnet.Base.{◌≡◌, refl, sym, subst, true, false, none, some, [], ◌∷◌, arith}
use rillnet.Base.Keys
use rillnet.Base.Keys.{lookup, without, contains}
use rillnet.Lifecycle.{OperationState, is_operation}
use rillnet.Operation
use rillnet.Frame.{
  Frame, response, default_max_payload_size, current_protocol_version, same_version,
}
use rillnet.Frame.Flags
use rillnet.Frame.Flags.{has_flag}
use rillnet.Frame.Codec.{encode_frame}
use rillnet.Registry
use rillnet.Registry.{message_type}
use rillnet.Registry.Bijection.{register_all}
use rillnet.Message.{success, pod_codec, encode_message, decode_message}
use rillnet.Message.RoundTrip.{pod_codec-RoundTrips}
use rillnet.Channel.Buffer.{buffers}
use rillnet.Transport.{read_bytes}
use rillnet.Client.Crossing.{dispatch-cancel_handle}
use rillnet.Client.Draining.{Drained}
use rillnet.Client.Requests.{cancel_handle, start_request, async_wait, request_frame}
use rillnet.Client.Reading.{dispatch, read_pass, write_pass}
use rillnet.Server.{handler_responds}
use rillnet.Server.Serving
use rillnet.Exchange.{exchange_answers}
use rillnet.Exchange.Messages.{Fits}
use rillnet.Exchange.Sides.{opened_client, opened_server}
use rillnet.Frame.{validate_frame}
use rillnet.Decoder.{new_decoder}
use rillnet.Decoder.Stream.{in_header}
use rillnet.Decoder.State
use rillnet.Decoder.State.{view}
use rillnet.Decoder.Laws.{Sendable, new_decoder-Inv}
use rillnet.Client.{Client, new_client, new_pending}
use rillnet.Client.Objects.{Inv}
use rillnet.Client.Reachable
use rillnet.Client.Reachable.{starts, apply_all-new_client-Inv}
use rillnet.Client.Responding.{read_response_answers}
use rillnet.Tests.Data.{two_bytes_header, two_bytes_frame, byte_codec, byte_type, registry}

-- The byte 90 as a message of type 4, which has the id 21, and 7 as one of type 5, with the id 300.
question : Fits byte_codec 4 21 64 registry 90 (90 ∷ [])
unfolding message_type register_all Registry.register_message pod_codec Registry.find_version
    Registry.set_version same_version lookup Keys.assign
question = record {
  registered = refl;
  id_fits = omega arith;
  encoded = refl;
  back = pod_codec-RoundTrips byte_type (λ b. refl) (λ b. refl);
  payload_fits = omega arith;
  frame_fits = omega arith;
}

reply : Fits byte_codec 5 300 64 registry 7 (7 ∷ [])
unfolding message_type register_all Registry.register_message pod_codec Registry.find_version
    Registry.set_version same_version lookup Keys.assign
reply = record {
  registered = refl;
  id_fits = omega arith;
  encoded = refl;
  back = pod_codec-RoundTrips byte_type (λ b. refl) (λ b. refl);
  payload_fits = omega arith;
  frame_fits = omega arith;
}

exchange_answers_example :
    let c0 = opened_client buffers 4 64 9 true in
    let s0 = opened_server buffers 21 0 4 64 true in
    let c1 = (start_request buffers (request_frame byte_codec 4 registry 90) c0).0 in
    let c2 = (write_pass buffers none c1).0 in
    let s1 = (Serving.read_pass buffers (read_bytes c2.wire) s0).0 in
    let encoded =
      encode_message byte_codec 5 registry 7 1 response Flags.none default_max_payload_size
        current_protocol_version in
    let s2 = (handler_responds buffers encoded 1 s1).0 in
    let s3 = (Serving.write_pass buffers none s2).0 in
    let c3 = (read_pass buffers (read_bytes s3.wire) c2).0 in
    ((f : Frame) × (lookup 1 s1.spawned ≡ some (0, f))
      × (decode_message byte_codec 4 registry f ≡ success 90))
    × ((async_wait buffers (decode_message byte_codec 5 registry) (some 0) c3).1 ≡ some (success 7))
exchange_answers_example =
    exchange_answers buffers byte_codec byte_codec 4 5 21 300 registry 90 7 (90 ∷ []) (7 ∷ []) 0 4
      64 9 4 64 true true question reply (omega arith) (omega arith) (omega arith)

-- A client with one request, and the response to it.
abbrev asking : Client buffers
asking =
    Reachable.apply_all buffers (starts (λ stream. success two_bytes_frame) ∷ [])
      (new_client buffers 4 100 9 64 false)

asking-Inv : Inv buffers asking
asking-Inv =
    apply_all-new_client-Inv buffers 4 100 9 64 false
      (starts (λ stream. success two_bytes_frame) ∷ [])

abbrev answer : Frame
answer = record {
  header = record two_bytes_header { type = response; stream = 1 };
  payload = 7 ∷ 9 ∷ [];
}

answer-Sendable : Sendable 64 answer
unfolding validate_frame Flags.has_only_known_flags has_flag
answer-Sendable = (
  record {
    major = omega arith;
    minor = omega arith;
    type = omega arith;
    flags = omega arith;
    stream = omega arith;
    payload_size = omega arith;
  },
  refl,
)

asking_decoder : asking.decoder ≡ new_decoder 64
unfolding Reachable.apply_all new_client start_request
asking_decoder = refl

asking_between : view asking.decoder ≡ in_header []
unfolding Reachable.apply_all new_client start_request new_decoder
asking_between = refl

asking_limit : asking.decoder.max_payload_size ≡ 64
unfolding Reachable.apply_all new_client start_request new_decoder
asking_limit = refl

asking_open : contains 1 asking.terminal_streams ≡ false
unfolding Reachable.apply_all new_client start_request contains
asking_open = refl

asking_known : lookup 1 asking.pending ≡ some 0
unfolding Reachable.apply_all new_client start_request lookup Keys.assign
asking_known = refl

asking_found : lookup 0 asking.heap ≡ some (new_pending buffers 1)
unfolding Reachable.apply_all new_client start_request lookup Keys.assign
asking_found = refl

asking_active : is_operation (new_pending buffers 1).operation.state OperationState.active ≡ true
unfolding new_pending Operation.activate is_operation
asking_active = refl

read_response_answers_example :
    let (c', more) = read_pass buffers (read_bytes (encode_frame answer)) asking in
    (more ≡ true)
    × (c'.transport_open ≡ asking.transport_open)
    × (c'.pending ≡ without 1 asking.pending)
    × ((async_wait buffers (λ (f : Frame). success f) (some 0) c').1 ≡ some (success answer))
read_response_answers_example =
    read_response_answers buffers (λ (f : Frame). success f) answer 0 (new_pending buffers 1) asking
      asking-Inv (subst State.Inv (sym asking_decoder) (new_decoder-Inv 64)) asking_between
      (subst (λ m. Sendable m answer) (sym asking_limit) answer-Sendable) refl
      (unfold has_flag in refl) (unfold has_flag in refl) asking_open asking_known asking_found
      asking_active (unfold new_pending in refl) (unfold new_pending in refl)
      (unfold new_pending in omega arith)

dispatch-cancel_handle_example :
    let c1 = (cancel_handle buffers (some 0) "no longer needed" asking).0 in
    let c2 = dispatch buffers answer c1 in Drained buffers c1 c2 × (c2.transport_open ≡ false)
dispatch-cancel_handle_example =
    dispatch-cancel_handle buffers answer 0 (new_pending buffers 1) "no longer needed" asking refl
      asking-Inv asking_known asking_found asking_active
