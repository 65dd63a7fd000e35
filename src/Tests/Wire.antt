-- ===== src/Tests/Wire.antt =====
-- Runs of the frame codec, the decoder, the registry and the message codec.
use rillnet.Base.{
  ◌≡◌, refl, ◌↔◌, ◌&&◌, ◌==◌, true, none, some, [], ◌∷◌, ◌++◌, All, arith, if◌then◌else◌,
}
use rillnet.Base.Keys
use rillnet.Status.{status_category, connection_closed}
use rillnet.Frame.{Frame, FrameValidationError, validate_frame, current_protocol_version, response}
use rillnet.Frame.Flags
use rillnet.Frame.RoundTrip.{encode_all}
use rillnet.Frame.Validation.{
  FitsHeader, IsValid, validate_frame_iff, crosses, decode_error_status-make_error_frame,
}
use rillnet.Frame.Errors.{decode_error_status, make_error_frame}
use rillnet.Decoder.{FrameDecoder, new_decoder, push}
use rillnet.Decoder.Stream.{in_header, feed_all}
use rillnet.Decoder.State.{Inv, view}
use rillnet.Decoder.Refinement.{push_refines, push-Inv}
use rillnet.Decoder.Laws.{new_decoder-Inv, outcome, push_both, push-append, push-encode_all}
use rillnet.Decoder.Soundness.{push_sound}
use rillnet.Registry.{
  MessageRegistrationError, find_version, set_version, message_type, type_of_id, register_message,
}
use rillnet.Frame.{same_version}
use rillnet.Registry.Bijection.{register_all, register_all_bijection, register_message_accepted}
use rillnet.Message.{success, pod_codec, encode_message, decode_message}
use rillnet.Message.RoundTrip.{pod_codec-RoundTrips, decode_message-encode_message}
use rillnet.Tests.Data.{
  two_bytes_header, two_bytes_frame, empty_frame, byte_type, byte_codec, registrations, registry,
}

fits_two : FitsHeader two_bytes_header
fits_two = record {
  major = omega arith;
  minor = omega arith;
  type = omega arith;
  flags = omega arith;
  stream = omega arith;
  payload_size = omega arith;
}

fits_empty : FitsHeader empty_frame.header
fits_empty = record {
  major = omega arith;
  minor = omega arith;
  type = omega arith;
  flags = omega arith;
  stream = omega arith;
  payload_size = omega arith;
}

two_bytes_pass : validate_frame two_bytes_frame 16 ≡ FrameValidationError.none
unfolding validate_frame Flags.has_only_known_flags Flags.has_flag
two_bytes_pass = refl

empty_passes : validate_frame empty_frame 16 ≡ FrameValidationError.none
unfolding validate_frame Flags.has_only_known_flags Flags.has_flag
empty_passes = refl

validate_frame_iff_example :
    (validate_frame two_bytes_frame 16 ≡ FrameValidationError.none) ↔ IsValid 16 two_bytes_frame
validate_frame_iff_example = validate_frame_iff two_bytes_frame 16 fits_two

decode_error_status-make_error_frame_example :
    decode_error_status (make_error_frame 3 connection_closed)
    ≡ (if crosses (status_category connection_closed) then some connection_closed else none)
decode_error_status-make_error_frame_example =
    decode_error_status-make_error_frame 3 connection_closed

-- A decoder that has taken in five bytes.
abbrev begun : FrameDecoder
begun = (push (new_decoder 16) (0 ∷ 0 ∷ 0 ∷ 1 ∷ 2 ∷ [])).0

begun-Inv : Inv begun
begun-Inv = push-Inv (new_decoder 16) (0 ∷ 0 ∷ 0 ∷ 1 ∷ 2 ∷ []) (new_decoder-Inv 16)

push_refines_example :
    feed_all begun.max_payload_size (view begun) (0 ∷ 1 ∷ [])
    ≡ (view (push begun (0 ∷ 1 ∷ [])).0, (push begun (0 ∷ 1 ∷ [])).1)
push_refines_example = push_refines begun (0 ∷ 1 ∷ []) begun-Inv

push-append_example :
    outcome (push begun ((0 ∷ 1 ∷ []) ++ 3 ∷ [])) ≡ push_both begun (0 ∷ 1 ∷ []) (3 ∷ [])
push-append_example = push-append begun (0 ∷ 1 ∷ []) (3 ∷ []) begun-Inv

push-encode_all_example :
    outcome (push (new_decoder 16) (encode_all (two_bytes_frame ∷ empty_frame ∷ [])))
    ≡ (in_header [], two_bytes_frame ∷ empty_frame ∷ [])
push-encode_all_example =
    push-encode_all (new_decoder 16) (two_bytes_frame ∷ empty_frame ∷ []) (new_decoder-Inv 16)
      (unfold new_decoder in refl)
      (unfold new_decoder in ((fits_two, two_bytes_pass), ((fits_empty, empty_passes), tt)))

push_sound_example :
    All
      (λ f. validate_frame f 16 ≡ FrameValidationError.none)
      (push (new_decoder 16) (encode_all (two_bytes_frame ∷ []))).1
push_sound_example = push_sound 16 (encode_all (two_bytes_frame ∷ [])) (omega arith)

register_all_bijection_example :
    ((message_type current_protocol_version 4 (register_all registrations []) ≡ some 21)
      ↔ (type_of_id current_protocol_version 21 (register_all registrations []) ≡ some 4))
    × (type_of_id current_protocol_version 0 (register_all registrations []) ≡ none)
register_all_bijection_example = register_all_bijection registrations current_protocol_version 21 4

sixth_accepted :
    (register_message true current_protocol_version 22 6 registry).1.error
    ≡ MessageRegistrationError.none
unfolding register_message register_all Keys.lookup find_version set_version same_version
    Keys.assign
sixth_accepted = refl

register_message_accepted_example :
    let m' = (register_message true current_protocol_version 22 6 registry).0 in
    (message_type current_protocol_version 6 m' ≡ (
      if same_version current_protocol_version current_protocol_version && (6 == 6)
      then some 22
      else message_type current_protocol_version 6 registry))
    × (type_of_id current_protocol_version 21 m' ≡ (
        if same_version current_protocol_version current_protocol_version && (22 == 21)
        then some 6
        else type_of_id current_protocol_version 21 registry))
register_message_accepted_example =
    register_message_accepted true current_protocol_version current_protocol_version 22 6 21 6
      registry sixth_accepted

fourth_registered : message_type current_protocol_version 4 registry ≡ some 21
unfolding message_type register_all register_message Keys.lookup find_version set_version
    same_version Keys.assign
fourth_registered = refl

ninety_encoded : byte_codec.encode 90 ≡ success (90 ∷ [])
unfolding pod_codec
ninety_encoded = refl

decode_message-encode_message_example :
    (frame : Frame) × (encode_message byte_codec 4 registry 90 3 response 1 16
        current_protocol_version
      ≡ success frame)
    × (decode_message byte_codec 4 registry frame ≡ success 90)
decode_message-encode_message_example =
    decode_message-encode_message byte_codec 4 registry 90 3 response 1 16 21
      current_protocol_version (90 ∷ []) fourth_registered ninety_encoded (omega arith)
      (omega arith) (omega arith) (pod_codec-RoundTrips byte_type (λ b. refl) (λ b. refl))
