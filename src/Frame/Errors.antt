-- ===== src/Frame/Errors.antt =====
-- include/rillnet/protocol_violation.hpp: error frames, and what a validation error is reported as.
use rillnet.Base.{
  ℕ, ◌*◌, ◌/◌, ◌%◌, ◌^◌, ◌==◌, not, bit_or, Option, none, some, [], ◌∷◌, length, String,
  if◌then◌else◌,
}
use rillnet.Status.{
  StatusCode, status_value, protocol_error, malformed_frame, unknown_stream, serialization_error,
  unknown_message_type, decode_error, operation_error, timeout_error, cancelled,
  resource_limit_exceeded,
}
use rillnet.Frame.Flags
use rillnet.Frame.Flags.{flags_or, end_of_stream}
use rillnet.Frame.Codec.{byte_at}
use rillnet.Frame.{
  Frame, FrameValidationError, default_header, response, unsupported_version, unknown_frame_type,
  unknown_flags, invalid_flag_combination, invalid_stream, payload_length_mismatch,
  payload_too_large,
}

unfoldable pub status_for_frame_validation : FrameValidationError → StatusCode
status_for_frame_validation unsupported_version = StatusCode.unsupported_version
status_for_frame_validation _ = malformed_frame

unfoldable pub make_error_frame : ℕ → StatusCode → Frame
unfolding status_value
make_error_frame stream status = record {
  header = record default_header {
    type = response;
    flags = flags_or Flags.error end_of_stream;
    stream = stream;
    payload_size = 2;
  };
  payload = (status_value status / 2 ^ 8 % 256) ∷ (status_value status % 256) ∷ [];
}

-- The switch over the values that a peer may send.
unfoldable pub error_status_of : ℕ → Option StatusCode
error_status_of value =
    if value == 2000
    then some protocol_error
    else if value == 2001
    then some StatusCode.unsupported_version
    else if value == 2002
    then some malformed_frame
    else if value == 2003
    then some unknown_stream
    else if value == 3000
    then some serialization_error
    else if value == 3001
    then some unknown_message_type
    else if value == 3002
    then some decode_error
    else if value == 4000
    then some operation_error
    else if value == 5000
    then some timeout_error
    else if value == 6000
    then some cancelled
    else if value == 7000
    then some resource_limit_exceeded
    else none

unfoldable pub decode_error_status : Frame → Option StatusCode
unfolding error_status_of byte_at
decode_error_status frame =
    if not (length frame.payload == 2)
    then none
    else error_status_of (bit_or (byte_at frame.payload 0 * 2 ^ 8) (byte_at frame.payload 1))

unfoldable pub frame_validation_message : FrameValidationError → String
frame_validation_message unsupported_version = "unsupported protocol version"
frame_validation_message unknown_frame_type = "unknown frame type"
frame_validation_message unknown_flags = "unknown frame flags"
frame_validation_message invalid_flag_combination = "invalid frame flag combination"
frame_validation_message invalid_stream = "invalid stream identifier"
frame_validation_message payload_length_mismatch = "payload length mismatch"
frame_validation_message payload_too_large = "payload exceeds configured limit"
frame_validation_message FrameValidationError.none = "no frame validation error"
