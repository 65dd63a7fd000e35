-- ===== src/Frame.antt =====
-- include/rillnet/protocol_version.hpp, frame_flags.hpp and frame.hpp: the logical frame and its
-- validation. FrameType and FrameFlags are the bytes of their underlying std::uint8_t, since a cast
-- makes either from any byte that a peer sends.
pub mod Flags
pub mod Codec
pub mod Errors
pub mod Validation
pub mod RoundTrip
use rillnet.Base.{
  ℕ, ◌^◌, ◌-◌, ◌*◌, ◌==◌, ltb, Bool, not, ◌&&◌, ◌||◌, List, [], length, if◌then◌else◌,
}
use rillnet.Stream.{is_valid}
use Flags.{has_flag, cancel, error, has_only_known_flags}

pub record ProtocolVersion : Type 0 where
  pub major : ℕ
  pub minor : ℕ

abbrev pub current_protocol_version : ProtocolVersion
current_protocol_version = record { major = 0; minor = 1 }

-- `==` on versions, the defaulted comparison of both members
unfoldable pub same_version : ProtocolVersion → ProtocolVersion → Bool
same_version a b = (a.major == b.major) && (a.minor == b.minor)

-- enum class FrameType
abbrev pub request : ℕ
request = 1

abbrev pub response : ℕ
response = 2

pub record FrameHeader : Type 0 where
  pub version : ProtocolVersion
  pub type : ℕ
  pub flags : ℕ
  pub stream : ℕ
  pub payload_size : ℕ

pub record Frame : Type 0 where
  pub header : FrameHeader
  pub payload : List ℕ

-- The default member initialisers.
abbrev pub default_header : FrameHeader
default_header = record {
  version = current_protocol_version;
  type = request;
  flags = Flags.none;
  stream = 0;
  payload_size = 0;
}

abbrev pub default_max_payload_size : ℕ
default_max_payload_size = 16 * 1024 * 1024

pub data FrameValidationError : Type 0 where
  none unsupported_version unknown_frame_type unknown_flags invalid_flag_combination invalid_stream
        payload_length_mismatch payload_too_large :
      FrameValidationError

unfoldable pub is_known_frame_type : ℕ → Bool
is_known_frame_type type = (type == request) || (type == response)

unfoldable pub validate_frame : Frame → ℕ → FrameValidationError
unfolding same_version is_known_frame_type
validate_frame frame max_payload_size =
    if not (same_version frame.header.version current_protocol_version)
    then unsupported_version
    else if not (is_known_frame_type frame.header.type)
    then unknown_frame_type
    else if not (has_only_known_flags frame.header.flags)
    then unknown_flags
    else if has_flag frame.header.flags cancel && has_flag frame.header.flags error
    then invalid_flag_combination
    else if not (is_valid frame.header.stream)
    then invalid_stream
    else if ltb max_payload_size frame.header.payload_size
    then payload_too_large
    else if ltb (2 ^ 32 - 1) (length frame.payload)
        || not (frame.header.payload_size == length frame.payload)
    then payload_length_mismatch
    else none
