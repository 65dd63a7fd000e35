-- ===== src/Tests/Data.antt =====
-- The frames, codecs and registries that the runs use.
use rillnet.Base.{ℕ, ◌^◌, true, List, [], ◌∷◌}
use rillnet.Frame.{Frame, FrameHeader, default_header, request, response}
use rillnet.Message.{PodType, CodecApi, pod_codec}
use rillnet.Registry.{MessageRegistry}
use rillnet.Registry.Bijection.{Registration, register_all}
use rillnet.Frame.{current_protocol_version}

abbrev pub two_bytes_header : FrameHeader
two_bytes_header = record default_header { type = request; flags = 1; stream = 3; payload_size = 2 }

abbrev pub two_bytes_frame : Frame
two_bytes_frame = record { header = two_bytes_header; payload = 7 ∷ 9 ∷ [] }

abbrev pub empty_frame : Frame
empty_frame = record {
  header = record default_header { type = response; stream = 2 ^ 40; payload_size = 0 };
  payload = [];
}

-- A request of the wire type 21 with a body of one byte.
abbrev pub request_21 : Frame
request_21 = record {
  header = record default_header { type = request; flags = 1; stream = 3; payload_size = 5 };
  payload = 0 ∷ 0 ∷ 0 ∷ 21 ∷ 90 ∷ [];
}

-- A type whose object representation is one byte.
abbrev pub byte_of : List ℕ → ℕ
byte_of [] = 0
byte_of (b ∷ bytes) = b

abbrev pub byte_type : PodType ℕ
byte_type = record { size = 1; to_bytes = λ b. b ∷ []; from_bytes = byte_of }

abbrev pub byte_codec : CodecApi ℕ
byte_codec = pod_codec byte_type

-- Type 4 has the id 21 and type 5 the id 300; the third and fourth registrations are refused.
abbrev pub registrations : List Registration
registrations =
    (true, current_protocol_version, 21, 4)
    ∷ (true, current_protocol_version, 300, 5)
    ∷ (true, current_protocol_version, 21, 6)
    ∷ (true, current_protocol_version, 0, 6)
    ∷ []

abbrev pub registry : MessageRegistry
registry = register_all registrations []
