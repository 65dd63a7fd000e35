-- ===== src/Message/RoundTrip.antt =====
-- message_codec.hpp: decoding a message that was encoded, and validating its frame.
use rillnet.Base.{
  ℕ, ◌+◌, ◌%◌, ◌^◌, ◌≤◌, ◌<◌, ◌≡◌, refl, ◌≢◌, ◌⊎◌, true, false, some, List, ◌++◌, length, drop,
  arith, ltb, ◌==◌,
}
use rillnet.Frame.{Frame, FrameValidationError, ProtocolVersion, validate_frame}
use rillnet.Frame.Codec.{write_be32}
use rillnet.Frame.RoundTrip.{read_be32-write_be32}
use rillnet.Frame.Validation.{FitsHeader, IsValid, validate_frame_iff}
use rillnet.Registry.{MessageRegistry, message_type}
use rillnet.Message.{
  success, is_ok, CodecApi, PodType, pod_codec, encode_message_payload, peek_message_type,
  decode_message_payload, decode_message, encode_message,
}

-- What a codec must do for its messages to come back: documented in codec.hpp by the concept's name.
abbrev pub RoundTrips : {T : Type 0} → CodecApi T → Type 0
RoundTrips {T} codec =
    (value : T) (bytes : List ℕ)
    → codec.encode value ≡ success bytes
    → codec.decode bytes ≡ success value

-- The built-in codec does it for every type whose representation has its size and can be read back.
pub pod_codec-RoundTrips :
    {T : Type 0} (pod : PodType T)
    → ((value : T) → length (pod.to_bytes value) ≡ pod.size)
    → ((value : T) → pod.from_bytes (pod.to_bytes value) ≡ value)
    → RoundTrips (pod_codec pod)
unfolding pod_codec
pod_codec-RoundTrips pod sized back value bytes e = ground (arith, sized value, back value)

pub length-prefixed : (t : ℕ) (bytes : List ℕ) → length (write_be32 t ++ bytes) ≡ 4 + length bytes
unfolding write_be32
length-prefixed t bytes = omega arith

body : (t : ℕ) (bytes : List ℕ) → drop 4 (write_be32 t ++ bytes) ≡ bytes
unfolding write_be32
body t bytes = refl

-- The receiver reads the wire type back before it runs the codec.
pub peek_prefixed :
    (t : ℕ) (bytes : List ℕ) → t < 2 ^ 32 → peek_message_type (write_be32 t ++ bytes) ≡ some t
unfolding peek_message_type
peek_prefixed t bytes h = ground (arith, length-prefixed t bytes, read_be32-write_be32 t bytes h)

module _ {T : Type 0} (codec : CodecApi T) (type : ℕ) (registry : MessageRegistry) where
  module _ (value : T) (stream frame_type flags max t : ℕ) (version : ProtocolVersion)
      (bytes : List ℕ) (registered : message_type version type registry ≡ some t)
      (encoded : codec.encode value ≡ success bytes) where
    -- The frame of a message whose type has the wire id `t` and whose body is `bytes`.
    abbrev pub message_frame : Frame
    message_frame = record {
      header = record {
        version = version;
        type = frame_type;
        flags = flags;
        stream = stream;
        payload_size = 4 + length bytes;
      };
      payload = write_be32 t ++ bytes;
    }

    encoded_payload :
        encode_message_payload codec type registry value version ≡ success (write_be32 t ++ bytes)
    unfolding encode_message_payload
    encoded_payload = rw (registered, encode_message_payload) (rw encoded)

    -- A registered message that its codec encodes and that fits the limit becomes a frame with the
    -- wire id before the body.
    pub encode_message_fits :
        4 + length bytes ≤ max
        → max < 2 ^ 32
        → encode_message codec type registry value stream frame_type flags max version
          ≡ success message_frame
    unfolding encode_message
    encode_message_fits h m =
        let size = length-prefixed t bytes in
        let small : ltb max (length (write_be32 t ++ bytes)) ≡ false = ground arith in
        let exact : length (write_be32 t ++ bytes) % 2 ^ 32 ≡ 4 + length bytes = omega arith in
        rw encoded_payload (unfold is_ok in rw small (rw exact))

    -- A receiver with the same registrations decodes the value from that frame.
    pub decode_message_frame :
        t < 2 ^ 32
        → RoundTrips codec
        → decode_message codec type registry message_frame ≡ success value
    unfolding decode_message
    decode_message_frame h back =
        let same : (t == t) ≡ true = ground arith in
        rw (peek_prefixed t bytes h, decode_message_payload)
          (rw registered (rw same (rw body (back value bytes encoded))))

    -- Encoding a registered message and decoding the frame gives the value back, if the codec's
    -- round trip does, its wire id is a std::uint32_t and its payload is within the limit.
    pub decode_message-encode_message :
        t < 2 ^ 32
        → 4 + length bytes ≤ max
        → max < 2 ^ 32
        → RoundTrips codec
        → (frame : Frame) × (encode_message codec type registry value stream frame_type flags max
              version
            ≡ success frame)
          × (decode_message codec type registry frame ≡ success value)
    decode_message-encode_message h l m back =
        (message_frame, encode_message_fits l m, decode_message_frame h back)

    -- Such a frame is one that a peer accepts.
    pub message_frame-valid :
        (version.major ≡ 0) × (version.minor ≡ 1)
        → (frame_type ≡ 1) ⊎ (frame_type ≡ 2)
        → flags < 6
        → (stream ≢ 0) × (stream < 2 ^ 64)
        → 4 + length bytes ≤ max
        → max < 2 ^ 32
        → FitsHeader message_frame.header
          × (validate_frame message_frame max ≡ FrameValidationError.none)
    message_frame-valid cur kind plain (live, narrow) l m =
        let fits : FitsHeader message_frame.header = ground arith in
        let valid : IsValid max message_frame = ground (arith, length-prefixed t bytes) in
        (fits, (validate_frame_iff message_frame max fits).1 valid)
