-- ===== src/Message.antt =====
-- include/rillnet/codec.hpp and include/rillnet/message_codec.hpp: a typed message as a payload and
-- as a frame. The codec is a template argument of the sources, and here a record of its two
-- functions. What C++ leaves undefined, reading an absent payload, is the empty payload here.
pub mod RoundTrip
use rillnet.Base.{
  ℕ, ◌+◌, ◌%◌, ◌^◌, ◌==◌, ltb, Bool, true, false, not, ◌||◌, Option, none, some, List, [], ◌++◌,
  length, drop, String, if◌then◌else◌,
}
use rillnet.Status.{
  StatusCode, same_status, unknown_message_type, decode_error, resource_limit_exceeded,
}
use rillnet.Frame.{Frame, ProtocolVersion}
use rillnet.Frame.Codec.{write_be32, read_be32}
use rillnet.Registry.{MessageRegistry, message_type}

-- EncodeResult, DecodeResult<T> and FrameEncodeResult: a value or a failure.
pub record Outcome {ℓ} (A : Type ℓ) : Type ℓ where
  pub value : Option A
  pub status : StatusCode
  pub message : String

module _ {ℓ} {A : Type ℓ} where
  abbrev pub success : A → Outcome A
  success a = record { value = some a; status = StatusCode.ok; message = "" }

  abbrev pub failure : StatusCode → String → Outcome A
  failure status message = record { value = none; status = status; message = message }

  unfoldable pub is_ok : Outcome A → Bool
  unfolding same_status
  is_ok r = same_status r.status StatusCode.ok

abbrev pub or_nothing : Option (List ℕ) → List ℕ
or_nothing none = []
or_nothing (some bytes) = bytes

pub record CodecApi (T : Type 0) : Type 0 where
  pub encode : T → Outcome (List ℕ)
  pub decode : List ℕ → Outcome T

-- A trivially copyable type: its object representation, which std::memcpy reads and writes.
pub record PodType (T : Type 0) : Type 0 where
  pub size : ℕ
  pub to_bytes : T → List ℕ
  pub from_bytes : List ℕ → T

unfoldable pub pod_codec : {T : Type 0} → PodType T → CodecApi T
pod_codec pod = record {
  encode = λ value. success (pod.to_bytes value);
  decode = λ payload.
      if not (length payload == pod.size)
      then failure decode_error "payload size does not match decoded type"
      else success (pod.from_bytes payload);
}

abbrev pub message_type_size : ℕ
message_type_size = 4

module _ {T : Type 0} (codec : CodecApi T) (type : ℕ) (registry : MessageRegistry) where
  -- After the look-up of the wire type, and after the codec.
  abbrev pub prefixed : ℕ → Outcome (List ℕ) → Outcome (List ℕ)
  prefixed wire_type encoded =
      if not (is_ok encoded)
      then encoded
      else success (write_be32 wire_type ++ or_nothing encoded.value)

  unfoldable pub encode_message_payload : T → ProtocolVersion → Outcome (List ℕ)
  unfolding is_ok
  encode_message_payload value version = elim (message_type version type registry) [
    | none ↦ failure unknown_message_type "message type is not registered"
    | some wire_type ↦ prefixed wire_type (codec.encode value)
  ]

unfoldable pub peek_message_type : List ℕ → Option ℕ
peek_message_type payload =
    if ltb (length payload) message_type_size then none else some (read_be32 payload 0)

abbrev pub expects : Option ℕ → ℕ → Bool
expects none wire_type = false
expects (some expected) wire_type = expected == wire_type

-- The same members and factories as an EncodeResult, with a frame.
abbrev pub FrameEncodeResult : Type 0
FrameEncodeResult = Outcome Frame

module _ {T : Type 0} (codec : CodecApi T) (type : ℕ) (registry : MessageRegistry) where
  unfoldable pub decode_message_payload : List ℕ → ProtocolVersion → Outcome T
  unfolding peek_message_type
  decode_message_payload payload version = elim (peek_message_type payload) [
    | none ↦ failure decode_error "payload is too small to contain a message type"
    | some wire_type ↦
        if not (expects (message_type version type registry) wire_type)
        then failure unknown_message_type "payload message type does not match Message"
        else codec.decode (drop message_type_size payload)
  ]

  unfoldable pub decode_message : Frame → Outcome T
  unfolding decode_message_payload
  decode_message frame = decode_message_payload frame.payload frame.header.version

  abbrev pub framed : ℕ → ℕ → ℕ → ℕ → ProtocolVersion → Outcome (List ℕ) → FrameEncodeResult
  framed stream frame_type flags max_payload_size version encoded =
      let payload = or_nothing encoded.value in
      if not (is_ok encoded)
      then failure encoded.status encoded.message
      else if ltb max_payload_size (length payload)
      then failure resource_limit_exceeded "encoded message exceeds the maximum payload size"
      else success (record {
        header = record {
          version = version;
          type = frame_type;
          flags = flags;
          stream = stream;
          payload_size = length payload % 2 ^ 32;
        };
        payload = payload;
      })

  unfoldable pub encode_message : T → ℕ → ℕ → ℕ → ℕ → ProtocolVersion → FrameEncodeResult
  unfolding encode_message_payload
  encode_message value stream frame_type flags max_payload_size version =
      framed stream frame_type flags max_payload_size version
        (encode_message_payload codec type registry value version)
