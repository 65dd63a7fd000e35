-- ===== src/Exchange/Messages.antt =====
-- message_codec.hpp: the frames of the two messages of an exchange.
use rillnet.Base.{
  ℕ, ◌+◌, ◌^◌, ◌≤◌, ◌<◌, ◌≡◌, ◌⊎◌, refl, ◌==◌, true, false, some, List, length, arith,
}
use rillnet.Frame.{Frame, default_max_payload_size, current_protocol_version}
use rillnet.Frame.Flags
use rillnet.Frame.Flags.{has_flag, flags_or, end_of_stream}
use rillnet.Registry.{MessageRegistry, message_type}
use rillnet.Message.{CodecApi, success, encode_message, decode_message}
use rillnet.Message.RoundTrip.{
  RoundTrips, message_frame, encode_message_fits, decode_message_frame, message_frame-valid,
  length-prefixed,
}
use rillnet.Decoder.Laws.{Sendable}
use rillnet.WriteQueue.{frame_bytes}

-- A message that can be sent: its type has the wire id `id`, its body is `bytes`, and both fit, the
-- frame also into a queue of `max_bytes`.
pub record Fits {T : Type 0} (codec : CodecApi T) (type id max_bytes : ℕ)
    (registry : MessageRegistry) (value : T) (bytes : List ℕ) : Type 0 where
  pub registered : message_type current_protocol_version type registry ≡ some id
  pub id_fits : id < 2 ^ 32
  pub encoded : codec.encode value ≡ success bytes
  pub back : RoundTrips codec
  pub payload_fits : 4 + length bytes ≤ default_max_payload_size
  pub frame_fits : 22 + length bytes ≤ max_bytes

-- A frame of the kind that the receiving side takes, on the first stream.
pub record Carries (kind max_bytes : ℕ) (f : Frame) : Type 0 where
  pub sendable : Sendable default_max_payload_size f
  pub of_kind : (f.header.type == kind) ≡ true
  pub plain : has_flag f.header.flags Flags.cancel ≡ false
  pub fine : has_flag f.header.flags Flags.error ≡ false
  pub on_first : f.header.stream ≡ 1
  pub size : frame_bytes f ≤ max_bytes

module _ {T : Type 0} (codec : CodecApi T) (type id max_bytes : ℕ) (registry : MessageRegistry)
    (value : T) (bytes : List ℕ) (v : Fits codec type id max_bytes registry value bytes) where
  -- The frame of the message on the first stream.
  abbrev pub first_frame : ℕ → ℕ → Frame
  first_frame kind flags =
      message_frame codec type registry value 1 kind flags default_max_payload_size id
        current_protocol_version bytes v.registered v.encoded

  first_frame-Sendable :
      (kind flags : ℕ)
      → (kind ≡ 1) ⊎ (kind ≡ 2)
      → flags < 6
      → Sendable default_max_payload_size (first_frame kind flags)
  first_frame-Sendable kind flags k l =
      message_frame-valid codec type registry value 1 kind flags default_max_payload_size id
        current_protocol_version bytes v.registered v.encoded (refl, refl) k l
        (ground arith, omega arith) v.payload_fits (omega arith)

  first_frame_bytes : (kind flags : ℕ) → frame_bytes (first_frame kind flags) ≤ max_bytes
  unfolding frame_bytes
  first_frame_bytes kind flags = omega (arith, length-prefixed id bytes, v.frame_fits)

  pub first_frame-Carries :
      (kind flags : ℕ)
      → (kind ≡ 1) ⊎ (kind ≡ 2)
      → (flags ≡ 0) ⊎ (flags ≡ 1)
      → Carries kind max_bytes (first_frame kind flags)
  unfolding has_flag
  first_frame-Carries kind flags k l = record {
    sendable = first_frame-Sendable kind flags k (omega arith);
    of_kind = ground arith;
    plain = ground arith;
    fine = ground arith;
    on_first = refl;
    size = first_frame_bytes kind flags;
  }

  pub encode_first_frame :
      (kind : ℕ)
      → encode_message codec type registry value 1 kind Flags.none default_max_payload_size
          current_protocol_version
        ≡ success (first_frame kind Flags.none)
  encode_first_frame kind =
      encode_message_fits codec type registry value 1 kind Flags.none default_max_payload_size id
        current_protocol_version bytes v.registered v.encoded v.payload_fits (omega arith)

  pub decode_first_frame :
      (kind flags : ℕ) → decode_message codec type registry (first_frame kind flags) ≡ success value
  decode_first_frame kind flags =
      decode_message_frame codec type registry value 1 kind flags default_max_payload_size id
        current_protocol_version bytes v.registered v.encoded v.id_fits v.back
