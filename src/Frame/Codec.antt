-- ===== src/Frame/Codec.antt =====
-- include/rillnet/frame_codec.hpp: the 18 bytes of a frame header on the wire, big-endian. A byte is
-- a number below 256; `>>` is a division, `<<` a multiplication and `& 0xFF` a remainder.
use rillnet.Base.{
  ℕ, zero, suc, ◌+◌, ◌*◌, ◌/◌, ◌%◌, ◌^◌, ltb, bit_or, Option, none, some, List, [], ◌∷◌, ◌++◌,
  length, if◌then◌else◌,
}
use rillnet.Frame.{FrameHeader, Frame}

abbrev pub frame_header_size : ℕ
frame_header_size = 18

unfoldable pub write_be16 : ℕ → List ℕ
write_be16 value = (value / 2 ^ 8 % 256) ∷ (value % 256) ∷ []

unfoldable pub write_be32 : ℕ → List ℕ
write_be32 value =
    (value / 2 ^ 24 % 256) ∷ (value / 2 ^ 16 % 256) ∷ (value / 2 ^ 8 % 256) ∷ (value % 256) ∷ []

-- The loop from i = 0 to 7, by the rounds that are left: the shift is 56 - 8 * i.
write_be64_loop : ℕ → ℕ → List ℕ
write_be64_loop zero value = []
write_be64_loop (suc left) value = (value / 2 ^ (8 * left) % 256) ∷ write_be64_loop left value

unfoldable pub write_be64 : ℕ → List ℕ
unfolding write_be64_loop
write_be64 value = write_be64_loop 8 value

-- in[i]
unfoldable pub byte_at : List ℕ → ℕ → ℕ
byte_at [] i = 0
byte_at (b ∷ bytes) zero = b
byte_at (b ∷ bytes) (suc i) = byte_at bytes i

-- A shifted byte and the cast to std::uint16_t.
unfoldable pub read_be16 : List ℕ → ℕ → ℕ
unfolding byte_at
read_be16 bytes at = bit_or (byte_at bytes at * 2 ^ 8) (byte_at bytes (at + 1)) % 2 ^ 16

unfoldable pub read_be32 : List ℕ → ℕ → ℕ
unfolding byte_at
read_be32 bytes at =
    bit_or
      (bit_or (bit_or (byte_at bytes at * 2 ^ 24 % 2 ^ 32) (byte_at bytes (at + 1) * 2 ^ 16))
        (byte_at bytes (at + 2) * 2 ^ 8))
      (byte_at bytes (at + 3))

read_be64_loop : ℕ → List ℕ → ℕ → ℕ → ℕ
unfolding byte_at
read_be64_loop zero bytes at value = value
read_be64_loop (suc left) bytes at value =
    read_be64_loop left bytes (at + 1) (bit_or (value * 2 ^ 8 % 2 ^ 64) (byte_at bytes at))

unfoldable pub read_be64 : List ℕ → ℕ → ℕ
unfolding read_be64_loop
read_be64 bytes at = read_be64_loop 8 bytes at 0

unfoldable pub encode_frame_header : FrameHeader → List ℕ
unfolding write_be16 write_be32 write_be64
encode_frame_header header =
    write_be16 header.version.major
    ++ (write_be16 header.version.minor
        ++ (header.type
            ∷ header.flags
            ∷ (write_be64 header.stream ++ write_be32 header.payload_size)))

unfoldable pub decode_frame_header : List ℕ → Option FrameHeader
decode_frame_header bytes =
    if ltb (length bytes) frame_header_size
    then none
    else some (record {
      version = record { major = read_be16 bytes 0; minor = read_be16 bytes 2 };
      type = byte_at bytes 4;
      flags = byte_at bytes 5;
      stream = read_be64 bytes 6;
      payload_size = read_be32 bytes 14;
    })

unfoldable pub encode_frame : Frame → List ℕ
unfolding encode_frame_header
encode_frame frame = encode_frame_header frame.header ++ frame.payload
