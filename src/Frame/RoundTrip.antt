-- ===== src/Frame/RoundTrip.antt =====
-- frame_codec.hpp: decoding what was encoded.
use rillnet.Base.{
  ℕ, ◌+◌, ◌*◌, ◌/◌, ◌%◌, ◌^◌, ◌<◌, ◌≡◌, refl, ap, bit_or, some, List, [], ◌∷◌, ◌++◌, append_assoc,
  sym, ◌∙◌, length, arith, ltb, false, length-append,
}
use rillnet.Base.Bits.{bit_or_shifted}
use rillnet.Frame.{Frame, FrameHeader}
use rillnet.Frame.Validation.{FitsHeader}
use rillnet.Frame.Codec.{
  write_be32, write_be64, read_be16, read_be32, read_be64, encode_frame_header, decode_frame_header,
  byte_at, encode_frame,
}

join16 : (v : ℕ) → v < 2 ^ 16 → bit_or (v / 2 ^ 8 % 256 * 2 ^ 8) (v % 256) % 2 ^ 16 ≡ v
join16 v h = rw (bit_or_shifted 8 (v / 2 ^ 8 % 256) (v % 256) (omega arith)) (omega arith)

or_add : (k q x b : ℕ) → x ≡ q * 2 ^ k → b < 2 ^ k → bit_or x b ≡ x + b
or_add k q x b e h = rw e (bit_or_shifted k q b h)

join32 :
    (v : ℕ)
    → v < 2 ^ 32
    → bit_or
        (bit_or
          (bit_or (v / 2 ^ 24 % 256 * 2 ^ 24 % 2 ^ 32) (v / 2 ^ 16 % 256 * 2 ^ 16))
          (v / 2 ^ 8 % 256 * 2 ^ 8))
        (v % 256)
      ≡ v
join32 v h =
    let top : v / 2 ^ 24 % 256 * 2 ^ 24 % 2 ^ 32 ≡ v / 2 ^ 24 * 2 ^ 24 = omega arith in
    let one : bit_or (v / 2 ^ 24 * 2 ^ 24) (v / 2 ^ 16 % 256 * 2 ^ 16) ≡ v / 2 ^ 16 * 2 ^ 16 =
      omega (
        arith,
        or_add 24 (v / 2 ^ 24) (v / 2 ^ 24 * 2 ^ 24) (v / 2 ^ 16 % 256 * 2 ^ 16) refl (omega arith),
      ) in
    let two : bit_or (v / 2 ^ 16 * 2 ^ 16) (v / 2 ^ 8 % 256 * 2 ^ 8) ≡ v / 2 ^ 8 * 2 ^ 8 = omega (
      arith,
      or_add 16 (v / 2 ^ 16) (v / 2 ^ 16 * 2 ^ 16) (v / 2 ^ 8 % 256 * 2 ^ 8) refl (omega arith),
    ) in
    rw (top, one, two)
      (omega (arith, or_add 8 (v / 2 ^ 8) (v / 2 ^ 8 * 2 ^ 8) (v % 256) refl (omega arith)))

pub read_be32-write_be32 :
    (v : ℕ) (rest : List ℕ) → v < 2 ^ 32 → read_be32 (write_be32 v ++ rest) 0 ≡ v
unfolding read_be32 write_be32
read_be32-write_be32 v rest h = join32 v h

-- One round of the 64-bit loop, with q the value that has been read and b the next byte.
join64 : (q b v : ℕ) → v < 2 ^ 64 → v ≡ q * 256 + b → b < 256 → bit_or (q * 2 ^ 8 % 2 ^ 64) b ≡ v
join64 q b v h e l =
    let top : q * 2 ^ 8 % 2 ^ 64 ≡ q * 2 ^ 8 = omega arith in
    rw top (omega (arith, or_add 8 q (q * 2 ^ 8) b refl l))

read_be64-write_be64 :
    (v a b c d e f : ℕ) (rest : List ℕ)
    → v < 2 ^ 64
    → read_be64 (a ∷ b ∷ c ∷ d ∷ e ∷ f ∷ (write_be64 v ++ rest)) 6 ≡ v
unfolding read_be64 write_be64
read_be64-write_be64 v a b c d e f rest h = rw (
  join64 0 (v / 2 ^ 56 % 256) (v / 2 ^ 56) (omega arith) (omega arith) (omega arith),
  join64 (v / 2 ^ 56) (v / 2 ^ 48 % 256) (v / 2 ^ 48) (omega arith) (omega arith) (omega arith),
  join64 (v / 2 ^ 48) (v / 2 ^ 40 % 256) (v / 2 ^ 40) (omega arith) (omega arith) (omega arith),
  join64 (v / 2 ^ 40) (v / 2 ^ 32 % 256) (v / 2 ^ 32) (omega arith) (omega arith) (omega arith),
  join64 (v / 2 ^ 32) (v / 2 ^ 24 % 256) (v / 2 ^ 24) (omega arith) (omega arith) (omega arith),
  join64 (v / 2 ^ 24) (v / 2 ^ 16 % 256) (v / 2 ^ 16) (omega arith) (omega arith) (omega arith),
  join64 (v / 2 ^ 16) (v / 2 ^ 8 % 256) (v / 2 ^ 8) (omega arith) (omega arith) (omega arith),
  join64 (v / 2 ^ 8) (v / 1 % 256) v (omega arith) (omega arith) (omega arith),
)

-- An encoded header has frame_header_size bytes.
pub length-encode_frame_header : (h : FrameHeader) → length (encode_frame_header h) ≡ 18
unfolding encode_frame_header
length-encode_frame_header h = refl

module _ (h : FrameHeader) (rest : List ℕ) (v : FitsHeader h) where
  bytes : List ℕ
  bytes = encode_frame_header h ++ rest

  read_major : read_be16 bytes 0 ≡ h.version.major
  unfolding bytes encode_frame_header read_be16
  read_major = join16 h.version.major v.major

  read_minor : read_be16 bytes 2 ≡ h.version.minor
  unfolding bytes encode_frame_header read_be16
  read_minor = join16 h.version.minor v.minor

  read_type : byte_at bytes 4 ≡ h.type
  unfolding bytes encode_frame_header byte_at
  read_type = refl

  read_flags : byte_at bytes 5 ≡ h.flags
  unfolding bytes encode_frame_header byte_at
  read_flags = refl

  read_stream : read_be64 bytes 6 ≡ h.stream
  unfolding bytes encode_frame_header read_be64
  read_stream =
      read_be64-write_be64 h.stream 0 0 0 0 0 0 (write_be32 h.payload_size ++ rest) v.stream

  read_payload_size : read_be32 bytes 14 ≡ h.payload_size
  unfolding bytes encode_frame_header read_be32
  read_payload_size = join32 h.payload_size v.payload_size

  whole : ltb (length bytes) 18 ≡ false
  unfolding bytes
  whole = ground (arith, length-append (encode_frame_header h) rest, length-encode_frame_header h)

  -- A header whose members are within their machine types is decoded from its encoding, whatever
  -- bytes follow.
  pub decode_frame_header-encode_frame_header :
      decode_frame_header (encode_frame_header h ++ rest) ≡ some h
  unfolding decode_frame_header bytes
  decode_frame_header-encode_frame_header =
      rw (whole, read_major, read_minor, read_type, read_flags, read_stream, read_payload_size)

-- The wire image of frames written one after another.
unfoldable pub encode_all : List Frame → List ℕ
encode_all [] = []
encode_all (f ∷ fs) = encode_frame f ++ encode_all fs

pub encode_all-append :
    (fs gs : List Frame) → encode_all (fs ++ gs) ≡ encode_all fs ++ encode_all gs
unfolding encode_all
encode_all-append [] gs = refl
encode_all-append (f ∷ fs) gs =
    ap (◌++◌ (encode_frame f)) (encode_all-append fs gs)
    ∙ sym (append_assoc (encode_frame f) (encode_all fs) (encode_all gs))
