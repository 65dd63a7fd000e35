-- ===== src/Decoder.antt =====
-- include/rillnet/frame_decoder.hpp: frames from a byte stream. Arrays and vectors are lists with
-- the sizes that the C++ object keeps beside them; a vector that was moved from is empty.
pub mod Stream
pub mod Copy
pub mod State
pub mod PayloadPass
pub mod HeaderPass
pub mod Refinement
pub mod Laws
pub mod Soundness
use rillnet.Base.{
  ℕ, zero, suc, ◌+◌, ◌-◌, ◌==◌, ltb, min, Bool, true, false, not, ◌||◌, Option, none, some, List,
  [], ◌∷◌, ◌++◌, length, take, drop, replicate, if◌then◌else◌,
}
use rillnet.Frame.{
  FrameHeader, Frame, FrameValidationError, payload_length_mismatch, validate_frame,
}
use rillnet.Frame.Codec.{frame_header_size, decode_frame_header}

pub record FrameDecoder : Type 0 where
  pub max_payload_size : ℕ
  pub header_bytes : List ℕ
  pub header_bytes_size : ℕ
  pub header : Option FrameHeader
  pub payload : List ℕ
  pub payload_bytes_size : ℕ
  pub error : Option FrameValidationError

unfoldable pub new_decoder : ℕ → FrameDecoder
new_decoder max_payload_size = record {
  max_payload_size = max_payload_size;
  header_bytes = replicate frame_header_size 0;
  header_bytes_size = 0;
  header = none;
  payload = [];
  payload_bytes_size = 0;
  error = none;
}

-- How many bytes copy_bytes copies, and the destination after it.
unfoldable pub copied_count : List ℕ → List ℕ → ℕ → ℕ
copied_count source destination at = min (length source) (length destination - at)

unfoldable pub copy_bytes : List ℕ → List ℕ → ℕ → List ℕ
unfolding copied_count
copy_bytes source destination at =
    let copied = copied_count source destination at in
    take at destination ++ (take copied source ++ drop (at + copied) destination)

-- vector.resize(n)
unfoldable pub resize : ℕ → List ℕ → List ℕ
resize n xs = take n xs ++ replicate (n - length xs) 0

-- `validation != none && validation != payload_length_mismatch`
abbrev pub rejects : FrameValidationError → Bool
rejects FrameValidationError.none = false
rejects payload_length_mismatch = false
rejects _ = true

unfoldable pub start_frame : FrameDecoder → FrameDecoder
unfolding resize
start_frame d = elim (decode_frame_header d.header_bytes) [
  | none ↦ record d { error = some payload_length_mismatch }
  | some h ↦
      let validation = validate_frame (record { header = h; payload = [] }) d.max_payload_size in
      if rejects validation
      then record d { error = some validation }
      else record d { header = some h; payload = resize h.payload_size d.payload }
]

-- One pass of the loop copies into the header, into the payload, or both. The result is the object,
-- the frames that it pushed, the bytes left, and whether the loop goes on.
abbrev pub Pass : Type 0
Pass = FrameDecoder × List Frame × List ℕ × Bool

unfoldable pub payload_pass : FrameHeader → FrameDecoder → List ℕ → Pass
unfolding copied_count copy_bytes
payload_pass h d bytes =
    let copied = copied_count bytes d.payload d.payload_bytes_size in
    let payload' = copy_bytes bytes d.payload d.payload_bytes_size in
    let size' = d.payload_bytes_size + copied in
    let rest = drop copied bytes in
    if size' == length payload'
    then (
      record d { header = none; header_bytes_size = 0; payload = []; payload_bytes_size = 0 },
      record { header = h; payload = payload' } ∷ [],
      rest,
      true,
    )
    else (record d { payload = payload'; payload_bytes_size = size' }, [], rest, true)

-- After start_frame: a break if it set the error.
unfoldable pub started_pass : FrameDecoder → List ℕ → Pass
unfolding payload_pass
started_pass d bytes = elim d.error [
  | some e ↦ (d, [], bytes, false)
  | none ↦ elim d.header [ some h ↦ payload_pass h d bytes | none ↦ (d, [], bytes, false) ]
]

unfoldable pub header_pass : FrameDecoder → List ℕ → Pass
unfolding copied_count copy_bytes started_pass start_frame
header_pass d bytes =
    let copied = copied_count bytes d.header_bytes d.header_bytes_size in
    let d' = record d {
      header_bytes = copy_bytes bytes d.header_bytes d.header_bytes_size;
      header_bytes_size = d.header_bytes_size + copied;
    } in
    let rest = drop copied bytes in
    if ltb d'.header_bytes_size frame_header_size
    then (d', [], rest, false)
    else started_pass (start_frame d') rest

unfoldable pub one_pass : FrameDecoder → List ℕ → Pass
one_pass d bytes = elim d.header [ some h ↦ payload_pass h d bytes | none ↦ header_pass d bytes ]

-- The loop: a pass for each unit of fuel, while there are bytes and no error. `push` gives as much
-- fuel as there are bytes, since each pass that goes on takes a byte at least.
unfoldable pub push_loop : ℕ → FrameDecoder → List ℕ → FrameDecoder × List Frame
push_loop zero d bytes = (d, [])
push_loop (suc fuel) d [] = (d, [])
push_loop (suc fuel) d (b ∷ bytes) = elim d.error [
  | some e ↦ (d, [])
  | none ↦
      let (d', frames, rest, more) = one_pass d (b ∷ bytes) in
      let (d'', frames') = push_loop fuel d' rest in
      if more then (d'', frames ++ frames') else (d', frames)
]

unfoldable pub push : FrameDecoder → List ℕ → FrameDecoder × List Frame
unfolding push_loop one_pass header_pass payload_pass
push d bytes = push_loop (length bytes) d bytes

abbrev is_some : Option FrameHeader → Bool
is_some none = false
is_some (some h) = true

unfoldable pub has_incomplete_frame : FrameDecoder → Bool
has_incomplete_frame d = is_some d.header || not (d.header_bytes_size == 0)

unfoldable pub reset : FrameDecoder → FrameDecoder
reset d = record d {
  header = none;
  header_bytes_size = 0;
  payload = [];
  payload_bytes_size = 0;
  error = none;
}
