-- ===== src/Decoder/Stream.antt =====
-- What a frame decoder means, one byte at a time: the reference that frame_decoder.hpp is held to.
use rillnet.Base.{
  ℕ, ◌+◌, ◌≤◌, ◌<◌, ◌≡◌, refl, ap, ◌==◌, ltb, none, some, List, [], ◌∷◌, ◌++◌, length,
  length-append, ◌∙◌, append-nil, append_assoc, arith, if◌then◌else◌,
}
use rillnet.Frame.{
  FrameHeader, Frame, FrameValidationError, payload_length_mismatch, validate_frame,
}
use rillnet.Frame.Codec.{decode_frame_header}
use rillnet.Decoder.{rejects}

-- The bytes of an unfinished header, a header with the bytes of its unfinished payload, or an error.
pub data View : Type 0 where
  in_header : List ℕ → View
  in_payload : FrameHeader → List ℕ → View
  failed : FrameValidationError → View

abbrev pub Output : Type 0
Output = View × List Frame

-- A payload is finished when it has the declared size, also when that is 0.
unfoldable pub gather_payload : FrameHeader → List ℕ → Output
gather_payload h bytes =
    if length bytes == h.payload_size
    then (in_header [], record { header = h; payload = bytes } ∷ [])
    else (in_payload h bytes, [])

-- A complete header is decoded and validated, its length apart.
unfoldable pub accept_header : ℕ → List ℕ → Output
unfolding gather_payload
accept_header max bytes = elim (decode_frame_header bytes) [
  | none ↦ (failed payload_length_mismatch, [])
  | some h ↦
      let validation = validate_frame (record { header = h; payload = [] }) max in
      if rejects validation then (failed validation, []) else gather_payload h []
]

unfoldable pub gather_header : ℕ → List ℕ → Output
unfolding accept_header
gather_header max bytes =
    if ltb (length bytes) 18 then (in_header bytes, []) else accept_header max bytes

-- One byte. A failed decoder takes no more input.
unfoldable pub feed : ℕ → View → ℕ → Output
feed max (in_header bytes) b = gather_header max (bytes ++ b ∷ [])
feed max (in_payload h bytes) b = gather_payload h (bytes ++ b ∷ [])
feed max (failed e) b = (failed e, [])

unfoldable pub feed_all : ℕ → View → List ℕ → Output
unfolding feed
feed_all max v [] = (v, [])
feed_all max v (b ∷ bytes) =
    let (v', frames) = feed max v b in
    let (v'', frames') = feed_all max v' bytes in (v'', frames ++ frames')

-- Going on from an output.
abbrev pub resume : ℕ → Output → List ℕ → Output
resume max (v, frames) bytes = let (v', frames') = feed_all max v bytes in (v', frames ++ frames')

-- The bytes can be fed in two parts.
pub feed_all-append :
    (max : ℕ) (v : View) (xs ys : List ℕ)
    → feed_all max v (xs ++ ys) ≡ resume max (feed_all max v xs) ys
unfolding feed_all
feed_all-append max v [] ys = refl
feed_all-append max v (x ∷ xs) ys =
    rw (feed_all-append max (feed max v x).0 xs ys) (rw append_assoc)

pub resume-append :
    (max : ℕ) (o : Output) (xs ys : List ℕ)
    → resume max o (xs ++ ys) ≡ resume max (resume max o xs) ys
resume-append max (v, frames) xs ys = rw (feed_all-append max v xs ys) (rw append_assoc)

pub feed_all-failed :
    (max : ℕ) (e : FrameValidationError) (bytes : List ℕ)
    → feed_all max (failed e) bytes ≡ (failed e, [])
unfolding feed_all
feed_all-failed max e [] = refl
feed_all-failed max e (b ∷ bytes) = rw (feed_all-failed max e bytes)

pub gather_payload_open :
    (h : FrameHeader) (bytes : List ℕ)
    → length bytes < h.payload_size
    → gather_payload h bytes ≡ (in_payload h bytes, [])
unfolding gather_payload
gather_payload_open h bytes l = ground arith

pub gather_header_open :
    (max : ℕ) (bytes : List ℕ) → length bytes < 18 → gather_header max bytes ≡ (in_header bytes, [])
unfolding gather_header
gather_header_open max bytes l = ground arith

-- Bytes up to the declared size go to the payload, and up to 18 to the header.
pub resume-gather_payload :
    (max : ℕ) (h : FrameHeader) (bytes more : List ℕ)
    → length bytes + length more ≤ h.payload_size
    → resume max (gather_payload h bytes) more ≡ gather_payload h (bytes ++ more)
unfolding feed_all
resume-gather_payload max h bytes [] l = simp append-nil
resume-gather_payload max h bytes (b ∷ more) l = rw (gather_payload_open h bytes (omega arith)) (
    resume-gather_payload max h (bytes ++ b ∷ []) more (omega (arith, length-append bytes (b ∷ [])))
    ∙ ap (gather_payload h) (append_assoc bytes (b ∷ []) more))

pub resume-gather_header :
    (max : ℕ) (bytes more : List ℕ)
    → length bytes + length more ≤ 18
    → resume max (gather_header max bytes) more ≡ gather_header max (bytes ++ more)
unfolding feed_all
resume-gather_header max bytes [] l = simp append-nil
resume-gather_header max bytes (b ∷ more) l = rw (gather_header_open max bytes (omega arith)) (
    resume-gather_header max (bytes ++ b ∷ []) more (omega (arith, length-append bytes (b ∷ [])))
    ∙ ap (gather_header max) (append_assoc bytes (b ∷ []) more))
