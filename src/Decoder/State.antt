-- ===== src/Decoder/State.antt =====
-- frame_decoder.hpp: the invariant of the decoder between two calls, and what one pass of the loop of
-- push must do.
use rillnet.Base.{
  ℕ, ◌≤◌, ◌<◌, ◌≡◌, sym, ap, ◌∙◌, false, Option, none, some, List, [], length, take, drop,
  take-append-drop,
}
use rillnet.Frame.{FrameHeader, FrameValidationError}
use rillnet.Decoder.{FrameDecoder, Pass}
use rillnet.Decoder.Stream.{
  View, in_header, in_payload, failed, Output, feed_all, resume, resume-append,
}

abbrev pub view_of : Option FrameValidationError → Option FrameHeader → List ℕ → List ℕ → View
view_of (some e) header filled body = failed e
view_of none none filled body = in_header filled
view_of none (some h) filled body = in_payload h body

-- What the object has taken in: the filled parts of its buffers.
abbrev pub view : FrameDecoder → View
view d =
    view_of d.error d.header (take d.header_bytes_size d.header_bytes)
      (take d.payload_bytes_size d.payload)

abbrev pub Shape : Option FrameValidationError → Option FrameHeader → FrameDecoder → Type 0
Shape (some e) header d = Unit {0}
Shape none none d = (d.header_bytes_size < 18) × (d.payload ≡ []) × (d.payload_bytes_size ≡ 0)
Shape none (some h) d =
    (length d.payload ≡ h.payload_size) × (d.payload_bytes_size < h.payload_size)

-- How the members hang together between two calls of push.
abbrev pub Inv : FrameDecoder → Type 0
Inv d = (length d.header_bytes ≡ 18) × Shape d.error d.header d

-- What a pass over `bytes` must do, where the reference stands at `start` before it.
abbrev pub PassOk : ℕ → Output → List ℕ → ℕ → Pass → Type 0
PassOk max start bytes bound (d, frames, rest, more) =
    Inv d
    × (d.max_payload_size ≡ max)
    × (resume max start bytes ≡ resume max (view d, frames) rest)
    × (length rest ≤ bound)
    × (more ≡ false → feed_all max (view d) rest ≡ (view d, []))

-- Feeding a source is feeding what a copy takes of it, and then the rest.
pub resume_split :
    (max c : ℕ) (o : Output) (bytes : List ℕ)
    → resume max o bytes ≡ resume max (resume max o (take c bytes)) (drop c bytes)
resume_split max c o bytes =
    ap (resume max o) (sym (take-append-drop c bytes))
    ∙ resume-append max o (take c bytes) (drop c bytes)
