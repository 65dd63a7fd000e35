-- ===== src/Frame/Validation.antt =====
-- frame.hpp and protocol_violation.hpp: what validation accepts, and which statuses cross the wire.
use rillnet.Base.{
  ℕ, ◌^◌, ◌≤◌, ◌<◌, ◌≡◌, refl, ◌≢◌, ◌⊎◌, ◌↔◌, Bool, true, false, none, some, length, arith,
  if◌then◌else◌,
}
use rillnet.Status.{StatusCode, status_category, StatusCategory}
use rillnet.Frame.{Frame, FrameHeader, FrameValidationError, validate_frame}
use rillnet.Frame.Flags.{has_only_known_flags_lem, has_flag_clash}
use rillnet.Frame.Errors.{make_error_frame, decode_error_status}

-- The members are within their machine types.
pub record FitsHeader (h : FrameHeader) : Type 0 where
  pub major : h.version.major < 2 ^ 16
  pub minor : h.version.minor < 2 ^ 16
  pub type : h.type < 256
  pub flags : h.flags < 256
  pub stream : h.stream < 2 ^ 64
  pub payload_size : h.payload_size < 2 ^ 32

-- docs/frame-model.md, "A valid frame must".
pub record IsValid (max : ℕ) (f : Frame) : Type 0 where
  pub current_version : (f.header.version.major ≡ 0) × (f.header.version.minor ≡ 1)
  pub known_type : (f.header.type ≡ 1) ⊎ (f.header.type ≡ 2)
  -- end_of_stream, cancel and error, and of the last two not both
  pub plain_flags : f.header.flags < 6
  pub valid_stream : f.header.stream ≢ 0
  pub within_limit : f.header.payload_size ≤ max
  pub exact_size : f.header.payload_size ≡ length f.payload

-- A frame whose members are within their machine types passes validation exactly if it is valid in
-- the sense of docs/frame-model.md.
pub validate_frame_iff :
    (f : Frame) (max : ℕ)
    → FitsHeader f.header
    → (validate_frame f max ≡ FrameValidationError.none) ↔ IsValid max f
unfolding validate_frame
validate_frame_iff f max v = (
  λ e. ground (arith, has_only_known_flags_lem f.header.flags, has_flag_clash f.header.flags),
  λ w. ground (arith, has_only_known_flags_lem f.header.flags, has_flag_clash f.header.flags),
)

-- The statuses that a peer can be told of: every one but `ok` and the transport failures.
abbrev pub crosses : StatusCategory → Bool
crosses StatusCategory.ok = false
crosses StatusCategory.transport = false
crosses _ = true

-- From the error frame that is made for a status, on any stream, that status is decoded if it is
-- neither `ok` nor a transport failure, and none if it is.
pub decode_error_status-make_error_frame :
    (stream : ℕ) (c : StatusCode)
    → decode_error_status (make_error_frame stream c)
      ≡ (if crosses (status_category c) then some c else none)
unfolding decode_error_status make_error_frame status_category
decode_error_status-make_error_frame stream StatusCode.ok = refl
decode_error_status-make_error_frame stream _ = refl

make_error_frame-IsValid :
    (stream : ℕ) (c : StatusCode) → stream ≢ 0 → IsValid 2 (make_error_frame stream c)
unfolding make_error_frame
make_error_frame-IsValid stream c h = ground arith
