-- ===== src/Decoder/Soundness.antt =====
-- frame_decoder.hpp: the frames that are pushed, and validate_frame.
use rillnet.Base.{
  ℕ, ◌^◌, ◌<◌, ◌≡◌, refl, subst, List, [], ◌∷◌, ◌++◌, length, All, All-append, arith, false, ltb,
  Option-cases, Bool-cases, inl, inr,
}
use rillnet.Frame.{FrameHeader, Frame, FrameValidationError, validate_frame}
use rillnet.Frame.Codec.{decode_frame_header}
use rillnet.Decoder.{rejects, new_decoder, push}
use rillnet.Decoder.Stream.{
  View, in_header, in_payload, failed, Output, gather_payload, accept_header, gather_header, feed,
  feed_all,
}
use rillnet.Decoder.State.{view}
use rillnet.Decoder.Refinement.{push_refines}
use rillnet.Decoder.Laws.{new_decoder-Inv}

-- A header that start_frame lets through, and what holds of a view and of the frames after it.
abbrev Accepts : ℕ → FrameHeader → Type 0
Accepts max h = rejects (validate_frame (record { header = h; payload = [] }) max) ≡ false

abbrev Valid : ℕ → Frame → Type 0
Valid max f = validate_frame f max ≡ FrameValidationError.none

abbrev Waits : ℕ → View → Type 0
Waits max (in_header bytes) = Unit {0}
Waits max (in_payload h bytes) = Accepts max h
Waits max (failed e) = Unit {0}

abbrev Sound : ℕ → Output → Type 0
Sound max (v, frames) = Waits max v × All (Valid max) frames

accepted_payload-Valid :
    (max : ℕ) (h : FrameHeader) (bytes : List ℕ)
    → max < 2 ^ 32
    → Accepts max h
    → length bytes ≡ h.payload_size
    → Valid max (record { header = h; payload = bytes })
unfolding validate_frame
accepted_payload-Valid max h bytes m a e = ground arith

gather_payload-Sound :
    (max : ℕ) (h : FrameHeader) (bytes : List ℕ)
    → max < 2 ^ 32
    → Accepts max h
    → Sound max (gather_payload h bytes)
unfolding gather_payload
gather_payload-Sound max h bytes m a = ground (arith, accepted_payload-Valid max h bytes m a)

accept_header-Sound :
    (max : ℕ) (bytes : List ℕ) → max < 2 ^ 32 → Sound max (accept_header max bytes)
unfolding accept_header
accept_header-Sound max bytes m = elim (Option-cases (decode_frame_header bytes)) [
  | inl e ↦ rw (e, accept_header) (tt, tt)
  | inr (h, e) ↦
      elim (Bool-cases (rejects (validate_frame (record { header = h; payload = [] }) max))) [
        | inl bad ↦ rw (e, accept_header) (rw bad (tt, tt))
        | inr good ↦ rw (e, accept_header) (rw good (gather_payload-Sound max h [] m good))
      ]
]

gather_header-Sound :
    (max : ℕ) (bytes : List ℕ) → max < 2 ^ 32 → Sound max (gather_header max bytes)
unfolding gather_header
gather_header-Sound max bytes m = elim (Bool-cases (ltb (length bytes) 18)) [
  | inl short ↦ rw (short, gather_header) (tt, tt)
  | inr full ↦ rw (full, gather_header) (accept_header-Sound max bytes m)
]

feed-Sound : (max : ℕ) (v : View) (b : ℕ) → max < 2 ^ 32 → Waits max v → Sound max (feed max v b)
unfolding feed
feed-Sound max (in_header bytes) b m w = gather_header-Sound max (bytes ++ b ∷ []) m
feed-Sound max (in_payload h bytes) b m w = gather_payload-Sound max h (bytes ++ b ∷ []) m w
feed-Sound max (failed e) b m w = (tt, tt)

feed_all-Sound :
    (max : ℕ) (v : View) (bytes : List ℕ)
    → max < 2 ^ 32
    → Waits max v
    → Sound max (feed_all max v bytes)
unfolding feed_all
feed_all-Sound max v [] m w = (w, tt)
feed_all-Sound max v (b ∷ bytes) m w =
    let one = feed-Sound max v b m w in
    let rest = feed_all-Sound max (feed max v b).0 bytes m one.0 in
    (rest.0, All-append (Valid max) (feed max v b).1 _ one.1 rest.1)

-- A new decoder whose payload limit is a std::uint32_t pushes, out of any bytes at all, only frames
-- that validate_frame accepts under that limit.
pub push_sound :
    (max : ℕ) (bytes : List ℕ)
    → max < 2 ^ 32
    → All (λ f. validate_frame f max ≡ FrameValidationError.none) (push (new_decoder max) bytes).1
push_sound max bytes m =
    let start : Waits max (view (new_decoder max)) = unfold new_decoder in tt in
    let limit : (new_decoder max).max_payload_size ≡ max = unfold new_decoder in refl in
    subst (λ (o : Output). All (Valid max) o.1)
      (subst
        (λ k.
          feed_all k (view (new_decoder max)) bytes
          ≡ (view (push (new_decoder max) bytes).0, (push (new_decoder max) bytes).1))
        limit (push_refines (new_decoder max) bytes (new_decoder-Inv max)))
      (feed_all-Sound max (view (new_decoder max)) bytes m start).1
