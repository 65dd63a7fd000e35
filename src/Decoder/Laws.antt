-- ===== src/Decoder/Laws.antt =====
-- frame_decoder.hpp: what callers rely on, on streams in pieces, encoded frames and errors.
use rillnet.Base.{
  ℕ, ◌<◌, ◌≡◌, none, length-append, Option-cases, inl, inr, refl, sym, ap, ◌∙◌, List, [], ◌∷◌, ◌++◌,
  length, some, All, append-nil, arith, false, ltb, subst,
}
use rillnet.Frame.{Frame, FrameValidationError, validate_frame}
use rillnet.Frame.Codec.{encode_frame_header, encode_frame, decode_frame_header}
use rillnet.Frame.Validation.{FitsHeader}
use rillnet.Frame.RoundTrip.{
  length-encode_frame_header, decode_frame_header-encode_frame_header, encode_all,
}
use rillnet.Decoder.{FrameDecoder, rejects, new_decoder, push, reset}
use rillnet.Decoder.Stream.{
  View, in_header, failed, Output, gather_payload, accept_header, gather_header, feed_all, resume,
  feed_all-append, resume-append, feed_all-failed, gather_header_open, resume-gather_payload,
  resume-gather_header,
}
use rillnet.Decoder.State.{Inv, view}
use rillnet.Decoder.Refinement.{push-Inv, push_keeps_limit, push_refines}

-- A new decoder, and one that was reset, is well formed and has taken in nothing.
pub new_decoder-Inv : (max : ℕ) → Inv (new_decoder max)
unfolding new_decoder
new_decoder-Inv max = (refl, (omega arith, refl, refl))

pub reset-Inv : (d : FrameDecoder) → Inv d → Inv (reset d)
unfolding reset
reset-Inv d v = (v.0, (omega arith, refl, refl))

-- What a call of push comes to: what the decoder has taken in, and the frames.
abbrev pub outcome : FrameDecoder × List Frame → View × List Frame
outcome (d, frames) = (view d, frames)

abbrev pub push_both : FrameDecoder → List ℕ → List ℕ → View × List Frame
push_both d xs ys =
    let (d', frames) = push d xs in let (d'', frames') = push d' ys in (view d'', frames ++ frames')

-- However a stream is cut in two, a well-formed decoder pushes the same frames in the same order and
-- comes to the same view.
pub push-append :
    (d : FrameDecoder) (xs ys : List ℕ) → Inv d → outcome (push d (xs ++ ys)) ≡ push_both d xs ys
push-append d xs ys v =
    sym (push_refines d (xs ++ ys) v)
    ∙ feed_all-append d.max_payload_size (view d) xs ys
    ∙ ap (λ (o : Output). resume d.max_payload_size o ys) (push_refines d xs v)
    ∙ ap (λ (o : Output). let o' : Output = (o.0, (push d xs).1 ++ o.1) in o')
        (subst
          (λ m.
            feed_all m (view (push d xs).0) ys
            ≡ (view (push (push d xs).0 ys).0, (push (push d xs).0 ys).1))
          (push_keeps_limit d xs v) (push_refines (push d xs).0 ys (push-Inv d xs v)))

-- Validation of the bare header, which start_frame makes, finds at most the length to be wrong.
header_passes :
    (f : Frame) (max : ℕ)
    → validate_frame f max ≡ FrameValidationError.none
    → rejects (validate_frame (record { header = f.header; payload = [] }) max) ≡ false
unfolding validate_frame
header_passes f max e = ground arith

accepted :
    (f : Frame) (max : ℕ)
    → FitsHeader f.header
    → validate_frame f max ≡ FrameValidationError.none
    → gather_header max (encode_frame_header f.header) ≡ gather_payload f.header []
unfolding gather_header accept_header
accepted f max v e =
    let decoded : decode_frame_header (encode_frame_header f.header) ≡ some f.header =
      ap decode_frame_header (sym (append-nil (encode_frame_header f.header)))
      ∙ decode_frame_header-encode_frame_header f.header [] v in
    let long : ltb (length (encode_frame_header f.header)) 18 ≡ false =
      rw (length-encode_frame_header f.header) in
    rw (long, gather_header) (rw (decoded, accept_header) (rw (header_passes f max e)))

finished :
    (f : Frame) (max : ℕ)
    → validate_frame f max ≡ FrameValidationError.none
    → (gather_payload f.header f.payload ≡ (in_header [], f ∷ []))
      × (length f.payload ≡ f.header.payload_size)
unfolding gather_payload validate_frame
finished f max e = (ground arith, ground arith)

-- One encoded frame, fed to a decoder between frames.
feed_all-encode_frame :
    (f : Frame) (max : ℕ)
    → FitsHeader f.header
    → validate_frame f max ≡ FrameValidationError.none
    → feed_all max (in_header []) (encode_frame f) ≡ (in_header [], f ∷ [])
unfolding encode_frame
feed_all-encode_frame f max v e =
    ap (λ (o : Output). resume max o (encode_frame_header f.header ++ f.payload))
      (sym (gather_header_open max [] (omega arith)))
    ∙ resume-append max (gather_header max []) (encode_frame_header f.header) f.payload
    ∙ ap (λ (o : Output). resume max o f.payload)
        (resume-gather_header max [] (encode_frame_header f.header)
            (omega (arith, length-encode_frame_header f.header))
          ∙ accepted f max v e)
    ∙ resume-gather_payload max f.header [] f.payload (omega (arith, (finished f max e).1))
    ∙ (finished f max e).0

abbrev pub Sendable : ℕ → Frame → Type 0
Sendable max f = FitsHeader f.header × (validate_frame f max ≡ FrameValidationError.none)

feed_all-encode_all :
    (fs : List Frame) (max : ℕ)
    → All (Sendable max) fs
    → feed_all max (in_header []) (encode_all fs) ≡ (in_header [], fs)
unfolding encode_all feed_all
feed_all-encode_all [] max v = refl
feed_all-encode_all (f ∷ fs) max (v, vs) =
    feed_all-append max (in_header []) (encode_frame f) (encode_all fs)
    ∙ ap (λ (o : Output). resume max o (encode_all fs)) (feed_all-encode_frame f max v.0 v.1)
    ∙ ap (λ (o : Output). let o' : Output = (o.0, f ∷ o.1) in o') (feed_all-encode_all fs max vs)

-- A well-formed decoder that is between frames pushes exactly the frames whose encodings it is
-- given, one after another, and is between frames again, if each of them fits its machine types and
-- passes validation under the decoder's payload limit.
pub push-encode_all :
    (d : FrameDecoder) (fs : List Frame)
    → Inv d
    → view d ≡ in_header []
    → All (Sendable d.max_payload_size) fs
    → outcome (push d (encode_all fs)) ≡ (in_header [], fs)
push-encode_all d fs v e s =
    sym (push_refines d (encode_all fs) v)
    ∙ ap (λ w. feed_all d.max_payload_size w (encode_all fs)) e
    ∙ feed_all-encode_all fs d.max_payload_size s

error_view : (d : FrameDecoder) (x : FrameValidationError) → d.error ≡ some x → view d ≡ failed x
error_view d x e = simp e

-- Once a decoder has an error, further input changes nothing that it has taken in, keeps the error
-- and pushes no frame.
push_failed :
    (d : FrameDecoder) (x : FrameValidationError) (bytes : List ℕ)
    → Inv d
    → d.error ≡ some x
    → outcome (push d bytes) ≡ (failed x, [])
push_failed d x bytes v e =
    sym (push_refines d bytes v)
    ∙ ap (λ w. feed_all d.max_payload_size w bytes) (error_view d x e)
    ∙ feed_all-failed d.max_payload_size x bytes

pub length-encode_frame : (f : Frame) → 0 < length (encode_frame f)
unfolding encode_frame
length-encode_frame f = omega (
  arith,
  length-append (encode_frame_header f.header) f.payload,
  length-encode_frame_header f.header,
)

view_open : (d : FrameDecoder) (filled : List ℕ) → view d ≡ in_header filled → d.error ≡ none
view_open d filled e = elim (Option-cases d.error) [
  | inl fine ↦ fine
  | inr (x, wrong) ↦ absurd (cc (sym e ∙ error_view d x wrong))
]

-- A decoder between two frames that is given the bytes of one frame: the frame comes out, and the
-- decoder has not failed.
pub push-encode_frame :
    (d : FrameDecoder) (f : Frame)
    → Inv d
    → view d ≡ in_header []
    → Sendable d.max_payload_size f
    → let (d', frames) = push d (encode_frame f) in (frames ≡ f ∷ []) × (d'.error ≡ none)
push-encode_frame d f v e s =
    let all : outcome (push d (encode_frame f)) ≡ (in_header [], f ∷ []) =
      unfold encode_all in
      subst (λ bytes. outcome (push d bytes) ≡ (in_header [], f ∷ [])) (append-nil (encode_frame f))
        (push-encode_all d (f ∷ []) v e (s, tt)) in
    (ap (λ o. o.1) all, view_open (push d (encode_frame f)).0 [] (ap (λ o. o.0) all))
