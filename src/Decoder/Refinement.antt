-- ===== src/Decoder/Refinement.antt =====
-- frame_decoder.hpp: the decoder with its buffers against the byte-at-a-time reference.
use rillnet.Base.{
  ℕ, zero, suc, ◌≤◌, ◌<◌, ◌≡◌, refl, sym, ap, ◌∙◌, subst, true, false, Option, none, some, List, [],
  ◌∷◌, ◌++◌, length, take, length-take, length-drop, append-nil, arith, Option-cases, inl, inr,
  if◌then◌else◌,
}
use rillnet.Frame.{FrameHeader, Frame, FrameValidationError}
use rillnet.Decoder.{
  FrameDecoder, Pass, copied_count, payload_pass, header_pass, one_pass, push_loop, push,
}
use rillnet.Decoder.Stream.{
  View, in_header, failed, Output, gather_payload, feed_all, feed_all-failed, gather_payload_open,
}
use rillnet.Decoder.State.{Inv, view, PassOk}
use rillnet.Decoder.PayloadPass.{payload_pass-PassOk}
use rillnet.Decoder.HeaderPass.{between, header_pass-PassOk, PassOk-weaken, feed_all-nil}

one_pass_payload :
    (h : FrameHeader) (d : FrameDecoder) (bytes : List ℕ)
    → d.header ≡ some h
    → payload_pass h d bytes ≡ one_pass d bytes
unfolding one_pass
one_pass_payload h d bytes e = ground arith

-- A pass takes a byte at least.
one_pass-PassOk :
    (header : Option FrameHeader) (d : FrameDecoder) (b : ℕ) (bytes : List ℕ)
    → d.header ≡ header
    → d.error ≡ none
    → Inv d
    → PassOk d.max_payload_size (view d, []) (b ∷ bytes) (length bytes) (one_pass d (b ∷ bytes))
unfolding one_pass copied_count
one_pass-PassOk none d b bytes e f v =
    let shape : (d.header_bytes_size < 18) × (d.payload ≡ []) × (d.payload_bytes_size ≡ 0) =
      simp (e, f) at v.1 in
    let same : between d.max_payload_size d.header_bytes d.header_bytes_size ≡ d =
      ground (arith, shape) in
    subst
      (λ x.
        PassOk x.max_payload_size (view x, []) (b ∷ bytes) (length bytes) (one_pass x (b ∷ bytes)))
      same
      (PassOk-weaken d.max_payload_size (in_header (take d.header_bytes_size d.header_bytes), [])
        (b ∷ bytes) _ (length bytes)
        (header_pass (between d.max_payload_size d.header_bytes d.header_bytes_size) (b ∷ bytes))
        (omega (
          arith,
          length-drop (copied_count (b ∷ bytes) d.header_bytes d.header_bytes_size) (b ∷ bytes),
        ))
        (header_pass-PassOk d.max_payload_size d.header_bytes d.header_bytes_size (b ∷ bytes) v.0
          shape.0))
one_pass-PassOk (some h) d b bytes e f v =
    let shape : (length d.payload ≡ h.payload_size) × (d.payload_bytes_size < h.payload_size) =
      simp (e, f) at v.1 in
    let start : gather_payload h (take d.payload_bytes_size d.payload) ≡ (view d, []) =
      gather_payload_open h _ (omega (arith, length-take d.payload_bytes_size d.payload))
      ∙ simp (e, f) in
    subst
      (λ (o : Output).
        PassOk d.max_payload_size o (b ∷ bytes) (length bytes) (one_pass d (b ∷ bytes)))
      start
      (subst
        (λ (p : Pass).
          PassOk d.max_payload_size (gather_payload h (take d.payload_bytes_size d.payload))
            (b ∷ bytes) (length bytes) p)
        (one_pass_payload h d (b ∷ bytes) e)
        (PassOk-weaken d.max_payload_size _ (b ∷ bytes) _ (length bytes)
          (payload_pass h d (b ∷ bytes)) (omega arith)
          (payload_pass-PassOk h d (b ∷ bytes) shape.0 (omega arith) v.0 f e)))

-- What the loop must come to: the reference's view and frames.
abbrev LoopOk : FrameDecoder → List ℕ → FrameDecoder × List Frame → Type 0
LoopOk d bytes (d', frames) =
    Inv d'
    × (d'.max_payload_size ≡ d.max_payload_size)
    × (feed_all d.max_payload_size (view d) bytes ≡ (view d', frames))

push_loop_failed :
    (fuel : ℕ) (d : FrameDecoder) (b : ℕ) (bytes : List ℕ) (x : FrameValidationError)
    → d.error ≡ some x
    → push_loop (suc fuel) d (b ∷ bytes) ≡ (d, [])
unfolding push_loop
push_loop_failed fuel d b bytes x e = ground arith

abbrev after_pass : ℕ → Pass → FrameDecoder × List Frame
after_pass fuel (d, frames, rest, more) =
    let (d', frames') = push_loop fuel d rest in
    if more then (d', frames ++ frames') else (d, frames)

push_loop_pass :
    (fuel : ℕ) (d : FrameDecoder) (b : ℕ) (bytes : List ℕ)
    → d.error ≡ none
    → push_loop (suc fuel) d (b ∷ bytes) ≡ after_pass fuel (one_pass d (b ∷ bytes))
unfolding push_loop
push_loop_pass fuel d b bytes e = ground arith

failed-LoopOk :
    (d : FrameDecoder) (bytes : List ℕ) (x : FrameValidationError)
    → d.error ≡ some x
    → Inv d
    → LoopOk d bytes (d, [])
failed-LoopOk d bytes x e v =
    let failed_view : failed x ≡ view d = simp e in
    (
      v,
      refl,
      subst (λ (w : View). feed_all d.max_payload_size w bytes ≡ (w, [])) failed_view
          (feed_all-failed d.max_payload_size x bytes),
    )

after_pass-LoopOk :
    (fuel : ℕ) (d : FrameDecoder) (bytes : List ℕ) (n : ℕ) (p : Pass)
    → PassOk d.max_payload_size (view d, []) bytes n p
    → LoopOk p.0 p.2 (push_loop fuel p.0 p.2)
    → LoopOk d bytes (after_pass fuel p)
after_pass-LoopOk fuel d bytes n (d', frames, rest, true) (v, same, out, bound, stop)
      (v', same', out') =
    (
      v',
      same' ∙ same,
      out
          ∙ ap (λ (o : Output). let o' : Output = (o.0, frames ++ o.1) in o')
              (subst
                (λ m.
                  feed_all m (view d') rest
                  ≡ (view (push_loop fuel d' rest).0, (push_loop fuel d' rest).1))
                same out'),
    )
after_pass-LoopOk fuel d bytes n (d', frames, rest, false) (v, same, out, bound, stop)
      (v', same', out') =
    (
      v,
      same,
      out
          ∙ ap (λ (o : Output). let o' : Output = (o.0, frames ++ o.1) in o') (stop refl)
          ∙ ap (λ fs. let o' : Output = (view d', fs) in o') (append-nil frames),
    )

push_loop-LoopOk :
    (fuel : ℕ) (d : FrameDecoder) (bytes : List ℕ)
    → length bytes ≤ fuel
    → Inv d
    → LoopOk d bytes (push_loop fuel d bytes)
push_loop-LoopOk zero d [] l v = unfold push_loop in (v, refl, feed_all-nil _ _)
push_loop-LoopOk zero d (b ∷ bytes) l v = absurd (omega arith)
push_loop-LoopOk (suc fuel) d [] l v = unfold push_loop in (v, refl, feed_all-nil _ _)
push_loop-LoopOk (suc fuel) d (b ∷ bytes) l v = elim (Option-cases d.error) [
  | inr (x, e) ↦
      subst (LoopOk d (b ∷ bytes)) (sym (push_loop_failed fuel d b bytes x e))
        (failed-LoopOk d (b ∷ bytes) x e v)
  | inl e ↦
      let pass = one_pass-PassOk d.header d b bytes refl e v in
      subst (LoopOk d (b ∷ bytes)) (sym (push_loop_pass fuel d b bytes e)) (
        after_pass-LoopOk fuel d (b ∷ bytes) (length bytes) (one_pass d (b ∷ bytes)) pass (
          push_loop-LoopOk fuel (one_pass d (b ∷ bytes)).0 (one_pass d (b ∷ bytes)).2
            (omega (arith, pass.3)) pass.0))
]

-- The decoder between two calls of push is well formed, and stays so.
pub push-Inv : (d : FrameDecoder) (bytes : List ℕ) → Inv d → Inv (push d bytes).0
unfolding push
push-Inv d bytes v = (push_loop-LoopOk (length bytes) d bytes (omega arith) v).0

pub push_keeps_limit :
    (d : FrameDecoder) (bytes : List ℕ)
    → Inv d
    → (push d bytes).0.max_payload_size ≡ d.max_payload_size
unfolding push
push_keeps_limit d bytes v = (push_loop-LoopOk (length bytes) d bytes (omega arith) v).1

-- From a well-formed decoder, push takes every byte: it comes to the view and pushes the frames
-- that the reference comes to when it is fed the bytes one at a time.
pub push_refines :
    (d : FrameDecoder) (bytes : List ℕ)
    → Inv d
    → feed_all d.max_payload_size (view d) bytes ≡ (view (push d bytes).0, (push d bytes).1)
unfolding push
push_refines d bytes v = (push_loop-LoopOk (length bytes) d bytes (omega arith) v).2
