-- ===== src/Decoder/HeaderPass.antt =====
-- frame_decoder.hpp, the first half of the loop: bytes that go to the header, and start_frame.
use rillnet.Base.{
  ℕ, ◌+◌, ◌≤◌, ◌<◌, ◌≡◌, refl, sym, ap, ◌∙◌, ltb, true, false, none, some, List, [], length, take,
  drop, length-take, take_all, drop_all, arith, Bool-cases, Option-cases, inl, inr,
}
use rillnet.Frame.{FrameValidationError, payload_length_mismatch, validate_frame}
use rillnet.Frame.Codec.{decode_frame_header}
use rillnet.Decoder.{
  FrameDecoder, Pass, rejects, copied_count, copy_bytes, resize, start_frame, started_pass,
  header_pass,
}
use rillnet.Decoder.Stream.{
  View, in_header, failed, Output, gather_payload, accept_header, gather_header, feed_all, resume,
  feed_all-failed, gather_header_open, resume-gather_header,
}
use rillnet.Decoder.Copy.{length-copy_bytes, take-copy_bytes, length-resize}
use rillnet.Decoder.State.{PassOk, resume_split}
use rillnet.Decoder.PayloadPass.{payload_pass-PassOk}

-- A decoder between frames, with `at` bytes of a header.
abbrev pub between : ℕ → List ℕ → ℕ → FrameDecoder
between max bytes at = record {
  max_payload_size = max;
  header_bytes = bytes;
  header_bytes_size = at;
  header = none;
  payload = [];
  payload_bytes_size = 0;
  error = none;
}

failed_PassOk :
    (max : ℕ) (bytes : List ℕ) (at : ℕ) (e : FrameValidationError) (rest : List ℕ)
    → length bytes ≡ 18
    → PassOk max
        (failed e, [])
        rest
        (length rest)
        (record (between max bytes at) { error = some e }, [], rest, false)
failed_PassOk max bytes at e rest hb =
    ((hb, tt), refl, refl, omega arith, λ x. feed_all-failed max e rest)

pub PassOk-weaken :
    (max : ℕ) (o : Output) (bytes : List ℕ) (m n : ℕ) (p : Pass)
    → m ≤ n
    → PassOk max o bytes m p
    → PassOk max o bytes n p
PassOk-weaken max o bytes m n p h (inv, same, out, bound, stop) =
    (inv, same, out, omega arith, stop)

PassOk-after :
    (max : ℕ) (o o' : Output) (bytes rest : List ℕ) (p : Pass)
    → resume max o bytes ≡ resume max o' rest
    → PassOk max o' rest (length rest) p
    → PassOk max o bytes (length rest) p
PassOk-after max o o' bytes rest p e (inv, same, out, bound, stop) =
    (inv, same, e ∙ out, bound, stop)

pub feed_all-nil : (max : ℕ) (v : View) → feed_all max v [] ≡ (v, [])
unfolding feed_all
feed_all-nil max v = refl

-- The pass that completes a header, from start_frame on.
started_pass-PassOk :
    (max : ℕ) (bytes : List ℕ) (at : ℕ) (rest : List ℕ)
    → length bytes ≡ 18
    → PassOk max
        (accept_header max bytes)
        rest
        (length rest)
        (started_pass (start_frame (between max bytes at)) rest)
unfolding started_pass start_frame accept_header
started_pass-PassOk max bytes at rest hb = elim (Option-cases (decode_frame_header bytes)) [
  | inl e ↦
      rw (e, start_frame, accept_header)
        (failed_PassOk max bytes at payload_length_mismatch rest hb)
  | inr (h, e) ↦
      elim (Bool-cases (rejects (validate_frame (record { header = h; payload = [] }) max))) [
        | inl bad ↦
            rw (e, start_frame, accept_header) (rw bad (failed_PassOk max bytes at _ rest hb))
        | inr good ↦
            rw (e, start_frame, accept_header)
              (rw good (
                PassOk-weaken max (gather_payload h []) rest _ (length rest) _ (omega arith) (
                  payload_pass-PassOk h
                    (record (between max bytes at) {
                      header = some h;
                      payload = resize h.payload_size [];
                    })
                    rest (length-resize h.payload_size) (omega arith) hb refl refl)))
      ]
]

module _ (max : ℕ) (header_bytes : List ℕ) (at : ℕ) (bytes : List ℕ) where
  abbrev pub taken : ℕ
  taken = copied_count bytes header_bytes at

  abbrev pub header_bytes' : List ℕ
  header_bytes' = copy_bytes bytes header_bytes at

  module _ (size : length header_bytes ≡ 18) (open_header : at < 18) where
    taken_bounds : (at + taken ≤ 18) × (taken ≤ length bytes)
    unfolding copied_count
    taken_bounds = omega arith

    header_fed :
        resume max (in_header (take at header_bytes), []) bytes
        ≡ resume max (gather_header max (take (at + taken) header_bytes')) (drop taken bytes)
    header_fed =
        ap (λ (o : Output). resume max o bytes)
          (sym (
            gather_header_open max (take at header_bytes)
              (omega (arith, length-take at header_bytes))))
        ∙ (resume_split max taken _ bytes
            ∙ ap (λ (o : Output). resume max o (drop taken bytes))
                (resume-gather_header max (take at header_bytes) (take taken bytes) (
                    omega
                      (arith, length-take at header_bytes, length-take taken bytes, taken_bounds))
                  ∙ ap (gather_header max)
                      (sym (take-copy_bytes bytes header_bytes at (omega arith)))))

    header'_size : length header_bytes' ≡ 18
    header'_size = length-copy_bytes bytes header_bytes at (omega arith) ∙ size

    header_short :
        ltb (at + taken) 18 ≡ true
        → (gather_header max (take (at + taken) header_bytes')
            ≡ (in_header (take (at + taken) header_bytes'), []))
          × (drop taken bytes ≡ [])
          × (at + taken < 18)
    unfolding copied_count
    header_short e =
        let below : at + taken < 18 = ground arith in
        (
          gather_header_open max _ (omega (arith, length-take (at + taken) header_bytes')),
          drop_all taken bytes (omega arith),
          below,
        )

    header_full :
        ltb (at + taken) 18 ≡ false
        → gather_header max (take (at + taken) header_bytes') ≡ accept_header max header_bytes'
    unfolding gather_header
    header_full e =
        rw (take_all (at + taken) header_bytes' (ground (arith, header'_size)), header'_size)

    -- A pass that begins between frames.
    pub header_pass-PassOk :
        PassOk max
          (in_header (take at header_bytes), [])
          bytes
          (length (drop taken bytes))
          (header_pass (between max header_bytes at) bytes)
    unfolding header_pass
    header_pass-PassOk = elim (Bool-cases (ltb (at + taken) 18)) [
      | inl short ↦
          rw (short, header_pass)
            (
              (header'_size, ((header_short short).2, refl, refl)),
              refl,
              header_fed
                  ∙ ap (λ (o : Output). resume max o (drop taken bytes)) (header_short short).0,
              omega arith,
              λ x. rw (header_short short).1 (feed_all-nil max _),
            )
      | inr full ↦
          rw (full, header_pass)
            (PassOk-after max (in_header (take at header_bytes), [])
              (accept_header max header_bytes') bytes (drop taken bytes) _
              (header_fed ∙ ap (λ (o : Output). resume max o (drop taken bytes)) (header_full full))
              (started_pass-PassOk max header_bytes' (at + taken) (drop taken bytes) header'_size))
    ]
