-- ===== src/Decoder/PayloadPass.antt =====
-- frame_decoder.hpp, the second half of the loop: bytes that go to the payload.
use rillnet.Base.{
  ℕ, ◌+◌, ◌-◌, ◌≤◌, ◌<◌, ◌≡◌, refl, sym, ap, ◌∙◌, ◌==◌, true, false, none, some, List, [], ◌∷◌,
  length, take, drop, length-take, length-drop, take_all, arith, Bool-cases, inl, inr,
}
use rillnet.Frame.{FrameHeader}
use rillnet.Decoder.{FrameDecoder, copied_count, copy_bytes, payload_pass}
use rillnet.Decoder.Stream.{
  in_header, in_payload, Output, gather_payload, resume, gather_payload_open, resume-gather_payload,
}
use rillnet.Decoder.Copy.{length-copy_bytes, take-copy_bytes}
use rillnet.Decoder.State.{PassOk, resume_split}

module _ (h : FrameHeader) (d : FrameDecoder) (bytes : List ℕ) where
  -- The payload buffer after the copy, and how much of it is filled.
  abbrev pub copied : ℕ
  copied = copied_count bytes d.payload d.payload_bytes_size

  abbrev pub payload' : List ℕ
  payload' = copy_bytes bytes d.payload d.payload_bytes_size

  abbrev pub filled : ℕ
  filled = d.payload_bytes_size + copied

  module _ (size : length d.payload ≡ h.payload_size)
      (within : d.payload_bytes_size ≤ h.payload_size) where
    copied_bounds : (filled ≤ h.payload_size) × (copied ≤ length bytes)
    unfolding copied_count
    copied_bounds = omega arith

    payload_fed :
        resume d.max_payload_size (gather_payload h (take d.payload_bytes_size d.payload)) bytes
        ≡ resume d.max_payload_size (gather_payload h (take filled payload')) (drop copied bytes)
    payload_fed =
        resume_split d.max_payload_size copied _ bytes
        ∙ ap (λ (o : Output). resume d.max_payload_size o (drop copied bytes))
            (resume-gather_payload d.max_payload_size h (take d.payload_bytes_size d.payload)
                (take copied bytes)
                (omega (
                  arith,
                  length-take d.payload_bytes_size d.payload,
                  length-take copied bytes,
                  copied_bounds,
                ))
              ∙ ap (gather_payload h)
                  (sym (take-copy_bytes bytes d.payload d.payload_bytes_size (omega arith))))

    payload'_size : length payload' ≡ h.payload_size
    payload'_size = length-copy_bytes bytes d.payload d.payload_bytes_size (omega arith) ∙ size

    payload_finished :
        (filled == length payload') ≡ true
        → gather_payload h (take filled payload')
          ≡ (in_header [], record { header = h; payload = payload' } ∷ [])
    unfolding gather_payload
    payload_finished e =
        rw (take_all filled payload' (ground arith)) (ground (arith, payload'_size))

    payload_unfinished :
        (filled == length payload') ≡ false
        → (gather_payload h (take filled payload') ≡ (in_payload h (take filled payload'), []))
          × (filled < h.payload_size)
    payload_unfinished e =
        let below : filled < h.payload_size = ground (arith, payload'_size, copied_bounds) in
        (
          gather_payload_open h (take filled payload')
              (omega (arith, length-take filled payload', payload'_size)),
          below,
        )

    -- A pass over payload bytes, from a payload that may already be complete.
    pub payload_pass-PassOk :
        length d.header_bytes ≡ 18
        → d.error ≡ none
        → d.header ≡ some h
        → PassOk d.max_payload_size
            (gather_payload h (take d.payload_bytes_size d.payload))
            bytes
            (length bytes - copied)
            (payload_pass h d bytes)
    unfolding payload_pass
    payload_pass-PassOk hb e hd = elim (Bool-cases (filled == length payload')) [
      | inl done ↦
          rw (done, payload_pass)
            (simp e (
              (hb, (omega arith, refl, refl)),
              refl,
              payload_fed
                  ∙ ap (λ (o : Output). resume d.max_payload_size o (drop copied bytes))
                      (payload_finished done),
              omega (arith, length-drop copied bytes),
              λ x. cc,
            ))
      | inr more ↦
          rw (more, payload_pass)
            (simp (e, hd)
              (
                (hb, (payload'_size, (payload_unfinished more).1)),
                refl,
                payload_fed
                    ∙ ap (λ (o : Output). resume d.max_payload_size o (drop copied bytes))
                        (payload_unfinished more).0,
                omega (arith, length-drop copied bytes),
                λ x. cc,
              ))
    ]
