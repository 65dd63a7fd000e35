-- ===== src/WriteQueue/Steps.antt =====
-- write_queue.hpp: the calls on a queue and the steps of run, in any order, and what is stated of
-- them.
use rillnet.Base.{
  ℕ, ◌≡◌, refl, sym, ap, ◌∙◌, subst, ◌⊎◌, Bool, true, false, Option, none, some, List, [], ◌∷◌,
  ◌++◌, append_assoc, String, arith, Bool-cases, inl, inr, if◌then◌else◌,
}
use rillnet.Frame.{Frame}
use rillnet.Frame.Codec.{encode_frame}
use rillnet.Frame.RoundTrip.{encode_all, encode_all-append}
use rillnet.Channel.{Asio}
use rillnet.WriteQueue.{
  WriteQueue, WriteResult, Writer, Passed, running, suspended, writing, finished, write_ok,
  frame_bytes, can_fit, accept, try_enqueue, close, write_frame, take_pass,
}
use rillnet.WriteQueue.Bytes.{Inv}

-- A call on the queue, by whichever coroutine, or a step of run: an attempt to enqueue, the taking of a
-- frame, the end of the transport write with what it throws, or close.
pub data Call : Type 0 where
  enqueues : Frame → Call
  takes : Call
  writes : Option String → Call
  closes : Call

module _ (io : Asio) where
  -- The queue with its transport, the frames that were accepted so far, and where run stands.
  pub record Trace (S : Type 0) : Type 0 where
    pub writer : Writer io S
    pub accepted : List Frame
    pub outcome : Passed

  module _ {S : Type 0} (observer : Option (Frame → ℕ → S → S)) where
    -- run takes no frame while the transport writes one, or after it has returned.
    abbrev pub take_from : Passed → Trace S → Trace S
    take_from (finished r) t = t
    take_from (writing f) t = t
    take_from _ t =
        let (writer', outcome') = take_pass io observer t.writer in
        record t { writer = writer'; outcome = outcome' }

    abbrev pub write_from : Passed → Option String → Trace S → Trace S
    write_from (writing f) e t =
        let (writer', outcome') = write_frame io observer e f t.writer in
        record t { writer = writer'; outcome = outcome' }
    write_from _ e t = t

    unfoldable pub step : Call → Trace S → Trace S
    step (enqueues f) t =
        let (queue', result) = try_enqueue io f t.writer.queue in
        record t {
          writer = record t.writer { queue = queue' };
          accepted = if write_ok result then t.accepted ++ f ∷ [] else t.accepted;
        }
    step takes t = take_from t.outcome t
    step (writes e) t = write_from t.outcome e t
    step closes t = record t { writer = record t.writer { queue = close io t.writer.queue } }

    unfoldable pub steps : List Call → Trace S → Trace S
    unfolding step
    steps [] t = t
    steps (c ∷ cs) t = steps cs (step c t)

  -- Where run stands decides how much of what was accepted has been written: all but what the
  -- channel holds and the frame that the transport writes; all, after a normal return; and whole frames
  -- from the front, after a failure.
  abbrev pub Delivers : List Frame → List ℕ → List Frame → Bool → Passed → Type 0
  Delivers accepted wire held closed running = encode_all accepted ≡ wire ++ encode_all held
  Delivers accepted wire held closed suspended = encode_all accepted ≡ wire ++ encode_all held
  Delivers accepted wire held closed (writing f) =
      encode_all accepted ≡ wire ++ encode_all (f ∷ held)
  Delivers accepted wire held closed (finished r) =
      (closed ≡ true)
      × ((lost : List Frame) × (encode_all accepted ≡ wire ++ encode_all lost)
          × ((write_ok r ≡ false) ⊎ (lost ≡ [])))

  pub record Ordered {S : Type 0} (t : Trace S) : Type 0 where
    pub queue : Inv io t.writer.queue
    pub delivers :
        Delivers t.accepted t.writer.wire
          (io.frames.held t.writer.queue.channel)
          t.writer.queue.closed
          t.outcome

  pub Ordered-Delivers :
      {S : Type 0} (o : Passed) (t : Trace S)
      → t.outcome ≡ o
      → Ordered t
      → Delivers t.accepted t.writer.wire
          (io.frames.held t.writer.queue.channel)
          t.writer.queue.closed
          o
  Ordered-Delivers o t same v =
      subst
        (Delivers t.accepted t.writer.wire (io.frames.held t.writer.queue.channel)
          t.writer.queue.closed)
        same v.delivers

  accept_cases :
      (f : Frame) (q : WriteQueue io) (o : Option io.frames.Channel)
      → io.frames.try_send f q.channel ≡ o
      → let (q', r) = accept io (frame_bytes f) o q in
        ((write_ok r ≡ false) × (q' ≡ q))
        ⊎ ((write_ok r ≡ true)
            × (io.frames.held q'.channel ≡ io.frames.held q.channel ++ f ∷ [])
            × (q'.closed ≡ q.closed))
  unfolding write_ok
  accept_cases f q none e = inl (refl, refl)
  accept_cases f q (some c) e = inr (refl, (io.frames.try_send_some f q.channel c e).0, refl)

  abbrev pub Attempt : Frame → WriteQueue io → WriteQueue io × WriteResult → Type 0
  Attempt f q (q', r) =
      ((write_ok r ≡ false) × (q' ≡ q))
      ⊎ ((write_ok r ≡ true)
          × (io.frames.held q'.channel ≡ io.frames.held q.channel ++ f ∷ [])
          × (q'.closed ≡ q.closed)
          × (q.closed ≡ false))

  -- An attempt that succeeds puts the frame last; one that fails changes nothing.
  pub try_enqueue_lem : (f : Frame) (q : WriteQueue io) → Attempt f q (try_enqueue io f q)
  try_enqueue_lem f q = elim (Bool-cases (can_fit io (frame_bytes f) q)) [
    | inl fits ↦
        let open_queue : q.closed ≡ false = unfold can_fit in ground arith in
        unfold try_enqueue in
        rw fits (elim (accept_cases f q (io.frames.try_send f q.channel) refl) [
          | inl refused ↦ inl refused
          | inr (done, last, same) ↦ inr (done, last, same, open_queue)
        ])
    | inr full ↦ unfold try_enqueue write_ok in rw full (inl (refl, refl))
  ]

  grown :
      (accepted : List Frame) (wire : List ℕ) (held : List Frame) (f : Frame)
      → encode_all accepted ≡ wire ++ encode_all held
      → encode_all (accepted ++ f ∷ []) ≡ wire ++ encode_all (held ++ f ∷ [])
  grown accepted wire held f e =
      encode_all-append accepted (f ∷ [])
      ∙ ap (λ bytes. bytes ++ encode_all (f ∷ [])) e
      ∙ append_assoc wire (encode_all held) (encode_all (f ∷ []))
      ∙ ap (◌++◌ wire) (sym (encode_all-append held (f ∷ [])))

  pub grown-Delivers :
      (o : Passed) (accepted : List Frame) (wire : List ℕ) (held : List Frame) (f : Frame)
      (closed : Bool)
      → closed ≡ false
      → Delivers accepted wire held closed o
      → Delivers (accepted ++ f ∷ []) wire (held ++ f ∷ []) closed o
  grown-Delivers running accepted wire held f closed e d = grown accepted wire held f d
  grown-Delivers suspended accepted wire held f closed e d = grown accepted wire held f d
  grown-Delivers (writing g) accepted wire held f closed e d = grown accepted wire (g ∷ held) f d
  grown-Delivers (finished r) accepted wire held f closed e d = cc (d.0)

  pub sent_front :
      (accepted : List Frame) (wire : List ℕ) (f : Frame) (rest : List Frame)
      → encode_all accepted ≡ wire ++ encode_all (f ∷ rest)
      → encode_all accepted ≡ (wire ++ encode_frame f) ++ encode_all rest
  unfolding encode_all
  sent_front accepted wire f rest e = e ∙ sym (append_assoc wire (encode_frame f) (encode_all rest))

  pub closed-Delivers :
      (o : Passed) (accepted : List Frame) (wire : List ℕ) (held held' : List Frame) (closed : Bool)
      → held' ≡ held
      → Delivers accepted wire held closed o
      → Delivers accepted wire held' true o
  closed-Delivers running accepted wire held held' closed h d = rw h d
  closed-Delivers suspended accepted wire held held' closed h d = rw h d
  closed-Delivers (writing f) accepted wire held held' closed h d = rw h d
  closed-Delivers (finished r) accepted wire held held' closed h d = (refl, d.1)
