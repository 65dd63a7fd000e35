-- ===== src/WriteQueue/Single.antt =====
-- write_queue.hpp: one frame through an idle queue.
use rillnet.Base.{
  ℕ, ◌+◌, ◌%◌, ◌^◌, ◌≤◌, ◌≡◌, refl, ◌∙◌, ◌==◌, ltb, true, false, Option, none, some, [], ◌∷◌, ◌++◌,
  arith,
}
use rillnet.Frame.{Frame}
use rillnet.Frame.Codec.{encode_frame}
use rillnet.Channel.{Asio}
use rillnet.Channel.Single.{try_send_empty, receive_single}
use rillnet.WriteQueue.{
  WriteQueue, returned, write_success, write_ok, frame_bytes, can_fit, try_enqueue, enqueue_round,
  enqueue, new_queue, Writer, running, write_frame, run_pass,
}

module _ (io : Asio) where
  -- An open queue that holds nothing and has room for a frame.
  pub record Idle (f : Frame) (q : WriteQueue io) : Type 0 where
    pub empty : io.frames.held q.channel ≡ []
    pub open_channel : io.frames.is_open q.channel ≡ true
    pub not_closed : q.closed ≡ false
    pub no_bytes : q.queued_bytes ≡ 0
    pub one_frame : 1 ≤ q.max_frames
    pub capacity : io.frames.capacity q.channel ≡ q.max_frames
    pub fits : frame_bytes f ≤ q.max_bytes

  pub new_queue-Idle :
      (max_frames max_bytes : ℕ) (f : Frame)
      → 1 ≤ max_frames
      → frame_bytes f ≤ max_bytes
      → Idle f (new_queue io max_frames max_bytes)
  unfolding new_queue
  new_queue-Idle max_frames max_bytes f some_frames enough =
      let made = io.frames.make_new max_frames in
      record {
        empty = made.0;
        open_channel = made.1;
        not_closed = refl;
        no_bytes = refl;
        one_frame = some_frames;
        capacity = made.2;
        fits = enough;
      }

  -- The queue with the frame in the channel `ch`.
  abbrev pub loaded : Frame → io.frames.Channel → WriteQueue io → WriteQueue io
  loaded f ch q = record q {
    channel = ch;
    queued_bytes = (q.queued_bytes + frame_bytes f) % 2 ^ 64;
  }

  room : (f : Frame) (q : WriteQueue io) → Idle f q → can_fit io (frame_bytes f) q ≡ true
  unfolding can_fit
  room f q v = ground (arith, v.not_closed, v.no_bytes, v.one_frame, v.fits)

  try_enqueue_sent :
      (f : Frame) (ch : io.frames.Channel) (q : WriteQueue io)
      → can_fit io (frame_bytes f) q ≡ true
      → io.frames.try_send f q.channel ≡ some ch
      → try_enqueue io f q ≡ (loaded f ch q, write_success)
  unfolding try_enqueue
  try_enqueue_sent f ch q fits sent = rw (fits, try_enqueue) (rw sent refl)

  round_sent :
      (f : Frame) (ch : io.frames.Channel) (q : WriteQueue io)
      → try_enqueue io f q ≡ (loaded f ch q, write_success)
      → enqueue_round io f q ≡ (loaded f ch q, returned write_success)
  unfolding enqueue_round write_ok
  round_sent f ch q e = rw (e, enqueue_round) refl

  enqueue_sent : (f : Frame) (q : WriteQueue io) → Idle f q → enqueue io f q ≡ enqueue_round io f q
  unfolding enqueue
  enqueue_sent f q v =
      let small : ltb q.max_bytes (frame_bytes f) ≡ false = ground (arith, v.fits) in
      let frames : (q.max_frames == 0) ≡ false = ground (arith, v.one_frame) in
      rw (small, enqueue) (rw frames refl)

  -- A frame that is enqueued on an idle queue is accepted at once and is what its channel holds.
  pub enqueue-Idle :
      (f : Frame) (q : WriteQueue io)
      → Idle f q
      → (ch : io.frames.Channel) × (enqueue io f q ≡ (loaded f ch q, returned write_success))
        × (io.frames.held ch ≡ f ∷ [])
  enqueue-Idle f q v =
      let room_for : 1 ≤ io.frames.capacity q.channel = ground (arith, v.capacity, v.one_frame) in
      let (ch, sent, holds) =
        try_send_empty io.frames f q.channel v.empty v.open_channel room_for in
      (
        ch,
        enqueue_sent f q v ∙ round_sent f ch q (try_enqueue_sent f ch q (room f q v) sent),
        holds,
      )

  module _ {S : Type 0} (observer : Option (Frame → ℕ → S → S)) where
    -- A pass of run on a queue whose channel holds one frame writes it.
    pub run_pass_single :
        (f : Frame) (w : Writer io S)
        → io.frames.held w.queue.channel ≡ f ∷ []
        → let (w', outcome) = run_pass io observer none w in
          (w'.wire ≡ w.wire ++ encode_frame f)
          × (w'.transport_open ≡ w.transport_open)
          × (outcome ≡ running)
    unfolding run_pass write_frame
    run_pass_single f w holds =
        let (ch, e, rest) = receive_single io.frames f w.queue.channel holds in
        rw (e, run_pass) (refl, refl, refl)
