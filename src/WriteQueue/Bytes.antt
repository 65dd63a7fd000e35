-- ===== src/WriteQueue/Bytes.antt =====
-- write_queue.hpp: the byte count and its limit.
use rillnet.Base.{
  ℕ, ◌+◌, ◌^◌, ◌≤◌, ◌<◌, ◌≡◌, refl, true, not, Option, none, some, List, [], ◌∷◌, ◌++◌, String,
  arith, Bool-cases, Option-cases, inl, inr,
}
use rillnet.Frame.{Frame}
use rillnet.Channel.{Asio}
use rillnet.WriteQueue.{
  WriteQueue, frame_bytes, new_queue, can_fit, accept, try_enqueue, close, take_frame,
  enqueue_round, enqueue, enqueue_woken, Writer, write_frame, take_and_write, run_pass,
}

unfoldable pub total_bytes : List Frame → ℕ
total_bytes [] = 0
total_bytes (f ∷ fs) = frame_bytes f + total_bytes fs

pub total_bytes-append :
    (fs gs : List Frame) → total_bytes (fs ++ gs) ≡ total_bytes fs + total_bytes gs
unfolding total_bytes
total_bytes-append [] gs = omega arith
total_bytes-append (f ∷ fs) gs = omega (arith, total_bytes-append fs gs)

module _ (io : Asio) where
  -- The count is that of the frames that were accepted and not yet taken, and within the limit; the
  -- flag says whether the channel is closed.
  pub record Inv (q : WriteQueue io) : Type 0 where
    pub counted : q.queued_bytes ≡ total_bytes (io.frames.held q.channel)
    pub within : q.queued_bytes ≤ q.max_bytes
    pub size_t : q.max_bytes < 2 ^ 64
    pub open_channel : io.frames.is_open q.channel ≡ not q.closed

  pub new_queue-Inv :
      (max_frames max_bytes : ℕ) → max_bytes < 2 ^ 64 → Inv (new_queue io max_frames max_bytes)
  unfolding new_queue total_bytes
  new_queue-Inv max_frames max_bytes h = ground (arith, io.frames.make_new max_frames)

  accept-Inv :
      (f : Frame) (q : WriteQueue io) (o : Option io.frames.Channel)
      → io.frames.try_send f q.channel ≡ o
      → can_fit io (frame_bytes f) q ≡ true
      → Inv q
      → Inv (accept io (frame_bytes f) o q).0
  unfolding can_fit total_bytes
  accept-Inv f q none e fits v = v
  accept-Inv f q (some c) e fits v =
      let sent = io.frames.try_send_some f q.channel c e in
      record {
        counted = ground (
          arith,
          sent,
          total_bytes-append (io.frames.held q.channel) (f ∷ []),
          v.within,
          v.size_t,
        );
        within = ground (arith, v.within, v.size_t);
        size_t = v.size_t;
        open_channel = ground (arith, sent, v.open_channel);
      }

  pub try_enqueue-Inv : (f : Frame) (q : WriteQueue io) → Inv q → Inv (try_enqueue io f q).0
  try_enqueue-Inv f q v = elim (Bool-cases (can_fit io (frame_bytes f) q)) [
    | inl fits ↦ unfold try_enqueue in rw fits (accept-Inv f q _ refl fits v)
    | inr full ↦ unfold try_enqueue in rw full v
  ]

  pub close-Inv : (q : WriteQueue io) → Inv q → Inv (close io q)
  unfolding close
  close-Inv q v = ground (arith, io.frames.close_closed q.channel)

  -- The subtraction does not wrap.
  pub take_frame-Inv :
      (f : Frame) (c : io.frames.Channel) (q : WriteQueue io)
      → io.frames.receive q.channel ≡ some (f, c)
      → Inv q
      → Inv (take_frame io f c q)
        × (q.queued_bytes ≡ frame_bytes f + (take_frame io f c q).queued_bytes)
  unfolding take_frame total_bytes
  take_frame-Inv f c q e v =
      let got = io.frames.receive_some q.channel f c e in
      let bytes : total_bytes (io.frames.held q.channel)
          ≡ frame_bytes f + total_bytes (io.frames.held c) =
        rw got.0 in
      (
        record {
          counted = ground (arith, bytes, v.counted, v.within, v.size_t);
          within = ground (arith, bytes, v.counted, v.within, v.size_t);
          size_t = v.size_t;
          open_channel = ground (arith, got, v.open_channel);
        },
        ground (arith, bytes, v.counted, v.within, v.size_t),
      )

  enqueue_round-Inv : (f : Frame) (q : WriteQueue io) → Inv q → Inv (enqueue_round io f q).0
  unfolding enqueue_round
  enqueue_round-Inv f q v = ground (arith, try_enqueue-Inv f q v)

  pub enqueue-Inv : (f : Frame) (q : WriteQueue io) → Inv q → Inv (enqueue io f q).0
  unfolding enqueue
  enqueue-Inv f q v = ground (arith, enqueue_round-Inv f q v)

  pub enqueue_woken-Inv :
      (error : Option String) (f : Frame) (q : WriteQueue io)
      → Inv q
      → Inv (enqueue_woken io error f q).0
  unfolding enqueue_woken
  enqueue_woken-Inv none f q v = elim (Option-cases (io.signals.receive q.space)) [
    | inl empty ↦ rw (empty, enqueue_woken) v
    | inr ((u, space'), got) ↦
        rw (got, enqueue_woken)
          (enqueue_round-Inv f (record q { space = space' })
            (record {
              counted = v.counted;
              within = v.within;
              size_t = v.size_t;
              open_channel = v.open_channel;
            }))
  ]
  enqueue_woken-Inv (some message) f q v = v

  module _ {S : Type 0} (observer : Option (Frame → ℕ → S → S)) where
    write_frame-Inv :
        (e : Option String) (f : Frame) (w : Writer io S)
        → Inv w.queue
        → Inv (write_frame io observer e f w).0.queue
    unfolding write_frame
    write_frame-Inv none f w v = v
    write_frame-Inv (some message) f w v = close-Inv w.queue v

    take_and_write-Inv :
        (e : Option String) (o : Option (Frame × io.frames.Channel)) (w : Writer io S)
        → io.frames.receive w.queue.channel ≡ o
        → Inv w.queue
        → Inv (take_and_write io observer e o w).0.queue
    take_and_write-Inv e none w got v = elim (Bool-cases w.queue.closed) [
      | inl shut ↦ simp shut v
      | inr opened ↦ simp opened v
    ]
    take_and_write-Inv e (some (f, c)) w got v =
        write_frame-Inv e f (record w { queue = take_frame io f c w.queue })
          (take_frame-Inv f c w.queue got v).0

    pub run_pass-Inv :
        (e : Option String) (w : Writer io S) → Inv w.queue → Inv (run_pass io observer e w).0.queue
    unfolding run_pass
    run_pass-Inv e w v = take_and_write-Inv e (io.frames.receive w.queue.channel) w refl v
