-- ===== src/WriteQueue/Order.antt =====
-- write_queue.hpp: the accepted frames and what reaches the transport, over the interleavings of
-- the calls.
use rillnet.Base.{
  ℕ, ◌≡◌, refl, sym, ap, ◌∙◌, ◌^◌, ◌<◌, true, Option, none, some, List, [], ◌∷◌, ◌++◌, String,
  Bool-cases, inl, inr,
}
use rillnet.Frame.{Frame}
use rillnet.Frame.RoundTrip.{encode_all}
use rillnet.Channel.{Asio}
use rillnet.WriteQueue.{
  Writer, Passed, running, suspended, writing, finished, write_ok, close, take_frame, write_frame,
  taken, take_pass, new_queue,
}
use rillnet.WriteQueue.Bytes.{Inv, new_queue-Inv, try_enqueue-Inv, close-Inv, take_frame-Inv}
use rillnet.WriteQueue.Steps.{
  Call, enqueues, takes, writes, closes, Trace, take_from, write_from, step, steps, Ordered,
  Ordered-Delivers, try_enqueue_lem, grown-Delivers, sent_front, closed-Delivers,
}

module _ (io : Asio) where
  module _ {S : Type 0} (observer : Option (Frame → ℕ → S → S)) where
    enqueue-Ordered :
        (f : Frame) (t : Trace io S) → Ordered io t → Ordered io (step io observer (enqueues f) t)
    unfolding step
    enqueue-Ordered f t v = record {
      queue = try_enqueue-Inv io f t.writer.queue v.queue;
      delivers = elim (try_enqueue_lem io f t.writer.queue) [
        | inl (refused, same) ↦ rw (refused, same) v.delivers
        | inr (done, last, same, open_queue) ↦
            rw (done, last, same)
              (grown-Delivers io t.outcome t.accepted t.writer.wire
                (io.frames.held t.writer.queue.channel) f t.writer.queue.closed open_queue
                v.delivers)
      ];
    }

    close-Ordered : (t : Trace io S) → Ordered io t → Ordered io (step io observer closes t)
    unfolding step close
    close-Ordered t v = record {
      queue = unfold close in close-Inv io t.writer.queue v.queue;
      delivers =
          closed-Delivers io t.outcome t.accepted t.writer.wire _ _ t.writer.queue.closed
            (io.frames.close_closed t.writer.queue.channel).0 v.delivers;
    }

    -- What a step of run comes to.
    abbrev stepped : Trace io S → Writer io S × Passed → Trace io S
    stepped t (w, o) = record t { writer = w; outcome = o }

    taken-Ordered :
        (o : Option (Frame × io.frames.Channel)) (t : Trace io S)
        → io.frames.receive t.writer.queue.channel ≡ o
        → Inv io t.writer.queue
        → encode_all t.accepted
          ≡ t.writer.wire ++ encode_all (io.frames.held t.writer.queue.channel)
        → Ordered io (stepped t (taken io observer o t.writer))
    taken-Ordered none t got v d = elim (Bool-cases t.writer.queue.closed) [
      | inl shut ↦ simp shut (record {
        queue = v;
        delivers =
            (shut, (io.frames.held t.writer.queue.channel, d, inr (io.frames.receive_none _ got)));
      })
      | inr opened ↦ simp opened (record { queue = v; delivers = d })
    ]
    taken-Ordered (some (f, c)) t got v d = record {
      queue = (take_frame-Inv io f c t.writer.queue got v).0;
      delivers =
          unfold take_frame in
          (d
            ∙ ap (λ fs. t.writer.wire ++ encode_all fs)
                (io.frames.receive_some t.writer.queue.channel f c got).0);
    }

    take-Ordered :
        (o : Passed) (t : Trace io S)
        → t.outcome ≡ o
        → Ordered io t
        → Ordered io (take_from io observer o t)
    unfolding take_pass
    take-Ordered (finished r) t same v = v
    take-Ordered (writing f) t same v = v
    take-Ordered running t same v =
        taken-Ordered _ t refl v.queue (Ordered-Delivers io running t same v)
    take-Ordered suspended t same v =
        taken-Ordered _ t refl v.queue (Ordered-Delivers io suspended t same v)

    write-Ordered :
        (o : Passed) (e : Option String) (t : Trace io S)
        → t.outcome ≡ o
        → Ordered io t
        → Ordered io (write_from io observer o e t)
    unfolding write_frame
    write-Ordered (writing f) none t same v = record {
      queue = v.queue;
      delivers =
          sent_front io t.accepted t.writer.wire f (io.frames.held t.writer.queue.channel)
            (Ordered-Delivers io (writing f) t same v);
    }
    write-Ordered (writing f) (some message) t same v = record {
      queue = close-Inv io t.writer.queue v.queue;
      delivers =
          unfold close write_ok in
          (
            refl,
            (
              f ∷ io.frames.held t.writer.queue.channel,
              Ordered-Delivers io (writing f) t same v,
              inl refl,
            ),
          );
    }
    write-Ordered running e t same v = v
    write-Ordered suspended e t same v = v
    write-Ordered (finished r) e t same v = v

    step-Ordered : (c : Call) (t : Trace io S) → Ordered io t → Ordered io (step io observer c t)
    step-Ordered (enqueues f) t v = enqueue-Ordered f t v
    step-Ordered takes t v = unfold step in take-Ordered t.outcome t refl v
    step-Ordered (writes e) t v = unfold step in write-Ordered t.outcome e t refl v
    step-Ordered closes t v = close-Ordered t v

    steps-Ordered :
        (cs : List Call) (t : Trace io S) → Ordered io t → Ordered io (steps io observer cs t)
    unfolding steps
    steps-Ordered [] t v = v
    steps-Ordered (c ∷ cs) t v = steps-Ordered cs (step io observer c t) (step-Ordered c t v)

    abbrev pub start : ℕ → ℕ → S → Trace io S
    start max_frames max_bytes s = record {
      writer = record {
        queue = new_queue io max_frames max_bytes;
        wire = [];
        transport_open = true;
        observed = s;
      };
      accepted = [];
      outcome = running;
    }

    -- After any sequence of attempts to enqueue, closes and the steps of run, which takes a frame and
    -- then waits for the transport to write it, on a new queue with a byte limit below 2 ^ 64: the
    -- byte count is that of the frames waiting, within the limit; and the bytes that the transport
    -- has written, followed by the encodings of the frame that it is writing, if any, and of the
    -- frames still waiting, are the encodings of the accepted frames in the order in which they were
    -- accepted. If run has returned, then the queue is closed, and the bytes are the encodings of all
    -- accepted frames after a normal return, and of the first of them after a failed write.
    pub steps-start-Ordered :
        (max_frames max_bytes : ℕ) (s : S) (cs : List Call)
        → max_bytes < 2 ^ 64
        → Ordered io (steps io observer cs (start max_frames max_bytes s))
    steps-start-Ordered max_frames max_bytes s cs h = steps-Ordered cs _ (record {
      queue = new_queue-Inv io max_frames max_bytes h;
      delivers =
          unfold new_queue encode_all in ap encode_all (sym (io.frames.make_new max_frames).0);
    })
