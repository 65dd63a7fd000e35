-- ===== src/Client/Reachable.antt =====
-- client_connection.hpp: every operation of a client, as a call; the invariant after any calls.
use rillnet.Base.{ℕ, ◌^◌, ◌<◌, refl, Bool, true, false, Option, List, [], ◌∷◌, String}
use rillnet.Base.Keys.{lookup}
use rillnet.Frame.{Frame}
use rillnet.Message.{Outcome, success}
use rillnet.Channel.{Asio}
use rillnet.Client.Objects.{Inv}
use rillnet.Client.Invariant.{Holds, Streams}
use rillnet.WriteQueue.Bytes.{new_queue-Inv, enqueue_woken-Inv}
use rillnet.Stream.{StreamInitiator}
use rillnet.Stream.Invariant.{new-Inv}
use rillnet.WriteQueue.{enqueue_woken}
use rillnet.Client.{Client, begin_shutdown, new_client}
use rillnet.Client.Requests.{
  start_request, resume_start_request, arm_deadline, timer_fires, drop_handle, cancel_handle,
  async_wait,
}
use rillnet.Transport.{Read}
use rillnet.Client.Reading.{
  read_pass, read_finished, open_connection, write_pass, shutdown_finished,
}
use rillnet.Client.Starting.{
  request_enqueued-Inv, start_request-Inv, arm_deadline-Inv, timer_fires-Inv, drop_handle-Inv,
  cancel_handle-Inv, async_wait-Inv,
}
use rillnet.Client.Dispatching.{
  read_pass-Inv, read_finished-Inv, open_connection-Inv, write_pass-Inv, shutdown_finished-Inv,
}

-- A call on a client, by whichever coroutine or handle: the parts of start_request, a deadline being
-- set and firing, the three uses of a handle, the passes of the two loops, the parts of shutdown.
pub data Call : Type 0 where
  opens : Call
  starts : (ℕ → Outcome Frame) → Call
  resumes : Option String → ℕ → Frame → Call
  arms : ℕ → ℕ → Call
  fires : ℕ → Call
  drops : Option ℕ → Call
  cancels : Option ℕ → String → Call
  waits : Option ℕ → Call
  reads : Read → Call
  finishes_reading : Call
  writes : Option String → Call
  begins_shutdown : Call
  finishes_shutdown : Call

module _ (io : Asio) where
  -- What a wait does to the client does not depend on how the message is decoded.
  unfoldable pub apply : Call → Client io → Client io
  apply opens c = open_connection io c
  apply (starts encode) c = (start_request io encode c).0
  apply (resumes error h frame) c = (resume_start_request io error h frame c).0
  apply (arms deadline h) c = arm_deadline io deadline h c
  apply (fires h) c = timer_fires io h c
  apply (drops handle) c = drop_handle io handle c
  apply (cancels handle message) c = (cancel_handle io handle message c).0
  apply (waits handle) c = (async_wait io (λ (frame : Frame). success frame) handle c).0
  apply (reads read) c = (read_pass io read c).0
  apply finishes_reading c = read_finished io c
  apply (writes error) c = (write_pass io error c).0
  apply begins_shutdown c = begin_shutdown io c
  apply finishes_shutdown c = shutdown_finished io c

  unfoldable pub apply_all : List Call → Client io → Client io
  unfolding apply
  apply_all [] c = c
  apply_all (call ∷ calls) c = apply_all calls (apply call c)

module _ (io : Asio) (full : Bool) where
  apply-Inv : (call : Call) (c : Client io) → Holds io full c → Holds io full (apply io call c)
  unfolding apply
  apply-Inv opens c v = open_connection-Inv io full c v
  apply-Inv (starts encode) c v = start_request-Inv io full encode c v
  apply-Inv (resumes error h frame) c v =
      unfold resume_start_request in
      request_enqueued-Inv io full h frame (enqueue_woken io error frame c.queue) c
        (enqueue_woken-Inv io error frame c.queue) v
  apply-Inv (arms deadline h) c v = arm_deadline-Inv io full deadline h c v
  apply-Inv (fires h) c v = timer_fires-Inv io full h c v
  apply-Inv (drops handle) c v = drop_handle-Inv io full handle c v
  apply-Inv (cancels handle message) c v = cancel_handle-Inv io full handle message c v
  apply-Inv (waits handle) c v =
      async_wait-Inv io full (λ (frame : Frame). success frame) handle c v
  apply-Inv (reads read) c v = read_pass-Inv io full read c v
  apply-Inv finishes_reading c v = read_finished-Inv io full c v
  apply-Inv (writes error) c v = write_pass-Inv io full error c v
  apply-Inv begins_shutdown c v = unfold begin_shutdown in v
  apply-Inv finishes_shutdown c v = shutdown_finished-Inv io full c v

  apply_all-Inv :
      (calls : List Call) (c : Client io) → Holds io full c → Holds io full (apply_all io calls c)
  unfolding apply_all
  apply_all-Inv [] c v = v
  apply_all-Inv (call ∷ calls) c v = apply_all-Inv calls (apply io call c) (apply-Inv call c v)

module _ (io : Asio) where
  -- After any sequence of calls on a new client, every handle that the map of pending requests holds
  -- for a stream points to a request of that stream which was activated and not removed, and the
  -- next handle, with all above it, is unused.
  pub apply_all-new_client-Inv :
      (max_frames max_bytes maximum_stream_id max_payload_size : ℕ) (hooked : Bool)
      (calls : List Call)
      → Inv io (
          apply_all io calls
            (new_client io max_frames max_bytes maximum_stream_id max_payload_size hooked))
  apply_all-new_client-Inv max_frames max_bytes maximum_stream_id max_payload_size hooked calls =
      let (linked, fresh, extra) =
        apply_all-Inv io false calls
          (new_client io max_frames max_bytes maximum_stream_id max_payload_size hooked)
          (unfold new_client lookup in ((λ s h e. cc), (λ k le. refl), tt)) in
      (linked, fresh)

  new_client-Streams :
      (max_frames max_bytes maximum_stream_id max_payload_size : ℕ) (hooked : Bool)
      → max_bytes < 2 ^ 64
      → maximum_stream_id < 2 ^ 64
      → let c = new_client io max_frames max_bytes maximum_stream_id max_payload_size hooked in
        Streams io c.heap c.pending c.stream_ids c.queue
  unfolding new_client lookup
  new_client-Streams max_frames max_bytes maximum_stream_id max_payload_size hooked h k = record {
    own = λ j p e held. cc e;
    alone = λ i j p q e f held held' same. cc e;
    live = λ s j p e f. cc e;
    ids_fit = new-Inv StreamInitiator.client maximum_stream_id k;
    queue_fits = new_queue-Inv io max_frames max_bytes h;
  }

  -- After any sequence of calls on a new client whose byte limit and largest stream id are 64-bit
  -- numbers: each request that has not released its stream has a stream that the allocator has in
  -- use and that no other such request has, and the pending requests are among these; the allocator
  -- is well formed; and the byte count of the write queue is that of the frames waiting, within the
  -- limit.
  pub apply_all-new_client-Streams :
      (max_frames max_bytes maximum_stream_id max_payload_size : ℕ) (hooked : Bool)
      (calls : List Call)
      → max_bytes < 2 ^ 64
      → maximum_stream_id < 2 ^ 64
      → let c =
          apply_all io calls
            (new_client io max_frames max_bytes maximum_stream_id max_payload_size hooked) in
        Streams io c.heap c.pending c.stream_ids c.queue
  apply_all-new_client-Streams max_frames max_bytes maximum_stream_id max_payload_size hooked calls
        h k =
      let (linked, fresh, extra) =
        apply_all-Inv io true calls
          (new_client io max_frames max_bytes maximum_stream_id max_payload_size hooked)
          (unfold new_client lookup in
            (
              (λ s i e. cc),
              (λ i le. refl),
              new_client-Streams max_frames max_bytes maximum_stream_id max_payload_size hooked h k,
            )) in
      extra
