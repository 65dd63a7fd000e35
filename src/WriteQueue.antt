-- ===== src/WriteQueue.antt =====
-- include/rillnet/write_queue.hpp: the one write path of a connection. A coroutine is cut at its
-- co_awaits: `enqueue` into its first attempt and what it does when it is woken, `run` into passes.
-- std::size_t wraps at 2 ^ 64.
pub mod Bytes
pub mod Order
pub mod Single
pub mod Steps
use rillnet.Base.{
  ℕ, ◌+◌, ◌-◌, ◌%◌, ◌^◌, ◌==◌, leb, ltb, Bool, true, false, not, ◌&&◌, ◌||◌, Option, none, some,
  List, [], ◌∷◌, ◌++◌, length, String, if◌then◌else◌,
}
use rillnet.Status.{StatusCode, resource_limit_exceeded, transport_error, same_status}
use rillnet.Frame.{Frame}
use rillnet.Frame.Codec.{encode_frame, frame_header_size}
use rillnet.Channel.{Asio}

pub record WriteResult : Type 0 where
  pub status : StatusCode
  pub message : String

abbrev pub write_success : WriteResult
write_success = record { status = StatusCode.ok; message = "" }

abbrev pub write_failure : StatusCode → String → WriteResult
write_failure status message = record { status = status; message = message }

-- WriteResult::ok
unfoldable pub write_ok : WriteResult → Bool
unfolding same_status
write_ok r = same_status r.status StatusCode.ok

abbrev pub unbounded_capacity : ℕ
unbounded_capacity = 2 ^ 64 - 1

-- queued_bytes(frame)
unfoldable pub frame_bytes : Frame → ℕ
frame_bytes frame = frame_header_size + length frame.payload

unfoldable pub space_signal_capacity : ℕ → ℕ
space_signal_capacity max_frames =
    if (max_frames == unbounded_capacity) || (max_frames == 0) then 1 else max_frames

pub record WriteQueue (io : Asio) : Type 0 where
  pub max_frames : ℕ
  pub max_bytes : ℕ
  pub queued_bytes : ℕ
  pub closed : Bool
  pub channel : io.frames.Channel
  pub space : io.signals.Channel

-- What a call of enqueue has come to: it returned, or waits for the space channel.
pub data Enqueued : Type 0 where
  returned : WriteResult → Enqueued
  waiting : Enqueued

-- Where run stands: at the head of its loop, waiting for a frame, waiting for the transport to write
-- one, or returned.
pub data Passed : Type 0 where
  running : Passed
  suspended : Passed
  writing : Frame → Passed
  finished : WriteResult → Passed

module _ (io : Asio) where
  unfoldable pub new_queue : ℕ → ℕ → WriteQueue io
  unfolding space_signal_capacity
  new_queue max_frames max_bytes = record {
    max_frames = max_frames;
    max_bytes = max_bytes;
    queued_bytes = 0;
    closed = false;
    channel = io.frames.make max_frames;
    space = io.signals.make (space_signal_capacity max_frames);
  }

  -- The constructor that takes a number of frames alone, and the default limits.
  unfoldable pub new_queue_of_frames : ℕ → WriteQueue io
  unfolding new_queue
  new_queue_of_frames max_frames = new_queue max_frames unbounded_capacity

  unfoldable pub new_unbounded_queue : WriteQueue io
  unfolding new_queue
  new_unbounded_queue = new_queue unbounded_capacity unbounded_capacity

  unfoldable pub can_fit : ℕ → WriteQueue io → Bool
  can_fit bytes q =
      not q.closed
      && (not (q.max_frames == 0)
          && (leb bytes q.max_bytes && leb q.queued_bytes (q.max_bytes - bytes)))

  abbrev pub accept : ℕ → Option io.frames.Channel → WriteQueue io → WriteQueue io × WriteResult
  accept bytes none q = (q, write_failure resource_limit_exceeded "write queue is closed or full")
  accept bytes (some channel') q = (
    record q { channel = channel'; queued_bytes = (q.queued_bytes + bytes) % 2 ^ 64 },
    write_success,
  )

  -- try_enqueue_frame, which is also the whole of try_enqueue
  unfoldable pub try_enqueue : Frame → WriteQueue io → WriteQueue io × WriteResult
  unfolding can_fit
  try_enqueue frame q =
      if not (can_fit (frame_bytes frame) q)
      then (q, write_failure resource_limit_exceeded "write queue capacity exceeded")
      else accept (frame_bytes frame) (io.frames.try_send frame q.channel) q

  -- One round of the loop of enqueue.
  unfoldable pub enqueue_round : Frame → WriteQueue io → WriteQueue io × Enqueued
  unfolding try_enqueue write_ok
  enqueue_round frame q =
      let (q', result) = try_enqueue frame q in
      if write_ok result
      then (q', returned result)
      else if q'.closed
      then (q', returned result)
      else (q', waiting)

  unfoldable pub enqueue : Frame → WriteQueue io → WriteQueue io × Enqueued
  unfolding enqueue_round frame_bytes
  enqueue frame q =
      if ltb q.max_bytes (frame_bytes frame) || (q.max_frames == 0)
      then (q, returned (write_failure resource_limit_exceeded "write queue capacity exceeded"))
      else enqueue_round frame q

  -- The waiting call is woken: it takes a signal off the space channel, or gets the error of that
  -- channel. Where there is no signal, it goes on waiting.
  unfoldable pub enqueue_woken : Option String → Frame → WriteQueue io → WriteQueue io × Enqueued
  unfolding enqueue_round
  enqueue_woken (some message) frame q =
      (q, returned (write_failure resource_limit_exceeded message))
  enqueue_woken none frame q = elim (io.signals.receive q.space) [
    | none ↦ (q, waiting)
    | some (u, space') ↦ enqueue_round frame (record q { space = space' })
  ]

  unfoldable pub close : WriteQueue io → WriteQueue io
  close q = record q {
    closed = true;
    channel = io.frames.close q.channel;
    space = io.signals.close q.space;
  }

  abbrev pub signal : Option io.signals.Channel → io.signals.Channel → io.signals.Channel
  signal none space = space
  signal (some space') space = space'

  -- The frame is taken off the channel, its bytes off the count, and a waiting enqueue is signalled.
  unfoldable pub take_frame : Frame → io.frames.Channel → WriteQueue io → WriteQueue io
  take_frame frame channel' q = record q {
    channel = channel';
    queued_bytes = (q.queued_bytes + 2 ^ 64 - frame_bytes frame) % 2 ^ 64;
    space = signal (io.signals.try_send tt q.space) q.space;
  }

  -- The state that a pass of run changes: the queue, what the transport has been given, whether it
  -- is open, and the state `S` of the write observer.
  pub record Writer (S : Type 0) : Type 0 where
    pub queue : WriteQueue io
    pub wire : List ℕ
    pub transport_open : Bool
    pub observed : S

  module _ {S : Type 0} (observer : Option (Frame → ℕ → S → S)) where
    abbrev observe : Option (Frame → ℕ → S → S) → Frame → ℕ → S → S
    observe none frame bytes s = s
    observe (some f) frame bytes s = f frame bytes s

    -- The transport write of the taken frame: `some` is the message of the error that it throws.
    unfoldable pub write_frame : Option String → Frame → Writer S → Writer S × Passed
    unfolding encode_frame close
    write_frame none frame w = (
      record w {
        wire = w.wire ++ encode_frame frame;
        observed = observe observer frame (length (encode_frame frame)) w.observed;
      },
      running,
    )
    write_frame (some message) frame w = (
      record w { queue = close w.queue; transport_open = false },
      finished (write_failure transport_error message),
    )

    abbrev pub taken : Option (Frame × io.frames.Channel) → Writer S → Writer S × Passed
    taken none w = if w.queue.closed then (w, finished write_success) else (w, suspended)
    taken (some (frame, channel')) w =
        (record w { queue = take_frame frame channel' w.queue }, writing frame)

    -- The loop of run, from its head to the wait for the transport.
    unfoldable pub take_pass : Writer S → Writer S × Passed
    unfolding take_frame
    take_pass w = taken (io.frames.receive w.queue.channel) w

    abbrev pub written : Option String → Writer S × Passed → Writer S × Passed
    written write_error (w, writing frame) = write_frame write_error frame w
    written write_error (w, outcome) = (w, outcome)

    abbrev pub take_and_write :
        Option String → Option (Frame × io.frames.Channel) → Writer S → Writer S × Passed
    take_and_write write_error o w = written write_error (taken o w)

    -- One pass of run, for which the transport does not make it wait: what the transport write throws is
    -- an argument, if it comes to one.
    unfoldable pub run_pass : Option String → Writer S → Writer S × Passed
    unfolding write_frame take_frame
    run_pass write_error w = take_and_write write_error (io.frames.receive w.queue.channel) w
