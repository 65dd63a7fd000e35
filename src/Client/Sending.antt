-- ===== src/Client/Sending.antt =====
-- client_connection.hpp: a request that goes out at once, from start_request to the bytes on the wire.
use rillnet.Base.{ℕ, suc, ◌≡◌, refl, ap, ◌∙◌, false, none, some, [], ◌∷◌, ◌++◌}
use rillnet.Base.Keys.{lookup, assign}
use rillnet.Diagnostics.{notify_diagnostics, plain_event, request_started}
use rillnet.Frame.{Frame}
use rillnet.Frame.Codec.{encode_frame}
use rillnet.Message.{Outcome, success, is_ok}
use rillnet.Stream.{StreamIdAllocator, allocated, allocate}
use rillnet.Channel.{Asio}
use rillnet.WriteQueue.{WriteQueue, Enqueued, returned, write_success, write_ok, enqueue}
use rillnet.WriteQueue.Single.{Idle, loaded, enqueue-Idle, run_pass_single}
use rillnet.Client.{Client, new_pending}
use rillnet.Client.Requests.{
  started, is_shutting_down, start_request, register_request, request_enqueued,
}
use rillnet.Client.Reading.{observe_write, write_pass}

module _ (io : Asio) where
  -- The client once the request has been made known.
  abbrev pub registered : ℕ → Client io → Client io
  registered stream c = record c {
    heap = assign c.next_handle (new_pending io stream) c.heap;
    next_handle = suc c.next_handle;
    pending = assign stream c.next_handle c.pending;
    diagnostics = notify_diagnostics (plain_event request_started stream) c.diagnostics;
  }

  enqueued_lem :
      (h : ℕ) (f : Frame) (q : WriteQueue io) (r : WriteQueue io × Enqueued) (c : Client io)
      → r ≡ (q, returned write_success)
      → request_enqueued io h f r c ≡ (record c { queue = q }, started h)
  unfolding request_enqueued write_ok
  enqueued_lem h f q r c e = ap (λ x. request_enqueued io h f x c) e

  register_lem :
      (stream : ℕ) (f : Frame) (q : WriteQueue io) (c : Client io)
      → lookup stream c.pending ≡ none
      → enqueue io f c.queue ≡ (q, returned write_success)
      → register_request io stream f c
        ≡ (record (registered stream c) { queue = q }, started c.next_handle)
  unfolding register_request
  register_lem stream f q c free e =
      rw (free, register_request)
        (enqueued_lem c.next_handle f q (enqueue io f c.queue) (registered stream c) e)

  start_lem :
      (encode : ℕ → Outcome Frame) (stream : ℕ) (f : Frame) (ids : StreamIdAllocator)
      (c : Client io)
      → is_shutting_down c.lifecycle ≡ false
      → allocate c.stream_ids ≡ (ids, allocated stream)
      → encode stream ≡ success f
      → start_request io encode c ≡ register_request io stream f (record c { stream_ids = ids })
  unfolding start_request is_ok
  start_lem encode stream f ids c running e encoded =
      rw (running, start_request) (rw e (rw encoded refl))

  -- What start_request and a pass of the write queue come to, on an idle queue.
  pub start_request-Idle :
      (encode : ℕ → Outcome Frame) (stream : ℕ) (f : Frame) (ids : StreamIdAllocator)
      (c : Client io)
      → is_shutting_down c.lifecycle ≡ false
      → allocate c.stream_ids ≡ (ids, allocated stream)
      → encode stream ≡ success f
      → lookup stream c.pending ≡ none
      → Idle io f c.queue
      → (ch : io.frames.Channel) × (start_request io encode c ≡ (
        record (registered stream (record c { stream_ids = ids })) {
          queue = loaded io f ch c.queue;
        },
        started c.next_handle,
      ))
        × (io.frames.held ch ≡ f ∷ [])
  start_request-Idle encode stream f ids c running e encoded free idle =
      let (ch, sent, holds) = enqueue-Idle io f c.queue idle in
      (
        ch,
        start_lem encode stream f ids c running e encoded
            ∙ register_lem stream f (loaded io f ch c.queue) (record c { stream_ids = ids }) free
                sent,
        holds,
      )

  pub write_pass_single :
      (f : Frame) (c : Client io)
      → io.frames.held c.queue.channel ≡ f ∷ []
      → let c' = (write_pass io none c).0 in
        (c'.wire ≡ c.wire ++ encode_frame f)
        × (c'.transport_open ≡ c.transport_open)
        × (c'.heap ≡ c.heap)
        × (c'.pending ≡ c.pending)
        × (c'.decoder ≡ c.decoder)
        × (c'.terminal_streams ≡ c.terminal_streams)
  unfolding write_pass
  write_pass_single f c holds =
      let (wire, opened, more) =
        run_pass_single io (some observe_write) f
          (record {
            queue = c.queue;
            wire = c.wire;
            transport_open = c.transport_open;
            observed = c.diagnostics;
          })
          holds in
      (wire, opened, refl, refl, refl, refl)
