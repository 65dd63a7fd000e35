-- ===== src/Exchange/Sides.antt =====
-- client_connection.hpp and server_connection.hpp: the part of each side in an exchange of one
-- request and one response.
use rillnet.Base.{
  ℕ, ◌≤◌, ◌≡◌, refl, sym, ap, ◌∙◌, ◌==◌, subst, Bool, true, false, none, some, [], ◌∷◌, arith,
}
use rillnet.Base.Keys
use rillnet.Base.Keys.{lookup, contains, lookup-assign_same}
use rillnet.Lifecycle.{is_operation, is_connection, connection_transition}
use rillnet.Frame.{Frame, request, response, default_max_payload_size}
use rillnet.Frame.Flags
use rillnet.Frame.Flags.{has_flag}
use rillnet.Frame.Codec.{encode_frame}
use rillnet.Operation
use rillnet.Message.{Outcome, success, peek_message_type}
use rillnet.Stream.{
  StreamInitiator, first_id, last_id, new_allocator, allocate, allocate_next, allocated,
}
use rillnet.Decoder.{new_decoder}
use rillnet.Decoder.Stream.{in_header}
use rillnet.Decoder.State
use rillnet.Decoder.State.{view}
use rillnet.Decoder.Laws.{Sendable, new_decoder-Inv}
use rillnet.Channel.{Asio}
use rillnet.Transport.{read_bytes}
use rillnet.WriteQueue.{frame_bytes, new_queue}
use rillnet.WriteQueue.Single.{Idle, loaded, new_queue-Idle}
use rillnet.Client.{Client, new_client, new_pending}
use rillnet.Client.Requests.{started, is_shutting_down, start_request, async_wait}
use rillnet.Client.Reading.{read_pass, write_pass, open_connection}
use rillnet.Client.Objects.{Inv}
use rillnet.Client.Reachable
use rillnet.Client.Reachable.{opens, starts, writes, apply_all-new_client-Inv}
use rillnet.Client.Responding.{read_response_answers}
use rillnet.Client.Sending.{registered, start_request-Idle, write_pass_single}
use rillnet.Server.{Server, new_server, handle, new_server_operation}
use rillnet.Server.Serving
use rillnet.Server.Accepting.{read_request_spawns}

module _ (io : Asio) where
  abbrev pub opened_client : ℕ → ℕ → ℕ → Bool → Client io
  opened_client max_frames max_bytes maximum_stream_id hooked =
      open_connection io
        (new_client io max_frames max_bytes maximum_stream_id default_max_payload_size hooked)

  first_allocated :
      (maximum : ℕ)
      → 1 ≤ maximum
      → (allocate (new_allocator StreamInitiator.client maximum)).1 ≡ allocated 1
  unfolding allocate allocate_next new_allocator first_id last_id
  first_allocated maximum some_streams = ground arith

  -- A client that has written the frame of its first request.
  pub record Sent (f : Frame) (c : Client io) : Type 0 where
    pub wire : c.wire ≡ encode_frame f
    pub known : lookup 1 c.pending ≡ some 0
    pub found : lookup 0 c.heap ≡ some (new_pending io 1)
    pub fresh_decoder : c.decoder ≡ new_decoder default_max_payload_size
    pub none_ended : c.terminal_streams ≡ []
    pub linked : Inv io c

  pub client_sends :
      (encode : ℕ → Outcome Frame) (f : Frame) (max_frames max_bytes maximum : ℕ) (hooked : Bool)
      → encode 1 ≡ success f
      → 1 ≤ max_frames
      → frame_bytes f ≤ max_bytes
      → 1 ≤ maximum
      → let r = start_request io encode (opened_client max_frames max_bytes maximum hooked) in
        (r.1 ≡ started 0) × Sent f (write_pass io none r.0).0
  client_sends encode f max_frames max_bytes maximum hooked encoded some_frames fits some_streams =
      let c0 = opened_client max_frames max_bytes maximum hooked in
      let ids = (allocate (new_allocator StreamInitiator.client maximum)).0 in
      let running : is_shutting_down c0.lifecycle ≡ false =
        unfold open_connection new_client is_shutting_down is_connection connection_transition in
        refl in
      let first : allocate c0.stream_ids ≡ (ids, allocated 1) =
        unfold open_connection new_client is_connection in
        ap (λ a. (ids, a)) (first_allocated maximum some_streams) in
      let free : lookup 1 c0.pending ≡ none =
        unfold open_connection new_client is_connection lookup in refl in
      let idle : Idle io f c0.queue =
        unfold open_connection new_client is_connection in
        new_queue-Idle io max_frames max_bytes f some_frames fits in
      let (ch, sent, holds) =
        start_request-Idle io encode 1 f ids c0 running first encoded free idle in
      let reached : Inv io (write_pass io none (start_request io encode c0).0).0 =
        unfold Reachable.apply_all in
        apply_all-new_client-Inv io max_frames max_bytes maximum default_max_payload_size hooked
          (opens ∷ starts encode ∷ writes none ∷ []) in
      let c1 = record (registered io 1 (record c0 { stream_ids = ids })) {
        queue = loaded io f ch c0.queue;
      } in
      let (wire, opened, heap, pending, decoder, ended) = write_pass_single io f c1 holds in
      subst (λ r. (r.1 ≡ started 0) × Sent f (write_pass io none r.0).0) (sym sent)
        (
          unfold open_connection new_client is_connection in refl,
          record {
            wire = wire ∙ (unfold open_connection new_client is_connection in refl);
            known =
                ap (lookup 1) pending
                ∙ (unfold open_connection new_client is_connection lookup Keys.assign in refl);
            found =
                ap (lookup 0) heap
                ∙ (unfold open_connection new_client is_connection lookup Keys.assign in refl);
            fresh_decoder = decoder ∙ (unfold open_connection new_client is_connection in refl);
            none_ended = ended ∙ (unfold open_connection new_client is_connection in refl);
            linked = subst (λ r. Inv io (write_pass io none r.0).0) sent reached;
          },
        )

  -- A client that has sent its first request reads the response.
  pub client_receives :
      {T : Type 0} (decode : Frame → Outcome T) (f g : Frame) (c : Client io)
      → Sent f c
      → Sendable default_max_payload_size g
      → (g.header.type == response) ≡ true
      → has_flag g.header.flags Flags.cancel ≡ false
      → has_flag g.header.flags Flags.error ≡ false
      → g.header.stream ≡ 1
      → (async_wait io decode (some 0) (read_pass io (read_bytes (encode_frame g)) c).0).1
        ≡ some (decode g)
  client_receives decode f g c v fits kind plain fine at =
      let fresh = new_decoder-Inv default_max_payload_size in
      let made = io.frames.make_new 1 in
      let w : State.Inv c.decoder = subst State.Inv (sym v.fresh_decoder) fresh in
      let between : view c.decoder ≡ in_header [] =
        ap view v.fresh_decoder ∙ (unfold new_decoder in refl) in
      let limit : c.decoder.max_payload_size ≡ default_max_payload_size =
        ap (λ d. d.max_payload_size) v.fresh_decoder ∙ (unfold new_decoder in refl) in
      let first : contains g.header.stream c.terminal_streams ≡ false =
        ap (contains g.header.stream) v.none_ended ∙ (unfold contains in refl) in
      (read_response_answers io decode g 0 (new_pending io 1) c v.linked w between
        (subst (λ m. Sendable m g) (sym limit) fits) kind plain fine first
        (ap (λ s. lookup s c.pending) at ∙ v.known) v.found
        (unfold new_pending Operation.activate is_operation in refl) (unfold new_pending in made.0)
        (unfold new_pending in made.1) (unfold new_pending in (omega (arith, made.2)))).3

  abbrev pub opened_server : ℕ → ℕ → ℕ → ℕ → Bool → Server io
  opened_server message_type handler max_frames max_bytes hooked = Serving.open_connection io (
      handle io (some message_type) handler
        (new_server io max_frames max_bytes default_max_payload_size hooked))

  -- A server in whose handler the first request is.
  pub record Taken (f : Frame) (handler max_frames max_bytes : ℕ) (s : Server io) : Type 0 where
    pub wire : s.wire ≡ []
    pub queue : s.queue ≡ new_queue io max_frames max_bytes
    pub operation : lookup 1 s.operations ≡ some (new_server_operation 1)
    pub spawned : lookup 1 s.spawned ≡ some (handler, f)

  pub server_takes :
      (f : Frame) (message_type handler max_frames max_bytes : ℕ) (hooked : Bool)
      → Sendable default_max_payload_size f
      → (f.header.type == request) ≡ true
      → has_flag f.header.flags Flags.cancel ≡ false
      → f.header.stream ≡ 1
      → peek_message_type f.payload ≡ some message_type
      → Taken f handler max_frames max_bytes
          (Serving.read_pass io
            (read_bytes (encode_frame f))
            (opened_server message_type handler max_frames max_bytes hooked)).0
  server_takes f message_type handler max_frames max_bytes hooked fits kind plain at peeked =
      let s0 = opened_server message_type handler max_frames max_bytes hooked in
      let fresh = new_decoder-Inv default_max_payload_size in
      let w : State.Inv s0.decoder =
        unfold Serving.open_connection handle new_server is_connection in fresh in
      let between : view s0.decoder ≡ in_header [] =
        unfold Serving.open_connection handle new_server is_connection new_decoder in refl in
      let limited : Sendable s0.decoder.max_payload_size f =
        unfold Serving.open_connection handle new_server is_connection new_decoder in fits in
      let running : is_shutting_down s0.lifecycle ≡ false =
        unfold Serving.open_connection handle new_server is_connection is_shutting_down
          connection_transition in
        refl in
      let first : contains f.header.stream s0.terminal_streams ≡ false =
        unfold Serving.open_connection handle new_server is_connection contains in refl in
      let registered : lookup message_type s0.handlers ≡ some handler =
        unfold Serving.open_connection handle new_server is_connection in
        lookup-assign_same message_type handler [] in
      let free : lookup f.header.stream s0.operations ≡ none =
        unfold Serving.open_connection handle new_server is_connection lookup in refl in
      let (more, opened, queue, wire, operations, spawned, active) =
        read_request_spawns io f message_type handler s0 w between limited running kind first plain
          peeked registered free in
      record {
        wire = wire ∙ (unfold Serving.open_connection handle new_server is_connection in refl);
        queue = queue ∙ (unfold Serving.open_connection handle new_server is_connection in refl);
        operation =
            ap (lookup 1) operations
            ∙ ap (λ k. lookup 1 (Keys.assign k (new_server_operation k) s0.operations)) at
            ∙ lookup-assign_same 1 (new_server_operation 1) s0.operations;
        spawned =
            ap (lookup 1) spawned
            ∙ ap (λ k. lookup 1 (Keys.assign k (handler, f) s0.spawned)) at
            ∙ lookup-assign_same 1 (handler, f) s0.spawned;
      }
