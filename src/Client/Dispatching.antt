-- ===== src/Client/Dispatching.antt =====
-- client_connection.hpp: the invariant through dispatch, the read loop and shutdown.
use rillnet.Base.{
  ℕ, ◌≡◌, refl, ◌==◌, Bool, true, false, Option, none, some, List, [], ◌∷◌, String, length,
  if◌then◌else◌, Bool-cases, Option-cases, inl, inr,
}
use rillnet.Base.Keys.{lookup, contains}
use rillnet.Status.{malformed_frame, unknown_stream, connection_closed}
use rillnet.Lifecycle.{ConnectionState, is_connection, connection_transition}
use rillnet.Operation
use rillnet.Frame.{Frame, response}
use rillnet.Frame.Flags
use rillnet.Frame.Flags.{has_flag}
use rillnet.Frame.Errors.{
  decode_error_status, status_for_frame_validation, frame_validation_message,
}
use rillnet.Decoder.{push}
use rillnet.Channel.{Asio}
use rillnet.Client.{
  PendingRequest, Client, run_on, close_channel, cleanup_pending, cancel_pending, fail_pending,
}
use rillnet.Transport.{Read, read_bytes, end_of_input, read_error}
use rillnet.Client.Reading.{
  observe_frame, observe_write, dispatch_error, offered, deliver, completed, dispatch_response,
  dispatch_found, dispatch, dispatch_all, check_decoder, read_pass, read_finished, open_connection,
  write_pass, shutdown_finished,
}
use rillnet.Diagnostics.{DiagnosticsHooks}
use rillnet.WriteQueue.{Writer, close}
use rillnet.WriteQueue.Bytes.{close-Inv, run_pass-Inv}
use rillnet.Client.Invariant.{Holds, queue-Extra}
use rillnet.Client.Objects.{
  Method, fail-Tame, complete-Tame, update-Inv, run_on-Inv, found-Inv, close_channel-Inv,
  cleanup_pending-Inv, cancel_pending-Inv,
}
use rillnet.Client.Keeping.{
  if-Inv, fail_pending-Inv, fail_connection-Inv, mark_terminal-Inv, notify_closed-Inv, pair_opt-Inv,
}

module _ (io : Asio) (full : Bool) where
  deliver-Inv :
      (frame : Frame) (h : ℕ) (c : Client io)
      → Holds io full c
      → Holds io full (deliver io frame h c)
  unfolding deliver
  deliver-Inv frame h c v = elim (Option-cases (lookup h c.heap)) [
    | inl e ↦ rw (e, deliver) v
    | inr (p, e) ↦
        rw (e, deliver)
          (update-Inv io full h p
            (record p {
              timer = none;
              channel = offered io (io.frames.try_send frame p.channel) p.channel;
            })
            c e refl refl refl (λ x. x) v)
  ]

  completed-Inv :
      (frame : Frame) (h : ℕ) (r : Client io × Bool)
      → Holds io full r.0
      → Holds io full (completed io frame h r)
  completed-Inv frame h (c, false) v =
      fail_connection-Inv io full malformed_frame "duplicate terminal frame" c v
  completed-Inv frame h (c, true) v =
      mark_terminal-Inv io full frame _
        (cleanup_pending-Inv io full h true (deliver io frame h c) (deliver-Inv frame h c v))

  dispatch_error-Inv :
      (frame : Frame) (h : ℕ) (p : PendingRequest io) (c : Client io)
      → lookup h c.heap ≡ some p
      → Holds io full c
      → Holds io full (dispatch_error io frame h p c)
  unfolding dispatch_error
  dispatch_error-Inv frame h p c e v = elim (Option-cases (decode_error_status frame)) [
    | inl bad ↦
        rw (bad, dispatch_error)
          (fail_connection-Inv io full malformed_frame "malformed protocol error payload" c v)
    | inr (status, good) ↦
        rw (good, dispatch_error)
          (let m : Method = Operation.fail status "peer rejected the operation" in
            let failed = (run_on io m h p c).0 in
            mark_terminal-Inv io full frame (cleanup_pending io h true (close_channel io h failed))
              (cleanup_pending-Inv io full h true (close_channel io h failed) (
                close_channel-Inv io full h failed (
                  run_on-Inv io full m h p c (fail-Tame status "peer rejected the operation") e
                    v))))
  ]

  dispatch_response-Inv :
      (frame : Frame) (h : ℕ) (p : PendingRequest io) (c : Client io)
      → lookup h c.heap ≡ some p
      → Holds io full c
      → Holds io full (dispatch_response io frame h p c)
  unfolding dispatch_response
  dispatch_response-Inv frame h p c e v =
      let m : Method = Operation.complete "response received" in
      completed-Inv frame h (run_on io m h p c)
        (run_on-Inv io full m h p c (complete-Tame "response received") e v)

  dispatch_object-Inv :
      (frame : Frame) (h : ℕ) (c : Client io)
      → Holds io full c
      → let d : Client io = elim (lookup h c.heap) [
        | none ↦ c
        | some p ↦
            if has_flag frame.header.flags Flags.error
            then dispatch_error io frame h p c
            else dispatch_response io frame h p c
      ] in
        Holds io full d
  dispatch_object-Inv frame h c v =
      found-Inv io full (lookup h c.heap) h c
        (λ p.
          if has_flag frame.header.flags Flags.error
          then dispatch_error io frame h p c
          else dispatch_response io frame h p c)
        refl v
        (λ p e.
          if-Inv io full (has_flag frame.header.flags Flags.error) (dispatch_error io frame h p c)
            (dispatch_response io frame h p c) (dispatch_error-Inv frame h p c e v)
            (dispatch_response-Inv frame h p c e v))

  dispatch_found-Inv :
      (frame : Frame) (h : ℕ) (c : Client io)
      → Holds io full c
      → Holds io full (dispatch_found io frame h c)
  unfolding dispatch_found
  dispatch_found-Inv frame h c v =
      elim (Bool-cases (contains frame.header.stream c.terminal_streams)) [
        | inl again ↦
            rw (again, dispatch_found)
              (fail_connection-Inv io full malformed_frame "duplicate terminal frame" c v)
        | inr first ↦
            rw (first, dispatch_found)
              (elim (Bool-cases (has_flag frame.header.flags Flags.cancel)) [
                | inl cancels ↦ rw cancels (
                    mark_terminal-Inv io full frame
                      (cancel_pending io h "operation cancelled by peer" c).0
                      (cancel_pending-Inv io full h "operation cancelled by peer" c v))
                | inr plain ↦ rw plain (dispatch_object-Inv frame h c v)
              ])
      ]

  pub dispatch-Inv :
      (frame : Frame) (c : Client io) → Holds io full c → Holds io full (dispatch io frame c)
  unfolding dispatch
  dispatch-Inv frame c v = elim (Bool-cases (frame.header.type == response)) [
    | inr other ↦
        rw (other, dispatch)
          (fail_connection-Inv io full malformed_frame "client received a non-response frame" c v)
    | inl fine ↦ elim (Option-cases (lookup frame.header.stream c.pending)) [
      | inl e ↦
          rw (fine, dispatch)
            (rw e (
              fail_connection-Inv io full unknown_stream "response received for an unknown stream" c
                v))
      | inr (h, e) ↦ rw (fine, dispatch) (rw e (dispatch_found-Inv frame h c v))
    ]
  ]

  dispatch_all-Inv :
      (frames : List Frame) (c : Client io)
      → Holds io full c
      → Holds io full (dispatch_all io frames c)
  unfolding dispatch_all
  dispatch_all-Inv [] c v = v
  dispatch_all-Inv (frame ∷ frames) c v =
      let c' = dispatch io frame (record c { diagnostics = observe_frame frame c.diagnostics }) in
      let v' : Holds io full c' = dispatch-Inv frame _ v in
      if-Inv io full c'.transport_open (dispatch_all io frames c') c'
        (dispatch_all-Inv frames c' v') v'

  check_decoder-Inv : (c : Client io) → Holds io full c → Holds io full (check_decoder io c).0
  unfolding check_decoder
  check_decoder-Inv c v =
      pair_opt-Inv io full c.decoder.error (c, true) _ v
        (λ error e.
          fail_connection-Inv io full (status_for_frame_validation error)
            (frame_validation_message error) c v)

  pub read_pass-Inv :
      (read : Read) (c : Client io) → Holds io full c → Holds io full (read_pass io read c).0
  unfolding read_pass
  read_pass-Inv (read_error stays) c v = v
  read_pass-Inv (end_of_input stays) c v = v
  read_pass-Inv (read_bytes []) c v = v
  read_pass-Inv (read_bytes (b ∷ chunk)) c v =
      check_decoder-Inv _ (dispatch_all-Inv (push c.decoder (b ∷ chunk)).1 _ v)

  pub read_finished-Inv : (c : Client io) → Holds io full c → Holds io full (read_finished io c)
  unfolding read_finished
  read_finished-Inv c v =
      let failed =
        fail_pending io connection_closed "connection closed while awaiting a response" c in
      let (linked, fresh, extra) =
        fail_pending-Inv io full connection_closed "connection closed while awaiting a response" c
          v in
      let closed_client : Client io = record failed {
        queue = close io failed.queue;
        lifecycle = (connection_transition failed.lifecycle ConnectionState.closed).0;
      } in
      notify_closed-Inv io full closed_client (
        linked,
        fresh,
        queue-Extra io full failed.heap failed.pending failed.stream_ids failed.queue
            (close io failed.queue) (close-Inv io failed.queue) extra,
      )

  pub open_connection-Inv : (c : Client io) → Holds io full c → Holds io full (open_connection io c)
  unfolding open_connection
  open_connection-Inv c v =
      if-Inv io full (is_connection c.lifecycle ConnectionState.created) _ c v v

  pub write_pass-Inv :
      (e : Option String) (c : Client io) → Holds io full c → Holds io full (write_pass io e c).0
  unfolding write_pass
  write_pass-Inv e c (linked, fresh, extra) =
      let w : Writer io DiagnosticsHooks = record {
        queue = c.queue;
        wire = c.wire;
        transport_open = c.transport_open;
        observed = c.diagnostics;
      } in
      (
        linked,
        fresh,
        queue-Extra io full c.heap c.pending c.stream_ids c.queue _
            (run_pass-Inv io (some observe_write) e w) extra,
      )

  pub shutdown_finished-Inv :
      (c : Client io) → Holds io full c → Holds io full (shutdown_finished io c)
  unfolding shutdown_finished
  shutdown_finished-Inv c v = notify_closed-Inv io full _ (
      if-Inv io full (length c.pending == 0) c
        (fail_pending io connection_closed "connection drain period expired" c) v
        (fail_pending-Inv io full connection_closed "connection drain period expired" c v))
