-- ===== src/Client/Reading.antt =====
-- client_connection.hpp: dispatch of response frames, the read loop, run and shutdown.
use rillnet.Base.{
  ℕ, ◌==◌, leb, Bool, true, false, not, ◌&&◌, Option, none, some, List, [], ◌∷◌, String, length,
  if◌then◌else◌,
}
use rillnet.Base.Keys.{lookup, contains}
use rillnet.Status.{connection_closed, malformed_frame, unknown_stream}
use rillnet.Lifecycle.{ConnectionState, connecting, closed, is_connection, connection_transition}
use rillnet.Diagnostics.{
  DiagnosticsHooks, notify_diagnostics, plain_event, connection_opened, bytes_transferred,
  message_transferred,
}
use rillnet.Operation
use rillnet.Frame.{Frame, response}
use rillnet.Frame.Flags
use rillnet.Frame.Flags.{has_flag}
use rillnet.Frame.Errors.{
  decode_error_status, status_for_frame_validation, frame_validation_message,
}
use rillnet.Decoder.{push}
use rillnet.Channel.{Asio}
use rillnet.Transport.{Read, read_bytes, end_of_input, read_error}
use rillnet.WriteQueue.{Passed, close, run_pass}
use rillnet.Client.{
  PendingRequest, Client, run_on, close_channel, cleanup_pending, cancel_pending, mark_terminal,
  fail_pending, fail_connection, notify_closed, store,
}

-- The events of the write observer, of a chunk that was read and of a frame that was decoded.
unfoldable pub observe_write : Frame → ℕ → DiagnosticsHooks → DiagnosticsHooks
unfolding notify_diagnostics
observe_write frame bytes d =
    notify_diagnostics (plain_event message_transferred frame.header.stream)
      (notify_diagnostics (record (plain_event bytes_transferred 0) { bytes = bytes }) d)

unfoldable pub observe_read : ℕ → DiagnosticsHooks → DiagnosticsHooks
unfolding notify_diagnostics
observe_read bytes =
    notify_diagnostics (record (plain_event bytes_transferred 0) { bytes = bytes; inbound = true })

unfoldable pub observe_frame : Frame → DiagnosticsHooks → DiagnosticsHooks
unfolding notify_diagnostics
observe_frame frame =
    notify_diagnostics
      (record (plain_event message_transferred frame.header.stream) { inbound = true })

module _ (io : Asio) where
  -- A response frame with the error flag, for the request `h`.
  unfoldable pub dispatch_error : Frame → ℕ → PendingRequest io → Client io → Client io
  unfolding run_on close_channel cleanup_pending mark_terminal
  dispatch_error frame h p c = elim (decode_error_status frame) [
    | none ↦ fail_connection io malformed_frame "malformed protocol error payload" c
    | some status ↦ mark_terminal io frame (
        cleanup_pending io h true (
          close_channel io h
            (run_on io (Operation.fail status "peer rejected the operation") h p c).0))
  ]

  abbrev pub offered : Option io.frames.Channel → io.frames.Channel → io.frames.Channel
  offered none channel = channel
  offered (some channel') channel = channel'

  -- timer.cancel() and channel.try_send(frame)
  unfoldable pub deliver : Frame → ℕ → Client io → Client io
  deliver frame h c = elim (lookup h c.heap) [
    | none ↦ c
    | some p ↦
        store io h
          (record p {
            timer = none;
            channel = offered (io.frames.try_send frame p.channel) p.channel;
          })
          c
  ]

  abbrev pub completed : Frame → ℕ → Client io × Bool → Client io
  completed frame h (c, false) = fail_connection io malformed_frame "duplicate terminal frame" c
  completed frame h (c, true) =
      mark_terminal io frame (cleanup_pending io h true (deliver frame h c))

  -- A plain response for the request `h`.
  unfoldable pub dispatch_response : Frame → ℕ → PendingRequest io → Client io → Client io
  unfolding run_on deliver cleanup_pending mark_terminal
  dispatch_response frame h p c =
      completed frame h (run_on io (Operation.complete "response received") h p c)

  unfoldable pub dispatch_found : Frame → ℕ → Client io → Client io
  unfolding dispatch_error dispatch_response cancel_pending
  dispatch_found frame h c =
      if contains frame.header.stream c.terminal_streams
      then fail_connection io malformed_frame "duplicate terminal frame" c
      else if has_flag frame.header.flags Flags.cancel
      then mark_terminal io frame (cancel_pending io h "operation cancelled by peer" c).0
      else elim (lookup h c.heap) [
        | none ↦ c
        | some p ↦
            if has_flag frame.header.flags Flags.error
            then dispatch_error frame h p c
            else dispatch_response frame h p c
      ]

  unfoldable pub dispatch : Frame → Client io → Client io
  unfolding dispatch_found
  dispatch frame c =
      if not (frame.header.type == response)
      then fail_connection io malformed_frame "client received a non-response frame" c
      else elim (lookup frame.header.stream c.pending) [
        | none ↦ fail_connection io unknown_stream "response received for an unknown stream" c
        | some h ↦ dispatch_found frame h c
      ]

  -- The loop over the decoded frames, which stops once the transport is closed.
  unfoldable pub dispatch_all : List Frame → Client io → Client io
  dispatch_all [] c = c
  dispatch_all (frame ∷ frames) c =
      let c' = dispatch frame (record c { diagnostics = observe_frame frame c.diagnostics }) in
      let rest = dispatch_all frames c' in if c'.transport_open then rest else c'

  -- After the frames of a chunk: whether the loop goes on.
  unfoldable pub check_decoder : Client io → Client io × Bool
  check_decoder c = elim c.decoder.error [
    | none ↦ (c, true)
    | some error ↦ (
      fail_connection io (status_for_frame_validation error) (frame_validation_message error) c,
      false,
    )
  ]

  -- One pass of the read loop on an open transport. A read of no bytes is the end of the input.
  unfoldable pub read_pass : Read → Client io → Client io × Bool
  unfolding dispatch_all check_decoder
  read_pass (read_error stays) c = (record c { transport_open = c.transport_open && stays }, false)
  read_pass (end_of_input stays) c =
      (record c { transport_open = c.transport_open && stays }, false)
  read_pass (read_bytes []) c = (c, false)
  read_pass (read_bytes (b ∷ chunk)) c =
      let (decoder', frames) = push c.decoder (b ∷ chunk) in
      check_decoder (
        dispatch_all frames (record c {
          decoder = decoder';
          diagnostics = observe_read (length (b ∷ chunk)) c.diagnostics;
        }))

  -- Behind the read loop.
  unfoldable pub read_finished : Client io → Client io
  unfolding fail_pending close notify_closed connection_transition
  read_finished c =
      let failed =
        fail_pending io connection_closed "connection closed while awaiting a response" c in
      notify_closed io (record failed {
        queue = close io failed.queue;
        lifecycle = (connection_transition failed.lifecycle closed).0;
      })

  -- The loop over what the transport gives, until it is closed; at the end of the list the loop
  -- waits in read, and `false` says so.
  unfoldable pub read_loop : List Read → Client io → Client io × Bool
  unfolding read_pass read_finished
  read_loop [] c = if c.transport_open then (c, false) else (read_finished c, true)
  read_loop (read ∷ reads) c =
      let (c', more) = read_pass read c in
      let rest = read_loop reads c' in
      if c.transport_open
      then (if more then rest else (read_finished c', true))
      else (read_finished c, true)

  -- The head of run: the connection is opened.
  unfoldable pub open_connection : Client io → Client io
  unfolding is_connection connection_transition notify_diagnostics
  open_connection c =
      if is_connection c.lifecycle ConnectionState.created
      then record c {
        lifecycle =
            (connection_transition (connection_transition c.lifecycle connecting).0
              ConnectionState.active).0;
        diagnostics = notify_diagnostics (plain_event connection_opened 0) c.diagnostics;
      }
      else c

  -- A pass of the write queue of the connection.
  unfoldable pub write_pass : Option String → Client io → Client io × Passed
  unfolding run_pass observe_write
  write_pass write_error c =
      let (w, outcome) = run_pass io (some observe_write) write_error (record {
        queue = c.queue;
        wire = c.wire;
        transport_open = c.transport_open;
        observed = c.diagnostics;
      }) in
      (
        record c {
          queue = w.queue;
          wire = w.wire;
          transport_open = w.transport_open;
          diagnostics = w.observed;
        },
        outcome,
      )

  -- shutdown goes on waiting while there are pending requests and the deadline has not come; the
  -- wait ends early if the timer fails.
  unfoldable pub keeps_draining : ℕ → ℕ → Client io → Bool
  keeps_draining now deadline c = not (length c.pending == 0) && not (leb deadline now)

  unfoldable pub shutdown_finished : Client io → Client io
  unfolding fail_pending notify_closed connection_transition
  shutdown_finished c =
      let drained =
        if length c.pending == 0
        then c
        else fail_pending io connection_closed "connection drain period expired" c in
      notify_closed io (record drained {
        transport_open = false;
        lifecycle = (connection_transition drained.lifecycle closed).0;
      })
