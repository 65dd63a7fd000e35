-- ===== src/Server/Serving.antt =====
-- server_connection.hpp: the read loop, run and shutdown.
use rillnet.Base.{
  ℕ, ◌==◌, leb, Bool, true, false, not, ◌&&◌, Option, none, some, List, [], ◌∷◌, String, length,
  if◌then◌else◌,
}
use rillnet.Lifecycle.{ConnectionState, accepting, closed, is_connection, connection_transition}
use rillnet.Diagnostics.{notify_diagnostics, plain_event, connection_opened, protocol_error}
use rillnet.Frame.{Frame}
use rillnet.Frame.Errors.{status_for_frame_validation, frame_validation_message}
use rillnet.Decoder.{push}
use rillnet.Channel.{Asio}
use rillnet.WriteQueue.{Passed, run_pass}
use rillnet.Transport.{Read, read_bytes, end_of_input, read_error}
use rillnet.Client.Reading.{observe_write, observe_read, observe_frame}
use rillnet.Server.{
  Server, dispatch, close_queue_when_idle, fail_operations_on_connection_close, notify_closed,
}

module _ (io : Asio) where
  unfoldable pub dispatch_all : List Frame → Server io → Server io
  unfolding dispatch
  dispatch_all [] s = s
  dispatch_all (frame ∷ frames) s =
      let s' = dispatch io frame (record s { diagnostics = observe_frame frame s.diagnostics }) in
      let rest = dispatch_all frames s' in if s'.transport_open then rest else s'

  -- Whether the loop goes on after the frames of a chunk.
  unfoldable pub check_decoder : Server io → Server io × Bool
  unfolding notify_diagnostics
  check_decoder s = elim s.decoder.error [
    | none ↦ (s, true)
    | some error ↦ (
      record s {
        transport_open = false;
        diagnostics =
            notify_diagnostics
              (record {
                type = protocol_error;
                stream = 0;
                status = status_for_frame_validation error;
                bytes = 0;
                inbound = true;
                message = frame_validation_message error;
              })
              s.diagnostics;
      },
      false,
    )
  ]

  -- One pass of the read loop on an open transport: whether it goes on, and whether the connection
  -- was lost.
  unfoldable pub read_pass : Read → Server io → Server io × Bool × Bool
  unfolding dispatch_all check_decoder
  read_pass (read_error stays) s =
      (record s { transport_open = s.transport_open && stays }, false, true)
  read_pass (end_of_input stays) s = (
    record s { transport_open = s.transport_open && stays },
    false,
    not (s.transport_open && stays),
  )
  read_pass (read_bytes []) s = (s, false, not s.transport_open)
  read_pass (read_bytes (b ∷ chunk)) s =
      let (decoder', frames) = push s.decoder (b ∷ chunk) in
      let (s', more) = check_decoder (
        dispatch_all frames (record s {
          decoder = decoder';
          diagnostics = observe_read (length (b ∷ chunk)) s.diagnostics;
        })) in
      (s', more, false)

  -- Behind the read loop.
  unfoldable pub read_finished : Bool → Server io → Server io
  unfolding fail_operations_on_connection_close close_queue_when_idle notify_closed
      connection_transition
  read_finished connection_lost s =
      let failed = if connection_lost then fail_operations_on_connection_close io s else s in
      let idle = close_queue_when_idle io (record failed { reading = false }) in
      notify_closed io (record idle { lifecycle = (connection_transition idle.lifecycle closed).0 })

  -- The head of run.
  unfoldable pub open_connection : Server io → Server io
  unfolding is_connection connection_transition notify_diagnostics
  open_connection s =
      if is_connection s.lifecycle ConnectionState.created
      then record s {
        lifecycle =
            (connection_transition (connection_transition s.lifecycle accepting).0
              ConnectionState.active).0;
        diagnostics = notify_diagnostics (plain_event connection_opened 0) s.diagnostics;
      }
      else s

  unfoldable pub write_pass : Option String → Server io → Server io × Passed
  unfolding run_pass observe_write
  write_pass write_error s =
      let (w, outcome) = run_pass io (some observe_write) write_error (record {
        queue = s.queue;
        wire = s.wire;
        transport_open = s.transport_open;
        observed = s.diagnostics;
      }) in
      (
        record s {
          queue = w.queue;
          wire = w.wire;
          transport_open = w.transport_open;
          diagnostics = w.observed;
        },
        outcome,
      )

  unfoldable pub keeps_draining : ℕ → ℕ → Server io → Bool
  keeps_draining now deadline s = not (s.active_handlers == 0) && not (leb deadline now)

  unfoldable pub shutdown_finished : Server io → Server io
  unfolding fail_operations_on_connection_close notify_closed connection_transition
  shutdown_finished s =
      let drained =
        if s.active_handlers == 0 then s else fail_operations_on_connection_close io s in
      notify_closed io (record drained {
        transport_open = false;
        lifecycle = (connection_transition drained.lifecycle closed).0;
      })
