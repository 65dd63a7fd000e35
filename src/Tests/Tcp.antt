-- ===== src/Tests/Tcp.antt =====
-- Runs of the TCP layer on a socket in memory, and of a registration that is refused.
use rillnet.Base.{
  ◌≡◌, ◌≢◌, refl, ◌≤◌, ◌+◌, ◌==◌, suc, true, false, not, ◌||◌, some, List, [], ◌∷◌, ◌++◌, length,
  if◌then◌else◌,
}
use rillnet.Status.{StatusCategory, status_category, error_disposition, terminates_connection}
use rillnet.Channel.Buffer.{buffers}
use rillnet.Frame.{current_protocol_version, same_version}
use rillnet.Base.Keys.{lookup, assign}
use rillnet.Transport.{end_of_input}
use rillnet.Registry
use rillnet.Registry.{MessageRegistry, MessageRegistrationError, is_some}
use rillnet.Registry.VersionRegistry
use rillnet.Registry.VersionRegistry.{for_version}
use rillnet.Registry.Refusals.{register_message_refused}
use rillnet.Tcp.{received, received_eof}
use rillnet.Tcp.Memory.{Memory, memory}
use rillnet.Tcp.Transport
use rillnet.Tcp.Transport.{
  TcpTransport, Call, reads, writes, closes, Reads, read_lem, apply_all-close, new_transport,
}
use rillnet.Tcp.Client.{ErrorCode, resolved, connect_failed, connect, connect_ok, connect_lem}
use rillnet.Tcp.Server
use rillnet.Tcp.Server.{
  TcpServer, new_server, accepted, accept_failed, completes, runs, sets_handler, stop,
  apply_all-stop, accept_all_lem, accept_all, transports, no_abort,
}
use rillnet.Tcp.Drain
use rillnet.Tcp.Drain.{
  start_drain, returned, rounds, ends, receives, registers, register_late, no_registration,
}
use rillnet.Tcp.Draining.{shutdown_waits}
use rillnet.Tcp.Returning.{shutdown_returns, shutdown_hangs}

abbrev some_socket : Memory
some_socket = record {
  incoming = received (1 ∷ 2 ∷ 3 ∷ []) ∷ received_eof ∷ [];
  outgoing = [];
  open_flag = true;
}

abbrev transport : TcpTransport memory
transport = new_transport memory some_socket

abbrev transport_calls : List Call
transport_calls = reads 2 ∷ writes (7 ∷ []) ∷ closes ∷ []

apply_all-close_example :
    let t' = Transport.apply_all memory transport_calls (Transport.close memory transport) in
    (t' ≡ Transport.close memory transport)
    × (Transport.read memory 4 t' ≡ (t', end_of_input false))
    × (Transport.write memory (9 ∷ []) t' ≡ (t', some "not connected"))
apply_all-close_example = apply_all-close memory transport_calls 4 (9 ∷ []) transport

connect_lem_example :
    let r = connect memory "late" resolved (connect_failed ErrorCode.refused "refused") in
    (is_some r.transport ≡ connect_ok memory r)
    × (status_category r.status
        ≡ (if connect_ok memory r then StatusCategory.ok else StatusCategory.transport))
    × ((error_disposition r.status).local_only ≡ not (connect_ok memory r))
    × (terminates_connection r.status ≡ not (connect_ok memory r))
connect_lem_example =
    connect_lem memory "late" resolved (connect_failed ErrorCode.refused "refused")

-- A server whose run waits in async_accept.
abbrev listening : TcpServer memory
listening = record (new_server memory) { connection_handler = true; running = true }

apply_all-stop_example :
    let s' =
      Server.apply_all memory
        (completes (accepted some_socket) ∷ runs ∷ [])
        (stop memory listening) in
    (s'.stopping ≡ true)
    × (s'.acceptor_open ≡ false)
    × (length s'.handed ≤ suc (length listening.handed))
apply_all-stop_example =
    apply_all-stop memory (completes (accepted some_socket) ∷ runs ∷ []) listening
      (unfold new_server in refl)

accept_all_lem_example :
    let rs = accepted some_socket ∷ accept_failed ∷ accepted some_socket ∷ [] in
    ((accept_all memory rs listening).handed ≡ listening.handed ++ transports memory rs)
    × ((accept_all memory rs listening).running ≡ true)
accept_all_lem_example =
    accept_all_lem memory (accepted some_socket ∷ accept_failed ∷ accepted some_socket ∷ [])
      listening (unfold no_abort in refl) refl (unfold new_server in refl) refl

-- Two handlers, the second of which ends first.
abbrev drain_events : List Drain.Event
drain_events = ends 8 ∷ receives ∷ receives ∷ ends 7 ∷ []

all_ended : (Drain.apply_all buffers drain_events (start_drain buffers (7 ∷ 8 ∷ []))).running ≡ []
unfolding Drain.apply_all start_drain
all_ended = refl

shutdown_returns_example :
    let d = Drain.apply_all buffers drain_events (start_drain buffers (7 ∷ 8 ∷ [])) in
    returned buffers (rounds buffers d.expected d) ≡ true
shutdown_returns_example =
    shutdown_returns buffers (7 ∷ 8 ∷ []) drain_events (unfold no_registration in refl) all_ended

abbrev drained_events : List Drain.Event
drained_events = ends 8 ∷ receives ∷ receives ∷ ends 7 ∷ receives ∷ []

shutdown_waits_example :
    let d = Drain.apply_all buffers drained_events (start_drain buffers (7 ∷ 8 ∷ [])) in
    (d.waiting ≡ 0)
    × (length d.running + length (buffers.signals.held d.completion) + d.received ≡ 2)
    × ((not (returned buffers d) || (length d.running == 0)) ≡ true)
shutdown_waits_example = shutdown_waits buffers (7 ∷ 8 ∷ []) drained_events

not_returned :
    returned buffers (Drain.apply_all buffers drain_events (start_drain buffers (7 ∷ 8 ∷ [])))
    ≡ false
unfolding returned Drain.apply_all start_drain
not_returned = refl

shutdown_hangs_example :
    returned buffers (
      Drain.apply_all buffers drained_events (
        register_late buffers
          (Drain.apply_all buffers drain_events (start_drain buffers (7 ∷ 8 ∷ [])))))
    ≡ false
shutdown_hangs_example =
    shutdown_hangs buffers (7 ∷ 8 ∷ []) drain_events drained_events not_returned

-- A registry in which the type 5 has the id 21.
abbrev registry : MessageRegistry
registry = (VersionRegistry.register_message true 21 5 (for_version current_protocol_version) []).0

id_taken :
    (VersionRegistry.register_message true 21 6
      (for_version current_protocol_version)
      registry).1.error
    ≡ MessageRegistrationError.duplicate_id
unfolding VersionRegistry.register_message for_version Registry.register_message lookup
    Registry.find_version Registry.set_version same_version assign
id_taken = refl

refused_21 :
    (VersionRegistry.register_message true 21 6
      (for_version current_protocol_version)
      registry).1.error
    ≢ MessageRegistrationError.none
refused_21 e = cc (id_taken, e)

register_message_refused_example :
    let m' =
      (VersionRegistry.register_message true 21 6
        (for_version current_protocol_version)
        registry).0 in
    let view = for_version current_protocol_version in
    (VersionRegistry.message_type 5 view m' ≡ VersionRegistry.message_type 5 view registry)
    × (VersionRegistry.type_of_id 21 view m' ≡ VersionRegistry.type_of_id 21 view registry)
    × (VersionRegistry.contains_type 5 view m' ≡ VersionRegistry.contains_type 5 view registry)
    × (VersionRegistry.contains_id 21 view m' ≡ VersionRegistry.contains_id 21 view registry)
register_message_refused_example =
    register_message_refused true current_protocol_version current_protocol_version 21 6 21 5
      registry refused_21
