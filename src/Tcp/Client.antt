-- ===== src/Tcp/Client.antt =====
-- include/rillnet/tcp_client.hpp: how an attempt to connect ends. Resolving and connecting are done
-- by Boost.Asio, and what they come to is an argument.
use rillnet.Base.{◌≡◌, refl, Bool, not, if◌then◌else◌, Option, none, some, String, arith}
use rillnet.Status.{
  StatusCode, same_status, connection_closed, connection_reset, connection_timed_out,
  transport_error, terminates_connection, status_category, error_disposition, StatusCategory,
}
use rillnet.Registry.{is_some}
use rillnet.Tcp.{SocketApi}
use rillnet.Tcp.Transport.{TcpTransport, new_transport}

-- The values of boost::asio::error that the source tells apart, and any other.
pub data ErrorCode : Type 0 where
  refused reset eof aborted other : ErrorCode

unfoldable pub classify_connect_error : ErrorCode → StatusCode
classify_connect_error ErrorCode.refused = connection_reset
classify_connect_error ErrorCode.reset = connection_reset
classify_connect_error ErrorCode.eof = connection_closed
classify_connect_error ErrorCode.aborted = connection_closed
classify_connect_error ErrorCode.other = transport_error

-- What resolving comes to, and what the race of async_connect and the timer: a socket, the time-out
-- with the socket that is given up, or a system_error.
pub data Resolved : Type 0 where
  resolved : Resolved
  resolve_failed : ErrorCode → String → Resolved

module _ (net : SocketApi) where
  pub data Raced : Type 0 where
    connected : net.Socket → Raced
    timed_out : net.Socket → Raced
    connect_failed : ErrorCode → String → Raced

  pub record ConnectResult : Type 0 where
    pub transport : Option (TcpTransport net)
    pub status : StatusCode
    pub message : String

  abbrev pub connect_success : TcpTransport net → ConnectResult
  connect_success t = record { transport = some t; status = StatusCode.ok; message = "" }

  abbrev pub connect_failure : StatusCode → String → ConnectResult
  connect_failure status message = record { transport = none; status = status; message = message }

  -- ConnectResult::ok
  unfoldable pub connect_ok : ConnectResult → Bool
  unfolding same_status
  connect_ok r = same_status r.status StatusCode.ok

  abbrev pub raced : String → Raced → ConnectResult
  raced message (connected socket) = connect_success (new_transport net socket)
  raced message (timed_out socket) = connect_failure connection_timed_out message
  raced message (connect_failed e what) = connect_failure (classify_connect_error e) what

  -- `message` is the text about a time-out, which names the host.
  unfoldable pub connect : String → Resolved → Raced → ConnectResult
  unfolding new_transport classify_connect_error
  connect message resolved race = raced message race
  connect message (resolve_failed e what) race = connect_failure (classify_connect_error e) what

  -- The socket that a time-out closes.
  unfoldable pub given_up : Raced → Option net.Socket
  given_up (timed_out socket) = some (net.close socket)
  given_up _ = none

  -- An attempt to connect ends well exactly if it gives a transport, with ok; and a failure's status
  -- is of the transport category, local, and one that ends a connection.
  pub connect_lem :
      (message : String) (resolution : Resolved) (race : Raced)
      → let r = connect message resolution race in
        (is_some r.transport ≡ connect_ok r)
        × (status_category r.status
            ≡ (if connect_ok r then StatusCategory.ok else StatusCategory.transport))
        × ((error_disposition r.status).local_only ≡ not (connect_ok r))
        × (terminates_connection r.status ≡ not (connect_ok r))
  unfolding connect classify_connect_error connect_ok same_status terminates_connection
      status_category error_disposition
  connect_lem message resolved (connected socket) = (refl, refl, refl, refl)
  connect_lem message resolved (timed_out socket) = (refl, refl, refl, refl)
  connect_lem message resolved (connect_failed e what) = ground arith
  connect_lem message (resolve_failed e what) race = ground arith
