-- ===== src/Status.antt =====
-- include/rillnet/status_code.hpp and include/rillnet/error.hpp: the status codes, their categories
-- and what a locally detected status does to an operation or a connection.
pub mod Bands
use rillnet.Base.{ℕ, ◌/◌, ◌==◌, Bool, true, false, not, if◌then◌else◌, String}

-- enum class StatusCategory
pub data StatusCategory : Type 0 where
  ok transport protocol serialization operation timeout cancellation resource_limit : StatusCategory

-- enum class StatusCode
pub data StatusCode : Type 0 where
  ok : StatusCode
  transport_error connection_closed connection_reset connection_timed_out : StatusCode
  protocol_error unsupported_version malformed_frame unknown_stream : StatusCode
  serialization_error unknown_message_type decode_error : StatusCode
  operation_error timeout_error cancelled resource_limit_exceeded : StatusCode

-- The underlying std::uint16_t of each enumerator.
unfoldable pub status_value : StatusCode → ℕ
status_value StatusCode.ok = 0
status_value transport_error = 1000
status_value connection_closed = 1001
status_value connection_reset = 1002
status_value connection_timed_out = 1003
status_value protocol_error = 2000
status_value unsupported_version = 2001
status_value malformed_frame = 2002
status_value unknown_stream = 2003
status_value serialization_error = 3000
status_value unknown_message_type = 3001
status_value decode_error = 3002
status_value operation_error = 4000
status_value timeout_error = 5000
status_value cancelled = 6000
status_value resource_limit_exceeded = 7000

-- `==` on two status codes
unfoldable pub same_status : StatusCode → StatusCode → Bool
unfolding status_value
same_status a b = status_value a == status_value b

-- The switch on value / 1000.
unfoldable pub band_category : ℕ → StatusCategory
band_category band =
    if band == 1
    then StatusCategory.transport
    else if band == 2
    then StatusCategory.protocol
    else if band == 3
    then StatusCategory.serialization
    else if band == 4
    then StatusCategory.operation
    else if band == 5
    then StatusCategory.timeout
    else if band == 6
    then StatusCategory.cancellation
    else StatusCategory.resource_limit

unfoldable pub status_category : StatusCode → StatusCategory
unfolding status_value band_category
status_category code =
    if status_value code == 0 then StatusCategory.ok else band_category (status_value code / 1000)

unfoldable pub is_error : StatusCode → Bool
unfolding same_status
is_error code = not (same_status code StatusCode.ok)

unfoldable pub to_string : StatusCode → String
to_string StatusCode.ok = "ok"
to_string transport_error = "transport_error"
to_string connection_closed = "connection_closed"
to_string connection_reset = "connection_reset"
to_string connection_timed_out = "connection_timed_out"
to_string protocol_error = "protocol_error"
to_string unsupported_version = "unsupported_version"
to_string malformed_frame = "malformed_frame"
to_string unknown_stream = "unknown_stream"
to_string serialization_error = "serialization_error"
to_string unknown_message_type = "unknown_message_type"
to_string decode_error = "decode_error"
to_string operation_error = "operation_error"
to_string timeout_error = "timeout_error"
to_string cancelled = "cancelled"
to_string resource_limit_exceeded = "resource_limit_exceeded"

-- enum class ErrorScope
pub data ErrorScope : Type 0 where
  none operation connection : ErrorScope

pub record ErrorDisposition : Type 0 where
  pub scope : ErrorScope
  pub send_to_peer : Bool
  pub local_only : Bool

-- The switch of error_disposition, on the category.
unfoldable pub category_disposition : StatusCategory → ErrorDisposition
category_disposition StatusCategory.ok = record {
  scope = ErrorScope.none;
  send_to_peer = false;
  local_only = false;
}
category_disposition StatusCategory.transport = record {
  scope = ErrorScope.connection;
  send_to_peer = false;
  local_only = true;
}
category_disposition StatusCategory.protocol = record {
  scope = ErrorScope.connection;
  send_to_peer = false;
  local_only = true;
}
category_disposition _ = record {
  scope = ErrorScope.operation;
  send_to_peer = true;
  local_only = false;
}

unfoldable pub error_disposition : StatusCode → ErrorDisposition
unfolding status_category category_disposition
error_disposition code = category_disposition (status_category code)

abbrev is_connection_scope : ErrorScope → Bool
is_connection_scope ErrorScope.connection = true
is_connection_scope _ = false

abbrev is_operation_scope : ErrorScope → Bool
is_operation_scope ErrorScope.operation = true
is_operation_scope _ = false

unfoldable pub terminates_connection : StatusCode → Bool
unfolding error_disposition
terminates_connection code = is_connection_scope (error_disposition code).scope

unfoldable pub terminates_operation : StatusCode → Bool
unfolding error_disposition
terminates_operation code = is_operation_scope (error_disposition code).scope
