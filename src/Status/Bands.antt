-- ===== src/Status/Bands.antt =====
-- status_code.hpp and error.hpp: the numeric bands, and the one policy that both files follow.
use rillnet.Base.{
  ℕ, ◌*◌, ◌+◌, ◌≤◌, ◌<◌, ◌≡◌, refl, true, false, ◌&&◌, ◌||◌, arith, ap, sym, ◌∙◌, ◌==◌, ==_iff,
  if◌then◌else◌,
}
use rillnet.Status.{
  StatusCode, StatusCategory, status_value, same_status, status_category, is_error,
  error_disposition, terminates_connection, terminates_operation,
}

-- The band of each category: its codes lie from 1000 times this number on.
abbrev pub band : StatusCategory → ℕ
band StatusCategory.ok = 0
band StatusCategory.transport = 1
band StatusCategory.protocol = 2
band StatusCategory.serialization = 3
band StatusCategory.operation = 4
band StatusCategory.timeout = 5
band StatusCategory.cancellation = 6
band StatusCategory.resource_limit = 7

-- Every status code fits the 16 bits of the wire.
pub status_value-lt : (c : StatusCode) → status_value c < 65536
unfolding status_value
status_value-lt StatusCode.ok = omega arith
status_value-lt _ = omega arith

-- A code's numeric value lies in the band of a thousand of the category that status_category reads.
status_bands :
    (c : StatusCode)
    → (1000 * band (status_category c) ≤ status_value c)
      × (status_value c < 1000 * band (status_category c) + 1000)
unfolding status_value status_category
status_bands StatusCode.ok = omega arith
status_bands _ = omega arith

-- A status that is an error ends exactly one of an operation and a connection, is reported to the
-- peer exactly if it ends an operation, and is local exactly if it ends the connection; `ok` does
-- none of this.
error_disposition_lem :
    (c : StatusCode)
    → (is_error c ≡ (terminates_operation c || terminates_connection c))
      × ((terminates_operation c && terminates_connection c) ≡ false)
      × ((error_disposition c).send_to_peer ≡ terminates_operation c)
      × ((error_disposition c).local_only ≡ terminates_connection c)
unfolding is_error terminates_operation terminates_connection error_disposition status_category
error_disposition_lem StatusCode.ok = (refl, refl, refl, refl)
error_disposition_lem _ = (refl, refl, refl, refl)

-- The code with a given value, if there is one.
abbrev code_of : ℕ → StatusCode
code_of n =
    if n == 0
    then StatusCode.ok
    else if n == 1000
    then StatusCode.transport_error
    else if n == 1001
    then StatusCode.connection_closed
    else if n == 1002
    then StatusCode.connection_reset
    else if n == 1003
    then StatusCode.connection_timed_out
    else if n == 2000
    then StatusCode.protocol_error
    else if n == 2001
    then StatusCode.unsupported_version
    else if n == 2002
    then StatusCode.malformed_frame
    else if n == 2003
    then StatusCode.unknown_stream
    else if n == 3000
    then StatusCode.serialization_error
    else if n == 3001
    then StatusCode.unknown_message_type
    else if n == 3002
    then StatusCode.decode_error
    else if n == 4000
    then StatusCode.operation_error
    else if n == 5000
    then StatusCode.timeout_error
    else if n == 6000
    then StatusCode.cancelled
    else StatusCode.resource_limit_exceeded

code_of-status_value : (c : StatusCode) → code_of (status_value c) ≡ c
unfolding status_value
code_of-status_value StatusCode.ok = refl
code_of-status_value _ = refl

-- Two codes with one value are one code.
pub same_status-eq : (a b : StatusCode) → same_status a b ≡ true → a ≡ b
unfolding same_status
same_status-eq a b h =
    sym (code_of-status_value a) ∙ ap code_of ((==_iff _ _).0 h) ∙ code_of-status_value b
