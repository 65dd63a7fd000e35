-- ===== src/Diagnostics.antt =====
-- include/rillnet/diagnostics.hpp: the events that a connection reports. `hooked` says whether a
-- hook is installed, and `seen` is what it has been called with, newest first; what the hook throws
-- is swallowed and changes nothing here.
use rillnet.Base.{ℕ, Bool, false, String, List, ◌∷◌, if◌then◌else◌}
use rillnet.Status.{StatusCode}

pub data DiagnosticsEventType : Type 0 where
  connection_opened connection_closed request_started request_completed cancellation timeout
        protocol_error bytes_transferred message_transferred :
      DiagnosticsEventType

pub record DiagnosticsEvent : Type 0 where
  pub type : DiagnosticsEventType
  pub stream : ℕ
  pub status : StatusCode
  pub bytes : ℕ
  pub inbound : Bool
  pub message : String

pub record DiagnosticsHooks : Type 0 where
  pub hooked : Bool
  pub seen : List DiagnosticsEvent

unfoldable pub notify_diagnostics : DiagnosticsEvent → DiagnosticsHooks → DiagnosticsHooks
notify_diagnostics event hooks =
    if hooks.hooked then record hooks { seen = event ∷ hooks.seen } else hooks

-- The constructor with its default arguments.
abbrev pub plain_event : DiagnosticsEventType → ℕ → DiagnosticsEvent
plain_event type stream = record {
  type = type;
  stream = stream;
  status = StatusCode.ok;
  bytes = 0;
  inbound = false;
  message = "";
}
