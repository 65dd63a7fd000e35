-- ===== src/Registry/Current.antt =====
-- message_registry.hpp: the overloads of MessageRegistry that take the current protocol version.
use rillnet.Base.{ℕ, Bool, Option}
use rillnet.Frame.{current_protocol_version}
use rillnet.Registry
use rillnet.Registry.{MessageRegistrationResult, MessageRegistry}

unfoldable pub register_message :
    Bool → ℕ → ℕ → MessageRegistry → MessageRegistry × MessageRegistrationResult
unfolding Registry.register_message
register_message supported id type registry =
    Registry.register_message supported current_protocol_version id type registry

unfoldable pub contains_type : ℕ → MessageRegistry → Bool
unfolding Registry.contains_type
contains_type type registry = Registry.contains_type current_protocol_version type registry

unfoldable pub contains_id : ℕ → MessageRegistry → Bool
unfolding Registry.contains_id
contains_id id registry = Registry.contains_id current_protocol_version id registry

unfoldable pub message_type : ℕ → MessageRegistry → Option ℕ
unfolding Registry.message_type
message_type type registry = Registry.message_type current_protocol_version type registry

unfoldable pub type_of_id : ℕ → MessageRegistry → Option ℕ
unfolding Registry.type_of_id
type_of_id id registry = Registry.type_of_id current_protocol_version id registry
