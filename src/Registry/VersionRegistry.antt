-- ===== src/Registry/VersionRegistry.antt =====
-- message_registry.hpp: VersionRegistry, the view of a registry for one version. The registry that
-- it refers to is taken by each operation and given back where it may change.
use rillnet.Base.{ℕ, Bool, Option}
use rillnet.Frame.{ProtocolVersion}
use rillnet.Registry
use rillnet.Registry.{MessageRegistrationResult, MessageRegistry}

pub record VersionRegistry : Type 0 where
  pub version : ProtocolVersion

unfoldable pub for_version : ProtocolVersion → VersionRegistry
for_version version = record { version = version }

unfoldable pub register_message :
    Bool → ℕ → ℕ → VersionRegistry → MessageRegistry → MessageRegistry × MessageRegistrationResult
unfolding Registry.register_message
register_message supported id type view registry =
    Registry.register_message supported view.version id type registry

unfoldable pub contains_type : ℕ → VersionRegistry → MessageRegistry → Bool
unfolding Registry.contains_type
contains_type type view registry = Registry.contains_type view.version type registry

unfoldable pub contains_id : ℕ → VersionRegistry → MessageRegistry → Bool
unfolding Registry.contains_id
contains_id id view registry = Registry.contains_id view.version id registry

unfoldable pub message_type : ℕ → VersionRegistry → MessageRegistry → Option ℕ
unfolding Registry.message_type
message_type type view registry = Registry.message_type view.version type registry

unfoldable pub type_of_id : ℕ → VersionRegistry → MessageRegistry → Option ℕ
unfolding Registry.type_of_id
type_of_id id view registry = Registry.type_of_id view.version id registry
