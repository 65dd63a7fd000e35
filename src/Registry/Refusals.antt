-- ===== src/Registry/Refusals.antt =====
-- message_registry.hpp: what a registration through a view leaves of the views of all versions.
use rillnet.Base.{ℕ, ◌≡◌, ◌≢◌, refl, Bool, arith}
use rillnet.Base.Keys.{lookup}
use rillnet.Frame.{ProtocolVersion}
use rillnet.Registry
use rillnet.Registry.{MessageRegistrationError, MessageRegistry, set_version, is_some, register_in}
use rillnet.Registry.Bijection.{
  entry, entry-set_version, same_entry, message_type-entry, type_of_id-entry,
}
use rillnet.Registry.VersionRegistry
use rillnet.Registry.VersionRegistry.{for_version}

contains_type-entry :
    (v : ProtocolVersion) (t : ℕ) (m : MessageRegistry)
    → Registry.contains_type v t m ≡ is_some (lookup t (entry v m).by_type)
unfolding Registry.contains_type lookup
contains_type-entry v t m = ground arith

contains_id-entry :
    (v : ProtocolVersion) (id : ℕ) (m : MessageRegistry)
    → Registry.contains_id v id m ≡ is_some (lookup id (entry v m).by_id)
unfolding Registry.contains_id lookup
contains_id-entry v id m = ground arith

refused_entry :
    (supported : Bool) (v w : ProtocolVersion) (id t : ℕ) (m : MessageRegistry)
    → (Registry.register_message supported v id t m).1.error ≢ MessageRegistrationError.none
    → entry w (Registry.register_message supported v id t m).0 ≡ entry w m
unfolding Registry.register_message register_in
refused_entry supported v w id t m refused =
    ground (arith, entry-set_version v w (entry v m) m, same_entry v w m)

-- A registration through the view of one version that is refused, whatever the reason, leaves every
-- look-up through the views of this and of all other versions as it was.
pub register_message_refused :
    (supported : Bool) (v w : ProtocolVersion) (id t j u : ℕ) (m : MessageRegistry)
    → (VersionRegistry.register_message supported id t (for_version v) m).1.error
      ≢ MessageRegistrationError.none
    → let m' = (VersionRegistry.register_message supported id t (for_version v) m).0 in
      let view = for_version w in
      (VersionRegistry.message_type u view m' ≡ VersionRegistry.message_type u view m)
      × (VersionRegistry.type_of_id j view m' ≡ VersionRegistry.type_of_id j view m)
      × (VersionRegistry.contains_type u view m' ≡ VersionRegistry.contains_type u view m)
      × (VersionRegistry.contains_id j view m' ≡ VersionRegistry.contains_id j view m)
unfolding VersionRegistry.register_message VersionRegistry.message_type VersionRegistry.type_of_id
    VersionRegistry.contains_type VersionRegistry.contains_id for_version
register_message_refused supported v w id t j u m refused =
    let m' = (Registry.register_message supported v id t m).0 in
    let same = refused_entry supported v w id t m refused in
    (
      rw (message_type-entry w u m', message_type-entry w u m, same) refl,
      rw (type_of_id-entry w j m', type_of_id-entry w j m, same) refl,
      rw (contains_type-entry w u m', contains_type-entry w u m, same) refl,
      rw (contains_id-entry w j m', contains_id-entry w j m, same) refl,
    )
