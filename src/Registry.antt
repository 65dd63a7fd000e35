-- ===== src/Registry.antt =====
-- include/rillnet/message_registry.hpp: wire ids and C++ types, for each protocol version. A
-- std::type_index is a number; whether the codec supports the type, which is decided when the
-- template is compiled, is an argument. A VersionRegistry forwards to these operations.
pub mod Bijection
pub mod VersionRegistry
pub mod Current
pub mod Refusals
use rillnet.Base.{ℕ, Bool, true, false, not, Option, some, List, [], ◌∷◌, String, if◌then◌else◌}
use rillnet.Base.Keys.{lookup, assign}
use rillnet.Stream.{is_valid}
use rillnet.Frame.{ProtocolVersion, same_version}

pub data MessageRegistrationError : Type 0 where
  none invalid_id duplicate_id duplicate_type unsupported_message_type : MessageRegistrationError

pub record MessageRegistrationResult : Type 0 where
  pub error : MessageRegistrationError
  pub message : String

pub record VersionRegistrations : Type 0 where
  pub by_id : List (ℕ × ℕ)
  pub by_type : List (ℕ × ℕ)

abbrev pub no_registrations : VersionRegistrations
no_registrations = record { by_id = []; by_type = [] }

-- registrations_, a std::map over the versions
abbrev pub MessageRegistry : Type 0
MessageRegistry = List (ProtocolVersion × VersionRegistrations)

unfoldable pub find_version : ProtocolVersion → MessageRegistry → Option VersionRegistrations
find_version v [] = Option.none
find_version v ((w, r) ∷ m) = if same_version w v then some r else find_version v m

unfoldable pub set_version :
    ProtocolVersion → VersionRegistrations → MessageRegistry → MessageRegistry
set_version v r [] = (v, r) ∷ []
set_version v r ((w, s) ∷ m) = if same_version w v then (v, r) ∷ m else (w, s) ∷ set_version v r m

abbrev pub or_empty : Option VersionRegistrations → VersionRegistrations
or_empty Option.none = no_registrations
or_empty (some r) = r

abbrev pub is_some {ℓ} : {A : Type ℓ} → Option A → Bool
is_some Option.none = false
is_some (some a) = true

-- message_type<Message>(version)
unfoldable pub message_type : ProtocolVersion → ℕ → MessageRegistry → Option ℕ
message_type version type registry = elim (find_version version registry) [
  | Option.none ↦ Option.none
  | some r ↦ lookup type r.by_type
]

-- message_type(version, id)
unfoldable pub type_of_id : ProtocolVersion → ℕ → MessageRegistry → Option ℕ
type_of_id version id registry = elim (find_version version registry) [
  | Option.none ↦ Option.none
  | some r ↦ lookup id r.by_id
]

-- contains<Message>(version) and contains(version, id)
unfoldable pub contains_type : ProtocolVersion → ℕ → MessageRegistry → Bool
contains_type version type registry = elim (find_version version registry) [
  | Option.none ↦ false
  | some r ↦ is_some (lookup type r.by_type)
]

unfoldable pub contains_id : ProtocolVersion → ℕ → MessageRegistry → Bool
contains_id version id registry = elim (find_version version registry) [
  | Option.none ↦ false
  | some r ↦ is_some (lookup id r.by_id)
]

abbrev pub registration_failure : MessageRegistrationError → String → MessageRegistrationResult
registration_failure error message = record { error = error; message = message }

-- The tests on the registrations of the version, in the order of the source.
unfoldable pub register_in :
    Bool → ℕ → ℕ → VersionRegistrations → VersionRegistrations × MessageRegistrationResult
register_in supported id type r =
    if is_some (lookup id r.by_id)
    then (r, registration_failure duplicate_id "message id is already registered")
    else if is_some (lookup type r.by_type)
    then (r, registration_failure duplicate_type "message type is already registered")
    else if not supported
    then (
      r,
      registration_failure unsupported_message_type
          "message type is not supported by the registry codec",
    )
    else (
      record { by_id = assign id type r.by_id; by_type = assign type id r.by_type },
      registration_failure MessageRegistrationError.none "",
    )

-- register_message<Message>(version, id); `registrations_[version]` makes the entry of the version
-- before the tests.
unfoldable pub register_message :
    Bool → ProtocolVersion → ℕ → ℕ → MessageRegistry → MessageRegistry × MessageRegistrationResult
unfolding register_in
register_message supported version id type registry =
    if not (is_valid id)
    then (registry, registration_failure invalid_id "message id must be non-zero")
    else let (r', result) =
        register_in supported id type (or_empty (find_version version registry)) in
      (set_version version r' registry, result)
