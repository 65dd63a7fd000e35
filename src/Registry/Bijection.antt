-- ===== src/Registry/Bijection.antt =====
-- message_registry.hpp: the correspondence between ids and types.
use rillnet.Base.{
  ℕ, ◌≡◌, refl, inl, inr, ◌↔◌, Bool, true, ◌&&◌, none, some, List, [], ◌∷◌, ◌==◌, arith,
  if◌then◌else◌, ◌≢◌, ap, Bool-cases,
}
use rillnet.Base.Keys.{lookup, assign, lookup-assign}
use rillnet.Frame.{ProtocolVersion, same_version}
use rillnet.Registry.{
  MessageRegistrationError, VersionRegistrations, MessageRegistry, find_version, set_version,
  or_empty, message_type, type_of_id, register_in, register_message,
}

-- The registrations that a version has, none where it has no entry.
abbrev pub entry : ProtocolVersion → MessageRegistry → VersionRegistrations
entry v registry = or_empty (find_version v registry)

pub entry-set_version :
    (v w : ProtocolVersion) (r : VersionRegistrations) (m : MessageRegistry)
    → entry w (set_version v r m) ≡ (if same_version v w then r else entry w m)
unfolding find_version set_version same_version
entry-set_version v w r [] = ground arith
entry-set_version v w r ((u, s) ∷ m) = ground (arith, entry-set_version v w r m)

pub message_type-entry :
    (v : ProtocolVersion) (t : ℕ) (m : MessageRegistry)
    → message_type v t m ≡ lookup t (entry v m).by_type
unfolding message_type lookup
message_type-entry v t m = ground arith

pub type_of_id-entry :
    (v : ProtocolVersion) (id : ℕ) (m : MessageRegistry)
    → type_of_id v id m ≡ lookup id (entry v m).by_id
unfolding type_of_id lookup
type_of_id-entry v id m = ground arith

-- Ids and types of one version name each other, and no id is zero.
pub record Paired (r : VersionRegistrations) : Type 0 where
  pub to_type : (id t : ℕ) → lookup t r.by_type ≡ some id → lookup id r.by_id ≡ some t
  pub to_id : (id t : ℕ) → lookup id r.by_id ≡ some t → lookup t r.by_type ≡ some id
  pub nonzero : lookup 0 r.by_id ≡ none

register_in-Paired :
    (supported : Bool) (id t : ℕ) (r : VersionRegistrations)
    → id ≢ 0
    → Paired r
    → Paired (register_in supported id t r).0
unfolding register_in
register_in-Paired supported id t r h p = record {
  to_type = λ j u e. ground (
    arith,
    lookup-assign j id t r.by_id,
    lookup-assign u t id r.by_type,
    p.to_type j u,
    p.to_id id u,
    p.to_type j t,
  );
  to_id = λ j u e. ground (
    arith,
    lookup-assign j id t r.by_id,
    lookup-assign u t id r.by_type,
    p.to_id j u,
    p.to_id id u,
    p.to_id j t,
  );
  nonzero = ground (arith, lookup-assign 0 id t r.by_id, p.nonzero);
}

set_version-Paired :
    (v : ProtocolVersion) (r : VersionRegistrations) (m : MessageRegistry)
    → Paired r
    → ((w : ProtocolVersion) → Paired (entry w m))
    → (w : ProtocolVersion) → Paired (entry w (set_version v r m))
set_version-Paired v r m p ps w = elim (Bool-cases (same_version v w)) [
  | inl e ↦ rw (entry-set_version v w r m, e) p
  | inr e ↦ rw (entry-set_version v w r m, e) (ps w)
]

-- A registration: whether the codec supports the type, the version, the id and the type.
abbrev pub Registration : Type 0
Registration = Bool × ProtocolVersion × ℕ × ℕ

unfoldable pub register_all : List Registration → MessageRegistry → MessageRegistry
register_all [] m = m
register_all ((supported, v, id, t) ∷ rs) m =
    register_all rs (register_message supported v id t m).0

register_message-Paired :
    (supported : Bool) (v : ProtocolVersion) (id t : ℕ) (m : MessageRegistry)
    → ((w : ProtocolVersion) → Paired (entry w m))
    → (w : ProtocolVersion) → Paired (entry w (register_message supported v id t m).0)
register_message-Paired supported v id t m ps = elim (Bool-cases (id == 0)) [
  | inl zero_id ↦ unfold register_message in rw zero_id ps
  | inr other ↦
      let nonzero_id : id ≢ 0 = ground arith in
      let kept =
        set_version-Paired v (register_in supported id t (entry v m)).0 m
          (register_in-Paired supported id t (entry v m) nonzero_id (ps v)) ps in
      unfold register_message in rw other kept
]

register_all-Paired :
    (rs : List Registration) (m : MessageRegistry)
    → ((w : ProtocolVersion) → Paired (entry w m))
    → (w : ProtocolVersion) → Paired (entry w (register_all rs m))
unfolding register_all
register_all-Paired [] m ps = ps
register_all-Paired ((supported, v, id, t) ∷ rs) m ps =
    register_all-Paired rs _ (register_message-Paired supported v id t m ps)

-- Whatever registrations are asked of a new registry, in each version an id names a type exactly if
-- the type has that id, and no type has the id 0.
pub register_all_bijection :
    (rs : List Registration) (v : ProtocolVersion) (id t : ℕ)
    → let m = register_all rs [] in
      ((message_type v t m ≡ some id) ↔ (type_of_id v id m ≡ some t)) × (type_of_id v 0 m ≡ none)
register_all_bijection rs v id t =
    let p =
      register_all-Paired rs []
        (λ w.
          unfold find_version lookup in
          record { to_type = λ j u e. cc; to_id = λ j u e. cc; nonzero = refl })
        v in
    rw
      (
        message_type-entry v t (register_all rs []),
        type_of_id-entry v id (register_all rs []),
        type_of_id-entry v 0 (register_all rs []),
      )
      ((p.to_type id t, p.to_id id t), p.nonzero)

accepted_registry :
    (supported : Bool) (v : ProtocolVersion) (id t : ℕ) (m : MessageRegistry)
    → (register_message supported v id t m).1.error ≡ MessageRegistrationError.none
    → (register_message supported v id t m).0
      ≡ set_version v
          (record {
            by_id = assign id t (entry v m).by_id;
            by_type = assign t id (entry v m).by_type;
          })
          m
unfolding register_message
accepted_registry supported v id t m e = ground arith

pub same_entry :
    (v w : ProtocolVersion) (m : MessageRegistry) → same_version v w ≡ true → entry w m ≡ entry v m
unfolding same_version
same_entry v w m e = let same : w ≡ v = ground arith in ap (λ x. entry x m) same

-- A registration that is accepted gives the type its id and the id its type in its version, and
-- leaves every other look-up, in this and in other versions, as it was.
pub register_message_accepted :
    (supported : Bool) (v w : ProtocolVersion) (id t j u : ℕ) (m : MessageRegistry)
    → (register_message supported v id t m).1.error ≡ MessageRegistrationError.none
    → let m' = (register_message supported v id t m).0 in
      (message_type w u m' ≡ (if same_version v w && (t == u) then some id else message_type w u m))
      × (type_of_id w j m' ≡ (if same_version v w && (id == j) then some t else type_of_id w j m))
register_message_accepted supported v w id t j u m e =
    let r : VersionRegistrations = record {
      by_id = assign id t (entry v m).by_id;
      by_type = assign t id (entry v m).by_type;
    } in
    rw (accepted_registry supported v id t m e) (
      rw
        (
          message_type-entry w u (set_version v r m),
          type_of_id-entry w j (set_version v r m),
          entry-set_version v w r m,
          message_type-entry w u m,
          type_of_id-entry w j m,
        )
        (ground (
          arith,
          same_entry v w m,
          lookup-assign u t id (entry v m).by_type,
          lookup-assign j id t (entry v m).by_id,
        )))
