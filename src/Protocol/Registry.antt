-- ===== src/Protocol/Registry.antt =====
-- The registry of requests that a template can name (internal/protocol/registry.go).
pub mod ReadOnly
use otscout.Prelude.{
  ℕ, Bool, true, false, Option, none, some, List, [], ◌∷◌, codes, if◌then◌else◌, Text, text_eq, ◌⊎◌,
  inl, inr,
}
use otscout.Protocol.Octets.{byte}
use otscout.Protocol.Params.{Params, BuildError, no_builder, number, sender_context}
use otscout.Protocol.Requests.{
  modbus_device_id_request, enip_list_identity_request, s7_connection_request,
  s7_setup_communication, s7_read_szl_request, bacnet_who_is_request, bacnet_read_property_request,
}

-- The entries of `builders`.
pub data Builder : Type 0 where
  modbus_identification enip_identity s7_connection s7_setup s7_szl who_is read_property : Builder

-- builders[name]
unfoldable pub builder_named : Text → Option Builder
builder_named name =
    if text_eq name (codes "modbus.read-device-identification")
    then some modbus_identification
    else if text_eq name (codes "enip.list-identity")
    then some enip_identity
    else if text_eq name (codes "s7comm.connection-request")
    then some s7_connection
    else if text_eq name (codes "s7comm.setup-communication")
    then some s7_setup
    else if text_eq name (codes "s7comm.read-szl")
    then some s7_szl
    else if text_eq name (codes "bacnet.who-is")
    then some who_is
    else if text_eq name (codes "bacnet.read-property")
    then some read_property
    else none

-- if err != nil { return nil, err }
abbrev pub or_fail : {A B : Type 0} → BuildError ⊎ A → (A → BuildError ⊎ B) → BuildError ⊎ B
or_fail (inl e) f = inl e
or_fail (inr a) f = f a

-- The function of an entry; uint16(n) and byte(n) keep the lower bits.
unfoldable pub build : Builder → Params → BuildError ⊎ Text
build modbus_identification p =
    or_fail (number p (codes "transaction_id") 0 0xFFFF) (λ transaction_id.
      or_fail (number p (codes "unit_id") 1 0xFF) (λ unit_id.
        or_fail (number p (codes "read_code") 1 0xFF) (λ read_code.
          inr (modbus_device_id_request transaction_id (byte unit_id) (byte read_code)))))
build enip_identity p =
    or_fail (sender_context p) (λ context. inr (enip_list_identity_request context))
build s7_connection p = or_fail (number p (codes "source_tsap") 0x0100 0xFFFF) (λ source.
    or_fail (number p (codes "dest_tsap") 0x0102 0xFFFF)
      (λ dest. inr (s7_connection_request source dest)))
build s7_setup p =
    or_fail (number p (codes "pdu_reference") 0 0xFFFF)
      (λ reference. inr (s7_setup_communication reference))
build s7_szl p = or_fail (number p (codes "pdu_reference") 0 0xFFFF) (λ reference.
    or_fail (number p (codes "szl_id") 0x001C 0xFFFF) (λ szl_id.
      or_fail (number p (codes "szl_index") 0 0xFFFF)
        (λ szl_index. inr (s7_read_szl_request reference szl_id szl_index))))
build who_is p = inr bacnet_who_is_request
build read_property p = or_fail (number p (codes "invoke_id") 0 0xFF) (λ invoke_id.
    or_fail (number p (codes "property") 70 0xFFFFFF)
      (λ property. inr (bacnet_read_property_request (byte invoke_id) property)))

-- BuildRequest
unfoldable pub build_request : Text → Params → BuildError ⊎ Text
build_request name p = elim (builder_named name) [ none ↦ inl no_builder | some b ↦ build b p ]

-- HasBuilder
unfoldable pub has_builder : Text → Bool
has_builder name = elim (builder_named name) [ none ↦ false | some b ↦ true ]
