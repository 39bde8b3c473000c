-- ===== src/Protocol/Requests.antt =====
-- The encoders of requests (the request builders of internal/protocol: modbus.go, enip.go,
-- s7comm.go and bacnet.go).
use otscout.Prelude.{
  ℕ, zero, suc, ◌+◌, ◌*◌, ◌/◌, ◌==◌, ltb, Bool, true, false, ◌||◌, [], ◌∷◌, ◌++◌, length,
  if◌then◌else◌, Text,
}
use otscout.Protocol.Octets.{byte, u16_be, u32_be, u16_le}

-- ModbusDeviceIDRequest
unfoldable pub modbus_device_id_request : ℕ → ℕ → ℕ → Text
modbus_device_id_request transaction_id unit_id read_code =
    let code = if read_code == 1 || (read_code == 2 || read_code == 3) then read_code else 1 in
    let pdu : Text = 0x2B ∷ 0x0E ∷ code ∷ 0x00 ∷ [] in
    u16_be transaction_id ++ (u16_be 0 ++ (u16_be (1 + length pdu) ++ unit_id ∷ pdu))

abbrev pub zeros : ℕ → Text
zeros zero = []
zeros (suc n) = 0 ∷ zeros n

-- ENIPListIdentityRequest
unfoldable pub enip_list_identity_request : Text → Text
enip_list_identity_request sender_context = u16_le 0x63 ++ (zeros 10 ++ (sender_context ++ zeros 4))

-- wrapTPKT
unfoldable pub wrap_tpkt : Text → Text
wrap_tpkt body = 0x03 ∷ 0x00 ∷ u16_be (4 + length body) ++ body

-- s7Header
unfoldable pub s7_header : ℕ → ℕ → ℕ → ℕ → Text
s7_header rosctr pdu_reference param_len data_len =
    0x32 ∷ rosctr ∷ u16_be 0 ++ (u16_be pdu_reference ++ (u16_be param_len ++ u16_be data_len))

abbrev pub cotp_data_header : Text
cotp_data_header = 0x02 ∷ 0xF0 ∷ 0x80 ∷ []

-- S7ConnectionRequest
unfoldable pub s7_connection_request : ℕ → ℕ → Text
unfolding wrap_tpkt
s7_connection_request source_tsap dest_tsap = wrap_tpkt (
    0x11
    ∷ 0xE0
    ∷ 0x00
    ∷ 0x00
    ∷ 0x00
    ∷ 0x01
    ∷ 0x00
    ∷ 0xC0
    ∷ 0x01
    ∷ 0x0A
    ∷ 0xC1
    ∷ 0x02
    ∷ byte (source_tsap / 256)
    ∷ byte source_tsap
    ∷ 0xC2
    ∷ 0x02
    ∷ byte (dest_tsap / 256)
    ∷ byte dest_tsap
    ∷ [])

-- S7SetupCommunication
unfoldable pub s7_setup_communication : ℕ → Text
unfolding wrap_tpkt s7_header
s7_setup_communication pdu_reference =
    let params : Text = 0xF0 ∷ 0x00 ∷ 0x00 ∷ 0x01 ∷ 0x00 ∷ 0x01 ∷ 0x01 ∷ 0xE0 ∷ [] in
    let header = s7_header 0x01 pdu_reference (length params) 0 in
    wrap_tpkt (cotp_data_header ++ (header ++ params))

-- S7ReadSZLRequest
unfoldable pub s7_read_szl_request : ℕ → ℕ → ℕ → Text
unfolding wrap_tpkt s7_header
s7_read_szl_request pdu_reference szl_id szl_index =
    let params : Text = 0x00 ∷ 0x01 ∷ 0x12 ∷ 0x04 ∷ 0x11 ∷ 0x44 ∷ 0x01 ∷ 0x00 ∷ [] in
    let data' : Text = 0xFF ∷ 0x09 ∷ 0x00 ∷ 0x04 ∷ u16_be szl_id ++ u16_be szl_index in
    let header = s7_header 0x07 pdu_reference (length params) (length data') in
    wrap_tpkt (cotp_data_header ++ (header ++ (params ++ data')))

-- The NPDU in front of an APDU, in a broadcast and else.
abbrev pub npdu_of : Bool → Text
npdu_of true = 0x01 ∷ 0x20 ∷ 0xFF ∷ 0xFF ∷ 0x00 ∷ 0xFF ∷ []
npdu_of false = 0x01 ∷ 0x04 ∷ []

-- wrapBACnet
unfoldable pub wrap_bacnet : ℕ → Text → Text
wrap_bacnet bvll_function apdu =
    let body = npdu_of (bvll_function == 0x0B) ++ apdu in
    0x81 ∷ bvll_function ∷ u16_be (4 + length body) ++ body

-- BACnetWhoIsRequest
unfoldable pub bacnet_who_is_request : Text
unfolding wrap_bacnet
bacnet_who_is_request = wrap_bacnet 0x0B (0x10 ∷ 0x08 ∷ [])

-- encodeUnsigned
unfoldable pub encode_unsigned : ℕ → Text
encode_unsigned value =
    if ltb value 256
    then byte value ∷ []
    else if ltb value 65536
    then byte (value / 256) ∷ byte value ∷ []
    else if ltb value 16777216
    then byte (value / 65536) ∷ byte (value / 256) ∷ byte value ∷ []
    else u32_be value

-- BACnetReadPropertyRequest. The device object is type 8 in the upper ten bits and an instance in
-- the lower 22; the tag of the property has the number of its bytes in its lower three.
unfoldable pub bacnet_read_property_request : ℕ → ℕ → Text
unfolding wrap_bacnet
bacnet_read_property_request invoke_id property =
    let object_id = 8 * 4194304 + 0x3FFFFF in
    let prop_bytes = encode_unsigned property in
    wrap_bacnet 0x0A (
      0x00 ∷ 0x05 ∷ invoke_id ∷ 0x0C ∷ 0x0C ∷ u32_be object_id
      ++ ((0x18 + length prop_bytes) ∷ prop_bytes))
