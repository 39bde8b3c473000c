-- ===== src/Tests/Requests.antt =====
-- Requests as they stand on the wire, and the theorems on them.
use otscout.Prelude.{
  is_blank, drop_blank, ◌≡◌, refl, none, some, [], ◌∷◌, codes, Text, inl, inr, text_eq, lower,
  space_width,
}
use otscout.Prelude.Int.{pos, negsuc}
use otscout.Normalize.Version.{trim_space, trim_left, trim_right}
use otscout.Protocol.Octets.{Octets}
use otscout.Protocol.Params.{
  Params, lookup, parse_int, parse_uint, digits_of, digit_value, number, within, sender_context,
  decode_hex, no_spaces, eight, out_of_range, wrong_length,
}
use otscout.Protocol.Registry.{Builder, builder_named, build, build_request}
use otscout.Protocol.Registry.ReadOnly.{Reads, build_request-Reads}
use otscout.Protocol.Requests.{
  modbus_device_id_request, enip_list_identity_request, s7_connection_request,
  s7_setup_communication, s7_read_szl_request, bacnet_who_is_request, bacnet_read_property_request,
  wrap_tpkt, s7_header, wrap_bacnet, encode_unsigned,
}

-- Opens all that a request is built with.
unfoldable building : Unit {0}
unfolding build_request builder_named text_eq build number lookup within parse_int parse_uint
    digits_of digit_value lower trim_space trim_left trim_right drop_blank is_blank space_width
    sender_context decode_hex no_spaces eight modbus_device_id_request enip_list_identity_request
    s7_connection_request s7_setup_communication s7_read_szl_request bacnet_who_is_request
    bacnet_read_property_request wrap_tpkt s7_header wrap_bacnet encode_unsigned
building = tt

abbrev unit_seven : Params
unit_seven = (codes "unit_id", codes " 0x07 ") ∷ (codes "read_code", codes "3") ∷ []

abbrev request : Text
request = 0 ∷ 0 ∷ 0 ∷ 0 ∷ 0 ∷ 5 ∷ 7 ∷ 0x2B ∷ 0x0E ∷ 3 ∷ 0 ∷ []

request-built : build_request (codes "modbus.read-device-identification") unit_seven ≡ inr request
unfolding building
request-built = refl

build_request_runs :
    (build_request (codes "s7comm.setup-communication") []
      ≡ inr (
          3 ∷ 0 ∷ 0 ∷ 25 ∷ 2 ∷ 0xF0 ∷ 0x80 ∷ 0x32 ∷ 1 ∷ 0 ∷ 0 ∷ 0 ∷ 0 ∷ 0 ∷ 8 ∷ 0 ∷ 0 ∷ 0xF0 ∷ 0 ∷ 0
          ∷ 1 ∷ 0 ∷ 1 ∷ 1 ∷ 0xE0 ∷ []))
    × (build_request (codes "bacnet.who-is") []
        ≡ inr (0x81 ∷ 0x0B ∷ 0 ∷ 12 ∷ 1 ∷ 0x20 ∷ 0xFF ∷ 0xFF ∷ 0 ∷ 0xFF ∷ 0x10 ∷ 8 ∷ []))
    × (build_request (codes "bacnet.read-property") ((codes "invoke_id", codes "0400") ∷ [])
        ≡ inl (out_of_range (codes "invoke_id")))
    × (build_request (codes "enip.list-identity") ((codes "sender_context", codes "01 02") ∷ [])
        ≡ inl (wrong_length 2))
unfolding building
build_request_runs = (refl, refl, refl, refl)

parse_int_runs :
    (parse_int (codes "0x_1f") ≡ some (pos 31))
    × (parse_int (codes "0") ≡ some (pos 0))
    × (parse_int (codes "09") ≡ none)
    × (parse_int (codes "1__0") ≡ none)
    × (parse_int (codes "-2") ≡ some (negsuc 1))
    × (parse_int (codes "2147483648") ≡ none)
unfolding building
parse_int_runs = (refl, refl, refl, refl, refl, refl)

build_request-Reads_example :
    (b : Builder) × (builder_named (codes "modbus.read-device-identification") ≡ some b)
    × Reads b request
    × Octets request
build_request-Reads_example =
    build_request-Reads (codes "modbus.read-device-identification") unit_seven request request-built

unit_id-read : number unit_seven (codes "unit_id") 1 0xFF ≡ inr 7
unfolding building
unit_id-read = refl
