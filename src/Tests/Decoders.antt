-- ===== src/Tests/Decoders.antt =====
-- Responses as they stand on the wire, and the theorems on them.
use otscout.Prelude.{◌≤◌, ◌≡◌, ◌↔◌, refl, none, some, [], ◌∷◌, codes, Text, text_eq, space_width}
use otscout.Prelude.Decimal.{itoa}
use otscout.Asset.Identity.{empty}
use otscout.Protocol.Observation.{set, put, truncated, device_error}
use otscout.Protocol.Reader.{u8, u16_be, bytes, visible, split_words, fields, join, clean_ascii}
use otscout.Protocol.Decoding.{read_or}
use otscout.Protocol.Decoding.Showable.{IsShowable}
use otscout.Protocol.Modbus.{
  frames_from, modbus_framing, object_name, exception_text, object, put_object, modbus_identity,
  keep_object, read_object, read_objects, identify, decode_objects, decode_identification,
  decode_function, decode_frame, decode_modbus_response,
}
use otscout.Protocol.Modbus.Framing.{Frames, modbus_framing-Frames}
use otscout.Protocol.Modbus.Texts.{decode_modbus_response-IsShowable}
use otscout.Protocol.Observation.{hex_fixed, not_this_protocol}
use otscout.Protocol.Reader.{u16_le, u32_le, skip}
use otscout.Protocol.Enip.{
  command_name, status_text, device_type_name, until, cut_series, count_digits,
  leading_catalog_token, cip_identity, report_cip, decode_fields, decode_cip_identity,
}
use otscout.Protocol.Enip.Response.{
  read_item, take_identity, read_items, decode_items, decode_body, skip_or, decode_enip_response,
}
use otscout.Protocol.Enip.Framed.{decode_enip_response-none}
use otscout.Protocol.Enip.Texts.{decode_enip_response-IsShowable}
use otscout.Prelude.{◌≢◌, has_byte, ◌+◌, ◌++◌, ◌≤◌}

-- Opens all that a response is decoded with.
unfoldable decoding : Unit {0}
unfolding set put itoa u8 u16_be bytes visible split_words fields join clean_ascii space_width
    frames_from modbus_framing object_name exception_text object put_object modbus_identity
    keep_object read_object read_objects read_or identify decode_objects decode_identification
    decode_function decode_frame decode_modbus_response text_eq empty
decoding = tt

unfoldable enip_decoding : Unit {0}
unfolding decoding hex_fixed u16_le u32_le skip has_byte command_name status_text device_type_name
    until cut_series count_digits leading_catalog_token cip_identity report_cip decode_fields
    decode_cip_identity read_item take_identity read_items decode_items decode_body skip_or
    decode_enip_response
enip_decoding = tt

-- A vendor name with a control character in it and a product code.
abbrev response : Text
response =
    0 ∷ 1 ∷ 0 ∷ 0 ∷ 0 ∷ 16 ∷ 7 ∷ 0x2B ∷ 0x0E ∷ 1 ∷ 1 ∷ 0 ∷ 0 ∷ 2 ∷ 0 ∷ 3 ∷ b'A' ∷ 27 ∷ b'B' ∷ 1 ∷ 1
    ∷ b'7' ∷ []

decode_modbus_response_runs :
    ((decode_modbus_response response).1 ≡ none)
    × ((decode_modbus_response response).0.identity.vendor ≡ codes "A B")
    × ((decode_modbus_response response).0.identity.catalog_number ≡ codes "7")
    × ((decode_modbus_response (0 ∷ 1 ∷ 0 ∷ 0 ∷ 0 ∷ 3 ∷ 7 ∷ 0xAB ∷ 1 ∷ [])).1
        ≡ some (device_error (codes "modbus") 1 (codes "illegal function")))
    × ((decode_modbus_response (0 ∷ 1 ∷ 0 ∷ 0 ∷ 0 ∷ 9 ∷ 7 ∷ [])).1 ≡ some truncated)
unfolding decoding
decode_modbus_response_runs = (refl, refl, refl, refl, refl)

modbus_framing-Frames_example : (modbus_framing response ≡ none) ↔ Frames response
modbus_framing-Frames_example = modbus_framing-Frames response

decode_modbus_response-IsShowable_example : IsShowable (decode_modbus_response response).0.identity
decode_modbus_response-IsShowable_example = decode_modbus_response-IsShowable response

-- A List Identity response with one identity item of the device 1756-L71/B.
abbrev identity_item : Text
identity_item =
    1
      ∷ 0
      ∷ 0
      ∷ 2
      ∷ 0xAF
      ∷ 0x12
      ∷ 10
      ∷ 0
      ∷ 0
      ∷ 9
      ∷ 0
      ∷ 0
      ∷ 0
      ∷ 0
      ∷ 0
      ∷ 0
      ∷ 0
      ∷ 0
      ∷ 1
      ∷ 0
      ∷ 0x0E
      ∷ 0
      ∷ 92
      ∷ 0
      ∷ 20
      ∷ 11
      ∷ 0
      ∷ 0
      ∷ 0xEF
      ∷ 0xBE
      ∷ 0
      ∷ 0
      ∷ 15
      ∷ codes "1756-L71/B LOGI"
    ++ 3 ∷ []

abbrev list_identity : Text
list_identity =
    0x63 ∷ 0 ∷ 55 ∷ 0 ∷ 0 ∷ 0 ∷ 0 ∷ 0 ∷ 0 ∷ 0 ∷ 0 ∷ 0 ∷ 0 ∷ 0 ∷ 0 ∷ 0 ∷ 0 ∷ 0 ∷ 0 ∷ 0 ∷ 0 ∷ 0 ∷ 0
    ∷ 0 ∷ 1 ∷ 0 ∷ 0x0C ∷ 0 ∷ 49 ∷ 0 ∷ identity_item

decode_enip_response_runs :
    ((decode_enip_response list_identity).1 ≡ none)
    × ((decode_enip_response list_identity).0.identity.catalog_number ≡ codes "1756-L71")
    × ((decode_enip_response list_identity).0.identity.serial ≡ codes "0000BEEF")
    × ((decode_enip_response list_identity).0.identity.firmware ≡ codes "20.11")
    × ((decode_enip_response list_identity).0.role ≡ codes "plc")
    × ((decode_enip_response (0x63 ∷ 0 ∷ [])).1 ≡ some not_this_protocol)
unfolding enip_decoding
decode_enip_response_runs = (refl, refl, refl, refl, refl, refl)

decode_enip_response-IsShowable_example : IsShowable (decode_enip_response list_identity).0.identity
decode_enip_response-IsShowable_example = decode_enip_response-IsShowable list_identity

list_identity-decoded : (decode_enip_response list_identity).1 ≡ none
unfolding enip_decoding
list_identity-decoded = refl

decode_enip_response-none_example : (command_name 0x63 ≢ none) × (24 + 55 ≤ 79)
unfolding enip_decoding
decode_enip_response-none_example = decode_enip_response-none list_identity list_identity-decoded
