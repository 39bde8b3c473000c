-- ===== src/Protocol/Modbus.antt =====
-- The decoder of Modbus/TCP responses (internal/protocol/modbus.go).
pub mod Framing
pub mod Texts
use otscout.Prelude.{
  ℕ, zero, suc, ◌+◌, ◌*◌, ◌-◌, ◌/◌, ◌%◌, Bool, true, false, not, ◌&&◌, ◌||◌, Option, none, some,
  List, [], ◌∷◌, ◌++◌, codes, length, take, drop, get_or, is_empty, if◌then◌else◌, Text, ltb, leb,
  ◌==◌, ◌⊎◌, inl, inr,
}
use otscout.Prelude.Decimal.{itoa}
use otscout.Asset.Identity.{Identity, no_identity, empty}
use otscout.Protocol.Decoding.{Decoded, read_or}
use otscout.Protocol.Observation.{
  DecodeError, not_this_protocol, truncated, device_error, refused, no_identification, more_objects,
  list_ended, no_length, frame_ended, no_objects, Note, Observation, new_observation, set, note,
  hex_byte,
}
use otscout.Protocol.Reader.{Reader, new_reader, u8, u16_be, bytes, clean_ascii}

-- binary.BigEndian.Uint16(payload[i:i+2])
abbrev pub u16_at : ℕ → Text → ℕ
u16_at i payload = get_or payload i 0 * 256 + get_or payload (suc i) 0

-- modbusFraming. Every turn takes a frame of nine bytes or more, so that as much fuel as there are
-- bytes is enough.
unfoldable pub frames_from : ℕ → Text → Option DecodeError
frames_from fuel [] = none
frames_from zero (b ∷ payload) = some truncated
frames_from (suc fuel) (b ∷ payload) =
    let all = b ∷ payload in
    let n = u16_at 4 all in
    let rest = frames_from fuel (drop (6 + n) all) in
    if ltb (length all) 6
    then some truncated
    else if not (u16_at 2 all == 0)
    then some not_this_protocol
    else if ltb n 3 || ltb 260 n
    then some not_this_protocol
    else if ltb (length all) (6 + n)
    then some truncated
    else rest

unfoldable pub modbus_framing : Text → Option DecodeError
modbus_framing payload = frames_from (length payload) payload

-- modbusObjectNames, and the name of an object that is not in it.
unfoldable pub object_name : ℕ → Text
object_name id =
    if id == 0
    then codes "vendor_name"
    else if id == 1
    then codes "product_code"
    else if id == 2
    then codes "major_minor_revision"
    else if id == 3
    then codes "vendor_url"
    else if id == 4
    then codes "product_name"
    else if id == 5
    then codes "model_name"
    else if id == 6
    then codes "user_application_name"
    else codes "object_" ++ hex_byte id

-- modbusExceptions, and what is said of a code that is not in it.
unfoldable pub exception_text : ℕ → Text
exception_text code =
    if code == 1
    then codes "illegal function"
    else if code == 2
    then codes "illegal data address"
    else if code == 3
    then codes "illegal data value"
    else if code == 4
    then codes "slave device failure"
    else if code == 5
    then codes "acknowledge"
    else if code == 6
    then codes "slave device busy"
    else if code == 8
    then codes "memory parity error"
    else if code == 10
    then codes "gateway path unavailable"
    else if code == 11
    then codes "gateway target device failed to respond"
    else codes "undocumented exception code"

-- objects[id], which is empty where there is none
abbrev pub Objects : Type 0
Objects = List (ℕ × Text)

unfoldable pub object : ℕ → Objects → Text
object id [] = []
object id ((k, v) ∷ m) = if k == id then v else object id m

-- objects[id] = text
unfoldable pub put_object : ℕ → Text → Objects → Objects
put_object id text [] = (id, text) ∷ []
put_object id text ((k, v) ∷ m) = if k == id then (k, text) ∷ m else (k, v) ∷ put_object id text m

-- modbusIdentity
unfoldable pub modbus_identity : Objects → Identity
modbus_identity objects =
    let model = object 5 objects in
    let named = object 4 objects in
    let product_raw = if is_empty named then model else named in
    record no_identity {
      vendor = object 0 objects;
      vendor_raw = object 0 objects;
      product = product_raw;
      product_raw = product_raw;
      model = model;
      catalog_number = object 1 objects;
      firmware = object 2 objects;
      firmware_raw = object 2 objects;
    }

-- What an object that could be read adds.
unfoldable pub keep_object : ℕ → Text → Objects × Observation → Objects × Observation
keep_object id value (objects, obs) =
    let text = clean_ascii value in
    if is_empty text
    then (objects, obs)
    else (put_object id text objects, set (object_name id) text obs)

-- One object, or the note on what is missing.
unfoldable pub read_object : ℕ → ℕ → Reader → Note ⊎ ((ℕ × Text) × Reader)
read_object idx count r = elim (u8 r) [
  | none ↦ inl (list_ended idx count)
  | some (id, r1) ↦ elim (u8 r1) [
    | none ↦ inl (no_length id)
    | some (len, r2) ↦ elim (bytes len r2) [
      | none ↦ inl (frame_ended id len)
      | some (value, r3) ↦ inr ((id, value), r3)
    ]
  ]
]

-- The loop over the objects, `left` of which are still declared.
unfoldable pub read_objects : ℕ → ℕ → ℕ → Reader → Objects × Observation → Objects × Observation
read_objects zero idx count r (objects, obs) = (objects, obs)
read_objects (suc left) idx count r (objects, obs) = elim (read_object idx count r) [
  | inl missing ↦ (objects, note missing obs)
  | inr ((id, value), r') ↦
      read_objects left (idx + 1) count r' (keep_object id value (objects, obs))
]

-- What stands behind the loop.
unfoldable pub identify : Objects × Observation → Decoded
identify (objects, obs) =
    let id = modbus_identity objects in
    let obs' = record obs { identity = id } in
    (if empty id && is_empty objects then note no_objects obs' else obs', none)

-- What the fields in front of the objects add.
unfoldable pub decode_objects : ℕ → ℕ → ℕ → ℕ → ℕ → Reader → Observation → Decoded
decode_objects read_code conformity more_follows next_object count r obs =
    let obs1 = set (codes "read_device_id_code") (itoa read_code) obs in
    let obs2 = set (codes "conformity_level") (hex_byte conformity) obs1 in
    let obs3 =
      if more_follows == 0xFF
      then note (more_objects next_object) (set (codes "next_object_id") (itoa next_object) obs2)
      else obs2 in
    identify (read_objects count 0 count r ([], obs3))

-- From the MEI type on.
unfoldable pub decode_identification : Reader → Observation → Decoded
decode_identification r obs = read_or (u8 r) truncated obs (λ mei r1.
    if not (mei == 0x0E)
    then (obs, some not_this_protocol)
    else read_or (u8 r1) truncated obs (λ read_code r2.
      read_or (u8 r2) truncated obs (λ conformity r3.
        read_or (u8 r3) truncated obs (λ more_follows r4.
          read_or (u8 r4) truncated obs (λ next_object r5.
            read_or (u8 r5) truncated obs (λ count r6.
              decode_objects read_code conformity more_follows next_object count r6 obs))))))

-- code, _ := r.u8()
abbrev pub or_zero : Option (ℕ × Reader) → ℕ
or_zero none = 0
or_zero (some (a, r)) = a

-- From the function code on. The flag of an exception is the highest bit of the byte.
unfoldable pub decode_function : ℕ → Reader → Observation → Decoded
decode_function function r obs =
    if leb 0x80 function
    then (
      note (refused (function - 0x80) (or_zero (u8 r)))
          (set (codes "exception_code") (itoa (or_zero (u8 r))) obs),
      some (device_error (codes "modbus") (or_zero (u8 r)) (exception_text (or_zero (u8 r)))),
    )
    else if not (function == 0x2B)
    then (note (no_identification function) (set (codes "function_code") (itoa function) obs), none)
    else decode_identification r obs

-- From the header on.
unfoldable pub decode_frame : Reader → Observation → Decoded
decode_frame r obs = read_or (u16_be r) not_this_protocol obs (λ transaction r1.
    read_or (u16_be r1) not_this_protocol obs (λ protocol r2.
      if not (protocol == 0)
      then (obs, some not_this_protocol)
      else read_or (u16_be r2) not_this_protocol obs (λ declared r3.
        if ltb declared 2 || ltb 260 declared
        then (obs, some not_this_protocol)
        else read_or (u8 r3) truncated obs (λ unit r4. read_or (u8 r4) truncated obs (λ function r5.
          decode_function function r5 (
            set (codes "unit_id") (itoa unit)
              (set (codes "transaction_id") (itoa transaction) obs)))))))

-- DecodeModbusResponse
unfoldable pub decode_modbus_response : Text → Decoded
decode_modbus_response payload =
    let obs = new_observation (codes "modbus") in
    elim (modbus_framing payload) [
      | some e ↦ (obs, some e)
      | none ↦ decode_frame (new_reader payload) obs
    ]
