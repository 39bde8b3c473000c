-- ===== src/Protocol/Enip.antt =====
-- The decoder of EtherNet/IP responses (internal/protocol/enip.go).
pub mod Response
pub mod Texts
pub mod Framed
use otscout.Prelude.{
  ℕ, zero, suc, ◌+◌, ◌*◌, Bool, true, false, not, ◌&&◌, ◌||◌, Option, none, some, List, [], ◌∷◌,
  ◌++◌, codes, length, get_or, take, drop, is_empty, if◌then◌else◌, Text, ltb, leb, ◌==◌, ◌⊎◌, inl,
  inr, has_byte,
}
use otscout.Prelude.Decimal.{itoa}
use otscout.Asset.Identity.{Identity, no_identity}
use otscout.Protocol.Decoding.{Decoded, read_or}
use otscout.Protocol.Observation.{
  DecodeError, not_this_protocol, truncated, device_error, Note, no_identity_data, no_items,
  not_identity, unreadable, unknown_vendor, frame_ended, Observation, new_observation, set, note,
  hex_fixed, hex_prefixed, hex_upper,
}
use otscout.Protocol.Reader.{
  Reader, new_reader, remaining, u8, u16_le, u32_le, bytes, skip, clean_ascii,
}

-- enipCommands[command]
unfoldable pub command_name : ℕ → Option Text
command_name c =
    if c == 0x04
    then some (codes "List Services")
    else if c == 0x63
    then some (codes "List Identity")
    else if c == 0x64
    then some (codes "List Interfaces")
    else if c == 0x65
    then some (codes "Register Session")
    else if c == 0x66
    then some (codes "UnRegister Session")
    else if c == 0x6F
    then some (codes "Send RR Data")
    else if c == 0x70
    then some (codes "Send Unit Data")
    else if c == 0x72
    then some (codes "Indicate Status")
    else if c == 0x73
    then some (codes "Cancel")
    else none

-- enipStatusText, and what is said of a status that is not in it.
unfoldable pub status_text : ℕ → Text
status_text s =
    if s == 0x01
    then codes "sender issued an invalid or unsupported encapsulation command"
    else if s == 0x02
    then codes "receiver had insufficient memory"
    else if s == 0x03
    then codes "poorly formed or incorrect data in the request"
    else if s == 0x64
    then codes "invalid session handle"
    else if s == 0x65
    then codes "invalid message length"
    else if s == 0x69
    then codes "unsupported encapsulation protocol revision"
    else codes "undocumented encapsulation status"

-- enipDeviceTypes[t], which is empty where there is none
unfoldable pub device_type_name : ℕ → Text
device_type_name t =
    if t == 0x02
    then codes "AC Drive"
    else if t == 0x07
    then codes "General Purpose Discrete I/O"
    else if t == 0x0C
    then codes "Communications Adapter"
    else if t == 0x0E
    then codes "Programmable Logic Controller"
    else []

-- What stands in front of the first `c`.
unfoldable pub until : ℕ → Text → Text
until c [] = []
until c (x ∷ s) = let rest = until c s in if x == c then [] else x ∷ rest

-- A slash cuts the token unless it is at the front.
unfoldable pub cut_series : Text → Text
cut_series [] = []
cut_series (x ∷ s) = if x == b'/' then x ∷ s else x ∷ until b'/' s

unfoldable pub count_digits : Text → ℕ
count_digits [] = 0
count_digits (x ∷ s) =
    let rest = count_digits s in if leb b'0' x && leb x b'9' then rest + 1 else rest

-- leadingCatalogToken
unfoldable pub leading_catalog_token : Text → Text
leading_catalog_token product_name =
    let token = cut_series (until b' ' product_name) in
    if has_byte b'-' token && (leb 3 (count_digits token) && leb 6 (length token))
    then token
    else []

-- net.IP.String of four bytes, and a port
abbrev pub socket_address : Text → Text
socket_address s =
    itoa (get_or s 4 0)
    ++ b'.' ∷ itoa (get_or s 5 0)
    ++ b'.' ∷ itoa (get_or s 6 0)
    ++ b'.' ∷ itoa (get_or s 7 0)
    ++ b':' ∷ itoa (get_or s 2 0 * 256 + get_or s 3 0)

-- fmt.Sprintf("%d.%d", major, minor)
abbrev pub revision : ℕ → ℕ → Text
revision major minor = itoa major ++ b'.' ∷ itoa minor

-- The fields of the identity object.
pub record CipFields : Type 0 where
  pub vendor_id : ℕ
  pub device_type : ℕ
  pub product_code : ℕ
  pub rev_major : ℕ
  pub rev_minor : ℕ
  pub device_status : ℕ
  pub serial : ℕ
  pub product_name : Text
  pub state : Option ℕ

-- What they make of the identity.
unfoldable pub cip_identity : CipFields → Identity
cip_identity f =
    let firmware = revision f.rev_major f.rev_minor in
    let vendor : Text =
      if f.vendor_id == 1 then codes "Rockwell Automation/Allen-Bradley" else [] in
    record no_identity {
      product_raw = f.product_name;
      product = f.product_name;
      firmware_raw = firmware;
      firmware = firmware;
      serial = hex_fixed hex_upper 8 f.serial;
      vendor_raw = vendor;
      vendor = vendor;
      catalog_number = leading_catalog_token f.product_name;
    }

-- obs.set("device_state", ...), where there is one
abbrev pub set_state : Option ℕ → Observation → Observation
set_state none obs = obs
set_state (some s) obs = set (codes "device_state") (hex_prefixed 2 s) obs

-- What they add to the observation.
unfoldable pub report_cip : CipFields → Observation → Observation
report_cip f obs =
    let o1 = set (codes "vendor_id") (itoa f.vendor_id) obs in
    let o2 = set (codes "device_type") (itoa f.device_type) o1 in
    let o3 = set (codes "product_code") (itoa f.product_code) o2 in
    let o4 = set (codes "revision") (revision f.rev_major f.rev_minor) o3 in
    let o5 = set (codes "device_status") (hex_prefixed 4 f.device_status) o4 in
    let o6 = set (codes "serial_number") (hex_fixed hex_upper 8 f.serial) o5 in
    let o7 = set_state f.state (set (codes "product_name") f.product_name o6) in
    let o8 = set (codes "device_type_name") (device_type_name f.device_type) o7 in
    let o9 : Observation = record o8 {
      role = if f.device_type == 0x0E then codes "plc" else o8.role;
    } in
    let o10 =
      if f.vendor_id == 1
      then set (codes "vendor_name") (codes "Rockwell Automation/Allen-Bradley") o9
      else note (unknown_vendor f.vendor_id) o9 in
    let o11 =
      set (codes "catalog_number_from_product_name") (leading_catalog_token f.product_name) o10 in
    record o11 { identity = cip_identity f }

-- state, hasState := r.u8()
abbrev pub if_read : Option (ℕ × Reader) → Option ℕ
if_read none = none
if_read (some (a, r)) = some a

-- From the vendor id on.
unfoldable pub decode_fields : Reader → Observation → Decoded
decode_fields r obs = read_or (u16_le r) truncated obs (λ vendor_id r1.
    read_or (u16_le r1) truncated obs (λ device_type r2.
      read_or (u16_le r2) truncated obs (λ product_code r3.
        read_or (u8 r3) truncated obs (λ major r4. read_or (u8 r4) truncated obs (λ minor r5.
          read_or (u16_le r5) truncated obs (λ status r6.
            read_or (u32_le r6) truncated obs (λ serial r7.
              read_or (u8 r7) truncated obs (λ name_len r8.
                read_or (bytes name_len r8) truncated obs (λ name r9. (
                  report_cip
                      (record {
                        vendor_id = vendor_id;
                        device_type = device_type;
                        product_code = product_code;
                        rev_major = major;
                        rev_minor = minor;
                        device_status = status;
                        serial = serial;
                        product_name = clean_ascii name;
                        state = if_read (u8 r9);
                      })
                      obs,
                  none,
                ))))))))))

-- decodeCIPIdentity
unfoldable pub decode_cip_identity : Text → Observation → Decoded
decode_cip_identity body obs = read_or (u16_le (new_reader body)) truncated obs (λ version r1.
    let obs1 = set (codes "encapsulation_protocol_version") (itoa version) obs in
    read_or (bytes 16 r1) truncated obs1 (λ address r2. decode_fields r2 (
      if get_or address 2 0 * 256 + get_or address 3 0 == 0
      then obs1
      else set (codes "reported_socket_address") (socket_address address) obs1)))
