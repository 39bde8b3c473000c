-- ===== src/Protocol/Registry/ReadOnly.antt =====
-- Only requests that read can be built. A request is looked at the way a dissector of its
-- protocol looks at it: by the offsets of its fields.
use otscout.Prelude.{
  ℕ, suc, ◌+◌, ◌*◌, ◌≤◌, ◌<◌, ◌≡◌, refl, some, arith, All-append, codes, length, length-append,
  get_or, Text, ◌⊎◌, inl, inr, Option-cases,
}
use otscout.Protocol.Octets.{byte, Octets}
use otscout.Protocol.Params.{Params, BuildError, number, sender_context}
use otscout.Protocol.Params.Bounds.{sender_context-Octets}
use otscout.Protocol.Requests.{
  modbus_device_id_request, enip_list_identity_request, s7_connection_request,
  s7_setup_communication, s7_read_szl_request, bacnet_who_is_request, bacnet_read_property_request,
  encode_unsigned, zeros,
}
use otscout.Protocol.Registry.{
  Builder, modbus_identification, enip_identity, s7_connection, s7_setup, s7_szl, who_is,
  read_property, builder_named, or_fail, build, build_request,
}

-- The byte at an offset.
abbrev pub at : ℕ → Text → ℕ
at i s = get_or s i 0

-- The two bytes from an offset on, the higher first.
abbrev pub field : ℕ → Text → ℕ
field i s = at i s * 256 + at (suc i) s

-- Modbus/TCP: the length field counts what is there, the function is 43 with MEI type 14, and the
-- read code is one of three.
pub record ReadsModbus (s : Text) : Type 0 where
  pub protocol : field 2 s ≡ 0
  pub counted : field 4 s + 6 ≡ length s
  pub function : at 7 s ≡ 43
  pub mei : at 8 s ≡ 14
  pub read_code : (1 ≤ at 9 s) × (at 9 s ≤ 3)

-- EtherNet/IP: List Identity, a header with nothing behind it and no session.
pub record ReadsEnip (s : Text) : Type 0 where
  pub command : (at 0 s ≡ 0x63) × (at 1 s ≡ 0)
  pub body : (at 2 s ≡ 0) × (at 3 s ≡ 0)
  pub header : length s ≡ 24

-- ISO on TCP: the length field counts what is there.
pub record IsTpkt (s : Text) : Type 0 where
  pub version : at 0 s ≡ 3
  pub counted : field 2 s ≡ length s

-- A data transfer of S7comm with its parameters and data in full.
pub record IsS7 (s : Text) : Type 0 where
  pub tpkt : IsTpkt s
  pub transfer : at 5 s ≡ 0xF0
  pub protocol : at 7 s ≡ 0x32
  pub counted : 17 + field 13 s + field 15 s ≡ length s

-- BACnet/IP: the length field counts what is there.
pub record IsBacnet (s : Text) : Type 0 where
  pub kind : at 0 s ≡ 0x81
  pub counted : field 2 s ≡ length s

-- A COTP connection request that carries no job; the job 0xF0, which sets up the communication; the
-- subfunction 1 of the CPU functions, which reads the status list; the unconfirmed service 8; and the
-- confirmed service 12.
abbrev pub Reads : Builder → Text → Type 0
Reads modbus_identification s = ReadsModbus s
Reads enip_identity s = ReadsEnip s
Reads s7_connection s = IsTpkt s × (at 5 s ≡ 0xE0) × (at 4 s + 5 ≡ length s)
Reads s7_setup s = IsS7 s × (at 8 s ≡ 1) × (at 17 s ≡ 0xF0)
Reads s7_szl s = IsS7 s × (at 8 s ≡ 7) × (at 22 s ≡ 0x44) × (at 23 s ≡ 1)
Reads who_is s = IsBacnet s × (at 10 s ≡ 0x10) × (at 11 s ≡ 8)
Reads read_property s = IsBacnet s × (at 6 s ≡ 0) × (at 9 s ≡ 12)

or_fail-inr :
    {A B : Type 0} (x : BuildError ⊎ A) (f : A → BuildError ⊎ B) (b : B)
    → or_fail x f ≡ inr b
    → (a : A) × (x ≡ inr a) × (f a ≡ inr b)
or_fail-inr (inl e) f b h = ground arith
or_fail-inr (inr a) f b h = (a, refl, h)

modbus-Reads :
    (t u r : ℕ) → let s = modbus_device_id_request t (byte u) (byte r) in ReadsModbus s × Octets s
unfolding modbus_device_id_request
modbus-Reads t u r = ground arith

enip-Reads :
    (context : Text)
    → Octets context
    → length context ≡ 8
    → let s = enip_list_identity_request context in ReadsEnip s × Octets s
unfolding enip_list_identity_request
enip-Reads context o h = ground (
  arith,
  length-append context (zeros 4),
  All-append (λ (b : ℕ). b < 256) context (zeros 4) o (ground arith),
)

connection-Reads :
    (source dest : ℕ)
    → let s = s7_connection_request source dest in Reads s7_connection s × Octets s
unfolding s7_connection_request
connection-Reads source dest = ground arith

setup-Reads : (n : ℕ) → let s = s7_setup_communication n in Reads s7_setup s × Octets s
unfolding s7_setup_communication
setup-Reads n = ground arith

szl-Reads : (n i j : ℕ) → let s = s7_read_szl_request n i j in Reads s7_szl s × Octets s
unfolding s7_read_szl_request
szl-Reads n i j = ground arith

who_is-Reads : Reads who_is bacnet_who_is_request × Octets bacnet_who_is_request
unfolding bacnet_who_is_request
who_is-Reads = ground arith

read_property-Reads :
    (i n : ℕ)
    → i < 256
    → let s = bacnet_read_property_request i n in Reads read_property s × Octets s
unfolding bacnet_read_property_request encode_unsigned
read_property-Reads i n h = ground arith

build-Reads : (b : Builder) (p : Params) (s : Text) → build b p ≡ inr s → Reads b s × Octets s
unfolding build
build-Reads modbus_identification p s h =
    let (t, h1, k1) = or_fail-inr (number p (codes "transaction_id") 0 0xFFFF) _ s h in
    let (u, h2, k2) = or_fail-inr (number p (codes "unit_id") 1 0xFF) _ s k1 in
    let (r, h3, k3) = or_fail-inr (number p (codes "read_code") 1 0xFF) _ s k2 in
    ground (arith, modbus-Reads t u r)
build-Reads enip_identity p s h =
    let (context, h1, k1) = or_fail-inr (sender_context p) _ s h in
    let (o, eight) = sender_context-Octets p context h1 in
    ground (arith, enip-Reads context o eight)
build-Reads s7_connection p s h =
    let (source, h1, k1) = or_fail-inr (number p (codes "source_tsap") 0x0100 0xFFFF) _ s h in
    let (dest, h2, k2) = or_fail-inr (number p (codes "dest_tsap") 0x0102 0xFFFF) _ s k1 in
    ground (arith, connection-Reads source dest)
build-Reads s7_setup p s h =
    let (n, h1, k1) = or_fail-inr (number p (codes "pdu_reference") 0 0xFFFF) _ s h in
    ground (arith, setup-Reads n)
build-Reads s7_szl p s h =
    let (n, h1, k1) = or_fail-inr (number p (codes "pdu_reference") 0 0xFFFF) _ s h in
    let (i, h2, k2) = or_fail-inr (number p (codes "szl_id") 0x001C 0xFFFF) _ s k1 in
    let (j, h3, k3) = or_fail-inr (number p (codes "szl_index") 0 0xFFFF) _ s k2 in
    ground (arith, szl-Reads n i j)
build-Reads who_is p s h = ground (arith, who_is-Reads)
build-Reads read_property p s h =
    let (i, h1, k1) = or_fail-inr (number p (codes "invoke_id") 0 0xFF) _ s h in
    let (n, h2, k2) = or_fail-inr (number p (codes "property") 70 0xFFFFFF) _ s k1 in
    ground (arith, read_property-Reads (byte i) n)

-- Whatever the name and the parameters, a request that is built consists of bytes and belongs to
-- one of the builders; it is framed in full by its own length fields, and its function is the one
-- of that builder that reads.
pub build_request-Reads :
    (name : Text) (p : Params) (s : Text)
    → build_request name p ≡ inr s
    → (b : Builder) × (builder_named name ≡ some b) × Reads b s × Octets s
unfolding build_request
build_request-Reads name p s h = elim (Option-cases (builder_named name)) [
  | inl none_named ↦ ground arith
  | inr (b, named) ↦
      let (reads, o) = build-Reads b p s (rw (build_request, named) at h) in (b, named, reads, o)
]
