-- ===== src/Protocol/Enip/Texts.antt =====
-- What the decoder makes of a device's texts.
use otscout.Prelude.{
  ℕ, zero, suc, ◌+◌, ◌/◌, not, ◌||◌, Option, none, some, [], ◌∷◌, arith, All-append, All-map, codes,
  if◌then◌else◌, Text, ltb, ◌==◌, inl, inr, Sum-cases, Option-cases,
}
use otscout.Prelude.Decimal.{itoa, itoa-All}
use otscout.Asset.Identity.{no_identity}
use otscout.Protocol.Decoding.{Decoded}
use otscout.Protocol.Decoding.Showable.{IsShowable, set-IsShowable, Fine, read_or-Fine, if-Fine}
use otscout.Protocol.Observation.{
  Observation, new_observation, set, note, hex_fixed, hex_upper, hex_prefixed, not_identity,
}
use otscout.Protocol.Reader.{Reader, new_reader, remaining, u8, u16_le, u32_le, bytes, skip}
use otscout.Protocol.Reader.Printable.{Printable, clean_ascii-Printable}
use otscout.Protocol.Enip.{
  until, cut_series, leading_catalog_token, CipFields, cip_identity, report_cip, revision,
  decode_fields, decode_cip_identity, command_name, socket_address,
}
use otscout.Protocol.Enip.Response.{
  read_item, take_identity, read_items, decode_items, decode_body, skip_or, decode_enip_response,
}

itoa-Printable : (n : ℕ) → Printable (itoa n)
itoa-Printable n =
    All-map _ _ (λ b h. (omega (arith, h.0), omega (arith, h.1))) (itoa n) (itoa-All n)

revision-Printable : (a b : ℕ) → Printable (revision a b)
revision-Printable a b =
    All-append _ (itoa a) _ (itoa-Printable a) ((omega arith, omega arith), itoa-Printable b)

hex_fixed-Printable : (width n : ℕ) → Printable (hex_fixed hex_upper width n)
unfolding hex_fixed
hex_fixed-Printable zero n = tt
hex_fixed-Printable (suc width) n =
    All-append _ (hex_fixed hex_upper width (n / 16)) _ (hex_fixed-Printable width (n / 16))
      (ground arith, tt)

until-Printable : (c : ℕ) (s : Text) → Printable s → Printable (until c s)
unfolding until
until-Printable c [] h = tt
until-Printable c (x ∷ s) h = ground (arith, until-Printable c s h.1)

cut_series-Printable : (s : Text) → Printable s → Printable (cut_series s)
unfolding cut_series
cut_series-Printable [] h = tt
cut_series-Printable (x ∷ s) h = ground (arith, h, until-Printable b'/' s h.1)

leading_catalog_token-Printable : (s : Text) → Printable s → Printable (leading_catalog_token s)
unfolding leading_catalog_token
leading_catalog_token-Printable s h =
    ground (arith, cut_series-Printable (until b' ' s) (until-Printable b' ' s h))

cip_identity-IsShowable : (f : CipFields) → Printable f.product_name → IsShowable (cip_identity f)
unfolding cip_identity
cip_identity-IsShowable f h = ground (
  arith,
  h,
  revision-Printable f.rev_major f.rev_minor,
  hex_fixed-Printable 8 f.serial,
  leading_catalog_token-Printable f.product_name h,
)

report_cip-Fine :
    (f : CipFields) (obs : Observation) → Printable f.product_name → Fine (report_cip f obs, none)
unfolding report_cip
report_cip-Fine f obs h = record { shown = cip_identity-IsShowable f h }

decode_fields-Fine :
    (r : Reader) (obs : Observation) → IsShowable obs.identity → Fine (decode_fields r obs)
unfolding decode_fields
decode_fields-Fine r obs h = read_or-Fine (u16_le r) _ obs _ h (λ _ r1.
    read_or-Fine (u16_le r1) _ obs _ h (λ _ r2. read_or-Fine (u16_le r2) _ obs _ h (λ _ r3.
      read_or-Fine (u8 r3) _ obs _ h (λ _ r4. read_or-Fine (u8 r4) _ obs _ h (λ _ r5.
        read_or-Fine (u16_le r5) _ obs _ h (λ _ r6. read_or-Fine (u32_le r6) _ obs _ h (λ _ r7.
          read_or-Fine (u8 r7) _ obs _ h (λ n r8.
            read_or-Fine (bytes n r8) _ obs _ h
              (λ name r9. report_cip-Fine _ obs (clean_ascii-Printable name))))))))))

decode_cip_identity-Fine :
    (body : Text) (obs : Observation)
    → IsShowable obs.identity
    → Fine (decode_cip_identity body obs)
unfolding decode_cip_identity
decode_cip_identity-Fine body obs h = read_or-Fine (u16_le (new_reader body)) _ obs _ h (λ v r1.
    let obs1 = set (codes "encapsulation_protocol_version") (itoa v) obs in
    let h1 = set-IsShowable (codes "encapsulation_protocol_version") (itoa v) obs h in
    read_or-Fine (bytes 16 r1) _ obs1 _ h1 (λ address r2. decode_fields-Fine r2 _ (
      ground (
        arith,
        h1,
        set-IsShowable (codes "reported_socket_address") (socket_address address) obs1 h1,
      ))))

take_identity-IsShowable :
    (idx : ℕ) (d : Decoded) → Fine d → IsShowable (take_identity idx d).identity
unfolding take_identity
take_identity-IsShowable idx (obs, none) h = h.shown
take_identity-IsShowable idx (obs, some e) h = h.shown

read_items-IsShowable :
    (left idx : ℕ) (r : Reader) (obs : Observation)
    → IsShowable obs.identity
    → IsShowable (read_items left idx r obs).identity
unfolding read_items
read_items-IsShowable zero idx r obs h = h
read_items-IsShowable (suc left) idx r obs h = elim (Sum-cases (read_item idx r)) [
  | inl (missing, e) ↦ ground (arith, e, h)
  | inr (((kind, body), r'), e) ↦ ground (
    arith,
    e,
    read_items-IsShowable left (idx + 1) r' (note (not_identity kind) obs) h,
    take_identity-IsShowable idx (decode_cip_identity body obs)
        (decode_cip_identity-Fine body obs h),
  )
]

decode_items-Fine :
    (session : ℕ) (r : Reader) (obs : Observation)
    → IsShowable obs.identity
    → Fine (decode_items session r obs)
unfolding decode_items
decode_items-Fine session r obs h =
    let obs' =
      if session == 0 then obs else set (codes "session_handle") (hex_prefixed 8 session) obs in
    let h' : IsShowable obs'.identity =
      ground (arith, h, set-IsShowable (codes "session_handle") (hex_prefixed 8 session) obs h) in
    read_or-Fine (u16_le r) _ obs' _ h' (λ count r1.
      if-Fine (count == 0) _ _ (record { shown = h' })
        (record { shown = read_items-IsShowable count 0 r1 obs' h' }))

decode_body-Fine :
    (command declared session status : ℕ) (r : Reader) (obs : Observation)
    → IsShowable obs.identity
    → Fine (decode_body command declared session status r obs)
unfolding decode_body
decode_body-Fine command declared session status r obs h =
    elim (Option-cases (command_name command)) [
      | inl unknown ↦ record { shown = ground (arith, h) }
      | inr (name, known) ↦
          rw (decode_body, known)
            (if-Fine (ltb 65535 declared || ltb (remaining r) declared) _ _ (record { shown = h })
              (if-Fine (not (command == 0x63)) _ _ (record { shown = set-IsShowable _ _ obs h })
                (if-Fine (not (status == 0)) _ _ (record { shown = h })
                  (decode_items-Fine session r obs h))))
    ]

skip_or-Fine :
    (x : Option Reader) (obs : Observation) (f : Reader → Decoded)
    → IsShowable obs.identity
    → ((r : Reader) → Fine (f r))
    → Fine (skip_or x obs f)
unfolding skip_or
skip_or-Fine none obs f h k = record { shown = h }
skip_or-Fine (some r) obs f h k = k r

-- Whatever a device answers, every text of the identity that is decoded from it is printable ASCII.
pub decode_enip_response-IsShowable :
    (payload : Text) → IsShowable (decode_enip_response payload).0.identity
unfolding decode_enip_response
decode_enip_response-IsShowable payload =
    let obs = new_observation (codes "enip") in
    let h : IsShowable no_identity = ground arith in
    (read_or-Fine (u16_le (new_reader payload)) _ obs _ h (λ command r1.
      read_or-Fine (u16_le r1) _ obs _ h (λ declared r2.
        read_or-Fine (u32_le r2) _ obs _ h (λ session r3.
          read_or-Fine (u32_le r3) _ obs _ h (λ status r4. skip_or-Fine (skip 8 r4) obs _ h (λ r5.
            skip_or-Fine (skip 4 r5) obs _ h
              (λ r6. decode_body-Fine command declared session status r6 obs h))))))).shown
