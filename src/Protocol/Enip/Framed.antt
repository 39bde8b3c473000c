-- ===== src/Protocol/Enip/Framed.antt =====
-- Which payloads are taken for EtherNet/IP.
use otscout.Prelude.{
  ℕ, ◌+◌, ◌*◌, ◌≤◌, ◌≡◌, ◌≢◌, refl, ap, ◌∙◌, Option, none, some, arith, length, get_or, Text,
  Option-cases, inl, inr,
}
use otscout.Protocol.Decoding.{Decoded, read_or}
use otscout.Protocol.Observation.{DecodeError, Observation}
use otscout.Protocol.Reader.{Reader, new_reader, remaining, ahead, advance, u16_le, u32_le, skip}
use otscout.Protocol.Enip.{command_name}
use otscout.Protocol.Enip.Response.{decode_body, skip_or, decode_enip_response}

-- A read that fails ends the decoder with an error.
read_or-none :
    {A : Type 0} (x : Option (A × Reader)) (e : DecodeError) (obs : Observation)
    (f : A → Reader → Decoded)
    → (read_or x e obs f).1 ≡ none
    → (a : A) × (r : Reader) × (x ≡ some (a, r)) × ((f a r).1 ≡ none)
unfolding read_or
read_or-none none e obs f h = ground arith
read_or-none (some (a, r)) e obs f h = (a, r, refl, h)

skip_or-none :
    (x : Option Reader) (obs : Observation) (f : Reader → Decoded)
    → (skip_or x obs f).1 ≡ none
    → (r : Reader) × (x ≡ some r) × ((f r).1 ≡ none)
unfolding skip_or
skip_or-none none obs f h = ground arith
skip_or-none (some r) obs f h = (r, refl, h)

u16_le-some :
    (r r' : Reader) (a : ℕ)
    → u16_le r ≡ some (a, r')
    → (a ≡ ahead 1 r * 256 + ahead 0 r) × (r' ≡ advance 2 r)
unfolding u16_le
u16_le-some r r' a h = ground arith

u32_le-some : (r r' : Reader) (a : ℕ) → u32_le r ≡ some (a, r') → r' ≡ advance 4 r
unfolding u32_le
u32_le-some r r' a h = ground arith

skip-some : (n : ℕ) (r r' : Reader) → skip n r ≡ some r' → (n ≤ remaining r) × (r' ≡ advance n r)
unfolding skip
skip-some n r r' h = ground arith

decode_body-none :
    (command declared session status : ℕ) (r : Reader) (obs : Observation)
    → (decode_body command declared session status r obs).1 ≡ none
    → (command_name command ≢ none) × (declared ≤ remaining r)
unfolding decode_body
decode_body-none command declared session status r obs h =
    elim (Option-cases (command_name command)) [
      | inl unknown ↦ ground arith
      | inr (name, known) ↦ (λ n. cc, ground arith)
    ]

-- The readers of the header stand at the offsets of its fields.
header-lengths :
    (payload : Text) (declared : ℕ) (r1 r2 r3 r4 r5 r6 : Reader)
    → r1 ≡ advance 2 (new_reader payload)
    → declared ≡ ahead 1 r1 * 256 + ahead 0 r1
    → r2 ≡ advance 2 r1
    → r3 ≡ advance 4 r2
    → r4 ≡ advance 4 r3
    → r5 ≡ advance 8 r4
    → 4 ≤ remaining r5
    → r6 ≡ advance 4 r5
    → declared ≤ remaining r6
    → 24 + (get_or payload 3 0 * 256 + get_or payload 2 0) ≤ length payload
header-lengths payload declared r1 r2 r3 r4 r5 r6 e1 d e2 e3 e4 e5 k e6 m = ground arith

-- A payload that decodes without an error has a command that the protocol defines and, behind its
-- header of 24 bytes, as many bytes as its length field says, or more.
pub decode_enip_response-none :
    (payload : Text)
    → (decode_enip_response payload).1 ≡ none
    → (command_name (get_or payload 1 0 * 256 + get_or payload 0 0) ≢ none)
      × (24 + (get_or payload 3 0 * 256 + get_or payload 2 0) ≤ length payload)
unfolding decode_enip_response
decode_enip_response-none payload h =
    let (command, r1, e1, h1) = read_or-none (u16_le (new_reader payload)) _ _ _ h in
    let (declared, r2, e2, h2) = read_or-none (u16_le r1) _ _ _ h1 in
    let (session, r3, e3, h3) = read_or-none (u32_le r2) _ _ _ h2 in
    let (status, r4, e4, h4) = read_or-none (u32_le r3) _ _ _ h3 in
    let (r5, e5, h5) = skip_or-none (skip 8 r4) _ _ h4 in
    let (r6, e6, h6) = skip_or-none (skip 4 r5) _ _ h5 in
    let (known, here) = decode_body-none command declared session status r6 _ h6 in
    let (c, p1) = u16_le-some (new_reader payload) r1 command e1 in
    let (d, p2) = u16_le-some r1 r2 declared e2 in
    let p3 = u32_le-some r2 r3 session e3 in
    let p4 = u32_le-some r3 r4 status e4 in
    let (k5, p5) = skip-some 8 r4 r5 e5 in
    let (k6, p6) = skip-some 4 r5 r6 e6 in
    (
      λ unknown. known (ap command_name c ∙ unknown),
      header-lengths payload declared r1 r2 r3 r4 r5 r6 p1 d p2 p3 p4 p5 k6 p6 here,
    )
