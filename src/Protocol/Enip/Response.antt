-- ===== src/Protocol/Enip/Response.antt =====
-- The response around the identity object (DecodeENIPResponse of internal/protocol/enip.go).
use otscout.Prelude.{
  ℕ, zero, suc, ◌+◌, not, ◌||◌, Option, none, some, codes, if◌then◌else◌, Text, ltb, ◌==◌, ◌⊎◌, inl,
  inr,
}
use otscout.Protocol.Decoding.{Decoded, read_or}
use otscout.Protocol.Observation.{
  not_this_protocol, truncated, device_error, Note, no_identity_data, no_items, not_identity,
  unreadable, frame_ended, Observation, new_observation, set, note, hex_prefixed,
}
use otscout.Protocol.Reader.{Reader, new_reader, remaining, u16_le, u32_le, bytes, skip}
use otscout.Protocol.Enip.{command_name, status_text, decode_cip_identity}

-- An item with its type, or the note on what is missing, if any.
unfoldable pub read_item : ℕ → Reader → Option Note ⊎ ((ℕ × Text) × Reader)
read_item idx r = elim (u16_le r) [
  | none ↦ inl none
  | some (kind, r1) ↦ elim (u16_le r1) [
    | none ↦ inl none
    | some (len, r2) ↦ elim (bytes len r2) [
      | none ↦ inl (some (frame_ended idx len))
      | some (body, r3) ↦ inr ((kind, body), r3)
    ]
  ]
]

abbrev pub note_if : Option Note → Observation → Observation
note_if none obs = obs
note_if (some n) obs = note n obs

-- The first identity item ends the loop, whether or not it can be read.
unfoldable pub take_identity : ℕ → Decoded → Observation
take_identity idx (obs, none) = obs
take_identity idx (obs, some e) = note (unreadable idx e) obs

-- The loop over the items, `left` of which are still declared.
unfoldable pub read_items : ℕ → ℕ → Reader → Observation → Observation
read_items zero idx r obs = obs
read_items (suc left) idx r obs = elim (read_item idx r) [
  | inl missing ↦ note_if missing obs
  | inr ((kind, body), r') ↦
      let later = read_items left (idx + 1) r' (note (not_identity kind) obs) in
      if not (kind == 0x0C) then later else take_identity idx (decode_cip_identity body obs)
]

-- Behind the header of a List Identity response without an error.
unfoldable pub decode_items : ℕ → Reader → Observation → Decoded
decode_items session r obs =
    let obs' =
      if session == 0 then obs else set (codes "session_handle") (hex_prefixed 8 session) obs in
    read_or (u16_le r) truncated obs' (λ count r1.
      if count == 0 then (note no_items obs', none) else (read_items count 0 r1 obs', none))

-- Behind the header.
unfoldable pub decode_body : ℕ → ℕ → ℕ → ℕ → Reader → Observation → Decoded
decode_body command declared session status r obs = elim (command_name command) [
  | none ↦ (obs, some not_this_protocol)
  | some name ↦
      if ltb 65535 declared || ltb (remaining r) declared
      then (obs, some truncated)
      else if not (command == 0x63)
      then (
        note (no_identity_data command name)
            (set (codes "encapsulation_command") (hex_prefixed 4 command) obs),
        none,
      )
      else if not (status == 0)
      then (obs, some (device_error (codes "enip") status (status_text status)))
      else decode_items session r obs
]

-- if !r.skip(n) { return obs, ErrNotThisProtocol }
unfoldable pub skip_or : Option Reader → Observation → (Reader → Decoded) → Decoded
skip_or none obs f = (obs, some not_this_protocol)
skip_or (some r) obs f = f r

-- DecodeENIPResponse
unfoldable pub decode_enip_response : Text → Decoded
decode_enip_response payload =
    let obs = new_observation (codes "enip") in
    read_or (u16_le (new_reader payload)) not_this_protocol obs (λ command r1.
      read_or (u16_le r1) not_this_protocol obs (λ declared r2.
        read_or (u32_le r2) not_this_protocol obs (λ session r3.
          read_or (u32_le r3) not_this_protocol obs (λ status r4. skip_or (skip 8 r4) obs (λ r5.
            skip_or (skip 4 r5) obs (λ r6. decode_body command declared session status r6 obs))))))
