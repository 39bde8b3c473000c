-- ===== src/Protocol/Modbus/Texts.antt =====
-- What the decoder makes of a device's texts.
use otscout.Prelude.{
  ℕ, zero, suc, ◌+◌, not, ◌||◌, [], ◌∷◌, arith, All, codes, Text, ltb, leb, ◌==◌, Sum-cases, inl,
  inr,
}
use otscout.Asset.Identity.{no_identity}
use otscout.Protocol.Decoding.Showable.{
  IsShowable, set-identity, set-IsShowable, Fine, read_or-Fine, if-Fine,
}
use otscout.Protocol.Observation.{Observation, new_observation}
use otscout.Protocol.Reader.{Reader, new_reader, u8, u16_be, clean_ascii}
use otscout.Protocol.Reader.Printable.{Printable, clean_ascii-Printable}
use otscout.Protocol.Modbus.{
  Objects, object, put_object, modbus_identity, keep_object, read_object, decode_objects,
  read_objects, identify, decode_identification, decode_function, decode_frame,
  decode_modbus_response,
}

abbrev Shown : Objects → Type 0
Shown objects = All (λ (o : ℕ × Text). Printable o.1) objects

object-Printable : (id : ℕ) (objects : Objects) → Shown objects → Printable (object id objects)
unfolding object
object-Printable id [] h = tt
object-Printable id ((k, v) ∷ m) h = ground (arith, object-Printable id m h.1)

put_object-Shown :
    (id : ℕ) (text : Text) (objects : Objects)
    → Printable text
    → Shown objects
    → Shown (put_object id text objects)
unfolding put_object
put_object-Shown id text [] p h = (p, tt)
put_object-Shown id text ((k, v) ∷ m) p h = ground (arith, put_object-Shown id text m p h.1)

modbus_identity-IsShowable :
    (objects : Objects) → Shown objects → IsShowable (modbus_identity objects)
unfolding modbus_identity
modbus_identity-IsShowable objects h = ground (
  arith,
  object-Printable 0 objects h,
  object-Printable 1 objects h,
  object-Printable 2 objects h,
  object-Printable 4 objects h,
  object-Printable 5 objects h,
)

keep_object-Shown :
    (id : ℕ) (value : Text) (m : Objects) (obs : Observation)
    → Shown m
    → Shown (keep_object id value (m, obs)).0
unfolding keep_object
keep_object-Shown id value m obs h =
    ground (arith, put_object-Shown id (clean_ascii value) m (clean_ascii-Printable value) h)

read_objects-Shown :
    (left idx count : ℕ) (r : Reader) (m : Objects) (obs : Observation)
    → Shown m
    → Shown (read_objects left idx count r (m, obs)).0
unfolding read_objects
read_objects-Shown zero idx count r m obs h = h
read_objects-Shown (suc left) idx count r m obs h = elim (Sum-cases (read_object idx count r)) [
  | inl (missing, e) ↦ ground (arith, e)
  | inr (((id, value), r'), e) ↦ ground (
    arith,
    e,
    read_objects-Shown left (idx + 1) count r' (keep_object id value (m, obs)).0
        (keep_object id value (m, obs)).1 (keep_object-Shown id value m obs h),
  )
]

identify-Fine : (m : Objects) (obs : Observation) → Shown m → Fine (identify (m, obs))
unfolding identify
identify-Fine m obs h = record { shown = ground (arith, modbus_identity-IsShowable m h) }

decode_objects-Fine :
    (a b c d n : ℕ) (r : Reader) (obs : Observation) → Fine (decode_objects a b c d n r obs)
unfolding decode_objects
decode_objects-Fine a b c d n r obs = identify-Fine _ _ (read_objects-Shown n 0 n r [] _ tt)

decode_identification-Fine :
    (r : Reader) (obs : Observation) → IsShowable obs.identity → Fine (decode_identification r obs)
unfolding decode_identification
decode_identification-Fine r obs h = read_or-Fine (u8 r) _ obs _ h (λ mei r1.
    if-Fine (not (mei == 0x0E)) _ _ (record { shown = h })
      (read_or-Fine (u8 r1) _ obs _ h (λ a r2. read_or-Fine (u8 r2) _ obs _ h (λ b r3.
        read_or-Fine (u8 r3) _ obs _ h (λ c r4. read_or-Fine (u8 r4) _ obs _ h (λ d r5.
          read_or-Fine (u8 r5) _ obs _ h (λ n r6. decode_objects-Fine a b c d n r6 obs)))))))

decode_function-Fine :
    (function : ℕ) (r : Reader) (obs : Observation)
    → IsShowable obs.identity
    → Fine (decode_function function r obs)
unfolding decode_function
decode_function-Fine function r obs h =
    if-Fine (leb 0x80 function) _ _ (record { shown = rw set-identity h })
      (if-Fine (not (function == 0x2B)) _ _ (record { shown = rw set-identity h })
        (decode_identification-Fine r obs h))

decode_frame-Fine :
    (r : Reader) (obs : Observation) → IsShowable obs.identity → Fine (decode_frame r obs)
unfolding decode_frame
decode_frame-Fine r obs h = read_or-Fine (u16_be r) _ obs _ h (λ t r1.
    read_or-Fine (u16_be r1) _ obs _ h (λ p r2.
      if-Fine (not (p == 0)) _ _ (record { shown = h })
        (read_or-Fine (u16_be r2) _ obs _ h (λ n r3.
          if-Fine (ltb n 2 || ltb 260 n) _ _ (record { shown = h })
            (read_or-Fine (u8 r3) _ obs _ h (λ u r4. read_or-Fine (u8 r4) _ obs _ h (λ c r5.
              decode_function-Fine c r5 _ (set-IsShowable _ _ _ (set-IsShowable _ _ obs h)))))))))

-- Whatever a device answers, every text of the identity that is decoded from it is printable ASCII.
pub decode_modbus_response-IsShowable :
    (payload : Text) → IsShowable (decode_modbus_response payload).0.identity
unfolding decode_modbus_response
decode_modbus_response-IsShowable payload =
    let blank : IsShowable no_identity = ground arith in
    let obs = new_observation (codes "modbus") in
    let fine = (decode_frame-Fine (new_reader payload) obs blank).shown in
    ground (arith, blank, fine)
