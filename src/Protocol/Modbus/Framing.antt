-- ===== src/Protocol/Modbus/Framing.antt =====
-- Which payloads divide into frames.
use otscout.Prelude.{
  ℕ, zero, suc, ◌+◌, ◌≤◌, ◌<◌, ◌≡◌, ◌↔◌, refl, sym, ap, ◌∙◌, none, List, [], ◌∷◌, ◌++◌, arith, All,
  length, length-append, length-take, length-drop, take-append-drop, take, drop, get_or, Text,
}
use otscout.Protocol.Modbus.{u16_at, frames_from, modbus_framing}

-- One frame, whole: its protocol is Modbus, and its length field counts what is behind it and is in
-- range.
pub record IsFrame (f : Text) : Type 0 where
  pub protocol : u16_at 2 f ≡ 0
  pub counted : 6 + u16_at 4 f ≡ length f
  pub lower : 3 ≤ u16_at 4 f
  pub upper : u16_at 4 f ≤ 260

abbrev pub concat : List Text → Text
concat [] = []
concat (f ∷ fs) = f ++ concat fs

get_or-take : (i n : ℕ) (s : Text) → i < n → get_or (take n s) i 0 ≡ get_or s i 0
get_or-take i (suc n) [] h = refl
get_or-take zero (suc n) (b ∷ s) h = refl
get_or-take (suc i) (suc n) (b ∷ s) h = get_or-take i n s (omega arith)
get_or-take i zero s h = absurd (omega (arith, h))

get_or-append : (i : ℕ) (s t : Text) → i < length s → get_or (s ++ t) i 0 ≡ get_or s i 0
get_or-append i [] t h = absurd (omega (arith, h))
get_or-append zero (b ∷ s) t h = refl
get_or-append (suc i) (b ∷ s) t h = get_or-append i s t (omega arith)

drop-append : (n : ℕ) (s t : Text) → length s ≡ n → drop n (s ++ t) ≡ t
drop-append zero [] t h = refl
drop-append (suc n) [] t h = absurd (omega (arith, h))
drop-append zero (b ∷ s) t h = absurd (omega (arith, h))
drop-append (suc n) (b ∷ s) t h = drop-append n s t (omega arith)

-- The frames of a payload.
abbrev pub Frames : Text → Type 0
Frames payload = (fs : List Text) × All IsFrame fs × (concat fs ≡ payload)

first-IsFrame :
    (n : ℕ) (all : Text)
    → n ≡ u16_at 4 all
    → u16_at 2 all ≡ 0
    → 3 ≤ n
    → n ≤ 260
    → 6 + n ≤ length all
    → IsFrame (take (6 + n) all)
first-IsFrame n all e p l u k = ground (
  arith,
  get_or-take 2 (6 + n) all,
  get_or-take 3 (6 + n) all,
  get_or-take 4 (6 + n) all,
  get_or-take 5 (6 + n) all,
  length-take (6 + n) all,
)

-- What the checks of one turn have settled when the framing is without an error.
frames_from-turn :
    (fuel b : ℕ) (payload : Text)
    → frames_from (suc fuel) (b ∷ payload) ≡ none
    → let all = b ∷ payload in
      (u16_at 2 all ≡ 0)
      × (3 ≤ u16_at 4 all)
      × (u16_at 4 all ≤ 260)
      × (6 + u16_at 4 all ≤ length all)
      × (frames_from fuel (drop (6 + u16_at 4 all) all) ≡ none)
unfolding frames_from
frames_from-turn fuel b payload h = ground arith

frames_from-Frames : (fuel : ℕ) (payload : Text) → frames_from fuel payload ≡ none → Frames payload
frames_from-Frames fuel [] h = ([], tt, refl)
frames_from-Frames zero (b ∷ payload) h = unfold frames_from in ground arith
frames_from-Frames (suc fuel) (b ∷ payload) h =
    let all : Text = b ∷ payload in
    let n = u16_at 4 all in
    let (p, l, u, k, later) = frames_from-turn fuel b payload h in
    let (fs, whole, joined) = frames_from-Frames fuel (drop (6 + n) all) later in
    (
      take (6 + n) all ∷ fs,
      (first-IsFrame n all refl p l u k, whole),
      ap (λ rest. take (6 + n) all ++ rest) joined ∙ take-append-drop (6 + n) all,
    )

frames_from-step :
    (fuel b : ℕ) (f rest : Text)
    → IsFrame (b ∷ f)
    → frames_from fuel rest ≡ none
    → frames_from (suc fuel) ((b ∷ f) ++ rest) ≡ none
unfolding frames_from
frames_from-step fuel b f rest whole later =
    let all : Text = b ∷ f in
    ground (
      arith,
      whole,
      later,
      get_or-append 2 all rest,
      get_or-append 3 all rest,
      get_or-append 4 all rest,
      get_or-append 5 all rest,
      length-append all rest,
      drop-append (6 + u16_at 4 (all ++ rest)) all rest,
    )

Frames-frames_from :
    (fuel : ℕ) (fs : List Text)
    → length (concat fs) ≤ fuel
    → All IsFrame fs
    → frames_from fuel (concat fs) ≡ none
Frames-frames_from fuel [] k h = unfold frames_from in refl
Frames-frames_from fuel ([] ∷ fs) k h = absurd (omega (arith, h.0.counted))
Frames-frames_from zero ((b ∷ f) ∷ fs) k h = absurd (omega (arith, k))
Frames-frames_from (suc fuel) ((b ∷ f) ∷ fs) k h =
    frames_from-step fuel b f (concat fs) h.0
      (Frames-frames_from fuel fs (omega (arith, k, length-append f (concat fs))) h.1)

-- A payload has no framing error exactly when it is one whole frame behind another: each of the
-- Modbus protocol, with a length field that counts what is behind it and is from 3 to 260.
pub modbus_framing-Frames : (payload : Text) → (modbus_framing payload ≡ none) ↔ Frames payload
unfolding modbus_framing
modbus_framing-Frames payload = (
  frames_from-Frames (length payload) payload,
  λ (fs, whole, joined).
      let fits : length (concat fs) ≤ length payload = rw joined (omega arith) in
      ap (frames_from (length payload)) (sym joined)
      ∙ Frames-frames_from (length payload) fs fits whole,
)

-- Any fuel that covers the payload gives the same result, so that the loop never stops for want of
-- it.
pub frames_from-fuel :
    (fuel more : ℕ) (payload : Text)
    → length payload ≤ fuel
    → length payload ≤ more
    → frames_from fuel payload ≡ frames_from more payload
unfolding frames_from
frames_from-fuel fuel more [] h k = refl
frames_from-fuel zero more (b ∷ payload) h k = absurd (omega (arith, h))
frames_from-fuel (suc fuel) zero (b ∷ payload) h k = absurd (omega (arith, k))
frames_from-fuel (suc fuel) (suc more) (b ∷ payload) h k =
    let all : Text = b ∷ payload in
    let n = u16_at 4 all in
    ground (arith, frames_from-fuel fuel more (drop (6 + n) all), length-drop (6 + n) all)
