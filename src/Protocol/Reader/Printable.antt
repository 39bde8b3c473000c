-- ===== src/Protocol/Reader/Printable.antt =====
-- What cleanASCII lets through.
use otscout.Prelude.{
  ℕ, ◌≤◌, List, [], ◌∷◌, arith, All, All-append, Text, space_width, zero, suc, refl, ◌≡◌, ◌⊎◌, inl,
  inr,
}
use otscout.Protocol.Reader.{visible, cons_word, split_words, fields, join, clean_ascii}

-- Every byte is printable ASCII.
abbrev pub Printable : Text → Type 0
Printable s = All (λ (b : ℕ). (32 ≤ b) × (b ≤ 126)) s

visible-Printable : (raw : Text) → Printable (visible raw)
unfolding visible
visible-Printable [] = tt
visible-Printable (b ∷ raw) = ground (arith, visible-Printable raw)

cons_word-Printable :
    (w : Text) (ws : List Text) → Printable w → All Printable ws → All Printable (cons_word w ws)
cons_word-Printable [] ws h k = k
cons_word-Printable (c ∷ w) ws h k = (h, k)

width_cases : (w : ℕ) → (w ≡ 0) ⊎ ((n : ℕ) × (w ≡ suc n))
width_cases zero = inl refl
width_cases (suc n) = inr (n, refl)

word_byte :
    (c : ℕ) (s : Text)
    → space_width (c ∷ s) ≡ 0
    → split_words 0 (c ∷ s) ≡ (c ∷ (split_words 0 s).0, (split_words 0 s).1)
unfolding split_words
word_byte c s h = ground (arith, h)

word_end :
    (n c : ℕ) (s : Text)
    → space_width (c ∷ s) ≡ suc n
    → split_words 0 (c ∷ s) ≡ ([], cons_word (split_words n s).0 (split_words n s).1)
unfolding split_words
word_end n c s h = ground (arith, h)

split_words-Printable :
    (n : ℕ) (s : Text)
    → Printable s
    → Printable (split_words n s).0 × All Printable (split_words n s).1
unfolding split_words
split_words-Printable n [] h = (tt, tt)
split_words-Printable (suc n) (c ∷ s) h = split_words-Printable n s h.1
split_words-Printable zero (c ∷ s) h = elim (width_cases (space_width (c ∷ s))) [
  | inl other ↦
      let (first, later) = split_words-Printable zero s h.1 in
      rw (word_byte c s other) ((h.0, first), later)
  | inr (n, space) ↦
      let (first, later) = split_words-Printable n s h.1 in
      rw (word_end n c s space) (tt, cons_word-Printable _ _ first later)
]

join-Printable : (ws : List Text) → All Printable ws → Printable (join ws)
unfolding join
join-Printable [] h = tt
join-Printable (w ∷ []) h = h.0
join-Printable (w ∷ v ∷ ws) h =
    All-append _ w _ h.0 ((omega arith, omega arith), join-Printable (v ∷ ws) h.1)

-- Whatever a device sends, the text made of it has printable ASCII in it and nothing else.
pub clean_ascii-Printable : (raw : Text) → Printable (clean_ascii raw)
unfolding clean_ascii fields
clean_ascii-Printable raw =
    let (first, later) = split_words-Printable 0 (visible raw) (visible-Printable raw) in
    join-Printable _ (cons_word-Printable _ _ first later)
