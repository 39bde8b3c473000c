-- ===== src/Normalize/Constraint/Kinds.antt =====
-- The kind of a range agrees with its bounds.
use otscout.Normalize.Search.Found.{Sets}
use otscout.Normalize.Constraint.{
  Constraint, ConstraintKind, kind_of, all, eq, prefix, lt, lte, gt, gte, between, unknown,
  of_prefix, up_to, set_bound, interval, constraint_from_operators, no_bounds, set_bounds, exactly,
  from,
}
use otscout.Prelude.{
  ◌≡◌, refl, Bool, true, false, List, [], ◌∷◌, arith, is_empty, Text, text_eq_iff, not, ◌||◌, All,
  if◌then◌else◌, Option, some, none,
}
use otscout.Normalize.Search.{Operator, less, less_equal, greater, greater_equal, equal, not_equal}

-- Which bounds a range of a kind has.
unfoldable pub Fits : ConstraintKind → Constraint → Type 0
Fits all c = (is_empty c.lower ≡ true) × (is_empty c.upper ≡ true)
Fits eq c =
    (is_empty c.lower ≡ false)
    × (c.upper ≡ c.lower)
    × (c.lower_inclusive ≡ true)
    × (c.upper_inclusive ≡ true)
Fits prefix c =
    (is_empty c.lower ≡ true) × (is_empty c.upper ≡ true) × (is_empty c.prefix_line ≡ false)
Fits lt c = (is_empty c.lower ≡ true) × (is_empty c.upper ≡ false) × (c.upper_inclusive ≡ false)
Fits lte c = (is_empty c.lower ≡ true) × (is_empty c.upper ≡ false) × (c.upper_inclusive ≡ true)
Fits gt c = (is_empty c.upper ≡ true) × (is_empty c.lower ≡ false) × (c.lower_inclusive ≡ false)
Fits gte c = (is_empty c.upper ≡ true) × (is_empty c.lower ≡ false) × (c.lower_inclusive ≡ true)
Fits between c = (is_empty c.lower ≡ false) × (is_empty c.upper ≡ false)
Fits unknown c = (is_empty c.lower ≡ true) × (is_empty c.upper ≡ true)

pub record WellFormed (c : Constraint) : Type 0 where
  pub fits : Fits c.kind c

-- A bound is set.
unfoldable pub bounding : Constraint → Bool
bounding c = not (is_empty c.lower) || not (is_empty c.upper)

kind_of-Fits : (c : Constraint) → bounding c ≡ true → Fits (kind_of c) c
unfolding bounding kind_of Fits
kind_of-Fits c h = ground (arith, text_eq_iff c.lower c.upper)

pub all-WellFormed : WellFormed (no_bounds all)
unfolding no_bounds Fits
all-WellFormed = record { fits = (refl, refl) }

pub unknown-WellFormed : WellFormed (no_bounds unknown)
unfolding no_bounds Fits
unknown-WellFormed = record { fits = (refl, refl) }

pub exactly-WellFormed : (v : Text) → is_empty v ≡ false → WellFormed (exactly v)
unfolding exactly Fits
exactly-WellFormed v h = record { fits = (h, refl, refl, refl) }

pub up_to-WellFormed : (v : Text) (b : Bool) → is_empty v ≡ false → WellFormed (up_to v b)
unfolding up_to Fits
up_to-WellFormed v true h = record { fits = (refl, h, refl) }
up_to-WellFormed v false h = record { fits = (refl, h, refl) }

pub from-WellFormed : (v : Text) (b : Bool) → is_empty v ≡ false → WellFormed (from v b)
unfolding from Fits
from-WellFormed v true h = record { fits = (refl, h, refl) }
from-WellFormed v false h = record { fits = (refl, h, refl) }

pub of_prefix-WellFormed : (s : Text) → is_empty s ≡ false → WellFormed (of_prefix s)
unfolding of_prefix Fits
of_prefix-WellFormed s h = record { fits = (refl, refl, h) }

pub interval-WellFormed :
    (l : Text) (bl : Bool) (u : Text) (bu : Bool)
    → is_empty l ≡ false
    → is_empty u ≡ false
    → WellFormed (interval l bl u bu)
unfolding interval Fits
interval-WellFormed l bl u bu h k = record { fits = (h, k) }

set_bound-bounding :
    (op : Operator) (v : Text) (c : Constraint) → Sets (op, v) → bounding (set_bound op v c) ≡ true
unfolding set_bound bounding
set_bound-bounding less v c h = ground (arith, h)
set_bound-bounding less_equal v c h = ground (arith, h)
set_bound-bounding greater v c h = ground (arith, h)
set_bound-bounding greater_equal v c h = ground (arith, h)
set_bound-bounding equal v c h = ground (arith, h)
set_bound-bounding not_equal v c h = absurd (h.1 refl)

set_bounds-bounding :
    (pairs : List (Operator × Text)) (c : Constraint)
    → All Sets pairs
    → bounding c ≡ true
    → bounding (set_bounds pairs c) ≡ true
unfolding set_bounds
set_bounds-bounding [] c h k = k
set_bounds-bounding ((op, v) ∷ pairs) c h k =
    set_bounds-bounding pairs (set_bound op v c) h.1 (set_bound-bounding op v c h.0)

pub Fits-same :
    (k : ConstraintKind) (c : Constraint) (k' : ConstraintKind) (raw' : Text)
    → Fits k c
    → Fits k (record c { kind = k'; raw = raw' })
unfolding Fits
Fits-same all c k' raw' h = h
Fits-same eq c k' raw' h = h
Fits-same prefix c k' raw' h = h
Fits-same lt c k' raw' h = h
Fits-same lte c k' raw' h = h
Fits-same gt c k' raw' h = h
Fits-same gte c k' raw' h = h
Fits-same between c k' raw' h = h
Fits-same unknown c k' raw' h = h

-- One pair or more leave a range that fits its kind.
pub constraint_from_operators-WellFormed :
    (c : Constraint) (pair : Operator × Text) (pairs : List (Operator × Text))
    → All Sets (pair ∷ pairs)
    → WellFormed (constraint_from_operators c (pair ∷ pairs))
unfolding constraint_from_operators
constraint_from_operators-WellFormed c (op, v) pairs h =
    let done = set_bounds ((op, v) ∷ pairs) c in
    record {
      fits = Fits-same (kind_of done) done (kind_of done) done.raw (
          kind_of-Fits done
            (set_bounds-bounding pairs (set_bound op v c) h.1 (set_bound-bounding op v c h.0)));
    }

pub if-WellFormed :
    (b : Bool) (x y : Constraint)
    → (b ≡ true → WellFormed x)
    → WellFormed y
    → WellFormed (if b then x else y)
if-WellFormed true x y f h = f refl
if-WellFormed false x y f h = h

-- The range that is there, if one is.
abbrev pub FitsIf : Option Constraint → Type 0
FitsIf none = Unit
FitsIf (some c) = WellFormed c
