-- ===== src/Normalize/Evaluate/Verdict.antt =====
-- What a version range of each kind promises, and that the check keeps to it.
pub mod Convex
use otscout.Normalize.Parse.Fitting.{parse_constraint-WellFormed}
use otscout.Normalize.Parse.{parse_constraint}
use otscout.Normalize.Constraint.Kinds.{Fits, WellFormed}
use otscout.Normalize.Schemes.{Scheme, compare_versions}
use Prim.Native.Nat.{Ordering}
use otscout.Normalize.Constraint.{
  Constraint, ConstraintKind, all, eq, lt, unknown, prefix, lte, gt, gte, between,
}
use otscout.Prelude.{
  Option, Bool, Text, if◌then◌else◌, some, is_empty, none, is_blank, ◌≡◌, false, arith, true, ◌∙◌,
  ap, refl,
}
use otscout.Normalize.Evaluate.{
  EvalResult, evaluate_reported, check_lower, check_upper, check_bounds, affected, answer,
  indeterminate, not_affected, Evaluation, version_has_prefix, inside, check_prefix, evaluate,
}

-- What each kind of range promises for a version that the device reported.
unfoldable pub upper_verdict : Bool → Option Ordering → EvalResult
upper_verdict inclusive none = indeterminate
upper_verdict inclusive (some Ordering.lt) = affected
upper_verdict inclusive (some Ordering.eq) = if inclusive then affected else not_affected
upper_verdict inclusive (some Ordering.gt) = not_affected

unfoldable pub lower_verdict : Bool → Option Ordering → EvalResult
lower_verdict inclusive none = indeterminate
lower_verdict inclusive (some Ordering.lt) = not_affected
lower_verdict inclusive (some Ordering.eq) = if inclusive then affected else not_affected
lower_verdict inclusive (some Ordering.gt) = affected

unfoldable pub exact_verdict : Option Ordering → EvalResult
exact_verdict none = indeterminate
exact_verdict (some Ordering.lt) = not_affected
exact_verdict (some Ordering.eq) = affected
exact_verdict (some Ordering.gt) = not_affected

-- Two answers, the first of which has to be settled before the second is asked for.
unfoldable pub both_verdicts : EvalResult → EvalResult → EvalResult
both_verdicts affected later = later
both_verdicts not_affected later = not_affected
both_verdicts indeterminate later = indeterminate

unfoldable pub kind_verdict : ConstraintKind → Constraint → Text → Scheme → EvalResult
kind_verdict k c version scheme =
    let under = compare_versions scheme version c.upper in
    let over = compare_versions scheme version c.lower in
    elim k [
      | all ↦ affected
      | unknown ↦ indeterminate
      | eq ↦ exact_verdict over
      | prefix ↦ if version_has_prefix version c.prefix_line then affected else not_affected
      | lt ↦ upper_verdict false under
      | lte ↦ upper_verdict true under
      | gt ↦ lower_verdict false over
      | gte ↦ lower_verdict true over
      | between ↦
          both_verdicts (lower_verdict c.lower_inclusive over)
            (upper_verdict c.upper_inclusive under)
    ]

unfoldable pub reported_verdict : Constraint → Text → Scheme → EvalResult
unfolding kind_verdict
reported_verdict c version scheme = kind_verdict c.kind c version scheme

-- Without a version, only a range of all versions has an answer.
unfoldable pub verdict : Constraint → Text → Scheme → EvalResult
verdict c version scheme =
    let known = reported_verdict c version scheme in
    let asked = if is_blank version then indeterminate else known in
    elim c.kind [ all ↦ affected | _ ↦ asked ]

check_upper-verdict :
    (c : Constraint) (version : Text) (scheme : Scheme)
    → is_empty c.upper ≡ false
    → (check_upper scheme version c (answer scheme affected (inside version c))).result
      ≡ upper_verdict c.upper_inclusive (compare_versions scheme version c.upper)
unfolding check_upper answer upper_verdict
check_upper-verdict c version scheme h = ground (arith, h)

check_lower-verdict :
    (c : Constraint) (version : Text) (scheme : Scheme) (later : Evaluation)
    → is_empty c.lower ≡ false
    → (check_lower scheme version c later).result
      ≡ both_verdicts
          (lower_verdict c.lower_inclusive (compare_versions scheme version c.lower))
          later.result
unfolding check_lower answer lower_verdict both_verdicts
check_lower-verdict c version scheme later h = ground (arith, h)

check_bounds-both :
    (c : Constraint) (version : Text) (scheme : Scheme)
    → is_empty c.lower ≡ false
    → is_empty c.upper ≡ false
    → (check_bounds scheme version c).result
      ≡ both_verdicts
          (lower_verdict c.lower_inclusive (compare_versions scheme version c.lower))
          (upper_verdict c.upper_inclusive (compare_versions scheme version c.upper))
unfolding check_bounds
check_bounds-both c version scheme h k =
    check_lower-verdict c version scheme _ h
    ∙ ap (both_verdicts (lower_verdict c.lower_inclusive (compare_versions scheme version c.lower)))
        (check_upper-verdict c version scheme k)

check_bounds-upper :
    (c : Constraint) (version : Text) (scheme : Scheme)
    → is_empty c.lower ≡ true
    → is_empty c.upper ≡ false
    → (check_bounds scheme version c).result
      ≡ upper_verdict c.upper_inclusive (compare_versions scheme version c.upper)
unfolding check_bounds check_lower
check_bounds-upper c version scheme h k = rw h (check_upper-verdict c version scheme k)

check_bounds-lower :
    (c : Constraint) (version : Text) (scheme : Scheme)
    → is_empty c.upper ≡ true
    → is_empty c.lower ≡ false
    → (check_bounds scheme version c).result
      ≡ lower_verdict c.lower_inclusive (compare_versions scheme version c.lower)
unfolding check_bounds check_lower check_upper answer lower_verdict
check_bounds-lower c version scheme h k = ground (arith, h, k)

check_bounds-none :
    (c : Constraint) (version : Text) (scheme : Scheme)
    → is_empty c.lower ≡ true
    → is_empty c.upper ≡ true
    → (check_bounds scheme version c).result ≡ affected
unfolding check_bounds check_lower check_upper answer
check_bounds-none c version scheme h k = ground (arith, h, k)

both_verdicts-exact :
    (o : Option Ordering)
    → both_verdicts (lower_verdict true o) (upper_verdict true o) ≡ exact_verdict o
unfolding both_verdicts lower_verdict upper_verdict exact_verdict
both_verdicts-exact none = refl
both_verdicts-exact (some Ordering.lt) = refl
both_verdicts-exact (some Ordering.eq) = refl
both_verdicts-exact (some Ordering.gt) = refl

check_bounds-exact :
    (c : Constraint) (version : Text) (scheme : Scheme)
    → Fits eq c
    → (check_bounds scheme version c).result
      ≡ exact_verdict (compare_versions scheme version c.lower)
unfolding Fits
check_bounds-exact c version scheme (h, same, li, ui) =
    let o = compare_versions scheme version c.lower in
    check_bounds-both c version scheme h (ap is_empty same ∙ h)
    ∙ ap
        (λ b.
          both_verdicts (lower_verdict b o)
            (upper_verdict c.upper_inclusive (compare_versions scheme version c.upper)))
        li
    ∙ ap
        (λ b.
          both_verdicts (lower_verdict true o)
            (upper_verdict b (compare_versions scheme version c.upper)))
        ui
    ∙ ap
        (λ u.
          both_verdicts (lower_verdict true o)
            (upper_verdict true (compare_versions scheme version u)))
        same
    ∙ both_verdicts-exact o

check_prefix-verdict :
    (c : Constraint) (version : Text) (scheme : Scheme)
    → (check_prefix scheme version c).result
      ≡ (if version_has_prefix version c.prefix_line then affected else not_affected)
unfolding check_prefix answer
check_prefix-verdict c version scheme = ground arith

reported-verdict :
    (c : Constraint) (version : Text) (scheme : Scheme) (k : ConstraintKind)
    → c.kind ≡ k
    → Fits k c
    → (evaluate_reported scheme version c).result ≡ reported_verdict c version scheme
unfolding evaluate_reported reported_verdict Fits check_prefix answer
reported-verdict c version scheme all e h =
    rw e (check_bounds-none (record c { kind = all }) version scheme h.0 h.1)
reported-verdict c version scheme eq e h =
    rw e (check_bounds-exact (record c { kind = eq }) version scheme h)
reported-verdict c version scheme prefix e h =
    rw e (check_prefix-verdict (record c { kind = prefix }) version scheme)
reported-verdict c version scheme lt e h = rw e (
    check_bounds-upper (record c { kind = lt }) version scheme h.0 h.1
    ∙ ap (λ b. upper_verdict b (compare_versions scheme version c.upper)) h.2)
reported-verdict c version scheme lte e h = rw e (
    check_bounds-upper (record c { kind = lte }) version scheme h.0 h.1
    ∙ ap (λ b. upper_verdict b (compare_versions scheme version c.upper)) h.2)
reported-verdict c version scheme gt e h = rw e (
    check_bounds-lower (record c { kind = gt }) version scheme h.0 h.1
    ∙ ap (λ b. lower_verdict b (compare_versions scheme version c.lower)) h.2)
reported-verdict c version scheme gte e h = rw e (
    check_bounds-lower (record c { kind = gte }) version scheme h.0 h.1
    ∙ ap (λ b. lower_verdict b (compare_versions scheme version c.lower)) h.2)
reported-verdict c version scheme between e h =
    rw e (check_bounds-both (record c { kind = between }) version scheme h.0 h.1)
reported-verdict c version scheme unknown e h = rw e refl

asked-verdict :
    (blank : Bool) (x y : Evaluation) (r : EvalResult)
    → x.result ≡ indeterminate
    → y.result ≡ r
    → (if blank then x else y).result ≡ (if blank then indeterminate else r)
asked-verdict true x y r h k = h
asked-verdict false x y r h k = k

known-verdict :
    (kind' : ConstraintKind) (x y : Evaluation) (r : EvalResult)
    → x.result ≡ affected
    → y.result ≡ r
    → (elim kind' as (λ _. Evaluation) [ all ↦ x | _ ↦ y ]).result
      ≡ (elim kind' as (λ _. EvalResult) [ all ↦ affected | _ ↦ r ])
known-verdict all x y r h k = h
known-verdict _ x y r h k = k

evaluate-WellFormed :
    (c : Constraint) (version : Text) (scheme : Scheme)
    → WellFormed c
    → (evaluate c version scheme).result ≡ verdict c version scheme
unfolding evaluate verdict answer
evaluate-WellFormed c version scheme h = known-verdict c.kind _ _ _ refl (
    asked-verdict (is_blank version) _ (evaluate_reported scheme version c)
      (reported_verdict c version scheme) refl
      (reported-verdict c version scheme c.kind refl h.fits))

pub evaluate-verdict :
    (raw version : Text) (scheme : Scheme)
    → (evaluate (parse_constraint raw) version scheme).result
      ≡ verdict (parse_constraint raw) version scheme
evaluate-verdict raw version scheme =
    evaluate-WellFormed (parse_constraint raw) version scheme (parse_constraint-WellFormed raw)
