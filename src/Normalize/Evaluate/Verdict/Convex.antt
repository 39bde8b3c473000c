-- ===== src/Normalize/Evaluate/Verdict/Convex.antt =====
-- A range has no gaps.
use otscout.Normalize.Parse.{parse_constraint}
use otscout.Normalize.Version.Order.{
  generic_compare_trans, generic_compare_swap, generic_compare-eq,
}
use Prim.Native.Nat.{Ordering}
use otscout.Normalize.Evaluate.{EvalResult, affected, indeterminate, evaluate}
use otscout.Normalize.Schemes.{compare_versions, generic}
use otscout.Prelude.{
  Bool, Text, ◌≡◌, some, ◌≢◌, if◌then◌else◌, arith, ap, false, true, sym, refl, ◌∙◌, is_blank,
}
use otscout.Normalize.Version.{generic_compare, compare_present, tokenize_version}
use otscout.Normalize.Constraint.{
  ConstraintKind, Constraint, all, prefix, eq, lt, lte, gt, gte, between, unknown,
}
use otscout.Normalize.Evaluate.Verdict.{
  kind_verdict, lower_verdict, upper_verdict, exact_verdict, verdict, both_verdicts,
  reported_verdict, evaluate-verdict,
}

compare_lt_eq :
    (v w x : Text)
    → generic_compare v w ≡ some Ordering.lt
    → generic_compare w x ≡ some Ordering.eq
    → generic_compare v x ≡ some Ordering.lt
unfolding generic_compare
compare_lt_eq v w x h e =
    ap (compare_present (tokenize_version v)) (sym (generic_compare-eq w x e)) ∙ h

compare_eq_lt :
    (u v x : Text)
    → generic_compare u x ≡ some Ordering.eq
    → generic_compare u v ≡ some Ordering.lt
    → generic_compare x v ≡ some Ordering.lt
unfolding generic_compare
compare_eq_lt u v x e h =
    ap (λ t. compare_present t (tokenize_version v)) (sym (generic_compare-eq u x e)) ∙ h

upper_verdict-below :
    (b : Bool) (v w x : Text)
    → generic_compare v w ≡ some Ordering.lt
    → upper_verdict b (generic_compare w x) ≡ affected
    → upper_verdict b (generic_compare v x) ≡ affected
unfolding upper_verdict
upper_verdict-below b v w x h k =
    ground (arith, h, k, generic_compare_trans v w x, compare_lt_eq v w x)

lower_verdict-above :
    (b : Bool) (u v x : Text)
    → generic_compare u v ≡ some Ordering.lt
    → lower_verdict b (generic_compare u x) ≡ affected
    → lower_verdict b (generic_compare v x) ≡ affected
unfolding lower_verdict
lower_verdict-above b u v x h k = ground (
  arith,
  h,
  k,
  generic_compare_trans x u v,
  compare_eq_lt u v x,
  generic_compare_swap u x,
  generic_compare_swap x v,
)

exact_verdict-between :
    (u v w x : Text)
    → generic_compare u v ≡ some Ordering.lt
    → generic_compare v w ≡ some Ordering.lt
    → exact_verdict (generic_compare u x) ≡ affected
    → exact_verdict (generic_compare w x) ≡ affected
    → ⊥
unfolding exact_verdict
exact_verdict-between u v w x h k e e' =
    ground (arith, h, k, e, e', compare_eq_lt u v x, compare_lt_eq v w x, generic_compare_swap x v)

both_verdicts-affected :
    (a b : EvalResult) → both_verdicts a b ≡ affected → (a ≡ affected) × (b ≡ affected)
unfolding both_verdicts
both_verdicts-affected a b h = ground (arith, h)

both_affected : (a b : EvalResult) → a ≡ affected → b ≡ affected → both_verdicts a b ≡ affected
unfolding both_verdicts
both_affected a b h k = ground (arith, h, k)

kind_verdict-convex :
    (k : ConstraintKind) (c : Constraint) (u v w : Text)
    → k ≢ prefix
    → generic_compare u v ≡ some Ordering.lt
    → generic_compare v w ≡ some Ordering.lt
    → kind_verdict k c u generic ≡ affected
    → kind_verdict k c w generic ≡ affected
    → kind_verdict k c v generic ≡ affected
unfolding kind_verdict compare_versions
kind_verdict-convex all c u v w n h k a b = refl
kind_verdict-convex eq c u v w n h k a b = absurd (exact_verdict-between u v w c.lower h k a b)
kind_verdict-convex prefix c u v w n h k a b = absurd (n refl)
kind_verdict-convex lt c u v w n h k a b = upper_verdict-below false v w c.upper k b
kind_verdict-convex lte c u v w n h k a b = upper_verdict-below true v w c.upper k b
kind_verdict-convex gt c u v w n h k a b = lower_verdict-above false u v c.lower h a
kind_verdict-convex gte c u v w n h k a b = lower_verdict-above true u v c.lower h a
kind_verdict-convex between c u v w n h k a b =
    let (la, ua) = both_verdicts-affected _ _ a in
    let (lb, ub) = both_verdicts-affected _ _ b in
    both_affected _ _ (lower_verdict-above c.lower_inclusive u v c.lower h la)
      (upper_verdict-below c.upper_inclusive v w c.upper k ub)
kind_verdict-convex unknown c u v w n h k a b = a

known_affected :
    (k : ConstraintKind) (blank : Bool) (r : EvalResult)
    → (k ≡ all → r ≡ affected)
    → (elim k as (λ _. EvalResult) [ all ↦ affected | _ ↦ if blank then indeterminate else r ])
      ≡ affected
    → r ≡ affected
known_affected all blank r f h = f refl
known_affected _ true r f h = ground (arith, h)
known_affected _ false r f h = h

affected_known :
    (k : ConstraintKind) (blank : Bool) (r : EvalResult)
    → blank ≡ false
    → r ≡ affected
    → (elim k as (λ _. EvalResult) [ all ↦ affected | _ ↦ if blank then indeterminate else r ])
      ≡ affected
affected_known all blank r e h = refl
affected_known _ true r e h = ground (arith, e)
affected_known _ false r e h = h

evaluate-affected :
    (raw u : Text)
    → (evaluate (parse_constraint raw) u generic).result ≡ affected
    → reported_verdict (parse_constraint raw) u generic ≡ affected
unfolding verdict reported_verdict
evaluate-affected raw u h =
    let c = parse_constraint raw in
    known_affected c.kind (is_blank u) _ (λ e. ap (λ k. kind_verdict k c u generic) e)
      (sym (evaluate-verdict raw u generic) ∙ h)

-- By the generic comparator, a version strictly between two versions that a range affects is affected
-- as well, unless the range is a release line. The version between is not
-- blank.
pub evaluate-convex :
    (raw u v w : Text)
    → (parse_constraint raw).kind ≢ prefix
    → is_blank v ≡ false
    → generic_compare u v ≡ some Ordering.lt
    → generic_compare v w ≡ some Ordering.lt
    → (evaluate (parse_constraint raw) u generic).result ≡ affected
    → (evaluate (parse_constraint raw) w generic).result ≡ affected
    → (evaluate (parse_constraint raw) v generic).result ≡ affected
unfolding verdict reported_verdict
evaluate-convex raw u v w n blank h k a b =
    let c = parse_constraint raw in
    evaluate-verdict raw v generic
    ∙ affected_known c.kind (is_blank v) _ blank (
        kind_verdict-convex c.kind c u v w n h k (evaluate-affected raw u a)
          (evaluate-affected raw w b))
