-- ===== src/Safety/Deny.antt =====
-- The list of devices that must not be probed (internal/safety/denylist.go). The rules come from
-- a YAML file; they enter here as that library decodes them.
pub mod Learning
pub mod Parse
use otscout.Prelude.{
  Bool, true, false, not, ◌&&◌, ◌||◌, Option, none, some, List, [], ◌∷◌, is_empty, is_blank,
  text_eq, equal_fold, contains, to_lower, if◌then◌else◌, Text,
}
use otscout.Asset.Identity.{Identity, empty}
use otscout.Safety.Exchange.{Exchange}

pub record DenyRule : Type 0 where
  pub id : Text
  pub vendor : Text
  pub family : Text
  pub product : Text
  pub templates : List Text
  pub protocols : List Text
  pub reason : Text

-- An error of ParseDenyList.
pub data ParseError : Type 0 where
  no_id duplicate_id no_reason matches_everything : ParseError

-- seen[id], and the loops over the templates and protocols of a rule
unfoldable pub has_text : Text → List Text → Bool
has_text t [] = false
has_text t (x ∷ xs) = text_eq x t || has_text t xs

unfoldable pub check_rule : List Text → DenyRule → Option ParseError
check_rule seen r =
    if is_blank r.id
    then some no_id
    else if has_text r.id seen
    then some duplicate_id
    else if is_blank r.reason
    then some no_reason
    else if is_empty r.vendor && is_empty r.family && is_empty r.product
    then some matches_everything
    else none

pub check_rules : List Text → List DenyRule → Option ParseError
check_rules seen [] = none
check_rules seen (r ∷ rules) =
    let rest = check_rules (r.id ∷ seen) rules in
    elim (check_rule seen r) [ some e ↦ some e | none ↦ rest ]

-- ParseDenyList returns the rules of the file when no rule is in error.
unfoldable pub parse_deny_list : List DenyRule → Option ParseError
unfolding check_rules has_text check_rule
parse_deny_list rules = check_rules [] rules

unfoldable pub contains_fold : Text → Text → Bool
contains_fold haystack needle = contains (to_lower haystack) (to_lower needle)

-- The part of `matches` that looks at the device.
unfoldable pub fits_device : DenyRule → Identity → Bool
fits_device r i =
    if empty i
    then false
    else if not (is_empty r.vendor) && not (equal_fold r.vendor i.vendor)
    then false
    else if not (is_empty r.family) && not (contains_fold i.family r.family)
    then false
    else not (
        not (is_empty r.product)
        && not (contains_fold i.product r.product)
        && not (contains_fold i.product_raw r.product))

-- The part that looks at the exchange.
unfoldable pub fits_exchange : DenyRule → Exchange → Bool
fits_exchange r ex =
    if is_empty r.templates && is_empty r.protocols
    then true
    else has_text ex.template_id r.templates || has_text ex.protocol r.protocols

unfoldable pub matches : DenyRule → Identity → Exchange → Bool
unfolding fits_device fits_exchange
matches r i ex = if fits_device r i then fits_exchange r ex else false

check_list : List DenyRule → Identity → Exchange → Option DenyRule
check_list [] i ex = none
check_list (r ∷ rules) i ex =
    let rest = check_list rules i ex in if matches r i ex then some r else rest

-- DenyList.Check; `none` for the list is a nil pointer.
unfoldable pub check : Option (List DenyRule) → Identity → Exchange → Option DenyRule
unfolding check_list
check none i ex = none
check (some rules) i ex = check_list rules i ex
