-- ===== src/Safety/Deny/Parse.antt =====
-- What a deny list that parses is free of.
use otscout.Prelude.{
  ◌≡◌, refl, false, none, List, [], ◌∷◌, arith, ◌↔◌, is_empty, is_blank, Text, All, ◌&&◌,
}
use otscout.Safety.Deny.{DenyRule, has_text, check_rule, check_rules, parse_deny_list}

-- What is asked of one rule.
pub record IsSound (r : DenyRule) : Type 0 where
  pub named : is_blank r.id ≡ false
  pub explained : is_blank r.reason ≡ false
  pub narrow : (is_empty r.vendor && is_empty r.family && is_empty r.product) ≡ false

-- No id of the rules is among `seen`, or stands twice.
abbrev pub Fresh : List Text → List DenyRule → Type 0
Fresh seen [] = Unit
Fresh seen (r ∷ rules) = (has_text r.id seen ≡ false) × Fresh (r.id ∷ seen) rules

check_rules-none :
    (rules : List DenyRule) (seen : List Text)
    → check_rules seen rules ≡ none
    → All IsSound rules × Fresh seen rules
unfolding check_rules check_rule
check_rules-none [] seen h = (tt, tt)
check_rules-none (r ∷ rules) seen h = ground (arith, check_rules-none rules (r.id ∷ seen))

none-check_rules :
    (rules : List DenyRule) (seen : List Text)
    → All IsSound rules
    → Fresh seen rules
    → check_rules seen rules ≡ none
unfolding check_rules check_rule
none-check_rules [] seen s f = refl
none-check_rules (r ∷ rules) seen s f =
    let sound = s.0 in ground (arith, sound, none-check_rules rules (r.id ∷ seen) s.1 f.1)

-- A list parses exactly when each of its rules has an id, a reason and something that it is about,
-- and no id stands in it twice.
pub parse_deny_list_lem :
    (rules : List DenyRule) → (parse_deny_list rules ≡ none) ↔ (All IsSound rules × Fresh [] rules)
unfolding parse_deny_list
parse_deny_list_lem rules = (check_rules-none rules [], λ h. none-check_rules rules [] h.0 h.1)
