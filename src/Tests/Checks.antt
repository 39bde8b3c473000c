-- ===== src/Tests/Checks.antt =====
-- The theorems on what stands in front of the wire, at the plan of Plans.
use otscout.Prelude.{◌≡◌, refl, ◌≢◌, ◌↔◌, true, none, some, [], ◌∷◌, All, codes, if◌then◌else◌}
use otscout.Prelude.Int.{pos}
use otscout.Asset.Identity.{merge, no_identity}
use otscout.Safety.Audit.{cancelled}
use otscout.Safety.Deny.{check, parse_deny_list}
use otscout.Safety.Deny.Learning.{check-merge}
use otscout.Safety.Deny.Parse.{parse_deny_list_lem, IsSound, Fresh}
use otscout.Safety.Engine.Abort.{run_hosts-aborted}
use otscout.Safety.Engine.Loop.{run_hosts, should_abort, start}
use otscout.Safety.Exchange
use otscout.Safety.Exchange.Valid.{IsValid, validate-IsValid_iff}
use otscout.Safety.Grouping.{of_host, group_by_host}
use otscout.Safety.Grouping.Order.{select, hits, appears, group_by_host_lem}
use otscout.Safety.Policy
use otscout.Safety.Risk.{at_most, risk_safe, risk_caution, risk_lab_only}
use otscout.Safety.State.{Run, no_result}
use otscout.Tests.Floats.{thousandths}
use otscout.Tests.Plans.{
  plan, plant, world, policy, engine, s7_300, s7_rule, s7_id, modbus_id, evaluation,
}

abbrev stopped_run : Run
stopped_run = record (start thousandths plant engine plan world) {
  result = record no_result { sent = 5; failed = 5; aborted = true; abort_reason = cancelled };
}

run_hosts-aborted_example :
    let groups = (group_by_host plan.exchanges).1 in
    let r' =
      (run_hosts thousandths plant engine
        (pos 250000000)
        groups
        (codes "10.0.0.5" ∷ [])
        stopped_run).0 in
    (r'.result.aborted ≡ true) × (r'.world.wire ≡ [])
run_hosts-aborted_example =
    run_hosts-aborted thousandths plant engine (pos 250000000) (group_by_host plan.exchanges).1
      (codes "10.0.0.5" ∷ []) stopped_run refl

s7_id-denied : check (some (s7_rule ∷ [])) s7_300 s7_id ≢ none
unfolding evaluation
s7_id-denied = λ h. cc

check-merge_example :
    check (some (s7_rule ∷ [])) (merge s7_300 (record no_identity { model = codes "315-2" })) s7_id
    ≢ none
check-merge_example =
    check-merge s7_300 (record no_identity { model = codes "315-2" }) s7_id (some (s7_rule ∷ []))
      s7_id-denied

group_by_host_lem_example :
    (of_host (codes "10.0.0.5") (group_by_host plan.exchanges).1
      ≡ select (codes "10.0.0.5") plan.exchanges)
    × (hits (codes "10.0.0.5") (group_by_host plan.exchanges).0
        ≡ (if appears (codes "10.0.0.5") plan.exchanges then 1 else 0))
group_by_host_lem_example = group_by_host_lem (codes "10.0.0.5") plan.exchanges

parse_deny_list_lem_example :
    (parse_deny_list (s7_rule ∷ []) ≡ none) ↔ (All IsSound (s7_rule ∷ []) × Fresh [] (s7_rule ∷ []))
parse_deny_list_lem_example = parse_deny_list_lem (s7_rule ∷ [])

validate-IsValid_iff_example : (Exchange.validate modbus_id ≡ none) ↔ IsValid modbus_id
validate-IsValid_iff_example = validate-IsValid_iff modbus_id

three_of_ten : should_abort thousandths policy (record no_result { sent = 10; failed = 3 }) ≡ true
unfolding evaluation
three_of_ten = refl

safe_caution : at_most risk_safe risk_caution ≡ true
unfolding evaluation
safe_caution = refl

caution_lab_only : at_most risk_caution risk_lab_only ≡ true
unfolding evaluation
caution_lab_only = refl
