-- ===== src/Tests/Engine.antt =====
-- The theorems on the engine at the plan of Plans.
use otscout.Prelude.{◌≡◌, refl, false, none, All, []}
use otscout.Prelude.Int.{pos, ◌≤ℤ◌}
use otscout.Safety.Engine.Abort.{Calm, run-Watched}
use otscout.Safety.Engine.Complete.{run-Level, no_error}
use otscout.Safety.Engine.Counts.{run-Balanced, Balanced, counted}
use otscout.Safety.Engine.Gate.{Allowed, run-Allowed}
use otscout.Safety.Engine.Interval.{interval_of-floor, validate_nan}
use otscout.Safety.Engine.Loop.{interval_of, run}
use otscout.Safety.Engine.Pacing.{Paced}
use otscout.Safety.Engine.Spacing.{run-Paced}
use otscout.Safety.Engine.Trail.{Level, recorded}
use otscout.Safety.Policy.{IsValid}
use otscout.Tests.Floats.{thousandths}
use otscout.Tests.Plans.{dry_engine, plan, plant, world, policy, engine, evaluation, policy-IsValid}

run-none : (run thousandths plant engine plan world).1 ≡ none
unfolding evaluation
run-none = refl

run-Allowed_example :
    All
      (Allowed thousandths plant engine plan)
      (run thousandths plant engine plan world).0.world.wire
run-Allowed_example = run-Allowed thousandths plant engine plan world refl

dry_wire : (run thousandths plant dry_engine plan world).0.world.wire ≡ []
unfolding evaluation
dry_wire = refl

run-Paced_example :
    Paced (interval_of thousandths policy) (run thousandths plant engine plan world).0.world.wire
run-Paced_example = run-Paced thousandths plant engine plan world refl

interval_of-floor_example :
    (pos 250000000 ≤ℤ interval_of thousandths policy)
    × (policy.inter_packet_delay ≤ℤ interval_of thousandths policy)
interval_of-floor_example = interval_of-floor thousandths policy policy-IsValid refl

validate_nan_example :
    IsValid thousandths (record policy { packets_per_second = none })
    × (interval_of thousandths (record policy { packets_per_second = none }) ≡ pos 250000000)
validate_nan_example = validate_nan thousandths policy none policy-IsValid refl

run-Level_example :
    let r = run thousandths plant engine plan world in
    Level (counted r.0.world.wire) (recorded r.0.world.trail) (no_error r.1)
run-Level_example = run-Level thousandths plant engine refl plan world refl refl

run-Balanced_example :
    let r = (run thousandths plant engine plan world).0 in
    (r.result.attempted ≡ 4) × Balanced r.result r.world.wire
run-Balanced_example = run-Balanced thousandths plant engine plan world refl run-none

run-calm : (run thousandths plant engine plan world).0.result.aborted ≡ false
unfolding evaluation
run-calm = refl

run-Watched_example :
    Calm thousandths plant engine (run thousandths plant engine plan world).0.result
run-Watched_example =
    run-Watched thousandths plant engine plan world policy-IsValid run-none run-calm
