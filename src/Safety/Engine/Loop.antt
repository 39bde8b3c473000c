-- ===== src/Safety/Engine/Loop.antt =====
-- Engine.Run (internal/safety/engine.go): the checks in front of an exchange, the loop over the
-- hosts and their exchanges, and the decision to stop.
use otscout.Prelude.{
  ℕ, ◌+◌, ◌-◌, ◌/◌, Bool, true, false, not, ◌&&◌, Option, none, some, List, [], ◌∷◌, length,
  if◌then◌else◌, Text,
}
use otscout.Prelude.Int.{ℤ, pos, ltb_ℤ}
use otscout.Safety.Audit.{
  skipped_aborted, skipped_denied, skipped_risk, dry_run, cancelled, above_ceiling, denied_by,
  too_many_failures, Line, Record, Header, Summary,
}
use otscout.Safety.Deny
use otscout.Safety.Deny.{DenyRule}
use otscout.Safety.Exchange
use otscout.Safety.Exchange.{Step, Exchange}
use otscout.Safety.Float.{Float64}
use otscout.Safety.Grouping.{Groups, of_host, group_by_host}
use otscout.Safety.Policy.{Policy}
use otscout.Safety.Risk
use otscout.Safety.World.{World, Env}
use otscout.Safety.Engine.{write, log, record_skip, abort_with, run_exchange}
use otscout.Safety.State.{Result, no_result, Known, identity_of, Run, Engine, record_of}

pub record Plan : Type 0 where
  pub exchanges : List Exchange
  pub known : Known
  pub reason : Text
  pub invocation : List Text

pub data RunError : Type 0 where
  -- the index of the exchange in the plan
  invalid_exchange : ℕ → Exchange.Problem → RunError
  audit_failed : RunError

-- The check of the exchanges before anything else is done, from the index `idx`.
unfoldable pub validate_plan : ℕ → List Exchange → Option RunError
validate_plan idx [] = none
validate_plan idx (ex ∷ exs) =
    let rest = validate_plan (idx + 1) exs in
    elim (Exchange.validate ex) [ some p ↦ some (invalid_exchange idx p) | none ↦ rest ]

-- The pause between two packets: the longer of the delay and the gap that the rate asks for.
unfoldable pub interval_of : (fl : Float64) → Policy fl → ℤ
interval_of fl p =
    let gap = fl.second_over p.packets_per_second in
    if fl.lt fl.zero_point p.packets_per_second && ltb_ℤ p.inter_packet_delay gap
    then gap
    else p.inter_packet_delay

-- Engine.shouldAbort
unfoldable pub should_abort : (fl : Float64) → Policy fl → Result → Bool
should_abort fl p r =
    if ltb_ℤ (pos r.sent) p.min_attempts_before_abort
    then false
    else not (fl.le (fl.quotient r.failed r.sent) p.error_rate_abort)

-- The record of a step that a dry run renders.
abbrev pub dry_line : Exchange → ℕ → Step → ℕ → Record
dry_line ex idx s now = record (record_of ex now dry_run) {
  step = idx + 1;
  steps = length ex.steps;
  purpose = s.purpose;
  request = s.request;
}

module _ (fl : Float64) (env : Env) (e : Engine fl) where
  -- Engine.recordDryRun, from the step with index `idx`, and whether it returns nil
  unfoldable pub record_dry_run : Exchange → ℕ → List Step → Run → Run × Bool
  record_dry_run ex idx [] r = (r, true)
  record_dry_run ex idx (s ∷ rest) r =
      let (r', ok) = log fl env e (dry_line ex idx s r.world.clock) r in
      let later = record_dry_run ex (idx + 1) rest r' in if ok then later else (r', false)

  unfoldable pub dry_attempt : Exchange → Run → Run × Bool
  dry_attempt ex r =
      let (r', ok) = record_dry_run ex 0 ex.steps r in
      if ok
      then (record r' { result = record r'.result { skipped = r'.result.skipped + 1 } }, true)
      else (r', false)

  unfoldable pub live_attempt : ℤ → Exchange → Run → Run × Bool
  live_attempt interval ex r =
      let (r', ok) = run_exchange fl env e interval ex r in
      if not ok
      then (r', false)
      else if should_abort fl e.policy r'.result
      then (abort_with fl env e (too_many_failures r'.result.failed r'.result.sent) r', true)
      else (r', true)

  -- The checks once the exchange is counted.
  unfoldable pub decide : ℤ → Exchange → Run → Run × Bool
  decide interval ex r =
      if r.result.aborted
      then (record_skip fl env e ex skipped_aborted r.result.abort_reason r, true)
      else if env.cancelled r.world
      then (
        abort_with fl env e cancelled (record_skip fl env e ex skipped_aborted cancelled r),
        true,
      )
      else if not (Risk.at_most ex.risk e.policy.allowed_risk)
      then (
        record_skip fl env e ex skipped_risk (above_ceiling ex.risk e.policy.allowed_risk) r,
        true,
      )
      else elim (Deny.check e.deny_list (identity_of ex.target.host r.known) ex) [
        | some rule ↦
            (record_skip fl env e ex skipped_denied (denied_by rule.id rule.reason) r, true)
        | none ↦ if e.dry_run then dry_attempt ex r else live_attempt interval ex r
      ]

  -- The body of the inner loop.
  unfoldable pub attempt : ℤ → Exchange → Run → Run × Bool
  attempt interval ex r =
      decide interval ex
        (record r { result = record r.result { attempted = r.result.attempted + 1 } })

  -- The inner loop, over the exchanges of one host.
  unfoldable pub attempt_all : ℤ → List Exchange → Run → Run × Bool
  attempt_all interval [] r = (r, true)
  attempt_all interval (ex ∷ exs) r =
      let (r', ok) = attempt interval ex r in
      let later = attempt_all interval exs r' in if ok then later else (r', false)

  -- The outer loop.
  unfoldable pub run_hosts : ℤ → Groups → List Text → Run → Run × Bool
  run_hosts interval by_host [] r = (r, true)
  run_hosts interval by_host (h ∷ hosts) r =
      let (r', ok) = attempt_all interval (of_host h by_host) r in
      let later = run_hosts interval by_host hosts r' in if ok then later else (r', false)

  abbrev pub header_of : Plan → World → Header
  header_of plan w = record {
    timestamp = w.clock;
    reason = plan.reason;
    invocation = plan.invocation;
    dry_run = e.dry_run;
  }

  abbrev pub summary_of : Result → World → Summary
  summary_of r w = record {
    timestamp = w.clock;
    attempted = r.attempted;
    sent = r.sent;
    answered = r.answered;
    failed = r.failed;
    skipped = r.skipped;
    aborted = r.aborted;
    abort_reason = r.abort_reason;
    duration_ms = r.duration / 1000000;
  }

  -- The variables before the loops.
  abbrev pub start : Plan → World → Run
  start plan w = record { result = no_result; known = plan.known; last_send = none; world = w }

  -- The loops, from the state behind the header.
  unfoldable pub run_plan : Plan → World → Run × Bool
  run_plan plan w =
      let (hosts, by_host) = group_by_host plan.exchanges in
      run_hosts (interval_of fl e.policy) by_host hosts (start plan w)

  -- What stands behind the loops.
  unfoldable pub finish : ℕ → Run → Run × Option RunError
  finish started r =
      let result = record r.result { duration = r.world.clock - started } in
      let (w, ok) = write fl env e (Line.summary (summary_of result r.world)) r.world in
      (record r { result = result; world = w }, if ok then none else some audit_failed)

  unfoldable pub run : Plan → World → Run × Option RunError
  run plan w = elim (validate_plan 0 plan.exchanges) [
    | some err ↦ (start plan w, some err)
    | none ↦
        let (w', ok) = write fl env e (Line.header (header_of plan w)) w in
        if not ok
        then (start plan w', some audit_failed)
        else let (r, done) = run_plan plan w' in
          if done then finish w.clock r else (r, some audit_failed)
  ]
