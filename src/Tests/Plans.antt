-- ===== src/Tests/Plans.antt =====
-- A plan against three hosts, an environment that answers some of it, and runs of the engine.
use otscout.Prelude.{
  ◌≡◌, refl, true, false, none, some, List, [], ◌∷◌, codes, text_eq, if◌then◌else◌, String,
  contains, equal_fold,
}
use otscout.Prelude.Address.{parse_ip}
use otscout.Prelude.Int.{pos}
use otscout.Asset.Identity.{Identity, no_identity, empty, merge, merge_string}
use otscout.Safety.Deny.{DenyRule, check, matches, contains_fold, has_text}
use otscout.Safety.Grouping.{of_host, group_by_host}
use otscout.Safety.Exchange.{Step, Exchange, validate_target, validate as valid_exchange}
use otscout.Safety.Policy.{IsValid, Policy, validate as valid_policy}
use otscout.Safety.Risk.{Risk, risk_safe, risk_lab_only, at_most, risk_order, validate}
use otscout.Safety.World.{World, Env, no_answer_error, pace, dial, send, write_line}
use otscout.Safety.Engine.{
  write, log, record_skip, tally, deliver, transmit, step_once, record_rest, walk, open_and_walk,
  dial_failed, run_exchange,
}
use otscout.Safety.State.{Engine, identity_of, learn, classify}
use otscout.Safety.Engine.Loop.{
  Plan, validate_plan, interval_of, should_abort, record_dry_run, dry_attempt, live_attempt, decide,
  attempt, attempt_all, run_hosts, run_plan, finish, run,
}
use otscout.Safety.Engine.Counts.{counted}
use otscout.Safety.Engine.Trail.{recorded}
use otscout.Tests.Floats.{thousandths}

abbrev ask : String → Step
ask s = record { purpose = codes s; request = 0x2B ∷ 0x0E ∷ [] }

abbrev pub exchange : String → String → String → Risk → List Step → Exchange
exchange host template protocol risk steps = record {
  target = record { host = codes host; port = pos 502; transport = codes "tcp" };
  template_id = codes template;
  protocol = codes protocol;
  risk = risk;
  steps = steps;
}

abbrev pub modbus_id : Exchange
modbus_id = exchange "10.0.0.5" "modbus-id" "modbus" risk_safe (ask "identify" ∷ [])

abbrev pub s7_id : Exchange
s7_id =
    exchange "10.0.0.5" "s7-id" "s7comm" risk_safe (ask "connect" ∷ ask "setup" ∷ ask "read" ∷ [])

abbrev silent_id : Exchange
silent_id = exchange "10.0.0.6" "s7-id" "s7comm" risk_safe (ask "connect" ∷ ask "setup" ∷ [])

abbrev lab_id : Exchange
lab_id = exchange "10.0.0.5" "fuzz" "modbus" risk_lab_only (ask "fuzz" ∷ [])

abbrev pub plan : Plan
plan = record {
  exchanges = modbus_id ∷ silent_id ∷ s7_id ∷ lab_id ∷ [];
  known = [];
  reason = codes "maintenance window";
  invocation = [];
}

-- The host 10.0.0.6 connects and says nothing.
abbrev pub plant : Env
plant = record {
  cancelled = λ w. false;
  interrupted = λ w d. false;
  dial_error = λ w ex. none;
  reply = λ w ex s.
      if text_eq ex.target.host (codes "10.0.0.6")
      then record { response = []; error = some (no_answer_error (codes "timeout")) }
      else record { response = 0x2B ∷ []; error = none };
  writes = λ w l. true;
  elapsed = λ w. 1000000;
}

abbrev pub world : World
world = record { clock = 5; wire = []; trail = [] }

abbrev pub s7_rule : DenyRule
s7_rule = record {
  id = codes "s7-300";
  vendor = codes "siemens";
  family = codes "S7-300";
  product = [];
  templates = [];
  protocols = codes "s7comm" ∷ [];
  reason = codes "defect mode";
}

abbrev pub s7_300 : Identity
s7_300 = record no_identity { vendor = codes "Siemens"; family = codes "SIMATIC s7-300" }

abbrev pub policy : Policy thousandths
policy = record {
  inter_packet_delay = pos 250000000;
  packets_per_second = some 4000;
  connect_timeout = pos 3000000000;
  read_timeout = pos 3000000000;
  error_rate_abort = some 200;
  min_attempts_before_abort = pos 5;
  allowed_risk = risk_safe;
}

-- Every reply comes from an S7-300, so that the rule applies behind the first answer.
abbrev pub engine : Engine thousandths
engine = record {
  policy = policy;
  audited = true;
  deny_list = some (s7_rule ∷ []);
  interp = some (λ ex s reply. s7_300);
  dry_run = false;
}

abbrev pub dry_engine : Engine thousandths
dry_engine = record engine { dry_run = true }

-- Opens all that a run computes with.
unfoldable pub evaluation : Unit {0}
unfolding run validate_plan run_plan run_hosts attempt_all attempt decide dry_attempt record_dry_run
    live_attempt should_abort interval_of finish write log record_skip tally deliver classify
    transmit step_once record_rest walk open_and_walk dial_failed run_exchange pace dial send
    write_line group_by_host of_host check matches contains_fold has_text at_most risk_order
    validate valid_exchange validate_target parse_ip text_eq contains equal_fold identity_of learn
    merge merge_string empty valid_policy
evaluation = tt

pub policy-IsValid : IsValid thousandths policy
unfolding evaluation
policy-IsValid = refl

-- The first host is asked over Modbus, found to be an S7-300 and spared the rest; the second goes
-- silent behind its first step; what is rated too high is skipped.
run_totals :
    let r = (run thousandths plant engine plan world).0 in
    (r.result.attempted ≡ 4)
    × (r.result.sent ≡ 2)
    × (r.result.answered ≡ 1)
    × (r.result.failed ≡ 1)
    × (r.result.skipped ≡ 2)
    × (counted r.world.wire ≡ 2)
    × (recorded r.world.trail ≡ 2)
unfolding evaluation
run_totals = (refl, refl, refl, refl, refl, refl, refl)
