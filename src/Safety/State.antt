-- ===== src/Safety/State.antt =====
-- The state of a run (internal/safety/engine.go): the options of an engine and how it is built, the
-- variables of its run, what is known of the devices, and the records that it writes.
use otscout.Prelude.{
  ℕ, ◌+◌, ◌/◌, Bool, false, not, ◌&&◌, Option, none, some, List, [], ◌∷◌, length, text_eq,
  if◌then◌else◌, Text,
}
use otscout.Asset.Identity.{Identity, no_identity}
use otscout.Safety.Audit.{
  Outcome, answered, no_answer, unreachable, skipped_aborted, Detail, nothing, error_text,
  session_ended, Record,
}
use otscout.Safety.Deny.{DenyRule}
use otscout.Safety.Exchange.{Step, Exchange, address}
use otscout.Safety.Float.{Float64}
use otscout.Safety.Policy
use otscout.Safety.Policy.{Policy}
use otscout.Safety.World.{SendError, no_answer_error, other_error, Reply, World}

-- What came back for a step.
pub record Answer : Type 0 where
  pub exchange : Exchange
  pub step : Step
  pub response : Text
  pub duration : ℕ

pub record Skip : Type 0 where
  pub exchange : Exchange
  pub outcome : Outcome
  pub reason : Detail

pub record Result : Type 0 where
  pub attempted : ℕ
  pub sent : ℕ
  pub answered : ℕ
  pub failed : ℕ
  pub skipped : ℕ
  pub aborted : Bool
  pub abort_reason : Detail
  pub duration : ℕ
  pub replies : List Answer
  pub skips : List Skip

abbrev pub no_result : Result
no_result = record {
  attempted = 0;
  sent = 0;
  answered = 0;
  failed = 0;
  skipped = 0;
  aborted = false;
  abort_reason = nothing;
  duration = 0;
  replies = [];
  skips = [];
}

-- map[string]asset.Identity
abbrev pub Known : Type 0
Known = List (Text × Identity)

-- known[host], which is the zero identity where there is none
unfoldable pub identity_of : Text → Known → Identity
identity_of h [] = no_identity
identity_of h ((k, i) ∷ m) = if text_eq k h then i else identity_of h m

-- known[host] = identity
unfoldable pub learn : Text → Identity → Known → Known
learn h i [] = (h, i) ∷ []
learn h i ((k, j) ∷ m) = if text_eq k h then (k, i) ∷ m else (k, j) ∷ learn h i m

-- The variables of Engine.Run while it runs.
pub record Run : Type 0 where
  pub result : Result
  pub known : Known
  -- `none` is the zero time
  pub last_send : Option ℕ
  pub world : World

pub record Engine (fl : Float64) : Type 0 where
  pub policy : Policy fl
  -- an auditor is given
  pub audited : Bool
  pub deny_list : Option (List DenyRule)
  pub interp : Option (Exchange → Step → Text → Identity)
  pub dry_run : Bool

pub data EngineError : Type 0 where
  bad_policy : List Policy.Problem → EngineError
  no_dialer : EngineError

-- NewEngine returns the engine with these options unless there is an error. The flag says whether
-- a dialer is given.
unfoldable pub new_engine : (fl : Float64) → Engine fl → Bool → Option EngineError
new_engine fl e has_dialer = elim (Policy.validate fl e.policy) [
  | [] ↦ if not has_dialer && not e.dry_run then some no_dialer else none
  | p ∷ ps ↦ some (bad_policy (p ∷ ps))
]

-- The fields of a record that are the same for every record of an exchange.
abbrev pub record_of : Exchange → ℕ → Outcome → Record
record_of ex now outcome = record {
  timestamp = now;
  target = address ex.target;
  transport = ex.target.transport;
  template_id = ex.template_id;
  protocol = ex.protocol;
  risk = ex.risk;
  step = 0;
  steps = 0;
  purpose = [];
  outcome = outcome;
  request = [];
  response = [];
  duration_ms = 0;
  detail = nothing;
}

unfoldable pub classify : Option SendError → Outcome × Detail
classify none = (answered, nothing)
classify (some (no_answer_error t)) = (no_answer, error_text t)
classify (some (other_error t)) = (unreachable, error_text t)

-- The record of a step that was not tried, since the one numbered `ended` went unanswered.
abbrev pub rest_line : Exchange → ℕ → ℕ → Step → ℕ → Record
rest_line ex ended idx s now = record (record_of ex now skipped_aborted) {
  step = idx + 1;
  steps = length ex.steps;
  purpose = s.purpose;
  detail = session_ended ended;
}

-- The record of an exchange that was declined.
abbrev pub skip_line : Exchange → Outcome → Detail → ℕ → Record
skip_line ex outcome reason now = record (record_of ex now outcome) {
  steps = length ex.steps;
  detail = reason;
}

-- The record of a step that was sent at `started` and took so long.
abbrev pub step_line : Exchange → ℕ → Step → ℕ → ℕ → Reply → Outcome → Detail → Record
step_line ex idx s started took reply outcome detail = record (record_of ex started outcome) {
  step = idx + 1;
  steps = length ex.steps;
  purpose = s.purpose;
  request = s.request;
  response = reply.response;
  duration_ms = took / 1000000;
  detail = detail;
}
