-- ===== src/Safety/Audit.antt =====
-- The audit trail (internal/safety/audit.go): the lines that the engine writes. Encoding a line as
-- JSON and flushing the file are the environment's part, and may fail.
use otscout.Prelude.{ℕ, Bool, true, false, List, Text}
use otscout.Safety.Risk.{Risk}

pub data Outcome : Type 0 where
  answered no_answer unreachable : Outcome
  skipped_risk skipped_denied skipped_aborted dry_run : Outcome

-- Whether bytes were put on the wire.
abbrev pub was_sent : Outcome → Bool
was_sent answered = true
was_sent no_answer = true
was_sent unreachable = true
was_sent _ = false

-- Whether it counts against the error rate.
abbrev pub failed : Outcome → Bool
failed no_answer = true
failed unreachable = true
failed _ = false

-- What the text in a record's Detail says.
pub data Detail : Type 0 where
  nothing : Detail
  error_text : Text → Detail
  cancelled : Detail
  above_ceiling : Risk → Risk → Detail
  -- the id and the reason of the deny rule
  denied_by : Text → Text → Detail
  -- the packets that failed, of those sent
  too_many_failures : ℕ → ℕ → Detail
  -- the number of the step that went unanswered
  session_ended : ℕ → Detail

pub record Record : Type 0 where
  pub timestamp : ℕ
  pub target : Text
  pub transport : Text
  pub template_id : Text
  pub protocol : Text
  pub risk : Risk
  pub step : ℕ
  pub steps : ℕ
  pub purpose : Text
  pub outcome : Outcome
  pub request : Text
  pub response : Text
  pub duration_ms : ℕ
  pub detail : Detail

-- The version of the build and the rendering of the policy are left out.
pub record Header : Type 0 where
  pub timestamp : ℕ
  pub reason : Text
  pub invocation : List Text
  pub dry_run : Bool

pub record Summary : Type 0 where
  pub timestamp : ℕ
  pub attempted : ℕ
  pub sent : ℕ
  pub answered : ℕ
  pub failed : ℕ
  pub skipped : ℕ
  pub aborted : Bool
  pub abort_reason : Detail
  pub duration_ms : ℕ

pub data Line : Type 0 where
  header : Header → Line
  packet : Record → Line
  summary : Summary → Line
