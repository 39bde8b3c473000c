-- ===== src/Safety/Engine.antt =====
-- The engine that runs a plan under a policy (internal/safety/engine.go): the walk over the steps
-- of one exchange. `Run` is in the child Loop.
pub mod Loop
pub mod Wire
pub mod Invariant
pub mod Attempt
pub mod Loops
pub mod Gate
pub mod Pacing
pub mod Spacing
pub mod Counts
pub mod Abort
pub mod Trail
pub mod Complete
pub mod Rate
pub mod Interval
use otscout.Prelude.{
  ℕ, ◌+◌, ◌-◌, ◌/◌, Bool, true, false, not, ◌&&◌, Option, none, some, List, [], ◌∷◌, ◌++◌, length,
  text_eq, is_empty, if◌then◌else◌, Text, ◌==◌,
}
use otscout.Prelude.Int.{ℤ, pos, ltb_ℤ}
use otscout.Asset.Identity.{Identity, no_identity, merge}
use otscout.Safety.Audit.{
  Outcome, answered, no_answer, unreachable, skipped_aborted, dry_run, failed, Detail, nothing,
  error_text, cancelled, session_ended, Record, Header, Line,
}
use otscout.Safety.Deny.{DenyRule}
use otscout.Safety.Exchange.{Step, Exchange, address}
use otscout.Safety.Float.{Float64}
use otscout.Safety.Policy
use otscout.Safety.Policy.{Policy}
use otscout.Safety.State.{
  Answer, Skip, Result, no_result, Known, identity_of, learn, Run, Engine, EngineError, bad_policy,
  no_dialer, new_engine, record_of, classify, rest_line, skip_line, step_line,
}
use otscout.Safety.World.{
  SendError, no_answer_error, other_error, Reply, World, Env, pace, write_line, dial, send,
}

-- How a step ends: the loop returns nil, returns the error of the audit trail, records the steps
-- that are left, or goes on.
pub data StepEnd : Type 0 where
  stopped write_failed unanswered next : StepEnd

module _ (fl : Float64) (env : Env) (e : Engine fl) where
  -- Engine.writeHeader, writeSummary and record write nothing where there is no auditor.
  unfoldable pub write : Line → World → World × Bool
  unfolding write_line
  write l w = if e.audited then write_line env l w else (w, true)

  -- Engine.record
  unfoldable pub log : Record → Run → Run × Bool
  unfolding write
  log line r = let (w, ok) = write (Line.packet line) r.world in (record r { world = w }, ok)

  -- The failure of this record is ignored.
  unfoldable pub record_skip : Exchange → Outcome → Detail → Run → Run
  record_skip ex outcome reason r =
      let counted = record r {
        result = record r.result {
          skipped = r.result.skipped + 1;
          skips =
              r.result.skips ++ (record { exchange = ex; outcome = outcome; reason = reason } ∷ []);
        };
      } in
      (log (skip_line ex outcome reason r.world.clock) counted).0

  -- result.Aborted = true
  abbrev pub abort_with : Detail → Run → Run
  abort_with reason r = record r {
    result = record r.result { aborted = true; abort_reason = reason };
  }

  -- What a reply adds to the result and to what is known of the host.
  unfoldable pub tally : Exchange → Step → Reply → ℕ → Outcome → Run → Run
  tally ex s reply took outcome r =
      let sent = r.result.sent + 1 in
      if failed outcome
      then record r { result = record r.result { sent = sent; failed = r.result.failed + 1 } }
      else record r {
        result = record r.result {
          sent = sent;
          answered = r.result.answered + 1;
          replies =
              r.result.replies
              ++ (record { exchange = ex; step = s; response = reply.response; duration = took }
                  ∷ []);
        };
        known = elim e.interp [
          | none ↦ r.known
          | some interpret ↦
              learn ex.target.host
                (merge (identity_of ex.target.host r.known) (interpret ex s reply.response)) r.known
        ];
      }

  -- The packet of a step, and what becomes of the variables before it is recorded.
  unfoldable pub deliver : Exchange → ℕ → Step → Run → Run × Record
  unfolding send classify tally
  deliver ex idx s r =
      let started = r.world.clock in
      let (w, reply) = send env idx ex s r.world in
      let took = w.clock - started in
      let (outcome, detail) = classify reply.error in
      (
        tally ex s reply took outcome (record r { last_send = some w.clock; world = w }),
        step_line ex idx s started took reply outcome detail,
      )

  -- The body of the loop over the steps once the pause is over.
  unfoldable pub transmit : Exchange → ℕ → Step → Run → Run × StepEnd
  transmit ex idx s r =
      let (r', line) = deliver ex idx s r in
      let (r'', ok) = log line r' in
      (r'', if not ok then write_failed else if failed line.outcome then unanswered else next)

  -- The body of that loop: every step but the first waits.
  unfoldable pub step_once : ℤ → Exchange → ℕ → Step → Run → Run × StepEnd
  step_once interval ex idx s r =
      if idx == 0
      then transmit ex idx s r
      else let (w, go) = pace env r.last_send interval r.world in
        if go
        then transmit ex idx s (record r { world = w })
        else (abort_with cancelled (record r { world = w }), stopped)

  -- The steps after the one numbered `ended` are recorded as not attempted.
  unfoldable pub record_rest : Exchange → ℕ → ℕ → List Step → Run → Run × Bool
  record_rest ex ended idx [] r = (r, true)
  record_rest ex ended idx (s ∷ rest) r =
      let (r', ok) = log (rest_line ex ended idx s r.world.clock) r in
      let later = record_rest ex ended (idx + 1) rest r' in if ok then later else (r', false)

  -- The loop over the steps, and whether it returns nil.
  unfoldable pub walk : ℤ → Exchange → ℕ → List Step → Run → Run × Bool
  walk interval ex idx [] r = (r, true)
  walk interval ex idx (s ∷ rest) r =
      let (r', end) = step_once interval ex idx s r in
      elim end [
        | stopped ↦ (r', true)
        | write_failed ↦ (r', false)
        | unanswered ↦ record_rest ex (idx + 1) (idx + 1) rest r'
        | next ↦ walk interval ex (idx + 1) rest r'
      ]

  -- The record of a dial that failed counts as a packet that went unanswered.
  unfoldable pub dial_failed : Exchange → Text → Run → Run × Bool
  dial_failed ex t r =
      log (record (record_of ex r.world.clock unreachable) { detail = error_text t })
        (record r {
          result = record r.result { sent = r.result.sent + 1; failed = r.result.failed + 1 };
          last_send = some r.world.clock;
        })

  -- Behind the pause.
  unfoldable pub open_and_walk : ℤ → Exchange → Run → Run × Bool
  unfolding dial
  open_and_walk interval ex r =
      let (w, refused) = dial env ex r.world in
      let r' = record r { world = w } in
      elim refused [ some t ↦ dial_failed ex t r' | none ↦ walk interval ex 0 ex.steps r' ]

  -- Whether it returns nil stands beside the state.
  unfoldable pub run_exchange : ℤ → Exchange → Run → Run × Bool
  run_exchange interval ex r =
      let (w, go) = pace env r.last_send interval r.world in
      let r' = record r { world = w } in
      if go
      then open_and_walk interval ex r'
      else (abort_with cancelled (record_skip ex skipped_aborted cancelled r'), true)
