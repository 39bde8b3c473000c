-- ===== src/Safety/Engine/Complete.antt =====
-- The audit trail of a whole run.
use otscout.Prelude.{
  ℕ, ◌+◌, ◌≡◌, refl, Bool, true, false, Option, none, some, List, [], ◌∷◌, inl, inr, arith,
  Bool-cases, Option-cases,
}
use otscout.Prelude.Int.{ℤ}
use otscout.Safety.Audit.{
  skipped_aborted, skipped_risk, skipped_denied, cancelled, above_ceiling, denied_by,
}
use otscout.Safety.Deny
use otscout.Safety.Exchange.{Step, Exchange}
use otscout.Safety.Float.{Float64}
use otscout.Safety.World.{World, Env}
use otscout.Safety.Engine.{write, log}
use otscout.Safety.State.{Run, Engine, identity_of}
use otscout.Safety.Engine.Loop.{
  Plan, RunError, interval_of, record_dry_run, dry_line, dry_attempt, live_attempt, decide, attempt,
  run_plan, run, start, finish,
}
use otscout.Safety.Engine.Loops.{run_plan-keeps, headed}
use otscout.Safety.Engine.Spacing.{Any, Any-All}
use otscout.Safety.Engine.Trail.{recorded, LevelRun, log-quiet, skip-Level, run_exchange-Level}
use otscout.Safety.Engine.Wire.{write-wire}

-- err == nil
abbrev pub no_error : Option RunError → Bool
no_error none = true
no_error (some _) = false

module _ (fl : Float64) (env : Env) (e : Engine fl) (audited : e.audited ≡ true) where
  abbrev Even : Run → Bool → Type 0
  Even r ok = LevelRun fl env e audited r ok

  dry-Level :
      (ex : Exchange) (idx : ℕ) (rest : List Step) (r : Run)
      → Even r true
      → Even (record_dry_run fl env e ex idx rest r).0 (record_dry_run fl env e ex idx rest r).1
  unfolding record_dry_run
  dry-Level ex idx [] r h = h
  dry-Level ex idx (s ∷ rest) r h =
      let line = dry_line ex idx s r.world.clock in
      let (r', ok) = log fl env e line r in
      elim (Bool-cases ok) [
        | inl good ↦
            rw good (dry-Level ex (idx + 1) rest r' (log-quiet fl env e audited line r true refl h))
        | inr bad ↦ rw bad (log-quiet fl env e audited line r false refl h)
      ]

  dry_attempt-Level :
      (ex : Exchange) (r : Run)
      → Even r true
      → Even (dry_attempt fl env e ex r).0 (dry_attempt fl env e ex r).1
  unfolding dry_attempt
  dry_attempt-Level ex r h = ground (arith, dry-Level ex 0 ex.steps r h)

  live_attempt-Level :
      (interval : ℤ) (ex : Exchange) (r : Run)
      → Even r true
      → Even (live_attempt fl env e interval ex r).0 (live_attempt fl env e interval ex r).1
  unfolding live_attempt
  live_attempt-Level interval ex r h =
      ground (arith, run_exchange-Level fl env e audited interval ex r h)

  attempt-Level :
      (ex : Exchange) (r : Run)
      → Any ex
      → Even r true
      → Even
          (attempt fl env e (interval_of fl e.policy) ex r).0
          (attempt fl env e (interval_of fl e.policy) ex r).1
  unfolding attempt decide
  attempt-Level ex r q h =
      let r' = record r { result = record r.result { attempted = r.result.attempted + 1 } } in
      let ceiling = e.policy.allowed_risk in
      elim (Option-cases (Deny.check e.deny_list (identity_of ex.target.host r.known) ex)) [
        | inl free ↦ ground (
          arith,
          skip-Level fl env e audited ex skipped_aborted r.result.abort_reason r' refl h,
          skip-Level fl env e audited ex skipped_aborted cancelled r' refl h,
          skip-Level fl env e audited ex skipped_risk (above_ceiling ex.risk ceiling) r' refl h,
          dry_attempt-Level ex r' h,
          live_attempt-Level (interval_of fl e.policy) ex r' h,
        )
        | inr (d, held) ↦ ground (
          arith,
          skip-Level fl env e audited ex skipped_aborted r.result.abort_reason r' refl h,
          skip-Level fl env e audited ex skipped_aborted cancelled r' refl h,
          skip-Level fl env e audited ex skipped_risk (above_ceiling ex.risk ceiling) r' refl h,
          skip-Level fl env e audited ex skipped_denied (denied_by d.id d.reason) r' refl h,
        )
      ]

  header-trail :
      (plan : Plan) (w : World) → recorded (headed fl env e plan w).trail ≡ recorded w.trail
  unfolding write
  header-trail plan w = ground arith

  finish-Level :
      (t : ℕ) (r : Run)
      → Even r true
      → Even (finish fl env e t r).0 (no_error (finish fl env e t r).1)
  unfolding finish write
  finish-Level t r h = ground arith

  -- With an auditor, from a silent wire and an empty trail: a run that returns no error has written
  -- one line for each packet and each dial that failed. A run that returns an error has written as
  -- many lines as it sent packets, or one less.
  pub run-Level :
      (plan : Plan) (w : World)
      → w.wire ≡ []
      → w.trail ≡ []
      → let r = run fl env e plan w in Even r.0 (no_error r.1)
  unfolding run
  run-Level plan w silent empty =
      let w' = headed fl env e plan w in
      let begun : Even (start fl env e plan w') true =
        rw (write-wire, header-trail, silent, empty) refl in
      let looped =
        run_plan-keeps fl env e Even Any attempt-Level plan w' (Any-All plan.exchanges) begun in
      let idle : Even (start fl env e plan w) false = rw (silent, empty) (omega arith) in
      let r = (run_plan fl env e plan w').0 in
      ground (arith, looped, begun, idle, finish-Level w.clock r)
