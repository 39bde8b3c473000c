-- ===== src/Safety/Engine/Attempt.antt =====
-- The rule one level up: what the run of an exchange and the parts around it keep, an attempt keeps.
use otscout.Prelude.{ℕ, ◌+◌, ◌≡◌, true, false, none, List, [], ◌∷◌, arith, inl, inr, Option-cases}
use otscout.Prelude.Int.{ℤ}
use otscout.Safety.Audit.{
  Outcome, skipped_aborted, skipped_denied, skipped_risk, Detail, cancelled, above_ceiling,
  denied_by, too_many_failures, Record,
}
use otscout.Safety.Deny
use otscout.Safety.Exchange.{Step, Exchange}
use otscout.Safety.Float.{Float64}
use otscout.Safety.Risk
use otscout.Safety.World.{Env}
use otscout.Safety.Engine.{log, record_skip, abort_with, run_exchange}
use otscout.Safety.State.{Run, Engine, identity_of}
use otscout.Safety.Engine.Loop.{record_dry_run, dry_line, dry_attempt, live_attempt, decide}

module _ (fl : Float64) (env : Env) (e : Engine fl) (interval : ℤ) where
  pub record Preserves (P : Run → Type 0) (Q : Exchange → Type 0) : Type 0 where
    pub logs : (l : Record) (r : Run) → P r → P (log fl env e l r).0
    pub skips :
        (ex : Exchange) (o : Outcome) (d : Detail) (r : Run)
        → P r
        → P (record_skip fl env e ex o d r)
    pub aborts : (d : Detail) (r : Run) → P r → P (abort_with fl env e d r)
    pub counts :
        (r : Run)
        → P r
        → P (record r { result = record r.result { skipped = r.result.skipped + 1 } })
    pub runs : (ex : Exchange) (r : Run) → Q ex → P r → P (run_exchange fl env e interval ex r).0

module _ (fl : Float64) (env : Env) (e : Engine fl) (interval : ℤ) {P : Run → Type 0}
    {Q : Exchange → Type 0} (k : Preserves fl env e interval P Q) where
  record_dry_run-keeps :
      (ex : Exchange) (idx : ℕ) (rest : List Step) (r : Run)
      → P r
      → P (record_dry_run fl env e ex idx rest r).0
  unfolding record_dry_run
  record_dry_run-keeps ex idx [] r h = h
  record_dry_run-keeps ex idx (s ∷ rest) r h =
      let line = dry_line ex idx s r.world.clock in
      let h' = k.logs line r h in
      ground (arith, h', record_dry_run-keeps ex (idx + 1) rest (log fl env e line r).0 h')

  dry_attempt-keeps : (ex : Exchange) (r : Run) → P r → P (dry_attempt fl env e ex r).0
  unfolding dry_attempt
  dry_attempt-keeps ex r h =
      let h' = record_dry_run-keeps ex 0 ex.steps r h in ground (arith, h', k.counts _ h')

  live_attempt-keeps :
      (ex : Exchange) (r : Run) → Q ex → P r → P (live_attempt fl env e interval ex r).0
  unfolding live_attempt
  live_attempt-keeps ex r q h =
      let r' = (run_exchange fl env e interval ex r).0 in
      let h' = k.runs ex r q h in
      ground (arith, h', k.aborts (too_many_failures r'.result.failed r'.result.sent) r' h')

  -- The checks of an exchange that is sent have all passed.
  pub decide-keeps :
      (ex : Exchange) (r : Run)
      → (e.dry_run ≡ false
          → Risk.at_most ex.risk e.policy.allowed_risk ≡ true
          → Deny.check e.deny_list (identity_of ex.target.host r.known) ex ≡ none
          → Q ex)
      → P r
      → P (decide fl env e interval ex r).0
  unfolding decide
  decide-keeps ex r q h =
      let rule = Deny.check e.deny_list (identity_of ex.target.host r.known) ex in
      let stop = record_skip fl env e ex skipped_aborted cancelled r in
      elim (Option-cases rule) [
        | inl free ↦ ground (
          arith,
          k.skips ex skipped_aborted r.result.abort_reason r h,
          k.aborts cancelled stop (k.skips ex skipped_aborted cancelled r h),
          k.skips ex skipped_risk (above_ceiling ex.risk e.policy.allowed_risk) r h,
          dry_attempt-keeps ex r h,
          live_attempt-keeps ex r,
          q,
        )
        | inr (d, held) ↦ ground (
          arith,
          k.skips ex skipped_aborted r.result.abort_reason r h,
          k.aborts cancelled stop (k.skips ex skipped_aborted cancelled r h),
          k.skips ex skipped_risk (above_ceiling ex.risk e.policy.allowed_risk) r h,
          k.skips ex skipped_denied (denied_by d.id d.reason) r h,
        )
      ]
