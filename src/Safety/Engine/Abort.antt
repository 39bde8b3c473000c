-- ===== src/Safety/Engine/Abort.antt =====
-- When a run stops, and what it does after that.
use otscout.Prelude.{
  ◌⊎◌, ℕ, ◌+◌, ◌≡◌, refl, Bool, true, false, none, List, [], ◌∷◌, inl, inr, arith, Text, Bool-cases,
  Option-cases,
}
use otscout.Prelude.Int.{ℤ, pos, ltb_ℤ}
use otscout.Safety.Audit.{
  Outcome, Detail, skipped_aborted, skipped_risk, skipped_denied, above_ceiling, denied_by,
}
use otscout.Safety.Deny
use otscout.Safety.Exchange.{Step, Exchange}
use otscout.Safety.Float.{Float64}
use otscout.Safety.Grouping.{Groups, of_host}
use otscout.Safety.Policy.{IsValid}
use otscout.Safety.Policy.Bounds.{validate-InBounds}
use otscout.Safety.World.{World, Env}
use otscout.Safety.Engine.{log, record_skip, run_exchange}
use otscout.Safety.State.{Result, Run, Engine, identity_of}
use otscout.Safety.Engine.Counts.{log-result}
use otscout.Safety.Engine.Loop.{
  Plan, interval_of, should_abort, record_dry_run, dry_line, dry_attempt, live_attempt, decide,
  attempt, attempt_all, run_hosts, run_plan, run, start, finish,
}
use otscout.Safety.Engine.Loops.{run_plan-keeps, run-ok, headed}
use otscout.Safety.Engine.Spacing.{Any, Any-All}
use otscout.Safety.Engine.Wire.{record_skip-wire}

module _ (fl : Float64) (env : Env) (e : Engine fl) where
  -- Declining an exchange moves neither the packets that are counted nor the flag.
  abbrev SameRates : Run → Run → Type 0
  SameRates r r' =
      (r'.result.sent ≡ r.result.sent)
      × (r'.result.failed ≡ r.result.failed)
      × (r'.result.aborted ≡ r.result.aborted)

  skip-SameRates :
      (ex : Exchange) (o : Outcome) (d : Detail) (r : Run)
      → SameRates r (record_skip fl env e ex o d r)
  unfolding record_skip
  skip-SameRates ex o d r = rw log-result (refl, refl, refl)

  dry-SameRates :
      (ex : Exchange) (idx : ℕ) (rest : List Step) (r : Run)
      → (record_dry_run fl env e ex idx rest r).0.result ≡ r.result
  unfolding record_dry_run
  dry-SameRates ex idx [] r = refl
  dry-SameRates ex idx (s ∷ rest) r =
      let line = dry_line ex idx s r.world.clock in
      let r' = (log fl env e line r).0 in
      ground (arith, log-result fl env e line r, dry-SameRates ex (idx + 1) rest r')

  -- The run goes on only while the rate of failures does not call for a stop.
  abbrev Watched : Run → Type 0
  Watched r = r.result.aborted ≡ false → should_abort fl e.policy r.result ≡ false

  skip-Watched :
      (ex : Exchange) (o : Outcome) (d : Detail) (r : Run)
      → Watched r
      → Watched (record_skip fl env e ex o d r)
  unfolding should_abort
  skip-Watched ex o d r h a = ground (arith, skip-SameRates ex o d r, h)

  live-Watched :
      (interval : ℤ) (ex : Exchange) (r : Run)
      → (live_attempt fl env e interval ex r).1 ≡ true
      → Watched (live_attempt fl env e interval ex r).0
  unfolding live_attempt
  live-Watched interval ex r ok a =
      let r' = (run_exchange fl env e interval ex r).0 in
      elim (Bool-cases (should_abort fl e.policy r'.result)) [
        | inl stop ↦ ground arith
        | inr go ↦ ground arith
      ]

  dry-Watched : (ex : Exchange) (r : Run) → Watched r → Watched (dry_attempt fl env e ex r).0
  unfolding dry_attempt should_abort
  dry-Watched ex r h a = ground (arith, dry-SameRates ex 0 ex.steps r, h)

  -- The same of a state, where all went well.
  abbrev WatchedAfter : Run → Bool → Type 0
  WatchedAfter r ok = ok ≡ true → Watched r

  attempt-Watched :
      (ex : Exchange) (r : Run)
      → Any ex
      → WatchedAfter r true
      → WatchedAfter
          (attempt fl env e (interval_of fl e.policy) ex r).0
          (attempt fl env e (interval_of fl e.policy) ex r).1
  unfolding attempt decide
  attempt-Watched ex r q h ok a =
      let r' = record r { result = record r.result { attempted = r.result.attempted + 1 } } in
      let h' : Watched r' = unfold should_abort in h refl in
      let ceiling = e.policy.allowed_risk in
      elim (Option-cases (Deny.check e.deny_list (identity_of ex.target.host r.known) ex)) [
        | inl free ↦ ground (
          arith,
          skip-Watched ex skipped_aborted r.result.abort_reason r' h',
          skip-Watched ex skipped_risk (above_ceiling ex.risk ceiling) r' h',
          dry-Watched ex r' h',
          live-Watched (interval_of fl e.policy) ex r',
        )
        | inr (d, held) ↦ ground (
          arith,
          skip-Watched ex skipped_aborted r.result.abort_reason r' h',
          skip-Watched ex skipped_risk (above_ceiling ex.risk ceiling) r' h',
          skip-Watched ex skipped_denied (denied_by d.id d.reason) r' h',
        )
      ]

  -- Fewer packets were sent than the policy waits for, or the rate of failures is within its threshold.
  pub Calm : Result → Type 0
  Calm res =
      (ltb_ℤ (pos res.sent) e.policy.min_attempts_before_abort ≡ true)
      ⊎ (fl.le (fl.quotient res.failed res.sent) e.policy.error_rate_abort ≡ true)

  calm_lem : (res : Result) → should_abort fl e.policy res ≡ false → Calm res
  unfolding should_abort Calm
  calm_lem res h = ground arith

  -- Under a valid policy, a run that returns no error and was not aborted has sent fewer packets than
  -- the policy waits for, or has a failure rate within the threshold.
  pub run-Watched :
      (plan : Plan) (w : World)
      → IsValid fl e.policy
      → (run fl env e plan w).1 ≡ none
      → (run fl env e plan w).0.result.aborted ≡ false
      → Calm (run fl env e plan w).0.result
  run-Watched plan w v h a =
      let (valid, done, ended) = run-ok fl env e plan w h in
      let w' = headed fl env e plan w in
      let r = (run_plan fl env e plan w').0 in
      let b = validate-InBounds fl e.policy v in
      let begun : WatchedAfter (start fl env e plan w') true =
        λ _ _. unfold should_abort in ground (arith, b) in
      let watched =
        run_plan-keeps fl env e WatchedAfter Any attempt-Watched plan w' (Any-All plan.exchanges)
          begun done in
      calm_lem _ (rw ended (finished w.clock r watched (rw ended at a)))
    where
      finished :
          (t : ℕ) (r : Run)
          → Watched r
          → (finish fl env e t r).0.result.aborted ≡ false
          → should_abort fl e.policy (finish fl env e t r).0.result ≡ false
      finished t r k a = unfold finish should_abort in k a

  skip-skipped :
      (ex : Exchange) (o : Outcome) (d : Detail) (r : Run)
      → (record_skip fl env e ex o d r).result.skipped ≡ r.result.skipped + 1
  unfolding record_skip
  skip-skipped ex o d r = rw log-result

  -- After a stop an attempt declines its exchange.
  attempt-aborted :
      (interval : ℤ) (ex : Exchange) (r : Run)
      → r.result.aborted ≡ true
      → let r' = (attempt fl env e interval ex r).0 in
        (r'.result.aborted ≡ true)
        × (r'.world.wire ≡ r.world.wire)
        × (r'.result.skipped ≡ r.result.skipped + 1)
  unfolding attempt decide
  attempt-aborted interval ex r a =
      let r' = record r { result = record r.result { attempted = r.result.attempted + 1 } } in
      let reason = r.result.abort_reason in
      ground (
        arith,
        skip-SameRates ex skipped_aborted reason r',
        record_skip-wire fl env e ex skipped_aborted reason r',
        skip-skipped ex skipped_aborted reason r',
      )

  attempt_all-aborted :
      (interval : ℤ) (exs : List Exchange) (r : Run)
      → r.result.aborted ≡ true
      → let r' = (attempt_all fl env e interval exs r).0 in
        (r'.result.aborted ≡ true) × (r'.world.wire ≡ r.world.wire)
  unfolding attempt_all
  attempt_all-aborted interval [] r a = (a, refl)
  attempt_all-aborted interval (ex ∷ exs) r a =
      let r' = (attempt fl env e interval ex r).0 in
      let (a', w', s') = attempt-aborted interval ex r a in
      ground (arith, attempt_all-aborted interval exs r' a')

  -- Once a run has stopped, the rest of its loops put nothing on the wire.
  pub run_hosts-aborted :
      (interval : ℤ) (groups : Groups) (hs : List Text) (r : Run)
      → r.result.aborted ≡ true
      → let r' = (run_hosts fl env e interval groups hs r).0 in
        (r'.result.aborted ≡ true) × (r'.world.wire ≡ r.world.wire)
  unfolding run_hosts
  run_hosts-aborted interval groups [] r a = (a, refl)
  run_hosts-aborted interval groups (h ∷ hs) r a =
      let exs = of_host h groups in
      let r' = (attempt_all fl env e interval exs r).0 in
      let (a', w') = attempt_all-aborted interval exs r a in
      ground (arith, run_hosts-aborted interval groups hs r' a')
