-- ===== src/Safety/Engine/Loops.antt =====
-- What every attempt keeps holds behind the loops over the hosts and their exchanges.
use otscout.Prelude.{
  ℕ, suc, ◌+◌, ◌≡◌, Bool, true, none, List, [], ◌∷◌, arith, All, length, Text, ◌⊎◌, inl, inr,
  Bool-cases,
}
use otscout.Prelude.Int.{ℤ}
use otscout.Safety.Exchange.{Exchange}
use otscout.Safety.Float.{Float64}
use otscout.Safety.Grouping.{Groups, of_host, group_by_host}
use otscout.Safety.Grouping.Order.{
  select-All, group_by_host_lem, total, total-nil, total-host, total-group_by_host,
}
use otscout.Safety.World.{World, Env}
use otscout.Safety.Engine.{write}
use otscout.Safety.State.{Run, Engine}
use otscout.Safety.Engine.Wire.{write-wire}
use otscout.Safety.Audit.{Line}
use otscout.Safety.Engine.Loop.{
  Plan, validate_plan, header_of, run, finish, interval_of, attempt, attempt_all, run_hosts, start,
  run_plan,
}

module _ (fl : Float64) (env : Env) (e : Engine fl) (interval : ℤ) where
  -- `P` is a property of the state and of whether all went well so far.
  module _ (P : Run → Bool → Type 0) (Q : Exchange → Type 0)
      (keeps : (ex : Exchange) (r : Run)
        → Q ex
        → P r true
        → P (attempt fl env e interval ex r).0 (attempt fl env e interval ex r).1) where
    attempt_all-keeps :
        (exs : List Exchange) (r : Run)
        → All Q exs
        → P r true
        → P (attempt_all fl env e interval exs r).0 (attempt_all fl env e interval exs r).1
    unfolding attempt_all
    attempt_all-keeps [] r q h = h
    attempt_all-keeps (ex ∷ exs) r q h =
        let r' = (attempt fl env e interval ex r).0 in
        let h' = keeps ex r q.0 h in
        elim (Bool-cases (attempt fl env e interval ex r).1) [
          | inl ok ↦ rw ok (attempt_all-keeps exs r' q.1 (rw ok at h'))
          | inr bad ↦ rw bad (rw bad at h')
        ]

    run_hosts-keeps :
        (groups : Groups) (hs : List Text) (r : Run)
        → ((h : Text) → All Q (of_host h groups))
        → P r true
        → P (run_hosts fl env e interval groups hs r).0 (run_hosts fl env e interval groups hs r).1
    unfolding run_hosts
    run_hosts-keeps groups [] r q h = h
    run_hosts-keeps groups (k ∷ hs) r q h =
        let exs = of_host k groups in
        let r' = (attempt_all fl env e interval exs r).0 in
        let h' = attempt_all-keeps exs r (q k) h in
        elim (Bool-cases (attempt_all fl env e interval exs r).1) [
          | inl ok ↦ rw ok (run_hosts-keeps groups hs r' q (rw ok at h'))
          | inr bad ↦ rw bad (rw bad at h')
        ]

module _ (fl : Float64) (env : Env) (e : Engine fl) where
  pub run_plan-keeps :
      (P : Run → Bool → Type 0) (Q : Exchange → Type 0)
      (keeps : (ex : Exchange) (r : Run)
        → Q ex
        → P r true
        → P
            (attempt fl env e (interval_of fl e.policy) ex r).0
            (attempt fl env e (interval_of fl e.policy) ex r).1)
      (plan : Plan) (w : World)
      → All Q plan.exchanges
      → P (start fl env e plan w) true
      → P (run_plan fl env e plan w).0 (run_plan fl env e plan w).1
  unfolding run_plan
  run_plan-keeps P Q keeps plan w q h =
      run_hosts-keeps fl env e (interval_of fl e.policy) P Q keeps (group_by_host plan.exchanges).1
        (group_by_host plan.exchanges).0 (start fl env e plan w)
        (λ k. rw (group_by_host_lem k plan.exchanges).0 (select-All Q k plan.exchanges q)) h

  -- The state behind the header of the audit file.
  abbrev pub headed : Plan → World → World
  headed plan w = (write fl env e (Line.header (header_of fl env e plan w)) w).0

  pub finish-wire : (t : ℕ) (r : Run) → (finish fl env e t r).0.world.wire ≡ r.world.wire
  unfolding finish
  finish-wire t r = write-wire fl env e _ _

  -- A run leaves the wire as it was, or as the loops leave it.
  pub run-wire :
      (plan : Plan) (w : World)
      → let wire = (run fl env e plan w).0.world.wire in
        (wire ≡ w.wire) ⊎ (wire ≡ (run_plan fl env e plan (headed plan w)).0.world.wire)
  unfolding run
  run-wire plan w = ground (
    arith,
    write-wire fl env e (Line.header (header_of fl env e plan w)) w,
    finish-wire w.clock (run_plan fl env e plan (headed plan w)).0,
  )

  -- A run that returns no error had a plan that is valid and loops that ended, and is what `finish`
  -- makes of them.
  pub run-ok :
      (plan : Plan) (w : World)
      → (run fl env e plan w).1 ≡ none
      → (validate_plan 0 plan.exchanges ≡ none)
        × ((run_plan fl env e plan (headed plan w)).1 ≡ true)
        × ((run fl env e plan w).0
            ≡ (finish fl env e w.clock (run_plan fl env e plan (headed plan w)).0).0)
  unfolding run
  run-ok plan w h = ground arith

  -- The loops attempt every exchange of the plan once, unless the audit trail fails.
  module _
      (step : (ex : Exchange) (r : Run)
        → (attempt fl env e (interval_of fl e.policy) ex r).0.result.attempted
          ≡ suc r.result.attempted) where
    attempt_all-attempted :
        (exs : List Exchange) (r : Run)
        → (attempt_all fl env e (interval_of fl e.policy) exs r).1 ≡ true
        → (attempt_all fl env e (interval_of fl e.policy) exs r).0.result.attempted
          ≡ length exs + r.result.attempted
    unfolding attempt_all
    attempt_all-attempted [] r ok = omega arith
    attempt_all-attempted (ex ∷ exs) r ok =
        let r' = (attempt fl env e (interval_of fl e.policy) ex r).0 in
        ground (arith, step ex r, attempt_all-attempted exs r')

    run_hosts-attempted :
        (exs : List Exchange) (hs : List Text) (r : Run)
        → (run_hosts fl env e (interval_of fl e.policy) (group_by_host exs).1 hs r).1 ≡ true
        → (run_hosts fl env e
            (interval_of fl e.policy)
            (group_by_host exs).1
            hs
            r).0.result.attempted
          ≡ total exs hs + r.result.attempted
    unfolding run_hosts
    run_hosts-attempted exs [] r ok = rw total-nil (omega arith)
    run_hosts-attempted exs (h ∷ hs) r ok =
        let group = of_host h (group_by_host exs).1 in
        let r' = (attempt_all fl env e (interval_of fl e.policy) group r).0 in
        ground
          (arith, total-host exs h hs, attempt_all-attempted group r, run_hosts-attempted exs hs r')

    pub run_plan-attempted :
        (plan : Plan) (w : World)
        → (run_plan fl env e plan w).1 ≡ true
        → (run_plan fl env e plan w).0.result.attempted ≡ length plan.exchanges
    unfolding run_plan
    run_plan-attempted plan w ok =
        let exs = plan.exchanges in
        omega (
          arith,
          run_hosts-attempted exs (group_by_host exs).0 (start fl env e plan w) ok,
          total-group_by_host exs,
        )
