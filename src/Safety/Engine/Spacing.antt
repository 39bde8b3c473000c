-- ===== src/Safety/Engine/Spacing.antt =====
-- The spacing of a whole run.
use otscout.Prelude.{◌≡◌, refl, Bool, true, List, [], ◌∷◌, All, inl, inr}
use otscout.Safety.Exchange.{Exchange}
use otscout.Safety.Float.{Float64}
use otscout.Safety.World.{World, Env}
use otscout.Safety.State.{Run, Engine}
use otscout.Safety.Engine.Attempt.{Preserves, decide-keeps}
use otscout.Safety.Engine.Loop.{Plan, interval_of, attempt, run, start}
use otscout.Safety.Engine.Loops.{run_plan-keeps, run-wire, headed}
use otscout.Safety.Engine.Pacing.{
  Paced, Spaced, log-Spaced, record_skip-Spaced, run_exchange-Spaced,
}
use otscout.Safety.Engine.Wire.{write-wire}

-- Nothing is asked of an exchange.
abbrev pub Any : Exchange → Type 0
Any ex = Unit

pub Any-All : (exs : List Exchange) → All Any exs
Any-All [] = tt
Any-All (ex ∷ exs) = (tt, Any-All exs)

module _ (fl : Float64) (env : Env) (e : Engine fl) where
  abbrev SpacedAfter : Run → Bool → Type 0
  SpacedAfter r ok = Spaced fl env e (interval_of fl e.policy) r

  Spaced-Preserves :
      Preserves fl env e (interval_of fl e.policy) (Spaced fl env e (interval_of fl e.policy)) Any
  Spaced-Preserves = record {
    logs = log-Spaced fl env e (interval_of fl e.policy);
    skips = record_skip-Spaced fl env e (interval_of fl e.policy);
    aborts = λ d r h. record { paced = h.paced; last = h.last };
    counts = λ r h. record { paced = h.paced; last = h.last };
    runs = λ ex r q h. run_exchange-Spaced fl env e (interval_of fl e.policy) ex r h;
  }

  attempt-Spaced :
      (ex : Exchange) (r : Run)
      → Any ex
      → SpacedAfter r true
      → SpacedAfter (attempt fl env e (interval_of fl e.policy) ex r).0 true
  unfolding attempt
  attempt-Spaced ex r q h =
      decide-keeps fl env e (interval_of fl e.policy) Spaced-Preserves ex _ (λ _ _ _. tt)
        (record { paced = h.paced; last = h.last })

  -- On a wire that was silent, every dial of a run, and every packet but the first of an exchange,
  -- begins at least the interval of the policy after the packet before it was over; the first
  -- packet of an exchange begins when its own dial has connected, with nothing in between; and each
  -- later one follows on the packet of the step before.
  pub run-Paced :
      (plan : Plan) (w : World)
      → w.wire ≡ []
      → Paced (interval_of fl e.policy) (run fl env e plan w).0.world.wire
  run-Paced plan w silent =
      let w' = headed fl env e plan w in
      let begun : SpacedAfter (start fl env e plan w') true = record {
        paced = rw (write-wire, silent) tt;
        last = rw (write-wire, silent) refl;
      } in
      elim (run-wire fl env e plan w) [
        | inl same ↦ rw (same, silent) tt
        | inr looped ↦
            rw looped
              (run_plan-keeps fl env e SpacedAfter Any attempt-Spaced plan w'
                (Any-All plan.exchanges) begun).paced
      ]
