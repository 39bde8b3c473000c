-- ===== src/Safety/Engine/Counts.antt =====
-- The totals of a run agree with one another and with the wire.
use otscout.Prelude.{
  ℕ, suc, ◌+◌, ◌≤◌, ◌≡◌, refl, Bool, false, none, List, [], ◌∷◌, inl, inr, arith, length,
  length-append, Text, Bool-cases, if◌then◌else◌,
}
use otscout.Safety.Audit.{Outcome, Detail, Record, failed}
use otscout.Safety.Exchange.{Step, Exchange}
use otscout.Safety.Float.{Float64}
use otscout.Safety.World.{World, Env, Event, dialled, packet, dial}
use otscout.Safety.Engine.{log, record_skip, deliver, dial_failed}
use otscout.Safety.State.{Run, Engine, Result, classify}
use otscout.Safety.Engine.Invariant.{Keeps, run_exchange-keeps}
use otscout.Safety.Engine.Attempt.{Preserves, decide-keeps}
use otscout.Safety.Engine.Loop.{Plan, interval_of, attempt, run, start, finish, run_plan}
use otscout.Safety.Engine.Loops.{run_plan-keeps, run-ok, run_plan-attempted, finish-wire, headed}
use otscout.Safety.Engine.Spacing.{Any, Any-All}
use otscout.Safety.Engine.Wire.{write-wire, log-wire, pace-wire, behind_dial}

-- The packets on a wire, with a dial that failed as one.
abbrev pub counted : List Event → ℕ
counted [] = 0
counted (dialled _ _ ok _ ∷ older) = (if ok then 0 else 1) + counted older
counted (packet _ _ _ _ _ ∷ older) = suc (counted older)

-- The totals of a result against a wire.
pub record Balanced (r : Result) (wire : List Event) : Type 0 where
  pub sent_split : r.sent ≡ r.answered + r.failed
  pub sent_counted : r.sent ≡ counted wire
  pub answers_kept : r.answered ≡ length r.replies
  pub skips_kept : length r.skips ≤ r.skipped

module _ (fl : Float64) (env : Env) (e : Engine fl) where
  abbrev BalancedRun : Run → Type 0
  BalancedRun r = Balanced r.result r.world.wire

  pub log-result : (l : Record) (r : Run) → (log fl env e l r).0.result ≡ r.result
  unfolding log
  log-result l r = refl

  log-Balanced : (l : Record) (r : Run) → BalancedRun r → BalancedRun (log fl env e l r).0
  log-Balanced l r h = rw (log-result, log-wire) h

  skip-Balanced :
      (ex : Exchange) (o : Outcome) (d : Detail) (r : Run)
      → BalancedRun r
      → BalancedRun (record_skip fl env e ex o d r)
  unfolding record_skip
  skip-Balanced ex o d r h = log-Balanced _ _ (record {
    sent_split = h.sent_split;
    sent_counted = h.sent_counted;
    answers_kept = h.answers_kept;
    skips_kept = omega (
      arith,
      h.skips_kept,
      length-append r.result.skips (record { exchange = ex; outcome = o; reason = d } ∷ []),
    );
  })

  refused-Balanced :
      (ex : Exchange) (t : Text) (r : Run)
      → BalancedRun r
      → BalancedRun (dial_failed fl env e ex t (behind_dial fl env e false ex r)).0
  unfolding dial_failed
  refused-Balanced ex t r h = log-Balanced _ _ (ground arith)

  deliver-Balanced :
      (ex : Exchange) (idx : ℕ) (s : Step) (r : Run)
      → BalancedRun r
      → BalancedRun (deliver fl env e ex idx s r).0
  unfolding deliver
  deliver-Balanced ex idx s r h =
      elim (Bool-cases (failed (classify (env.reply r.world ex s).error).0)) [
        | inl lost ↦ rw lost (ground arith)
        | inr got ↦ rw got (record {
          sent_split = omega (arith, h.sent_split);
          sent_counted = omega (arith, h.sent_counted);
          answers_kept = omega (arith, h.answers_kept, length-append {0});
          skips_kept = h.skips_kept;
        })
      ]

  Balanced-Keeps : Keeps fl env e BalancedRun Any
  unfolding dial
  Balanced-Keeps = record {
    logs = log-Balanced;
    skips = skip-Balanced;
    paces = λ d r h. rw pace-wire h;
    aborts = λ d r h. record {
      sent_split = h.sent_split;
      sent_counted = h.sent_counted;
      answers_kept = h.answers_kept;
      skips_kept = h.skips_kept;
    };
    opens = λ ex r q h ok. rw ok (record {
      sent_split = h.sent_split;
      sent_counted = omega (arith, h.sent_counted);
      answers_kept = h.answers_kept;
      skips_kept = h.skips_kept;
    });
    refuses = λ ex t r q h bad. rw bad (refused-Balanced ex t r h);
    delivers = λ ex idx s r q m h. deliver-Balanced ex idx s r h;
  }

  Balanced-Preserves : Preserves fl env e (interval_of fl e.policy) BalancedRun Any
  Balanced-Preserves = record {
    logs = log-Balanced;
    skips = skip-Balanced;
    aborts = Balanced-Keeps.aborts;
    counts = λ r h. record {
      sent_split = h.sent_split;
      sent_counted = h.sent_counted;
      answers_kept = h.answers_kept;
      skips_kept = omega (arith, h.skips_kept);
    };
    runs = run_exchange-keeps fl env e Balanced-Keeps (interval_of fl e.policy);
  }

  abbrev BalancedAfter : Run → Bool → Type 0
  BalancedAfter r ok = BalancedRun r

  attempt-Balanced :
      (ex : Exchange) (r : Run)
      → Any ex
      → BalancedRun r
      → BalancedRun (attempt fl env e (interval_of fl e.policy) ex r).0
  unfolding attempt
  attempt-Balanced ex r q h =
      decide-keeps fl env e (interval_of fl e.policy) Balanced-Preserves ex _ (λ _ _ _. tt)
        (record {
          sent_split = h.sent_split;
          sent_counted = h.sent_counted;
          answers_kept = h.answers_kept;
          skips_kept = h.skips_kept;
        })

  -- The count of attempts, which only the loop itself moves.
  abbrev Attempts : ℕ → Run → Type 0
  Attempts n r = r.result.attempted ≡ n

  skip-attempts :
      (ex : Exchange) (o : Outcome) (d : Detail) (r : Run)
      → (record_skip fl env e ex o d r).result.attempted ≡ r.result.attempted
  unfolding record_skip
  skip-attempts ex o d r = rw log-result

  refused-attempts :
      (ex : Exchange) (t : Text) (r : Run)
      → (dial_failed fl env e ex t r).0.result.attempted ≡ r.result.attempted
  unfolding dial_failed
  refused-attempts ex t r = rw log-result

  deliver-attempts :
      (ex : Exchange) (idx : ℕ) (s : Step) (r : Run)
      → (deliver fl env e ex idx s r).0.result.attempted ≡ r.result.attempted
  unfolding deliver
  deliver-attempts ex idx s r = ground arith

  Attempts-Keeps : (n : ℕ) → Keeps fl env e (Attempts n) Any
  Attempts-Keeps n = record {
    logs = λ l r h. rw log-result h;
    skips = λ ex o d r h. rw skip-attempts h;
    paces = λ d r h. h;
    aborts = λ d r h. h;
    opens = λ ex r q h ok. h;
    refuses = λ ex t r q h bad. rw refused-attempts h;
    delivers = λ ex idx s r q m h. rw deliver-attempts h;
  }

  Attempts-Preserves : (n : ℕ) → Preserves fl env e (interval_of fl e.policy) (Attempts n) Any
  Attempts-Preserves n = record {
    logs = (Attempts-Keeps n).logs;
    skips = (Attempts-Keeps n).skips;
    aborts = (Attempts-Keeps n).aborts;
    counts = λ r h. h;
    runs = run_exchange-keeps fl env e (Attempts-Keeps n) (interval_of fl e.policy);
  }

  attempted-attempt :
      (ex : Exchange) (r : Run)
      → (attempt fl env e (interval_of fl e.policy) ex r).0.result.attempted
        ≡ suc r.result.attempted
  unfolding attempt
  attempted-attempt ex r =
      decide-keeps fl env e (interval_of fl e.policy) (Attempts-Preserves (suc r.result.attempted))
        ex _ (λ _ _ _. tt) (omega arith)

  finished :
      (t : ℕ) (r : Run) {n : ℕ}
      → r.result.attempted ≡ n
      → BalancedRun r
      → ((finish fl env e t r).0.result.attempted ≡ n) × BalancedRun (finish fl env e t r).0
  finished t r a b = rw finish-wire (
      unfold finish in
      (
        a,
        record {
          sent_split = b.sent_split;
          sent_counted = b.sent_counted;
          answers_kept = b.answers_kept;
          skips_kept = b.skips_kept;
        },
      ))

  -- A run on a silent wire that returns no error has attempted every exchange of its plan; what it
  -- sent is what was answered and what failed, and is what the wire saw; each answer is kept as a
  -- reply; and no more skips are explained than were counted.
  pub run-Balanced :
      (plan : Plan) (w : World)
      → w.wire ≡ []
      → (run fl env e plan w).1 ≡ none
      → let r = (run fl env e plan w).0 in
        (r.result.attempted ≡ length plan.exchanges) × Balanced r.result r.world.wire
  run-Balanced plan w silent h =
      let (valid, done, ended) = run-ok fl env e plan w h in
      let w' = headed fl env e plan w in
      let r = (run_plan fl env e plan w').0 in
      let begun : BalancedRun (start fl env e plan w') =
        rw (write-wire, silent)
          (record {
            sent_split = omega arith;
            sent_counted = omega arith;
            answers_kept = omega arith;
            skips_kept = omega arith;
          }) in
      let b =
        run_plan-keeps fl env e BalancedAfter Any attempt-Balanced plan w' (Any-All plan.exchanges)
          begun in
      rw ended (finished w.clock r (run_plan-attempted fl env e attempted-attempt plan w' done) b)
