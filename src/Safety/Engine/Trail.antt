-- ===== src/Safety/Engine/Trail.antt =====
-- Everything that is sent is written down as it happens.
use otscout.Prelude.{
  ℕ, suc, ◌+◌, ◌≤◌, ◌≡◌, refl, Bool, true, false, Option, none, some, List, [], ◌∷◌, inl, inr,
  arith, Text, Bool-cases, Option-cases, if◌then◌else◌,
}
use otscout.Prelude.Int.{ℤ}
use otscout.Safety.Audit.{
  Outcome, Detail, Record, Line, header, packet, summary, was_sent, skipped_aborted, cancelled,
}
use otscout.Safety.Exchange.{Step, Exchange}
use otscout.Safety.Float.{Float64}
use otscout.Safety.World.{World, Env, pace}
use otscout.Safety.Engine.{
  StepEnd, write_failed, log, record_skip, deliver, transmit, step_once, record_rest, walk,
  dial_failed, open_and_walk, run_exchange,
}
use otscout.Safety.State.{Run, Engine, rest_line}
use otscout.Safety.Engine.Counts.{counted}
use otscout.Safety.Engine.Wire.{
  log-wire, pace-wire, deliver-wire, open_connected, open_refused, behind_dial,
}

-- The lines of a trail that record a packet put on the wire.
abbrev pub recorded : List Line → ℕ
recorded [] = 0
recorded (packet r ∷ older) = (if was_sent r.outcome then 1 else 0) + recorded older
recorded (header h ∷ older) = recorded older
recorded (summary s ∷ older) = recorded older

-- Every packet has its line; or one, the last, has none, and the run is about to end for that.
abbrev pub Level : ℕ → ℕ → Bool → Type 0
Level sent lines true = sent ≡ lines
Level sent lines false = (lines ≤ sent) × (sent ≤ suc lines)

pub Level-lost : {sent lines : ℕ} (ok : Bool) → Level sent lines true → Level sent lines ok
Level-lost true h = h
Level-lost false h = omega arith

pub pace-trail : (env : Env) (t : Option ℕ) (d : ℤ) (w : World) → (pace env t d w).0.trail ≡ w.trail
unfolding pace
pace-trail env none d w = refl
pace-trail env (some t) d w = ground arith

module _ (fl : Float64) (env : Env) (e : Engine fl) (audited : e.audited ≡ true) where
  -- Whether the trail of a state is level with its wire.
  abbrev pub LevelRun : Run → Bool → Type 0
  LevelRun r ok = Level (counted r.world.wire) (recorded r.world.trail) ok

  log-recorded :
      (l : Record) (r : Run)
      → recorded (log fl env e l r).0.world.trail
        ≡ (if (log fl env e l r).1 then (if was_sent l.outcome then 1 else 0) else 0)
          + recorded r.world.trail
  unfolding log
  log-recorded l r = ground arith

  -- A line for no packet.
  pub log-quiet :
      (l : Record) (r : Run) (ok : Bool)
      → was_sent l.outcome ≡ false
      → LevelRun r true
      → LevelRun (log fl env e l r).0 ok
  log-quiet l r ok q h = Level-lost ok (rw log-wire (ground (arith, log-recorded l r)))

  -- The line for the packet that has just gone out.
  log-loud :
      (l : Record) (r : Run)
      → was_sent l.outcome ≡ true
      → counted r.world.wire ≡ suc (recorded r.world.trail)
      → LevelRun (log fl env e l r).0 (log fl env e l r).1
  log-loud l r q h = rw log-wire (ground (arith, log-recorded l r))

  record_rest-Level :
      (ex : Exchange) (ended idx : ℕ) (rest : List Step) (r : Run)
      → LevelRun r true
      → LevelRun
          (record_rest fl env e ex ended idx rest r).0
          (record_rest fl env e ex ended idx rest r).1
  unfolding record_rest
  record_rest-Level ex ended idx [] r h = h
  record_rest-Level ex ended idx (s ∷ rest) r h =
      let line = rest_line ex ended idx s r.world.clock in
      let (r', ok) = log fl env e line r in
      elim (Bool-cases ok) [
        | inl good ↦
            rw good (record_rest-Level ex ended (idx + 1) rest r' (log-quiet line r true refl h))
        | inr bad ↦ rw bad (log-quiet line r false refl h)
      ]

  deliver-trail :
      (ex : Exchange) (idx : ℕ) (s : Step) (r : Run)
      → ((deliver fl env e ex idx s r).0.world.trail ≡ r.world.trail)
        × (was_sent (deliver fl env e ex idx s r).1.outcome ≡ true)
  unfolding deliver
  deliver-trail ex idx s r = ground arith

  -- The line of a step failed to be written exactly when the step ends that way.
  abbrev is_written : StepEnd → Bool
  is_written write_failed = false
  is_written _ = true

  transmit-Level :
      (ex : Exchange) (idx : ℕ) (s : Step) (r : Run)
      → LevelRun r true
      → LevelRun (transmit fl env e ex idx s r).0 (is_written (transmit fl env e ex idx s r).1)
  unfolding transmit
  transmit-Level ex idx s r h =
      let (r', line) = deliver fl env e ex idx s r in
      let (same, sent) = deliver-trail ex idx s r in
      let loud = log-loud line r' sent (rw (deliver-wire, same) (ground arith)) in
      ground (arith, loud)

  step_once-Level :
      (interval : ℤ) (ex : Exchange) (idx : ℕ) (s : Step) (r : Run)
      → LevelRun r true
      → LevelRun
          (step_once fl env e interval ex idx s r).0
          (is_written (step_once fl env e interval ex idx s r).1)
  unfolding step_once
  step_once-Level interval ex idx s r h =
      let rested = record r { world = (pace env r.last_send interval r.world).0 } in
      let h' : LevelRun rested true = rw (pace-wire, pace-trail) h in
      ground (arith, h', transmit-Level ex idx s r h, transmit-Level ex idx s rested h')

  walk-Level :
      (interval : ℤ) (ex : Exchange) (idx : ℕ) (steps : List Step) (r : Run)
      → LevelRun r true
      → LevelRun (walk fl env e interval ex idx steps r).0 (walk fl env e interval ex idx steps r).1
  unfolding walk
  walk-Level interval ex idx [] r h = h
  walk-Level interval ex idx (s ∷ rest) r h =
      let (r', end) = step_once fl env e interval ex idx s r in
      let h' = step_once-Level interval ex idx s r h in
      ground (
        arith,
        h',
        record_rest-Level ex (idx + 1) (idx + 1) rest r',
        walk-Level interval ex (idx + 1) rest r',
      )

  dial_failed-Level :
      (ex : Exchange) (t : Text) (r : Run)
      → counted r.world.wire ≡ suc (recorded r.world.trail)
      → LevelRun (dial_failed fl env e ex t r).0 (dial_failed fl env e ex t r).1
  unfolding dial_failed
  dial_failed-Level ex t r h = log-loud _ _ refl h

  open_and_walk-Level :
      (interval : ℤ) (ex : Exchange) (r : Run)
      → LevelRun r true
      → LevelRun (open_and_walk fl env e interval ex r).0 (open_and_walk fl env e interval ex r).1
  open_and_walk-Level interval ex r h = elim (Option-cases (env.dial_error r.world ex)) [
    | inl ok ↦
        rw (open_connected fl env e interval ex r ok)
          (walk-Level interval ex 0 ex.steps (behind_dial fl env e true ex r) (ground arith))
    | inr (t, bad) ↦
        rw (open_refused fl env e interval ex r t bad)
          (dial_failed-Level ex t (behind_dial fl env e false ex r) (ground arith))
  ]

  pub skip-Level :
      (ex : Exchange) (o : Outcome) (d : Detail) (r : Run)
      → was_sent o ≡ false
      → LevelRun r true
      → LevelRun (record_skip fl env e ex o d r) true
  unfolding record_skip
  skip-Level ex o d r q h = log-quiet _ _ true q h

  pub run_exchange-Level :
      (interval : ℤ) (ex : Exchange) (r : Run)
      → LevelRun r true
      → LevelRun (run_exchange fl env e interval ex r).0 (run_exchange fl env e interval ex r).1
  unfolding run_exchange
  run_exchange-Level interval ex r h =
      let rested = record r { world = (pace env r.last_send interval r.world).0 } in
      let h' : LevelRun rested true = rw (pace-wire, pace-trail) h in
      ground (
        arith,
        open_and_walk-Level interval ex rested h',
        skip-Level ex skipped_aborted cancelled rested refl h',
      )
