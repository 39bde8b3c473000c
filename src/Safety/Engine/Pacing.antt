-- ===== src/Safety/Engine/Pacing.antt =====
-- The pause between packets.
use otscout.Prelude.{
  ℕ, zero, suc, ◌+◌, ◌≡◌, refl, sym, ◌∙◌, true, false, Option, none, some, List, [], ◌∷◌, arith,
  Text, if◌then◌else◌, Option-cases, Bool-cases, inl, inr, ◌==◌,
}
use native.Mathlib.Numerals.{add-one}
use otscout.Prelude.Int.{ℤ, sub_ℕ, ◌≤ℤ◌}
use otscout.Safety.Audit.{Outcome, skipped_aborted, cancelled, Detail, Record}
use otscout.Safety.Exchange.{Step, Exchange}
use otscout.Safety.Float.{Float64}
use otscout.Safety.World.{World, Env, Event, dialled, packet, pace}
use otscout.Safety.Engine.{
  next, log, record_skip, deliver, transmit, step_once, record_rest, walk, dial_failed,
  open_and_walk, run_exchange,
}
use otscout.Safety.State.{Run, Engine, rest_line}
use otscout.Safety.Engine.Wire.{
  log-wire, pace-wire, record_rest-wire, transmit-wire, dial_failed-wire, open_connected,
  open_refused, behind_dial,
}

-- When the newest packet on the wire was over. A dial that failed counts as one.
abbrev pub last_over : List Event → Option ℕ
last_over [] = none
last_over (dialled _ over ok _ ∷ older) = if ok then last_over older else some over
last_over (packet _ over _ _ _ ∷ older) = some over

-- At least `d` lies between the end of the packet before and `now`.
abbrev pub Rested : ℤ → ℕ → Option ℕ → Type 0
Rested d now none = Unit
Rested d now (some over) = d ≤ℤ sub_ℕ now over

-- The newest event is the dial that connected for this exchange, and it was over at `now`.
abbrev pub Opened : ℕ → Exchange → List Event → Type 0
Opened now ex (dialled _ over true ex' ∷ _) = (over ≡ now) × (ex' ≡ ex)
Opened now ex _ = ⊥

-- The newest event is the packet of the step with this index of the same exchange.
abbrev pub Continues : ℕ → Exchange → List Event → Type 0
Continues i ex (packet _ _ j ex' _ ∷ _) = (j ≡ i) × (ex' ≡ ex)
Continues i ex _ = ⊥

-- A dial waits; the first packet of an exchange follows on its dial at once; a later packet waits,
-- and follows on the packet of the step before.
abbrev pub Waited : ℤ → Event → List Event → Type 0
Waited d (dialled now _ _ _) older = Rested d now (last_over older)
Waited d (packet now _ zero ex _) older = Opened now ex older
Waited d (packet now _ (suc i) ex _) older = Rested d now (last_over older) × Continues i ex older

abbrev pub Paced : ℤ → List Event → Type 0
Paced d [] = Unit
Paced d (ev ∷ older) = Waited d ev older × Paced d older

-- Whoever is let through by the pause has rested.
pub pace-Rested :
    (env : Env) (last : Option ℕ) (d : ℤ) (w : World)
    → (pace env last d w).1 ≡ true
    → Rested d (pace env last d w).0.clock last
unfolding pace
pace-Rested env none d w h = tt
pace-Rested env (some t) d w h = ground arith

suc-ne-zero : (i : ℕ) → (suc i == 0) ≡ false
suc-ne-zero i = ground arith

module _ (fl : Float64) (env : Env) (e : Engine fl) (interval : ℤ) where
  pub record Spaced (r : Run) : Type 0 where
    pub paced : Paced interval r.world.wire
    pub last : r.last_send ≡ last_over r.world.wire

  -- What stands in front of the step with this index.
  abbrev Ready : ℕ → Exchange → Run → Type 0
  Ready zero ex r = Opened r.world.clock ex r.world.wire
  Ready (suc i) ex r = Continues i ex r.world.wire

  log-last : (l : Record) (r : Run) → (log fl env e l r).0.last_send ≡ r.last_send
  unfolding log
  log-last l r = refl

  pub log-Spaced : (l : Record) (r : Run) → Spaced r → Spaced (log fl env e l r).0
  log-Spaced l r h = record { paced = rw log-wire h.paced; last = rw (log-last, log-wire) h.last }

  deliver-last :
      (ex : Exchange) (idx : ℕ) (s : Step) (r : Run)
      → (deliver fl env e ex idx s r).0.last_send ≡ some (r.world.clock + env.elapsed r.world)
  unfolding deliver
  deliver-last ex idx s r = ground arith

  transmit-last :
      (ex : Exchange) (idx : ℕ) (s : Step) (r : Run)
      → (transmit fl env e ex idx s r).0.last_send ≡ some (r.world.clock + env.elapsed r.world)
  unfolding transmit
  transmit-last ex idx s r = log-last _ _ ∙ deliver-last ex idx s r

  -- A packet that goes out when its exchange is ready, and rested if it is not the first.
  transmit-Spaced :
      (ex : Exchange) (idx : ℕ) (s : Step) (r : Run)
      → Paced interval r.world.wire
      → Waited interval
          (packet r.world.clock (r.world.clock + env.elapsed r.world) idx ex s)
          r.world.wire
      → Spaced (transmit fl env e ex idx s r).0
        × Continues idx ex (transmit fl env e ex idx s r).0.world.wire
  transmit-Spaced ex idx s r p h = (
    record { paced = rw transmit-wire (h, p); last = rw (transmit-last, transmit-wire) refl },
    rw transmit-wire (refl, refl),
  )

  dial_failed-last :
      (ex : Exchange) (t : Text) (r : Run)
      → (dial_failed fl env e ex t r).0.last_send ≡ some r.world.clock
  unfolding dial_failed
  dial_failed-last ex t r = log-last _ _

  -- The state behind the pause.
  abbrev rested : Run → Run
  rested r = record r { world = (pace env r.last_send interval r.world).0 }

  rested-Spaced : (r : Run) → Spaced r → Spaced (rested r)
  rested-Spaced r h = record { paced = rw pace-wire h.paced; last = rw pace-wire h.last }

  rested-Rested :
      (r : Run)
      → Spaced r
      → (pace env r.last_send interval r.world).1 ≡ true
      → Rested interval (rested r).world.clock (last_over (rested r).world.wire)
  rested-Rested r h go =
      rw pace-wire (rw (← h.last) (pace-Rested env r.last_send interval r.world go))

  -- One step keeps the spacing, and makes the exchange ready for the next.
  step_once-Spaced :
      (ex : Exchange) (idx : ℕ) (s : Step) (r : Run)
      → Ready idx ex r
      → Spaced r
      → Spaced (step_once fl env e interval ex idx s r).0
        × ((step_once fl env e interval ex idx s r).1 ≡ next
            → Continues idx ex (step_once fl env e interval ex idx s r).0.world.wire)
  unfolding step_once
  step_once-Spaced ex zero s r ready h =
      let (spaced, on) = transmit-Spaced ex 0 s r h.paced ready in (spaced, λ _. on)
  step_once-Spaced ex (suc i) s r ready h =
      elim (Bool-cases (pace env r.last_send interval r.world).1) [
        | inl go ↦
            let there : Continues i ex (rested r).world.wire = rw pace-wire ready in
            let (spaced, on) =
              transmit-Spaced ex (suc i) s (rested r) (rested-Spaced r h).paced
                (rested-Rested r h go, there) in
            rw (suc-ne-zero i, go) (spaced, λ _. on)
        | inr halted ↦
            let kept = rested-Spaced r h in
            rw (suc-ne-zero i, halted) (record { paced = kept.paced; last = kept.last }, λ n. cc)
      ]

  record_rest-last :
      (ex : Exchange) (ended idx : ℕ) (rest : List Step) (r : Run)
      → (record_rest fl env e ex ended idx rest r).0.last_send ≡ r.last_send
  unfolding record_rest
  record_rest-last ex ended idx [] r = refl
  record_rest-last ex ended idx (s ∷ rest) r =
      let line = rest_line ex ended idx s r.world.clock in
      ground
        (arith, log-last line r, record_rest-last ex ended (idx + 1) rest (log fl env e line r).0)

  record_rest-Spaced :
      (ex : Exchange) (ended idx : ℕ) (rest : List Step) (r : Run)
      → Spaced r
      → Spaced (record_rest fl env e ex ended idx rest r).0
  record_rest-Spaced ex ended idx rest r h = record {
    paced = rw record_rest-wire h.paced;
    last = rw (record_rest-last, record_rest-wire) h.last;
  }

  walk-Spaced :
      (ex : Exchange) (idx : ℕ) (steps : List Step) (r : Run)
      → Ready idx ex r
      → Spaced r
      → Spaced (walk fl env e interval ex idx steps r).0
  unfolding walk
  walk-Spaced ex idx [] r ready h = h
  walk-Spaced ex idx (s ∷ rest) r ready h =
      let r' = (step_once fl env e interval ex idx s r).0 in
      let (h', on) = step_once-Spaced ex idx s r ready h in
      let left = record_rest-Spaced ex (idx + 1) (idx + 1) rest r' h' in
      ground (
        arith,
        h',
        left,
        λ (q : (step_once fl env e interval ex idx s r).1 ≡ next).
            walk-Spaced ex (idx + 1) rest r' (rw add-one (on q)) h',
      )

  dial_failed-Spaced :
      (ex : Exchange) (t : Text) (r : Run)
      → Paced interval r.world.wire
      → last_over r.world.wire ≡ some r.world.clock
      → Spaced (dial_failed fl env e ex t r).0
  dial_failed-Spaced ex t r p h = record {
    paced = rw dial_failed-wire p;
    last = rw dial_failed-wire (dial_failed-last ex t r ∙ sym h);
  }

  -- A dial that failed counts as the newest packet; one that connected leaves that as it was.
  open_and_walk-Spaced :
      (ex : Exchange) (r : Run)
      → Spaced r
      → Rested interval r.world.clock (last_over r.world.wire)
      → Spaced (open_and_walk fl env e interval ex r).0
  open_and_walk-Spaced ex r h rest = elim (Option-cases (env.dial_error r.world ex)) [
    | inl ok ↦
        let opened = behind_dial fl env e true ex r in
        rw (open_connected fl env e interval ex r ok) (
          walk-Spaced ex 0 ex.steps opened (refl, refl)
            (record { paced = (rest, h.paced); last = h.last }))
    | inr (t, bad) ↦
        rw (open_refused fl env e interval ex r t bad)
          (dial_failed-Spaced ex t (behind_dial fl env e false ex r) (rest, h.paced) refl)
  ]

  pub record_skip-Spaced :
      (ex : Exchange) (o : Outcome) (d : Detail) (r : Run)
      → Spaced r
      → Spaced (record_skip fl env e ex o d r)
  unfolding record_skip
  record_skip-Spaced ex o d r h = log-Spaced _ _ (record { paced = h.paced; last = h.last })

  pub run_exchange-Spaced :
      (ex : Exchange) (r : Run) → Spaced r → Spaced (run_exchange fl env e interval ex r).0
  unfolding run_exchange
  run_exchange-Spaced ex r h = elim (Bool-cases (pace env r.last_send interval r.world).1) [
    | inl go ↦ rw go (open_and_walk-Spaced ex (rested r) (rested-Spaced r h) (rested-Rested r h go))
    | inr halted ↦
        let kept = record_skip-Spaced ex skipped_aborted cancelled (rested r) (rested-Spaced r h) in
        rw halted (record { paced = kept.paced; last = kept.last })
  ]
