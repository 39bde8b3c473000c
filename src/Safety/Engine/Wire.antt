-- ===== src/Safety/Engine/Wire.antt =====
-- What each part of the engine adds to the wire.
use otscout.Prelude.{
  ℕ, ◌+◌, ◌≡◌, refl, Bool, true, false, Option, none, some, List, [], ◌∷◌, arith, ◌∙◌, ap, Text,
}
use otscout.Prelude.Int.{ℤ}
use otscout.Safety.Audit.{Outcome, Detail, Line, Record}
use otscout.Safety.Exchange.{Step, Exchange}
use otscout.Safety.Float.{Float64}
use otscout.Safety.World.{World, Env, dialled, packet, pace, dial, connected}
use otscout.Safety.Engine.{
  write, log, record_skip, deliver, transmit, record_rest, walk, open_and_walk, dial_failed,
}
use otscout.Safety.State.{Run, Engine, rest_line}

pub pace-wire : (env : Env) (t : Option ℕ) (d : ℤ) (w : World) → (pace env t d w).0.wire ≡ w.wire
unfolding pace
pace-wire env none d w = refl
pace-wire env (some t) d w = ground arith

module _ (fl : Float64) (env : Env) (e : Engine fl) where
  pub write-wire : (l : Line) (w : World) → (write fl env e l w).0.wire ≡ w.wire
  unfolding write
  write-wire l w = ground arith

  pub log-wire : (l : Record) (r : Run) → (log fl env e l r).0.world.wire ≡ r.world.wire
  unfolding log
  log-wire l r = write-wire (Line.packet l) r.world

  pub record_skip-wire :
      (ex : Exchange) (o : Outcome) (d : Detail) (r : Run)
      → (record_skip fl env e ex o d r).world.wire ≡ r.world.wire
  unfolding record_skip
  record_skip-wire ex o d r = log-wire _ _

  pub record_rest-wire :
      (ex : Exchange) (ended idx : ℕ) (rest : List Step) (r : Run)
      → (record_rest fl env e ex ended idx rest r).0.world.wire ≡ r.world.wire
  unfolding record_rest
  record_rest-wire ex ended idx [] r = refl
  record_rest-wire ex ended idx (s ∷ rest) r =
      let line = rest_line ex ended idx s r.world.clock in
      let r' = (log fl env e line r).0 in
      ground (arith, log-wire line r, record_rest-wire ex ended (idx + 1) rest r')

  -- A step that is sent puts its packet on the wire.
  pub deliver-wire :
      (ex : Exchange) (idx : ℕ) (s : Step) (r : Run)
      → (deliver fl env e ex idx s r).0.world.wire
        ≡ packet r.world.clock (r.world.clock + env.elapsed r.world) idx ex s ∷ r.world.wire
  unfolding deliver
  deliver-wire ex idx s r = ground arith

  pub transmit-wire :
      (ex : Exchange) (idx : ℕ) (s : Step) (r : Run)
      → (transmit fl env e ex idx s r).0.world.wire
        ≡ packet r.world.clock (r.world.clock + env.elapsed r.world) idx ex s ∷ r.world.wire
  unfolding transmit
  transmit-wire ex idx s r = log-wire _ _ ∙ deliver-wire ex idx s r

  -- The state behind a dial.
  abbrev pub behind_dial : Bool → Exchange → Run → Run
  behind_dial ok ex r =
      let over = r.world.clock + env.elapsed r.world in
      record r {
        world = record r.world {
          clock = over;
          wire = dialled r.world.clock over ok ex ∷ r.world.wire;
        };
      }

  pub open_connected :
      (interval : ℤ) (ex : Exchange) (r : Run)
      → env.dial_error r.world ex ≡ none
      → open_and_walk fl env e interval ex r
        ≡ walk fl env e interval ex 0 ex.steps (behind_dial true ex r)
  unfolding open_and_walk dial
  open_connected interval ex r h =
      rw h (ap (λ o. walk fl env e interval ex 0 ex.steps (behind_dial (connected o) ex r)) h)

  pub open_refused :
      (interval : ℤ) (ex : Exchange) (r : Run) (t : Text)
      → env.dial_error r.world ex ≡ some t
      → open_and_walk fl env e interval ex r ≡ dial_failed fl env e ex t (behind_dial false ex r)
  unfolding open_and_walk dial
  open_refused interval ex r t h =
      rw h (ap (λ o. dial_failed fl env e ex t (behind_dial (connected o) ex r)) h)

  pub dial_failed-wire :
      (ex : Exchange) (t : Text) (r : Run)
      → (dial_failed fl env e ex t r).0.world.wire ≡ r.world.wire
  unfolding dial_failed
  dial_failed-wire ex t r = log-wire _ _
