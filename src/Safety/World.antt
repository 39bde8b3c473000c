-- ===== src/Safety/World.antt =====
-- What surrounds the engine: the network, the clock, the run's context and the file behind the
-- audit trail. Every answer of the environment is a function of all that has happened so far, so
-- that no order of events is left out. `wire` and `trail` list what was done, newest first.
use otscout.Prelude.{
  ℕ, ◌+◌, Bool, true, false, not, Option, none, some, List, ◌∷◌, if◌then◌else◌, Text,
}
use otscout.Prelude.Int.{ℤ, pos, pos_part, sub_ℕ, ltb_ℤ, ◌-ℤ◌}
use otscout.Safety.Exchange.{Step, Exchange}
use otscout.Safety.Audit.{Line}

-- An error of Conn.Exchange: ErrNoAnswer, or any other.
pub data SendError : Type 0 where
  no_answer_error : Text → SendError
  other_error : Text → SendError

pub record Reply : Type 0 where
  pub response : Text
  pub error : Option SendError

-- What the network saw, each with the time it began and the time it was over.
pub data Event : Type 0 where
  -- a dial, and whether a connection came of it
  dialled : ℕ → ℕ → Bool → Exchange → Event
  -- the request of a step, by its index
  packet : ℕ → ℕ → ℕ → Exchange → Step → Event

pub record World : Type 0 where
  pub clock : ℕ
  pub wire : List Event
  pub trail : List Line

pub record Env : Type 0 where
  -- ctx.Err() != nil
  pub cancelled : World → Bool
  -- whether the context is done before a timer of this length fires
  pub interrupted : World → ℕ → Bool
  -- the error of Dial, if any
  pub dial_error : World → Exchange → Option Text
  pub reply : World → Exchange → Step → Reply
  -- whether the line can be encoded, written and flushed
  pub writes : World → Line → Bool
  -- how long the operation that begins here takes, beyond what it waits on purpose
  pub elapsed : World → ℕ

-- err == nil
abbrev pub connected : Option Text → Bool
connected none = true
connected (some _) = false

module _ (env : Env) where
  -- sleepContext, and whether it returns nil
  unfoldable pub sleep_context : ℤ → World → World × Bool
  sleep_context d w =
      if ltb_ℤ (pos 0) d
      then (if env.interrupted w (pos_part d)
          then (record w { clock = w.clock + env.elapsed w }, false)
          else (record w { clock = w.clock + pos_part d + env.elapsed w }, true))
      else (w, not (env.cancelled w))

  -- Engine.pace; `none` is the zero time.
  unfoldable pub pace : Option ℕ → ℤ → World → World × Bool
  unfolding sleep_context ◌-ℤ◌
  pace none interval w = (w, not (env.cancelled w))
  pace (some last_send) interval w =
      let wait = interval -ℤ sub_ℕ w.clock last_send in
      if ltb_ℤ (pos 0) wait then sleep_context wait w else (w, not (env.cancelled w))

  -- Auditor.write, and whether it returns nil
  unfoldable pub write_line : Line → World → World × Bool
  write_line l w =
      if env.writes w l
      then (record w { clock = w.clock + env.elapsed w; trail = l ∷ w.trail }, true)
      else (record w { clock = w.clock + env.elapsed w }, false)

  -- Dialer.Dial
  unfoldable pub dial : Exchange → World → World × Option Text
  dial ex w =
      let e = env.dial_error w ex in
      let over = w.clock + env.elapsed w in
      let ok = connected e in
      (record w { clock = over; wire = dialled w.clock over ok ex ∷ w.wire }, e)

  -- Conn.Exchange
  unfoldable pub send : ℕ → Exchange → Step → World → World × Reply
  send idx ex s w =
      let over = w.clock + env.elapsed w in
      (record w { clock = over; wire = packet w.clock over idx ex s ∷ w.wire }, env.reply w ex s)
