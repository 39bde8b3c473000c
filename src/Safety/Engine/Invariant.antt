-- ===== src/Safety/Engine/Invariant.antt =====
-- A rule for what holds throughout a run: it is enough that the primitive moves of the engine keep
-- it, where a move that touches the network is made only for an exchange that passed the checks.
use otscout.Prelude.{
  ℕ, ◌+◌, ◌≡◌, refl, none, some, List, [], ◌∷◌, arith, All, All-map, Among, inl, inr, Bool-cases,
  Option-cases, Text,
}
use otscout.Prelude.Int.{ℤ}
use otscout.Safety.Audit.{Outcome, skipped_aborted, Detail, cancelled, Record}
use otscout.Safety.Exchange.{Step, Exchange}
use otscout.Safety.Float.{Float64}
use otscout.Safety.World.{Env, pace, dial}
use otscout.Safety.Engine.{
  log, record_skip, abort_with, deliver, transmit, step_once, record_rest, walk, dial_failed,
  open_and_walk, run_exchange,
}
use otscout.Safety.State.{Run, Engine, rest_line}

-- Every member of a list is among its members.
pub All-Among : {A : Type 0} (xs : List A) → All (λ x. Among x xs) xs
All-Among [] = tt
All-Among (x ∷ xs) = (inl refl, All-map _ _ (λ y m. inr m) xs (All-Among xs))

module _ (fl : Float64) (env : Env) (e : Engine fl) where
  -- `P` is kept by every move, and `Q` is what an exchange that may be sent satisfies.
  pub record Keeps (P : Run → Type 0) (Q : Exchange → Type 0) : Type 0 where
    pub logs : (l : Record) (r : Run) → P r → P (log fl env e l r).0
    pub skips :
        (ex : Exchange) (o : Outcome) (d : Detail) (r : Run)
        → P r
        → P (record_skip fl env e ex o d r)
    pub paces :
        (d : ℤ) (r : Run) → P r → P (record r { world = (pace env r.last_send d r.world).0 })
    pub aborts : (d : Detail) (r : Run) → P r → P (abort_with fl env e d r)
    pub opens :
        (ex : Exchange) (r : Run)
        → Q ex
        → P r
        → env.dial_error r.world ex ≡ none
        → P (record r { world = (dial env ex r.world).0 })
    pub refuses :
        (ex : Exchange) (t : Text) (r : Run)
        → Q ex
        → P r
        → env.dial_error r.world ex ≡ some t
        → P (dial_failed fl env e ex t (record r { world = (dial env ex r.world).0 })).0
    pub delivers :
        (ex : Exchange) (idx : ℕ) (s : Step) (r : Run)
        → Q ex
        → Among s ex.steps
        → P r
        → P (deliver fl env e ex idx s r).0

  module _ {P : Run → Type 0} {Q : Exchange → Type 0} (k : Keeps P Q) where
    record_rest-keeps :
        (ex : Exchange) (ended idx : ℕ) (rest : List Step) (r : Run)
        → P r
        → P (record_rest fl env e ex ended idx rest r).0
    unfolding record_rest
    record_rest-keeps ex ended idx [] r h = h
    record_rest-keeps ex ended idx (s ∷ rest) r h =
        let line = rest_line ex ended idx s r.world.clock in
        let r' = (log fl env e line r).0 in
        let h' = k.logs line r h in
        elim (Bool-cases (log fl env e line r).1) [
          | inl ok ↦ rw ok (record_rest-keeps ex ended (idx + 1) rest r' h')
          | inr bad ↦ rw bad h'
        ]

    transmit-keeps :
        (ex : Exchange) (idx : ℕ) (s : Step) (r : Run)
        → Q ex
        → Among s ex.steps
        → P r
        → P (transmit fl env e ex idx s r).0
    unfolding transmit
    transmit-keeps ex idx s r q m h = k.logs _ _ (k.delivers ex idx s r q m h)

    step_once-keeps :
        (interval : ℤ) (ex : Exchange) (idx : ℕ) (s : Step) (r : Run)
        → Q ex
        → Among s ex.steps
        → P r
        → P (step_once fl env e interval ex idx s r).0
    unfolding step_once
    step_once-keeps interval ex idx s r q m h =
        let paced = record r { world = (pace env r.last_send interval r.world).0 } in
        let h' = k.paces interval r h in
        ground (
          arith,
          transmit-keeps ex idx s r q m h,
          transmit-keeps ex idx s paced q m h',
          k.aborts cancelled paced h',
        )

    walk-keeps :
        (interval : ℤ) (ex : Exchange) (idx : ℕ) (steps : List Step) (r : Run)
        → Q ex
        → All (λ s. Among s ex.steps) steps
        → P r
        → P (walk fl env e interval ex idx steps r).0
    unfolding walk
    walk-keeps interval ex idx [] r q m h = h
    walk-keeps interval ex idx (s ∷ rest) r q m h =
        let r' = (step_once fl env e interval ex idx s r).0 in
        let h' = step_once-keeps interval ex idx s r q m.0 h in
        ground (
          arith,
          h',
          record_rest-keeps ex (idx + 1) (idx + 1) rest r' h',
          walk-keeps interval ex (idx + 1) rest r' q m.1 h',
        )

    open_and_walk-keeps :
        (interval : ℤ) (ex : Exchange) (r : Run)
        → Q ex
        → P r
        → P (open_and_walk fl env e interval ex r).0
    unfolding open_and_walk dial
    open_and_walk-keeps interval ex r q h = elim (Option-cases (env.dial_error r.world ex)) [
      | inl ok ↦
          let r' = record r { world = (dial env ex r.world).0 } in
          ground (
            arith,
            walk-keeps interval ex 0 ex.steps r' q (All-Among ex.steps) (k.opens ex r q h ok),
          )
      | inr (t, bad) ↦ ground (arith, k.refuses ex t r q h bad)
    ]

    pub run_exchange-keeps :
        (interval : ℤ) (ex : Exchange) (r : Run)
        → Q ex
        → P r
        → P (run_exchange fl env e interval ex r).0
    unfolding run_exchange
    run_exchange-keeps interval ex r q h =
        let paced = record r { world = (pace env r.last_send interval r.world).0 } in
        let h' = k.paces interval r h in
        let skipped = record_skip fl env e ex skipped_aborted cancelled paced in
        ground (
          arith,
          open_and_walk-keeps interval ex paced q h',
          k.aborts cancelled skipped (k.skips ex skipped_aborted cancelled paced h'),
        )
