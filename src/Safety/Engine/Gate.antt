-- ===== src/Safety/Engine/Gate.antt =====
-- Nothing reaches the wire that the checks of the engine do not allow.
use otscout.Prelude.{
  ℕ, ◌≡◌, refl, sym, ◌∙◌, Bool, true, false, none, [], ◌∷◌, arith, All, Among, Text, text_eq,
  text_eq_iff, if◌then◌else◌, Bool-cases, Option-cases, inl, inr, ◌⊎◌,
}
use otscout.Asset.Identity.{Identity, no_identity, merge}
use otscout.Asset.Identity.Merge.{merge-monoid}
use otscout.Safety.Audit.{Outcome, failed, Detail, Record}
use otscout.Safety.Deny
use otscout.Safety.Deny.Learning.{check-unmerge}
use otscout.Safety.Exchange.{Step, Exchange}
use otscout.Safety.Float.{Float64}
use otscout.Safety.Risk
use otscout.Safety.World.{World, Env, Event, dialled, packet, dial}
use otscout.Safety.Engine.{log, record_skip, deliver, dial_failed}
use otscout.Safety.State.{Run, Engine, Known, identity_of, learn, classify}
use otscout.Safety.Engine.Attempt.{Preserves, decide-keeps}
use otscout.Safety.Engine.Invariant.{Keeps, run_exchange-keeps, All-Among}
use otscout.Safety.Engine.Loop.{Plan, interval_of, attempt, run, start}
use otscout.Safety.Engine.Loops.{run_plan-keeps, run-wire, headed}
use otscout.Safety.Engine.Wire.{
  log-wire, write-wire, pace-wire, record_skip-wire, deliver-wire, dial_failed-wire,
}

-- What is known now of each host is what was known at the start, and more.
abbrev pub Grown : Known → Known → Type 0
Grown m m' = (h : Text) → (i : Identity) × (identity_of h m' ≡ merge (identity_of h m) i)

pub identity_of-learn :
    (h k : Text) (i : Identity) (m : Known)
    → identity_of h (learn k i m) ≡ (if text_eq k h then i else identity_of h m)
unfolding identity_of learn
identity_of-learn h k i [] = ground arith
identity_of-learn h k i ((j, x) ∷ m) =
    ground (arith, text_eq_iff j k, text_eq_iff j h, text_eq_iff k h, identity_of-learn h k i m)

Grown-refl : (m : Known) → Grown m m
Grown-refl m h = (no_identity, sym ((merge-monoid (identity_of h m) no_identity no_identity).1))

Grown-learn :
    (m m' : Known) (k : Text) (i : Identity)
    → Grown m m'
    → Grown m (learn k (merge (identity_of k m') i) m')
Grown-learn m m' k i g h = elim (Bool-cases (text_eq k h)) [
  | inl same ↦
      let (j, e) = g h in
      (
        merge j i,
        identity_of-learn h k (merge (identity_of k m') i) m'
            ∙ rw same (rw ((text_eq_iff k h).0 same) (rw e (merge-monoid (identity_of h m) j i).0)),
      )
  | inr other ↦
      let (j, e) = g h in (j, identity_of-learn h k (merge (identity_of k m') i) m' ∙ rw other e)
]

module _ (fl : Float64) (env : Env) (e : Engine fl) (plan : Plan) where
  -- An exchange of the plan that passed the checks of a run that is not dry.
  pub record Permitted (ex : Exchange) : Type 0 where
    pub live : e.dry_run ≡ false
    pub planned : Among ex plan.exchanges
    pub rated : Risk.at_most ex.risk e.policy.allowed_risk ≡ true
    pub free : Deny.check e.deny_list (identity_of ex.target.host plan.known) ex ≡ none

  abbrev pub Allowed : Event → Type 0
  Allowed (dialled _ _ _ ex) = Permitted ex
  Allowed (packet _ _ _ ex s) = Permitted ex × Among s ex.steps

  record Held (r : Run) : Type 0 where
    allowed : All Allowed r.world.wire
    grown : Grown plan.known r.known

  -- A reply adds what was made out of it, if anything, to what is known of its host.
  deliver-known :
      (ex : Exchange) (idx : ℕ) (s : Step) (r : Run)
      → let m = (deliver fl env e ex idx s r).0.known in
        (m ≡ r.known)
        ⊎ ((i : Identity) × (m
              ≡ learn ex.target.host (merge (identity_of ex.target.host r.known) i) r.known))
  unfolding deliver
  deliver-known ex idx s r =
      let reply = env.reply r.world ex s in
      elim (Bool-cases (failed (classify reply.error).0)) [
        | inl lost ↦ inl (ground arith)
        | inr got ↦ elim (Option-cases e.interp) [
          | inl no_interp ↦ inl (ground arith)
          | inr (f, some_interp) ↦ inr (f ex s reply.response, ground arith)
        ]
      ]

  deliver-Grown :
      (ex : Exchange) (idx : ℕ) (s : Step) (r : Run)
      → Grown plan.known r.known
      → Grown plan.known (deliver fl env e ex idx s r).0.known
  deliver-Grown ex idx s r g = elim (deliver-known ex idx s r) [
    | inl same ↦ rw same g
    | inr (i, more) ↦ rw more (Grown-learn plan.known r.known ex.target.host i g)
  ]

  log-known : (l : Record) (r : Run) → (log fl env e l r).0.known ≡ r.known
  unfolding log
  log-known l r = refl

  record_skip-known :
      (ex : Exchange) (o : Outcome) (d : Detail) (r : Run)
      → (record_skip fl env e ex o d r).known ≡ r.known
  unfolding record_skip
  record_skip-known ex o d r = log-known _ _

  dial_failed-known :
      (ex : Exchange) (t : Text) (r : Run) → (dial_failed fl env e ex t r).0.known ≡ r.known
  unfolding dial_failed
  dial_failed-known ex t r = log-known _ _

  Held-Keeps : Keeps fl env e Held Permitted
  unfolding dial
  Held-Keeps = record {
    logs = λ l r h. record { allowed = rw log-wire h.allowed; grown = rw log-known h.grown };
    skips = λ ex o d r h. record {
      allowed = rw record_skip-wire h.allowed;
      grown = rw record_skip-known h.grown;
    };
    paces = λ d r h. record { allowed = rw pace-wire h.allowed; grown = h.grown };
    aborts = λ d r h. record { allowed = h.allowed; grown = h.grown };
    opens = λ ex r q h ok. record { allowed = (q, h.allowed); grown = h.grown };
    refuses = λ ex t r q h bad. record {
      allowed = rw dial_failed-wire (q, h.allowed);
      grown = rw dial_failed-known h.grown;
    };
    delivers = λ ex idx s r q m h. record {
      allowed = rw deliver-wire ((q, m), h.allowed);
      grown = deliver-Grown ex idx s r h.grown;
    };
  }

  Held-Preserves : Preserves fl env e (interval_of fl e.policy) Held Permitted
  Held-Preserves = record {
    logs = Held-Keeps.logs;
    skips = Held-Keeps.skips;
    aborts = Held-Keeps.aborts;
    counts = λ r h. record { allowed = h.allowed; grown = h.grown };
    runs = run_exchange-keeps fl env e Held-Keeps (interval_of fl e.policy);
  }

  -- Whether all went well makes no difference to what was allowed.
  abbrev HeldAfter : Run → Bool → Type 0
  HeldAfter r ok = Held r

  attempt-Held :
      (ex : Exchange) (r : Run)
      → Among ex plan.exchanges
      → Held r
      → Held (attempt fl env e (interval_of fl e.policy) ex r).0
  unfolding attempt
  attempt-Held ex r m h =
      decide-keeps fl env e (interval_of fl e.policy) Held-Preserves ex _
        (λ live rated free. record {
          live = live;
          planned = m;
          rated = rated;
          free =
              let (i, more) = h.grown ex.target.host in
              check-unmerge (identity_of ex.target.host plan.known) i ex e.deny_list
                (rw more at free);
        })
        (record { allowed = h.allowed; grown = h.grown })

  -- Of a run on a silent wire, every dial and every packet belongs to an exchange of the plan whose
  -- risk is within the ceiling and which no deny rule forbids, given what was known of the device
  -- before the run; every packet is a step of that exchange; and a dry run has put none there.
  pub run-Allowed : (w : World) → w.wire ≡ [] → All Allowed (run fl env e plan w).0.world.wire
  run-Allowed w silent =
      let w' = headed fl env e plan w in
      let begun : Held (start fl env e plan w') = record {
        allowed = rw (write-wire, silent) tt;
        grown = Grown-refl plan.known;
      } in
      elim (run-wire fl env e plan w) [
        | inl same ↦ rw (same, silent) tt
        | inr looped ↦
            rw looped
              (run_plan-keeps fl env e HeldAfter (λ ex. Among ex plan.exchanges) attempt-Held plan
                w' (All-Among plan.exchanges) begun).allowed
      ]
