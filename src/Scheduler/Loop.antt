-- ===== src/Scheduler/Loop.antt =====
-- The `while True` of a call in src/agentpause/scheduler.py, as it is written: it counts the attempts
-- up and has no bound but its own test. Fuel bounds the passes.
use agentpause.Prelude.{
  inl, inr, ℕ, zero, suc, ◌+◌, ◌<◌, Bool, true, false, Option, none, some, List, ◌≡◌, refl, leb,
  arith, if◌then◌else◌,
}
use agentpause.Prelude.Int.{ℤ}
use agentpause.Number.{Float}
use agentpause.Errors.{Result-cases, Error, Result, ok, raise, transient, fatal, verdict}
use agentpause.Text.{Text}
use agentpause.World.{Message, Backend}
use agentpause.Scheduler.{
  Config, Estimating, Scheduler, Session, noted, announce, pause_for, rest, attempts, call_with,
  finish,
}
use agentpause.Scheduler.Retries.{verdict-cases, rested}
use agentpause.Scheduler.Attempts.{attempts_answered, attempts_fatal, attempts_over, attempts_again}

-- how a pass ends: with `break` or an exception, or at the foot of the loop
pub data Pass (F W E : Type 0) : Type 0 where
  left : Result F (Text × ℤ) × Scheduler F E × W → Pass F W E
  again : Scheduler F E → W → Pass F W E

module _ {F W E : Type 0} ⦃f : Float F⦄ (c : Config F W) (backend : Backend F W) (sync : Bool)
    (messages : List Message) where
  -- the `except` clauses: a transient error is noted, and raised if `attempt >= max_retries`
  unfoldable pub caught : Error F → ℕ → Scheduler F E → W → Pass F W E
  caught e attempt s w = elim (verdict e) [
    | fatal ↦ left (raise e, s, w)
    | transient ↦
        let s' = noted c e s in
        let (d, w') = pause_for c e attempt w in
        if leb c.retry.max_retries attempt
        then left (raise e, s', w)
        else again (announce c sync attempt d s') (rest c sync d w')
  ]

  -- the body of the loop
  unfoldable pub pass : ℕ → Scheduler F E → W → Pass F W E
  unfolding caught
  pass attempt s w =
      let (r, w') = backend messages w in
      elim r [ ok x ↦ left (ok x, s, w') | raise e ↦ caught e attempt s w' ]

  unfoldable pub while_true :
      ℕ → ℕ → Scheduler F E → W → Option (Result F (Text × ℤ) × Scheduler F E × W)
  unfolding pass
  while_true zero attempt s w = none
  while_true (suc fuel) attempt s w = elim (pass attempt s w) [
    | left end ↦ some end
    | again s' w' ↦ while_true fuel (suc attempt) s' w'
  ]

  -- The four ways of a pass.
  pass_answered :
      (attempt : ℕ) (s : Scheduler F E) (w : W) (x : Text × ℤ)
      → (backend messages w).0 ≡ ok x
      → pass attempt s w ≡ left (ok x, s, (backend messages w).1)
  unfolding pass
  pass_answered attempt s w x h = ground arith

  pass_fatal :
      (attempt : ℕ) (s : Scheduler F E) (w : W) (e : Error F)
      → (backend messages w).0 ≡ raise e
      → verdict e ≡ fatal
      → pass attempt s w ≡ left (raise e, s, (backend messages w).1)
  unfolding pass caught
  pass_fatal attempt s w e h v = ground arith

  pass_over :
      (attempt : ℕ) (s : Scheduler F E) (w : W) (e : Error F)
      → (backend messages w).0 ≡ raise e
      → verdict e ≡ transient
      → leb c.retry.max_retries attempt ≡ true
      → pass attempt s w ≡ left (raise e, noted c e s, (backend messages w).1)
  unfolding pass caught
  pass_over attempt s w e h v over = ground arith

  pass-again :
      (attempt : ℕ) (s : Scheduler F E) (w : W) (e : Error F)
      → (backend messages w).0 ≡ raise e
      → verdict e ≡ transient
      → leb c.retry.max_retries attempt ≡ false
      → let w' = (backend messages w).1 in
        pass attempt s w
        ≡ again
            (announce c sync attempt (pause_for c e attempt w').0 (noted c e s))
            (rested c backend sync e attempt w')
  unfolding pass caught
  pass-again attempt s w e h v more = ground arith

  -- An answer and a fatal error end the loop, whatever there is to go.
  while_true_answered :
      (to_go attempt fuel : ℕ) (s : Scheduler F E) (w : W) (x : Text × ℤ)
      → (backend messages w).0 ≡ ok x
      → while_true (suc fuel) attempt s w
        ≡ some (attempts c backend sync messages to_go attempt s w)
  unfolding while_true
  while_true_answered to_go attempt fuel s w x h =
      rw
        (
          while_true,
          pass_answered attempt s w x h,
          attempts_answered c backend sync messages to_go attempt s w x h,
        )
        refl

  while_true_fatal :
      (to_go attempt fuel : ℕ) (s : Scheduler F E) (w : W) (e : Error F)
      → (backend messages w).0 ≡ raise e
      → verdict e ≡ fatal
      → while_true (suc fuel) attempt s w
        ≡ some (attempts c backend sync messages to_go attempt s w)
  unfolding while_true
  while_true_fatal to_go attempt fuel s w e h v =
      rw
        (
          while_true,
          pass_fatal attempt s w e h v,
          attempts_fatal c backend sync messages to_go attempt s w e h v,
        )
        refl

  while_true_from :
      (to_go attempt fuel : ℕ) (s : Scheduler F E) (w : W)
      → to_go < fuel
      → c.retry.max_retries ≡ attempt + to_go
      → while_true fuel attempt s w ≡ some (attempts c backend sync messages to_go attempt s w)
  unfolding while_true
  while_true_from to_go attempt zero s w enough h = absurd (omega (arith, enough))
  while_true_from zero attempt (suc fuel) s w enough h =
      elim (Result-cases (backend messages w).0) [
        | inl (x, answered) ↦ while_true_answered zero attempt fuel s w x answered
        | inr (e, failed) ↦ elim (verdict-cases e) [
          | inl v ↦ while_true_fatal zero attempt fuel s w e failed v
          | inr v ↦
              let over : leb c.retry.max_retries attempt ≡ true = ground arith in
              rw
                (
                  while_true,
                  pass_over attempt s w e failed v over,
                  attempts_over c backend sync messages attempt s w e failed,
                )
                refl
        ]
      ]
  while_true_from (suc to_go) attempt (suc fuel) s w enough h =
      elim (Result-cases (backend messages w).0) [
        | inl (x, answered) ↦ while_true_answered (suc to_go) attempt fuel s w x answered
        | inr (e, failed) ↦ elim (verdict-cases e) [
          | inl v ↦ while_true_fatal (suc to_go) attempt fuel s w e failed v
          | inr v ↦
              let more : leb c.retry.max_retries attempt ≡ false = ground arith in
              let w' = (backend messages w).1 in
              rw
                (
                  while_true,
                  pass-again attempt s w e failed v more,
                  attempts_again c backend sync messages to_go attempt s w e failed v,
                )
                (while_true_from to_go (suc attempt) fuel
                  (announce c sync attempt (pause_for c e attempt w').0 (noted c e s))
                  (rested c backend sync e attempt w') (omega arith) (omega arith))
        ]
      ]

module _ {F W E X : Type 0} ⦃f : Float F⦄ (est : Estimating F E) (c : Config F W)
    (backend : Backend F W) (sync : Bool) where
  -- The loop of a call ends: `max_retries + 1` passes are enough, whatever the backend does, and any
  -- more change nothing. What the loop ends with is what the call makes its result of.
  pub while_true_ends :
      (fuel : ℕ) (se : Session F X) (s : Scheduler F E) (w : W)
      → c.retry.max_retries < fuel
      → let (started, w') = c.clock w in
        (end : Result F (Text × ℤ) × Scheduler F E × W) × (while_true c backend sync se.cp.messages
            fuel 0 s w'
          ≡ some end)
        × (call_with est c backend sync se s w ≡ finish est c started se end)
  unfolding call_with
  while_true_ends fuel se s w enough =
      let most = c.retry.max_retries in
      let w' = (c.clock w).1 in
      (
        attempts c backend sync se.cp.messages most 0 s w',
        while_true_from c backend sync se.cp.messages most 0 fuel s w' enough (omega arith),
        refl,
      )
