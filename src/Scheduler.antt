-- ===== src/Scheduler.antt =====
-- src/agentpause/scheduler.py: a scheduler's configuration and state, a session, and the calls that
-- a session makes. The estimator is any type with the operations that the scheduler uses of it.
pub mod Retries
pub mod Attempts
pub mod Loop
pub mod Calls
pub mod Planning
pub mod Resume
mod Sample
mod Tests
use agentpause.Prelude.{
  ℕ, zero, suc, ◌+◌, Bool, true, false, Option, none, some, List, [], ◌∷◌, ◌++◌, if◌then◌else◌,
}
use agentpause.Prelude.Int.{ℤ, pos, ◌+ℤ◌}
use agentpause.Number.{Float, nought, min_f}
use agentpause.Errors.{Error, Result, ok, raise, foreign, transient, fatal, verdict, is_limit, hint}
use agentpause.Text.{Text, codes}
use agentpause.World.{Message, Clock, Backend, Sleep}
use agentpause.Risk.{Budget, Verb}
use agentpause.Retry.{RetryPolicy, delay, asleep}
use agentpause.State.{Checkpoint}

-- What the scheduler calls of its estimator. `estimate_latency` gives None where an estimator has no
-- such method, and `record` may leave out the latency.
pub record Estimating (F E : Type 0) : Type 0 where
  pub estimate : E → ℤ → ℤ
  pub sigma : E → ℤ → F
  pub upper_estimate : E → ℤ → F → Option ℤ
  pub estimate_latency : E → ℤ → Option F
  pub max_tokens : E → ℤ
  pub learn : E → ℤ → ℤ → F → E

-- a reading of telemetry: a bare int or a budget
pub data Reading (F : Type 0) : Type 0 where
  tokens_only : ℤ → Reading F
  full : Budget F → Reading F

-- the calls of `on_event`: their names and what they report
pub data Event (F : Type 0) : Type 0 where
  decided : Verb → ℤ → ℤ → Text → ℕ → Event F
  compacted : ℕ → ℤ → Text → ℕ → Event F
  step_completed : Text → ℕ → ℤ → F → Event F
  limit_hit : ℕ → F → Event F
  retried : ℕ → F → Event F

-- The fields of `PredictiveScheduler` that its methods do not change, with those of its retry policy.
pub record Config (F W : Type 0) : Type 0 where
  pub backend : Option (Backend F W)
  pub async_backend : Option (Backend F W)
  pub telemetry : W → Result F (Reading F) × W
  pub count_tokens : Text → ℤ
  pub wait_threshold_s : F
  pub retry : RetryPolicy F
  pub sleep_fn : Sleep F W
  pub async_sleep_fn : Option (Sleep F W)
  pub asyncio_sleep : Sleep F W
  -- `random.random()`
  pub random : W → F × W
  pub k_bump : F
  pub k_max : F
  pub price_per_1k_tokens : Option F
  pub money_budget : Option F
  -- whether there is a hook
  pub on_event : Bool
  pub quantile : Option F
  pub context_window : Option ℤ
  pub compact_at : F
  pub compact_keep_last : ℕ
  pub compact_max_chars : ℕ
  pub time_budget_s : Option F
  pub clock : Clock F W
  pub rpm_margin : ℤ

-- The fields that they change, with the calls of the hook in order.
pub record Scheduler (F E : Type 0) : Type 0 where
  pub estimator : E
  pub safety_k : F
  pub rate_limit_hits : ℕ
  pub money_spent : F
  pub events : List (Event F)

pub record Session (F X : Type 0) : Type 0 where
  pub session_id : Text
  pub started_at : F
  pub resumed : Bool
  pub cp : Checkpoint X

-- calling a backend that is None raises
pub provider : {F W : Type 0} → Option (Backend F W) → Backend F W
provider none messages w = (raise foreign, w)
provider (some backend) messages w = backend messages w

-- `_input_tokens`
abbrev pub input_tokens : (Text → ℤ) → List Message → ℤ
input_tokens count [] = pos 0
input_tokens count (m ∷ ms) = count m.content +ℤ input_tokens count ms

pub add_message : {F X : Type 0} → Text → Text → Session F X → Session F X
add_message role content se = record se {
  cp = record (se.cp) {
    messages = se.cp.messages ++ (record { role = role; content = content } ∷ []);
  };
}

module _ {F W E : Type 0} ⦃f : Float F⦄ (c : Config F W) where
  open f use {of_int, lit, add, sub, mul, div, le, lt}

  abbrev pub emit : Event F → Scheduler F E → Scheduler F E
  emit e s = if c.on_event then record s { events = s.events ++ (e ∷ []) } else s

  pub register_rate_limit_hit : Scheduler F E → Scheduler F E
  register_rate_limit_hit s =
      let hits = s.rate_limit_hits + 1 in
      let k = min_f (add s.safety_k c.k_bump) c.k_max in
      emit (limit_hit hits k) (record s { rate_limit_hits = hits; safety_k = k })

  -- the first statement of the two `except` clauses
  abbrev pub noted : Error F → Scheduler F E → Scheduler F E
  noted e s = if is_limit e then register_rate_limit_hit s else s

  abbrev pub announce : Bool → ℕ → F → Scheduler F E → Scheduler F E
  announce true attempt d s = emit (retried (attempt + 1) d) s
  announce false attempt d s = s

module _ {F W : Type 0} ⦃f : Float F⦄ (c : Config F W) where
  -- `retry.delay(attempt)`, which draws a number only if there is jitter
  abbrev pub backoff : ℕ → W → F × W
  backoff attempt w =
      if f.le (c.retry.jitter) nought
      then (delay (c.retry) nought attempt, w)
      else (let (u, w') = c.random w in (delay (c.retry) u attempt, w'))

  pub pause_for : Error F → ℕ → W → F × W
  pause_for e attempt w = elim (hint e) [ some d ↦ (d, w) | none ↦ backoff attempt w ]

  -- `retry.sleep_fn` or `retry.asleep`
  pub rest : Bool → F → W → W
  rest true d w = c.sleep_fn d w
  rest false d w = asleep c.async_sleep_fn c.asyncio_sleep d w

module _ {F W E : Type 0} ⦃f : Float F⦄ (c : Config F W) (backend : Backend F W) (sync : Bool) where
  -- The loop of `call` and of `acall` from attempt `attempt` on, with `left` retries to go: `sync` tells
  -- them apart, since only `call` reports its retries.
  pub attempts : List Message → ℕ → ℕ → Scheduler F E → W → Result F (Text × ℤ) × Scheduler F E × W
  attempts messages zero attempt s w =
      let (r, w') = backend messages w in
      elim r [ ok x ↦ (ok x, s, w') | raise e ↦ (raise e, noted c e s, w') ]
  attempts messages (suc left) attempt s w =
      let (r, w') = backend messages w in
      elim r [
        | ok x ↦ (ok x, s, w')
        | raise e ↦ elim (verdict e) [
          | fatal ↦ (raise e, s, w')
          | transient ↦
              let (d, w'') = pause_for c e attempt w' in
              attempts messages left (suc attempt) (announce c sync attempt d (noted c e s))
                (rest c sync d w'')
        ]
      ]

module _ {F : Type 0} ⦃f : Float F⦄ where
  -- `used / 1000.0 * price` on top of what was spent
  abbrev pub spend : Option F → ℤ → F → F
  spend none used spent = spent
  spend (some price) used spent =
      f.add spent (f.mul (f.div (f.of_int used) (f.of_int (pos 1000))) price)

module _ {F W E X : Type 0} ⦃f : Float F⦄ (est : Estimating F E) (c : Config F W) where
  pub record_success : ℤ → ℤ → Text → F → Session F X → Scheduler F E → Session F X × Scheduler F E
  record_success input used reply latency se s =
      let cp = se.cp in
      let counted = record se {
        cp = record cp { total_tokens_used = cp.total_tokens_used +ℤ used; step = cp.step + 1 };
      } in
      let spent = spend c.price_per_1k_tokens used s.money_spent in
      let s' : Scheduler F E = record s {
        estimator = est.learn s.estimator input used latency;
        money_spent = spent;
      } in
      (
        add_message (codes "assistant") reply counted,
        emit c (step_completed se.session_id (cp.step + 1) used spent) s',
      )

  -- the rest of `call` once the loop is over
  pub finish :
      F
      → Session F X
      → Result F (Text × ℤ) × Scheduler F E × W
      → Result F Text × Session F X × Scheduler F E × W
  finish started se (raise e, s, w) = (raise e, se, s, w)
  finish started se (ok (reply, used), s, w) =
      let (now, w') = c.clock w in
      let input = input_tokens c.count_tokens se.cp.messages in
      let (se', s') = record_success input used reply (f.sub now started) se s in
      (ok reply, se', s', w')

  -- `call` with `backend`, or `acall` with `async_backend`
  pub call_with :
      Backend F W
      → Bool
      → Session F X
      → Scheduler F E
      → W
      → Result F Text × Session F X × Scheduler F E × W
  call_with backend sync se s w =
      let (started, w') = c.clock w in
      finish started se (attempts c backend sync se.cp.messages (c.retry.max_retries) 0 s w')

  pub call : Session F X → Scheduler F E → W → Result F Text × Session F X × Scheduler F E × W
  call se s w = call_with (provider c.backend) true se s w

  -- without an async backend, a RuntimeError
  pub acall : Session F X → Scheduler F E → W → Result F Text × Session F X × Scheduler F E × W
  acall se s w = elim (c.async_backend) [
    | none ↦ (raise foreign, se, s, w)
    | some backend ↦ call_with backend false se s w
  ]
