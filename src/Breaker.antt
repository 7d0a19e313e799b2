-- ===== src/Breaker.antt =====
-- src/agentpause/breaker.py: the circuit breaker around a backend.
pub mod Laws
mod Tests
use agentpause.Prelude.{
  ℕ, ◌+◌, Bool, true, false, ◌||◌, Option, none, some, List, if◌then◌else◌, leb,
}
use agentpause.Prelude.Int.{ℤ}
use agentpause.Number.{Float}
use agentpause.Errors.{
  Error, Result, ok, raise, circuit_open_error, Verdict, transient, fatal, verdict,
}
use agentpause.Text.{Text}
use agentpause.World.{Message, Clock, Backend}

pub record Breaker (F : Type 0) : Type 0 where
  pub failure_threshold : ℕ
  pub cooldown_s : F
  pub failures : ℕ
  pub opened_at : Option F

pub data Status : Type 0 where
  closed half_open open_ : Status

abbrev pub is_half_open : Status → Bool
is_half_open half_open = true
is_half_open closed = false
is_half_open open_ = false

-- `__init__`
pub init : {F : Type 0} → ℕ → F → Breaker F
init failure_threshold cooldown_s = record {
  failure_threshold = failure_threshold;
  cooldown_s = cooldown_s;
  failures = 0;
  opened_at = none;
}

module _ {F W : Type 0} ⦃f : Float F⦄ where
  -- the property `state`, which reads the clock only if the circuit has opened
  pub state : Clock F W → Breaker F → W → Status × W
  state clock b w = elim (b.opened_at) [
    | none ↦ (closed, w)
    | some t ↦
        let (now, w') = clock w in
        (if f.le b.cooldown_s (f.sub now t) then half_open else open_, w')
  ]

  -- a failure that counts: the circuit (re)opens at half-open or at the threshold
  pub count_failure : Clock F W → Status → Breaker F → W → Breaker F × W
  count_failure clock s b w =
      let n = b.failures + 1 in
      let (now, w') = clock w in
      if is_half_open s || leb b.failure_threshold n
      then (record b { failures = n; opened_at = some now }, w')
      else (record b { failures = n }, w)

  -- `__call__` once the backend has answered
  pub settle :
      Clock F W → Status → Result F (Text × ℤ) → Breaker F → W → Result F (Text × ℤ) × Breaker F × W
  settle clock s (ok reply) b w = (ok reply, record b { failures = 0; opened_at = none }, w)
  settle clock s (raise e) b w = elim (verdict e) [
    | transient ↦ let (b', w') = count_failure clock s b w in (raise e, b', w')
    | fatal ↦ (raise e, b, w)
  ]

  -- `__call__` once the state is known
  pub guarded :
      Clock F W
      → Backend F W
      → List Message
      → Status
      → Breaker F
      → W
      → Result F (Text × ℤ) × Breaker F × W
  guarded clock backend messages open_ b w = (raise circuit_open_error, b, w)
  guarded clock backend messages closed b w =
      let (r, w') = backend messages w in settle clock closed r b w'
  guarded clock backend messages half_open b w =
      let (r, w') = backend messages w in settle clock half_open r b w'

  pub call :
      Clock F W → Backend F W → List Message → Breaker F → W → Result F (Text × ℤ) × Breaker F × W
  call clock backend messages b w =
      let (s, w') = state clock b w in guarded clock backend messages s b w'
