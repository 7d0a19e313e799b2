-- ===== src/Errors.antt =====
-- The typed errors of src/agentpause/errors.py, and the results of methods that raise.
-- Messages are left out: nothing in the library reads them.
use agentpause.Prelude.{Bool, true, false, Option, none, ◌≡◌, ◌≢◌, ◌⊎◌, inl, inr, refl}

pub data Error (F : Type 0) : Type 0 where
  -- `RateLimitHit(retry_after)`
  rate_limit_hit : Option F → Error F
  telemetry_error : Error F
  checkpoint_error : Error F
  -- `BackendError(retriable)`
  backend_error : Bool → Error F
  kv_error : Error F
  gpu_error : Error F
  -- `CircuitOpenError`, of breaker.py
  circuit_open_error : Error F
  -- an exception that does not derive from `AgentPauseError`
  foreign : Error F

pub data Result (F A : Type 0) : Type 0 where
  ok : A → Result F A
  raise : Error F → Result F A

pub data Verdict : Type 0 where
  -- a rate limit or a retriable failure: another try or another provider may help
  transient : Verdict
  -- anything else propagates at once
  fatal : Verdict

-- The `except` clauses that breaker.py, fallback.py, router.py and scheduler.py share.
abbrev pub verdict : {F : Type 0} → Error F → Verdict
verdict (rate_limit_hit _) = transient
verdict (backend_error true) = transient
verdict (backend_error false) = fatal
verdict telemetry_error = fatal
verdict checkpoint_error = fatal
verdict kv_error = fatal
verdict gpu_error = fatal
verdict circuit_open_error = fatal
verdict foreign = fatal

-- `isinstance(exc, RateLimitHit)`, and the `retry_after` of one
abbrev pub is_limit : {F : Type 0} → Error F → Bool
is_limit (rate_limit_hit _) = true
is_limit telemetry_error = false
is_limit checkpoint_error = false
is_limit (backend_error _) = false
is_limit kv_error = false
is_limit gpu_error = false
is_limit circuit_open_error = false
is_limit foreign = false

abbrev pub hint : {F : Type 0} → Error F → Option F
hint (rate_limit_hit retry_after) = retry_after
hint telemetry_error = none
hint checkpoint_error = none
hint (backend_error _) = none
hint kv_error = none
hint gpu_error = none
hint circuit_open_error = none
hint foreign = none

-- `isinstance(exc, TelemetryError)`
abbrev pub is_blind : {F : Type 0} → Error F → Bool
is_blind (rate_limit_hit _) = false
is_blind telemetry_error = true
is_blind checkpoint_error = false
is_blind (backend_error _) = false
is_blind kv_error = false
is_blind gpu_error = false
is_blind circuit_open_error = false
is_blind foreign = false

pub Result-cases :
    {F A : Type 0} (r : Result F A) → ((a : A) × (r ≡ ok a)) ⊎ ((e : Error F) × (r ≡ raise e))
Result-cases (ok a) = inl (a, refl)
Result-cases (raise e) = inr (e, refl)

pub ok-ne-raise : {F A : Type 0} (a : A) (e : Error F) → ok a ≢ raise e
ok-ne-raise a e h = cc
