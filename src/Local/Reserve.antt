-- ===== src/Local/Reserve.antt =====
-- The deadline of src/agentpause/adapters/local_resources.py leaves time to save the KV cache.
use agentpause.Prelude.{some, ◌≡◌, sym, arith}
use agentpause.Number.{Float, ◌≼◌, IsExact}
use agentpause.Errors.{Result, ok, raise}
use agentpause.World.{Clock}
use agentpause.Risk.{Budget, Ask, continue, decide}
use agentpause.Risk.Decide.{decide-continue_iff}
use agentpause.Scheduler.{Reading}
use agentpause.Local.{TimeBudget, timed, time_left}

module _ {F W : Type 0} ⦃f : Float F⦄ (clock : Clock F W) (exact : IsExact F) where
  open exact use {sub-le}

  timed_seconds :
      (t : TimeBudget F W) (reading : Reading F) (b : Budget F) (w : W) (r : Result F (Reading F))
      → r ≡ ok reading
      → (timed clock t (r, w)).0 ≡ ok b
      → b.remaining_seconds
        ≡ some (f.sub (f.sub t.time_budget_s (f.sub (clock w).0 t.started_at)) t.reserve_s)
  unfolding timed
  timed_seconds t reading b w (ok x) read told = ground (arith, sym told)
  timed_seconds t reading b w (raise e) read told = absurd cc

  -- A step that the decision rule lets run under the deadline, if it lasts as long as estimated, ends
  -- with the reserve for saving the KV cache still left of the time budget: its latency, the reserve and
  -- the time since the timer was started are together no more than the budget.
  pub time_left_reserves :
      (t : TimeBudget F W) (a : Ask F) (reading : Reading F) (latency : F) (b : Budget F) (w : W)
      → (t.inner_telemetry w).0 ≡ ok reading
      → (time_left clock t w).0 ≡ ok b
      → a.estimated_latency ≡ some latency
      → (decide b a).action ≡ continue
      → let now = (clock (t.inner_telemetry w).1).0 in
        f.add (f.add latency t.reserve_s) (f.sub now t.started_at) ≼ t.time_budget_s
  unfolding time_left
  time_left_reserves t a reading latency b w read told known goes =
      let now = (clock (t.inner_telemetry w).1).0 in
      let elapsed = f.sub now t.started_at in
      let left = f.sub (f.sub t.time_budget_s elapsed) t.reserve_s in
      let seconds : b.remaining_seconds ≡ some left =
        timed_seconds t reading b (t.inner_telemetry w).1 (t.inner_telemetry w).0 read told in
      let fits = ((decide-continue_iff b a).0 goes).time left latency seconds known in
      rw
        (
          ← sub-le (f.add latency t.reserve_s) t.time_budget_s elapsed,
          ← sub-le latency (f.sub t.time_budget_s elapsed) t.reserve_s,
        )
        fits
