-- ===== src/Forecast/Tests.antt =====
-- Runs of the forecast, and its theorems at a window of a thousand tokens.
use agentpause.Prelude.{◌+◌, ◌≤◌, ◌<◌, true, false, none, some, ◌≡◌, ◌⊎◌, refl}
use agentpause.Prelude.Int.{pos, ◌+ℤ◌, ◌-ℤ◌}
use agentpause.Number.{nought}
use agentpause.Number.Fixed.{Milli, milli, milli_float, Milli-IsExact}
use agentpause.Risk.{Budget, demand, refill_wait, refill_math}
use agentpause.Forecast.{Rates, forecast_run, walk, turn, pause_by, refilled, report}
use agentpause.Forecast.Steps.{charged, forecast_run_steps, forecast_run_smooth}

abbrev window : Budget Milli
window = record {
  remaining_tokens = pos 1000;
  remaining_requests = none;
  reset_seconds = some (milli 10_000);
  reset_requests_seconds = none;
  remaining_input_tokens = none;
  remaining_output_tokens = none;
  limit_tokens = some (pos 1000);
  refill_regime = none;
  remaining_seconds = none;
}

abbrev rates : Rates Milli
rates = record {
  k = milli 2000;
  latency_per_step = some (milli 2000);
  price_per_1k_tokens = some (milli 3000);
  wait_threshold_s = milli 15_000;
  time_budget_s = some (milli 60_000);
}

-- five steps of 300 tokens: three fit, and the others wait for the window
five_steps :
    let out = forecast_run window (pos 200) (milli 50_000) 5 rates in
    (out.steps ≡ 5) × (out.total_tokens ≡ pos 1500) × (out.waits ≡ 2) × (out.context_wall ≡ false)
unfolding forecast_run report walk turn pause_by refilled refill_wait refill_math ◌+ℤ◌ ◌-ℤ◌
five_steps = (refl, refl, refl, refl)

-- a step of 990 tokens needs the whole window
wall_ahead :
    let out = forecast_run window (pos 990) (milli 0) 3 rates in
    (out.steps ≡ 1) × (out.context_wall ≡ true)
unfolding forecast_run report walk turn pause_by refilled refill_wait refill_math ◌+ℤ◌ ◌-ℤ◌
wall_ahead = (refl, refl)

forecast_run_steps_example :
    let out = forecast_run window (pos 200) (milli 50_000) 5 rates in
    (((out.context_wall ≡ true) × (out.steps < 5)) ⊎ ((out.context_wall ≡ false) × (out.steps ≡ 5)))
    × (out.total_tokens
        ≡ milli_float.round (charged (demand (pos 200) (milli 50_000) rates.k) out.steps))
    × (out.waits + out.suspensions ≤ 5)
forecast_run_steps_example = forecast_run_steps window (pos 200) (milli 50_000) 5 rates

forecast_run_smooth_example :
    let out = forecast_run window (pos 200) (milli 50_000) 3 rates in
    (out.steps ≡ 3)
    × (out.waits ≡ 0)
    × (out.suspensions ≡ 0)
    × (out.waiting_s ≡ nought)
    × (out.context_wall ≡ false)
unfolding ◌+ℤ◌
forecast_run_smooth_example =
    forecast_run_smooth Milli-IsExact window (pos 200) (milli 50_000) 3 rates refl refl
