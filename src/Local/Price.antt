-- ===== src/Local/Price.antt =====
-- The prices of src/agentpause/adapters/local_resources.py: from a throughput, from a power draw, and
-- from what an estimator has learned.
use agentpause.Prelude.{Option, none, some, if◌then◌else◌}
use agentpause.Prelude.Int.{ℤ}
use agentpause.Number.{Float, nought}
use agentpause.Errors.{Result, ok, raise, foreign}

-- An estimator: `estimate(input_tokens)`, and `estimate_latency` if it has one, which may be None.
pub record Predicting (F : Type 0) : Type 0 where
  pub estimate : ℤ → ℤ
  pub estimate_latency : Option (ℤ → Option F)

module _ {F : Type 0} ⦃f : Float F⦄ where
  open f use {of_int, lit, mul, div, le, lt}

  -- a ValueError is an exception of Python
  unfoldable pub estimate_local_price_per_1k_tokens : F → F → Result F F
  estimate_local_price_per_1k_tokens tokens_per_second hourly_cost =
      if le tokens_per_second nought
      then raise foreign
      else if lt hourly_cost nought
      then raise foreign
      else ok (mul (div hourly_cost (mul tokens_per_second (lit 3600 1))) (lit 1000 1))

  unfoldable pub estimate_hourly_cost_from_power : F → F → Result F F
  estimate_hourly_cost_from_power watts price_per_kwh =
      if lt watts nought
      then raise foreign
      else if lt price_per_kwh nought
      then raise foreign
      else ok (mul (div watts (lit 1000 1)) price_per_kwh)

  unfoldable pub optional : Result F F → Result F (Option F)
  optional (ok x) = ok (some x)
  optional (raise e) = raise e

  -- once the latency has been predicted
  unfoldable pub price_at : ℤ → Option F → F → Result F (Option F)
  unfolding optional estimate_local_price_per_1k_tokens
  price_at output none hourly_cost = ok none
  price_at output (some latency) hourly_cost =
      if le latency nought
      then ok none
      else optional (estimate_local_price_per_1k_tokens (div (of_int output) latency) hourly_cost)

  unfoldable pub predicted : Option (ℤ → Option F) → ℤ → Option F
  predicted none n = none
  predicted (some g) n = g n

  unfoldable pub price_per_1k_tokens_from_estimator : Predicting F → ℤ → F → Result F (Option F)
  unfolding price_at predicted
  price_per_1k_tokens_from_estimator e input_tokens hourly_cost =
      price_at (e.estimate input_tokens) (predicted e.estimate_latency input_tokens) hourly_cost
