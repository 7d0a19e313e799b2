-- ===== src/Risk/Tests.antt =====
-- Runs of src/agentpause/risk.py in thousandths, and the theorems at concrete readings.
use agentpause.Prelude.{none, some, ◌≡◌, ◌↔◌, refl, arith}
use agentpause.Prelude.Int.{pos, ◌+ℤ◌, ◌-ℤ◌}
use agentpause.Number.{◌≼◌}
use agentpause.Number.Fixed.{Milli, milli, milli_float, Milli-IsExact, Milli-IsMonotone}
use agentpause.Risk.{Budget, Ask, continue, checkpoint, decide, program}
use agentpause.Risk.Decide.{Fits, decide-continue_iff}
use agentpause.Risk.Wait.{
  decide-wait_le_reset, decide_whole_window, decide_mono_tokens, decide_zero_reset,
}
use agentpause.Risk.Score.{RiskModel, Load, score, score_mono}

-- 4000 of 10000 tokens left, and a reset in 20 seconds
abbrev reading : Budget Milli
reading = record {
  remaining_tokens = pos 4000;
  remaining_requests = some (pos 3);
  reset_seconds = some (milli 20_000);
  reset_requests_seconds = none;
  remaining_input_tokens = none;
  remaining_output_tokens = none;
  limit_tokens = some (pos 10_000);
  refill_regime = none;
  remaining_seconds = some (milli 60_000);
}

-- a step of 3000 tokens with a margin of 2 * 100
abbrev step : Ask Milli
step = record {
  estimated = pos 3000;
  sigma = milli 100_000;
  k = milli 2000;
  wait_threshold_s = milli 15_000;
  estimated_input = some (pos 900);
  estimated_output = some (pos 650);
  estimated_latency = some (milli 2000);
  rpm_margin = pos 0;
}

-- 4200 of the 5200 tokens that it needs
abbrev large : Ask Milli
large = record step { estimated = pos 5000 }

runs_on : (decide reading step).action ≡ continue
unfolding program ◌+ℤ◌ ◌-ℤ◌
runs_on = refl

-- the deficit of 1200 tokens refills at 300 a second, and 15% are added
waits : (decide reading large).wait_seconds ≡ some (milli 4600)
unfolding program ◌+ℤ◌ ◌-ℤ◌
waits = refl

spent : (decide (record reading { remaining_requests = some (pos 0) }) step).action ≡ checkpoint
unfolding program ◌+ℤ◌ ◌-ℤ◌
spent = refl

decide-continue_iff_example : ((decide reading step).action ≡ continue) ↔ Fits reading step
decide-continue_iff_example = decide-continue_iff reading step

decide-wait_le_reset_example : milli 4600 ≼ milli 20_000
unfolding program ◌+ℤ◌ ◌-ℤ◌
decide-wait_le_reset_example =
    decide-wait_le_reset reading large Milli-IsExact refl refl refl refl refl

decide_whole_window_example :
    (decide reading (record step { estimated = pos 9700 })).action ≡ checkpoint
unfolding program ◌+ℤ◌ ◌-ℤ◌
decide_whole_window_example =
    decide_whole_window reading (record step { estimated = pos 9700 }) refl refl refl refl refl refl

decide_mono_tokens_example :
    (decide (record reading { remaining_tokens = pos 9000 }) step).action ≡ continue
unfolding program ◌+ℤ◌ ◌-ℤ◌
decide_mono_tokens_example =
    decide_mono_tokens reading step (pos 9000) Milli-IsExact (omega arith) refl

decide_zero_reset_example :
    (decide (record reading { reset_requests_seconds = some (milli 0) }) step).action
    ≡ (decide (record reading { reset_requests_seconds = none }) step).action
decide_zero_reset_example = decide_zero_reset reading step (milli 0) refl

abbrev weights : RiskModel Milli
weights = record { w1 = milli 550; w2 = milli 200; w3 = milli 250 }

abbrev load : Load Milli
load = record {
  estimated = pos 500;
  remaining = pos 4000;
  context_tokens = pos 1000;
  context_max = pos 8000;
  cost_estimate = milli 10;
  budget_remaining = milli 2000;
}

score_mono_example :
    score weights load
    ≼ score weights
        (record load { estimated = pos 900; context_tokens = pos 1200; cost_estimate = milli 20 })
score_mono_example =
    score_mono weights load (pos 900) (pos 1200) (milli 20) Milli-IsMonotone refl refl refl refl
      (omega arith) (omega arith) refl
