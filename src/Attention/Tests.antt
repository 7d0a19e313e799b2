-- ===== src/Attention/Tests.antt =====
-- Runs of the attention budget, and its theorems in a world of whole seconds.
use agentpause.Prelude.{
  ℕ, ◌<◌, ◌≤◌, true, false, not, none, some, [], ◌∷◌, ◌≡◌, ◌↔◌, refl, arith, length,
}
use agentpause.Prelude.Int.{pos, ◌+ℤ◌, ◌-ℤ◌}
use agentpause.Number.{nought}
use agentpause.Number.Fixed.{Milli, milli, milli_float}
use agentpause.Errors.{ok}
use agentpause.World.Ticking.{ticking}
use agentpause.Risk.{Budget, Ask, checkpoint, wait, decide}
use agentpause.Risk
use agentpause.Quota.{until_first}
use agentpause.Quota.Window.{prune}
use agentpause.Attention.{
  Attention, available, prune_asks, sync_away_expiry, step_away, is_away, ready, until_return,
  wait_seconds, record_ask, remaining, attention_budget, present_budget, budget_from, as_budget,
  with_reset, known,
}
use agentpause.Attention.Presence.{
  away_suspends, away_until_return, ready_iff_remaining, as_budget_present, record_ask_bounded,
}

-- two questions an hour, one asked at second 100
abbrev person : Attention Milli
person = record {
  max_asks = 2;
  window_s = milli 3_600_000;
  asks = milli 100_000 ∷ [];
  away = false;
  away_until = none;
}

abbrev step : Ask Milli
step = record {
  estimated = pos 3000;
  sigma = milli 100_000;
  k = milli 2000;
  wait_threshold_s = milli 15_000;
  estimated_input = none;
  estimated_output = none;
  estimated_latency = none;
  rpm_margin = pos 0;
}

program : Unit {0}
unfolding prune prune_asks sync_away_expiry step_away is_away ready until_return wait_seconds
    record_ask remaining present_budget budget_from as_budget with_reset known until_first available
    ◌+ℤ◌ ◌-ℤ◌ Risk.program
program = tt

asked : (record_ask ticking person 200).0.asks ≡ milli 100_000 ∷ milli 201_000 ∷ []
unfolding program
asked = refl

-- a full window is waited out: 80 seconds are left at second 3620
full_window :
    (wait_seconds ticking (record person { asks = milli 100_000 ∷ milli 200_000 ∷ [] }) 3619).0
    ≡ ok (some (milli 80_000))
unfolding program
full_window = refl

-- a person who is back in ten seconds is worth a short wait
back_soon :
    (b : Budget Milli) × ((as_budget ticking
        (step_away ticking (some (milli 12_000)) person 50).0
        51).0
      ≡ ok b)
    × ((decide b step).action ≡ wait)
unfolding program
back_soon = (attention_budget 0 (some (milli 10_000)), refl, refl)

away_suspends_example :
    let (a', w') = step_away ticking none person 50 in
    ((ready ticking a' w').0 ≡ false)
    × ((wait_seconds ticking a' w').0 ≡ ok none)
    × ((b : Budget Milli) × ((as_budget ticking a' w').0 ≡ ok b)
        × ((decide b step).action ≡ checkpoint))
    × ((is_away ticking (available a') w').0 ≡ false)
away_suspends_example = away_suspends ticking person 50 step (omega arith)

away_until_return_example :
    (is_away ticking (step_away ticking (some (milli 12_000)) person 50).0 70).0
    ≡ not (milli_float.le (milli_float.add (milli 50_000) (milli 12_000)) (milli 70_000))
away_until_return_example = away_until_return ticking person 50 70 (milli 12_000)

ready_iff_remaining_example :
    ((ready ticking person 50).0 ≡ true) ↔ (0 < (remaining ticking person 50).0)
ready_iff_remaining_example = ready_iff_remaining ticking person 50 refl

as_budget_present_example :
    (b : Budget Milli) × (left : ℕ) × ((as_budget ticking person 50).0 ≡ ok b)
    × (b.remaining_requests ≡ some (pos left))
    × (left ≤ 2)
    × (0 < left → b.reset_requests_seconds ≡ some nought)
as_budget_present_example = as_budget_present ticking person 50 refl (omega arith)

record_ask_bounded_example :
    let (yes_, a1, w1) = ready ticking person 200 in
    let a2 = (record_ask ticking a1 w1).0 in
    (a2.max_asks ≡ 2) × (0 < length a2.asks) × (length a2.asks ≤ 2)
unfolding program
record_ask_bounded_example = record_ask_bounded ticking person 200 refl
