-- ===== src/Scheduler/Planning/Tests.antt =====
-- Runs of the decision before a call, and its theorems at a session with little money.
use agentpause.Prelude.{true, Option, false, none, some, ◌≡◌, ◌↔◌, refl}
use agentpause.Prelude.Int.{pos, ◌+ℤ◌, ◌-ℤ◌}
use agentpause.Number.Fixed.{Milli, milli, milli_float}
use agentpause.Errors.{Error, ok, raise}
use agentpause.Text.{codes}
use agentpause.Risk
use agentpause.Risk.{Ask, Budget, Decision, continue, checkpoint}
use agentpause.Risk.Decide.{Fits}
use agentpause.Scheduler.{tokens_only}
use agentpause.Scheduler.Planning.{
  next_action, should_suspend, read_budget, ask_for, beliefs, within_money, slim, time_left,
  next_for, acted, budget_of,
}
use agentpause.Scheduler.Planning.Decisions.{
  Asked, Dated, dated, Affordable, Costs, next_action_judges, should_suspend_iff, next_action_frame,
}
use agentpause.Scheduler.Sample.{counting, config, scheduler, run}

program : Unit {0}
unfolding next_action ask_for beliefs within_money slim time_left next_for acted budget_of
    should_suspend ◌+ℤ◌ ◌-ℤ◌ Risk.program
program = tt

-- 1000 tokens are left and 440 are needed, but the step costs 0.8 and 0.76 is left
suspended_for_money :
    (next_action counting config run (record scheduler { money_spent = milli 240 }) 0).0
    ≡ ok (record {
      action = checkpoint;
      budget = record (budget_of (tokens_only (pos 1000))) {
        remaining_seconds = some (milli 3_600_000);
      };
      estimated = pos 400;
      sigma = milli 20_000;
      wait_seconds = none;
    })
unfolding program
suspended_for_money = refl

goes_on : (should_suspend counting config run scheduler 0).0 ≡ ok false
unfolding program
goes_on = refl

abbrev reading : Budget Milli
reading = record {
  remaining_tokens = pos 1000;
  remaining_requests = none;
  reset_seconds = none;
  reset_requests_seconds = none;
  remaining_input_tokens = none;
  remaining_output_tokens = none;
  limit_tokens = none;
  refill_regime = none;
  remaining_seconds = none;
}

next_action_judges_example :
    let (r, se', s', w') = next_action counting config run scheduler 0 in
    (d : Decision Milli) × (a : Ask Milli) × (left : Option Milli) × (r ≡ ok d)
    × Asked counting config se' scheduler a
    × Dated counting config reading se' 0 left
    × ((d.action ≡ continue)
        ↔ (Fits (record reading { remaining_seconds = left }) a × Affordable config a scheduler))
    × ((price limit : Milli)
        → config.price_per_1k_tokens ≡ some price
        → config.money_budget ≡ some limit
        → Costs config true a scheduler price limit
        → (d.action ≡ checkpoint) × (d.wait_seconds ≡ none))
unfolding budget_of
next_action_judges_example = next_action_judges counting config run scheduler 0 reading refl

should_suspend_iff_example :
    let (r, se', s', w') = should_suspend counting config run scheduler 0 in
    (r ≡ ok false) ↔ (
      Fits (dated counting config reading se' 0) (ask_for counting config se' scheduler)
      × Affordable config (ask_for counting config se' scheduler) scheduler)
unfolding budget_of
should_suspend_iff_example = should_suspend_iff counting config run scheduler 0 reading refl

next_action_frame_example :
    let (r, se', s', w') = next_action counting config run scheduler 0 in
    (s'.estimator ≡ 7)
    × (s'.safety_k ≡ milli 2000)
    × (s'.money_spent ≡ milli 0)
    × (se'.cp.step ≡ 2)
    × (se'.session_id ≡ codes "a")
    × ((e : Error Milli)
        → (read_budget config 0).0 ≡ raise e
        → (r ≡ raise e) × (se' ≡ run) × (s' ≡ scheduler))
next_action_frame_example = next_action_frame counting config run scheduler 0
