-- ===== src/Forecast.antt =====
-- src/agentpause/forecast.py: the simulation of the steps that remain. `str` of a forecast is left out.
pub mod Steps
mod Tests
use agentpause.Prelude.{
  ℕ, zero, suc, Bool, true, false, not, ◌&&◌, Option, none, some, if◌then◌else◌,
}
use agentpause.Prelude.Int.{ℤ, pos}
use agentpause.Number.{Float, nought, min_f}
use agentpause.Risk.{Budget, demand, is_fixed, refill_wait}

pub record Forecast (F : Type 0) : Type 0 where
  pub steps : ℕ
  pub total_tokens : ℤ
  pub money : Option F
  pub wall_clock_s : F
  pub work_s : F
  pub waiting_s : F
  pub suspensions : ℕ
  pub waits : ℕ
  pub fits_time_budget : Option Bool
  pub context_wall : Bool

-- the local variables of the loop
pub record Walk (F : Type 0) : Type 0 where
  pub remaining : F
  pub steps_done : ℕ
  pub total : F
  pub waiting_s : F
  pub waits : ℕ
  pub suspensions : ℕ
  pub context_wall : Bool

-- the arguments of `forecast_run` behind the number of steps
pub record Rates (F : Type 0) : Type 0 where
  pub k : F
  pub latency_per_step : Option F
  pub price_per_1k_tokens : Option F
  pub wait_threshold_s : F
  pub time_budget_s : Option F

abbrev optional_map : {A B : Type 0} → (A → B) → Option A → Option B
optional_map g none = none
optional_map g (some a) = some (g a)

module _ {F : Type 0} ⦃f : Float F⦄ where
  open f use {of_int, lit, add, sub, mul, div, le, lt, trunc, round}

  -- `float(limit) if limit is not None else start`
  abbrev pub full_window : Budget F → F
  full_window b = elim (b.limit_tokens) [
    | some limit ↦ of_int limit
    | none ↦ of_int b.remaining_tokens
  ]

  -- `limit is not None and per_step >= 0.98 * limit`
  abbrev pub hits_wall : Option ℤ → F → Bool
  hits_wall none per_step = false
  hits_wall (some limit) per_step = le (mul (lit 98 100) (of_int limit)) per_step

  -- the reading that the live rule would get in the middle of the simulation
  abbrev pub simulated : Budget F → F → Budget F
  simulated b remaining = record {
    remaining_tokens = trunc remaining;
    remaining_requests = none;
    reset_seconds = b.reset_seconds;
    reset_requests_seconds = none;
    remaining_input_tokens = none;
    remaining_output_tokens = none;
    limit_tokens = b.limit_tokens;
    refill_regime = b.refill_regime;
    remaining_seconds = none;
  }

  -- the window after a pause served in place
  unfoldable pub refilled : Budget F → F → F → F
  refilled b pause remaining = elim (b.limit_tokens) [
    | none ↦ full_window b
    | some limit ↦ elim (b.reset_seconds) [
      | none ↦ full_window b
      | some reset ↦
          if not (is_fixed b.refill_regime) && lt nought reset && lt remaining (of_int limit)
          then min_f (of_int limit)
              (add remaining (mul (div (sub (of_int limit) remaining) reset) pause))
          else full_window b
    ]
  ]

  -- the three kinds of pause
  unfoldable pub pause_by : Budget F → F → Option F → Walk F → Walk F
  unfolding refilled
  pause_by b threshold none w = record w {
    suspensions = suc w.suspensions;
    remaining = full_window b;
  }
  pause_by b threshold (some pause) w =
      if le pause threshold
      then record w {
        waits = suc w.waits;
        waiting_s = add w.waiting_s pause;
        remaining = refilled b pause w.remaining;
      }
      else record w {
        suspensions = suc w.suspensions;
        waiting_s = add w.waiting_s (elim (b.reset_seconds) [ some reset ↦ reset | none ↦ nought ]);
        remaining = full_window b;
      }

  -- the end of the loop's body
  abbrev pub charge : F → Walk F → Walk F
  charge per_step w = record w {
    remaining = sub w.remaining per_step;
    total = add w.total per_step;
    steps_done = suc w.steps_done;
  }

  abbrev pub at_wall : Walk F → Walk F
  at_wall w = record w { context_wall = true }

  abbrev pub stall : Budget F → F → F → Walk F → Walk F
  stall b per_step threshold w =
      pause_by b threshold (refill_wait (simulated b w.remaining) per_step) w

  -- one turn of the loop; one that breaks has set `context_wall`
  unfoldable pub turn : Budget F → F → F → Walk F → Walk F
  turn b per_step threshold w =
      if lt w.remaining per_step
      then if hits_wall b.limit_tokens per_step
        then at_wall w
        else (let paused = stall b per_step threshold w in
            if lt paused.remaining per_step then at_wall paused else charge per_step paused)
      else charge per_step w

  -- the loop, of as many turns as steps are asked for
  unfoldable pub walk : Budget F → F → F → ℕ → Walk F → Walk F
  walk b per_step threshold zero w = w
  walk b per_step threshold (suc n) w =
      let w' = turn b per_step threshold w in
      let rest = walk b per_step threshold n w' in if w'.context_wall then w' else rest

  abbrev pub start : Budget F → Walk F
  start b = record {
    remaining = of_int b.remaining_tokens;
    steps_done = 0;
    total = nought;
    waiting_s = nought;
    waits = 0;
    suspensions = 0;
    context_wall = false;
  }

  -- the figures below the loop
  unfoldable pub report : Rates F → Walk F → Forecast F
  report r w =
      let work : F = elim (r.latency_per_step) [
        | some latency ↦ mul (of_int (pos w.steps_done)) latency
        | none ↦ nought
      ] in
      let total = round w.total in
      let clock = add work w.waiting_s in
      record {
        steps = w.steps_done;
        total_tokens = total;
        money =
            optional_map (λ price. mul (div (of_int total) (of_int (pos 1000))) price)
              r.price_per_1k_tokens;
        wall_clock_s = clock;
        work_s = work;
        waiting_s = w.waiting_s;
        suspensions = w.suspensions;
        waits = w.waits;
        fits_time_budget = optional_map (λ limit. le clock limit) r.time_budget_s;
        context_wall = w.context_wall;
      }

  unfoldable pub forecast_run : Budget F → ℤ → F → ℕ → Rates F → Forecast F
  forecast_run b estimated sigma steps r =
      let per_step = demand estimated sigma r.k in
      report r (walk b per_step r.wait_threshold_s steps (start b))
