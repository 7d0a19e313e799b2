-- ===== src/Local/Tests.antt =====
-- Runs of the local budgets, and their theorems on fixed-point numbers.
use agentpause.Prelude.{ℕ, true, ◌+◌, none, some, [], ◌∷◌, ◌≡◌, ◌≢◌, ◌↔◌, refl, All}
use agentpause.Prelude.Int.{pos, ◌+ℤ◌, ◌-ℤ◌, max_ℤ}
use agentpause.Number.{◌≼◌}
use agentpause.Number.Fixed.{Milli, milli, milli_float, Milli-IsMonotone, Milli-IsExact}
use agentpause.Errors.{Error, ok, raise, foreign, telemetry_error, ok-ne-raise}
use agentpause.Text.{codes}
use agentpause.World.{Clock}
use agentpause.Risk as Risk
use agentpause.Risk.{Budget, Ask, continue, wait, checkpoint, decide}
use agentpause.Scheduler.{Reading}
use agentpause.Scheduler.Planning.{budget_of}
use agentpause.Json as Json
use agentpause.Json.{Json, int, str, object, array, field, no_fields, item, no_items}
use agentpause.Slots.{LlamaCppSlots}
use agentpause.Local.{
  TimeBudget, merged, minimum, min_across, present, cons_present, least, composite, time_left,
  timed, start_timer,
}
use agentpause.Local.{
  as_reading, reading_of, reserve_of, read_all, after_reading, cons_reading, merge,
}
use agentpause.Slots.{rstrip, as_kv_error, bind, get_props, get_slot, unwrap, has_id, slot_in, pick}
use agentpause.Json.{find, get, text, holds, either, to_int, read_int, equals}
use agentpause.Local.Sources.{
  ContextBudget, windowed, context_budget, default_context_field, default_used_field, caught,
  own_context, nested_context, settings_context, counted, count_items, measured, first_of,
  from_next, decoded_field, decoded, idle, blind, required, context_left, after_slot, after_props,
  gpu_tokens, gpu_read, gpu_budget,
}
use agentpause.Local.Facade.{
  LocalBudget, local_budget, resources, reserve_for, under_deadline, context_of, init, open_with,
  opened, probe_gpu, detected,
}
use agentpause.Local.Price.{
  estimate_local_price_per_1k_tokens, price_per_1k_tokens_from_estimator, price_at, predicted,
  optional,
}
use agentpause.Local.Merging.{decide-merged}
use agentpause.Local.Reserve.{time_left_reserves}
use agentpause.Local.Windows.{context_budget_never_waits, context_budget_blind}
use agentpause.Local.Calibration.{local_budget_restarts}

abbrev context : Budget Milli
context = windowed (pos 900) (pos 4096)

abbrev gpu : Budget Milli
gpu = record (windowed (pos 300) (pos 2000)) { remaining_seconds = some (milli 9000) }

abbrev ask : Ask Milli
ask = record {
  estimated = pos 250;
  sigma = milli 1000;
  k = milli 1000;
  wait_threshold_s = milli 5000;
  estimated_input = none;
  estimated_output = none;
  estimated_latency = some (milli 2000);
  rpm_margin = pos 0;
}

program : Unit {0}
unfolding Risk.program merged minimum min_across present cons_present least ◌+ℤ◌
program = tt

tightest : (merged context (gpu ∷ [])).remaining_tokens ≡ pos 300
unfolding program
tightest = refl

smallest_limit : (merged context (gpu ∷ [])).limit_tokens ≡ some (pos 2000)
unfolding program
smallest_limit = refl

decide-merged_example :
    ((decide (merged context (gpu ∷ [])) ask).action ≡ continue)
    ↔ All (λ (x : Budget Milli). (decide x ask).action ≡ continue) (context ∷ gpu ∷ [])
decide-merged_example = decide-merged Milli-IsMonotone ask context (gpu ∷ [])

-- the world is the time
abbrev clock : Clock Milli ℕ
clock w = (milli w, w + 1)

abbrev timer : TimeBudget Milli ℕ
timer = record {
  inner_telemetry = λ w. (ok (Reading.full context), w);
  time_budget_s = milli 20000;
  started_at = milli 0;
  reserve_s = milli 5000;
}

timed_program : Unit {0}
unfolding program time_left timed budget_of ◌-ℤ◌
timed_program = tt

time_left_reserves_example :
    milli_float.add
      (milli_float.add (milli 2000) (milli 5000))
      (milli_float.sub (milli 4000) (milli 0))
    ≼ milli 20000
unfolding timed_program
time_left_reserves_example =
    time_left_reserves clock Milli-IsExact timer ask (Reading.full context) (milli 2000)
      (record context { remaining_seconds = some (milli 11000) }) 4000 refl refl refl refl

abbrev reading : Json.Reading Milli
reading = record {
  int_of = λ s. none;
  int_of_real = λ x. some (milli_float.trunc x);
  float_of = λ s. none;
  text_of = λ j. [];
}

-- one body for both endpoints: a context of 4096, and slot 0 with 100 tokens in use
abbrev body : Json Milli
body = object (
    field (codes "n_ctx") (int (pos 4096)) (
      field (codes "slots")
        (array (
          item
            (object (
              field (codes "id") (int (pos 0))
                (field (codes "n_prompt_tokens") (int (pos 100)) no_fields)))
            no_items))
        no_fields))

abbrev server : LlamaCppSlots Milli ℕ
server = record {
  get_fn = λ url w. (ok body, w + 1000);
  post_fn = λ url name w. (raise foreign, w);
}

abbrev local : LocalBudget Milli ℕ
local = record {
  base_url = codes "u/";
  id_slot = pos 0;
  safety_margin_tokens = pos 256;
  time_budget_s = some (milli 60000);
  hourly_cost = none;
  min_free_bytes_override = none;
  slots = server;
  reading = reading;
  gpu_reader = λ w. (ok (pos 1000, pos 4000), w);
  gpu_available = true;
  bytes_per_token = some (milli 10000);
  measured_save_s = none;
}

local_program : Unit {0}
unfolding timed_program as_reading reading_of reserve_of read_all after_reading cons_reading merge
    composite rstrip as_kv_error bind get_props get_slot unwrap has_id slot_in pick find get text
    holds either to_int read_int equals default_context_field default_used_field caught own_context
    nested_context settings_context counted count_items measured first_of from_next decoded_field
    decoded idle blind required context_left after_slot after_props context_budget gpu_tokens
    gpu_read gpu_budget local_budget resources reserve_for under_deadline start_timer init open_with
    opened probe_gpu detected max_ℤ estimate_local_price_per_1k_tokens
    price_per_1k_tokens_from_estimator price_at predicted optional
local_program = tt

context_read : (context_budget (context_of local) 0).0 ≡ ok (windowed (pos 3740) (pos 4096))
unfolding local_program
context_read = refl

-- 10 bytes a token: 100 tokens are free on the GPU, and the deadline is 60 s less 2 s and 5 s
abbrev both : Budget Milli
both = record (windowed (pos 100) (pos 400)) { remaining_seconds = some (milli 52999) }

local_read : (local_budget clock local 0).0 ≡ ok both
unfolding local_program
local_read = refl

-- An hour later the same 53 seconds are left of the minute.
an_hour_later : (local_budget clock local 3_600_000).0 ≡ ok both
unfolding local_program
an_hour_later = refl

local_budget_restarts_example :
    both.remaining_seconds
    ≡ some (
        milli_float.sub
          (milli_float.sub (milli 60000) (milli_float.sub (milli 2001) (milli 0)))
          (reserve_for none))
unfolding local_program
local_budget_restarts_example = local_budget_restarts clock local (milli 60000) both 0 refl refl

context_budget_never_waits_example : (decide (windowed (pos 3740) (pos 4096)) ask).action ≢ wait
unfolding local_program
context_budget_never_waits_example =
    context_budget_never_waits (context_of local) 0 (windowed (pos 3740) (pos 4096)) ask refl

abbrev unreadable : ContextBudget Milli ℕ
unreadable = record (context_of local) { context_field = λ j. ok none; used_field = λ j. ok none }

abbrev cannot_read : Error Milli
cannot_read = telemetry_error

context_budget_blind_example : cannot_read ≡ telemetry_error
unfolding local_program
context_budget_blind_example =
    context_budget_blind unreadable (λ j e h. ok-ne-raise none e h) (λ j e h. ok-ne-raise none e h)
      0 telemetry_error refl
