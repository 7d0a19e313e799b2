-- ===== src/Local.antt =====
-- src/agentpause/adapters/local_resources.py: the resources of a self-hosted model as telemetry. Here
-- are the readings that wrap others: the most restrictive of several, and the deadline that leaves
-- time to save the KV cache.
pub mod Sources
pub mod Price
pub mod Facade
pub mod Merging
pub mod Reserve
pub mod Windows
pub mod Calibration
mod Tests
use agentpause.Prelude.{Bool, Option, none, some, List, [], ◌∷◌, map, if◌then◌else◌}
use agentpause.Prelude.Int.{ℤ, ltb_ℤ}
use agentpause.Number.{Float}
use agentpause.Errors.{Result, ok, raise, foreign}
use agentpause.World.{Clock}
use agentpause.Risk.{Budget}
use agentpause.Scheduler.{Reading}
use agentpause.Scheduler.Planning.{budget_of}

-- a telemetry callable
abbrev pub Telemetry : Type 0 → Type 0 → Type 0
Telemetry F W = W → Result F (Reading F) × W

abbrev pub BudgetTelemetry : Type 0 → Type 0 → Type 0
BudgetTelemetry F W = W → Result F (Budget F) × W

-- a callable that returns a Budget, where an int would do as well
unfoldable pub reading_of : {F : Type 0} → Result F (Budget F) → Result F (Reading F)
reading_of (ok b) = ok (Reading.full b)
reading_of (raise e) = raise e

unfoldable pub as_reading : {F W : Type 0} → BudgetTelemetry F W → Telemetry F W
unfolding reading_of
as_reading t w = let (r, w') = t w in (reading_of r, w')

-- `min(x, *xs)`: the first of the least values
unfoldable pub minimum : {A : Type 0} → (A → A → Bool) → A → List A → A
minimum lt best [] = best
minimum lt best (x ∷ xs) = minimum lt (if lt x best then x else best) xs

-- the values that are not None
unfoldable pub cons_present : {B : Type 0} → Option B → List B → List B
cons_present none vs = vs
cons_present (some v) vs = v ∷ vs

unfoldable pub present : {A B : Type 0} → (A → Option B) → List A → List B
unfolding cons_present
present get [] = []
present get (x ∷ xs) = cons_present (get x) (present get xs)

unfoldable pub least : {A : Type 0} → (A → A → Bool) → List A → Option A
unfolding minimum
least lt [] = none
least lt (v ∷ vs) = some (minimum lt v vs)

-- `_min_across(attr)`
unfoldable pub min_across : {A B : Type 0} → (B → B → Bool) → (A → Option B) → List A → Option B
unfolding present least
min_across lt get bs = least lt (present get bs)

module _ {F : Type 0} ⦃f : Float F⦄ where
  abbrev pub fewer : Budget F → Budget F → Bool
  fewer a b = ltb_ℤ a.remaining_tokens b.remaining_tokens

  -- the budgets merged, once every callable has answered
  unfoldable pub merged : Budget F → List (Budget F) → Budget F
  unfolding minimum min_across
  merged b bs =
      let winner = minimum fewer b bs in
      let all = b ∷ bs in
      record {
        remaining_tokens = winner.remaining_tokens;
        remaining_requests = min_across ltb_ℤ (λ (x : Budget F). x.remaining_requests) all;
        reset_seconds = winner.reset_seconds;
        reset_requests_seconds = winner.reset_requests_seconds;
        remaining_input_tokens = min_across ltb_ℤ (λ (x : Budget F). x.remaining_input_tokens) all;
        remaining_output_tokens =
            min_across ltb_ℤ (λ (x : Budget F). x.remaining_output_tokens) all;
        limit_tokens = min_across ltb_ℤ (λ (x : Budget F). x.limit_tokens) all;
        refill_regime = winner.refill_regime;
        remaining_seconds = min_across f.lt (λ (x : Budget F). x.remaining_seconds) all;
      }

  -- `min` of no budgets is a ValueError
  unfoldable pub merge : Result F (List (Budget F)) → Result F (Budget F)
  unfolding merged
  merge (ok []) = raise foreign
  merge (ok (b ∷ bs)) = ok (merged b bs)
  merge (raise e) = raise e

  module _ {W : Type 0} where
    -- one more reading in front of those of the callables behind it
    unfoldable pub cons_reading :
        Budget F → Result F (List (Budget F)) × W → Result F (List (Budget F)) × W
    cons_reading b (ok bs, w) = (ok (b ∷ bs), w)
    cons_reading b (raise e, w) = (raise e, w)

    unfoldable pub after_reading :
        Result F (Reading F) × W
        → (W → Result F (List (Budget F)) × W)
        → Result F (List (Budget F)) × W
    unfolding cons_reading
    after_reading (ok reading, w) rest = cons_reading (budget_of reading) (rest w)
    after_reading (raise e, w) rest = (raise e, w)

    -- the loop over the callables: one that raises ends it
    unfoldable pub read_all : List (Telemetry F W) → W → Result F (List (Budget F)) × W
    unfolding after_reading
    read_all [] w = (ok [], w)
    read_all (t ∷ ts) w = after_reading (t w) (read_all ts)

    -- `CompositeLocalBudget(*ts)()`
    unfoldable pub composite : List (Telemetry F W) → BudgetTelemetry F W
    unfolding merge read_all
    composite ts w = let (r, w') = read_all ts w in (merge r, w')

-- `KVAwareTimeBudget`
pub record TimeBudget (F W : Type 0) : Type 0 where
  pub inner_telemetry : Telemetry F W
  pub time_budget_s : F
  pub started_at : F
  pub reserve_s : F

module _ {F : Type 0} ⦃f : Float F⦄ where
  open f use {sub, div, of_int}

  -- the reserve, from an estimate or from a throughput and a size
  unfoldable pub reserve_of : Option F → Option F → Option F → F
  reserve_of (some s) throughput bytes = s
  reserve_of none (some throughput) (some bytes) = div bytes throughput
  reserve_of none _ _ = of_int (ℤ.pos 0)

  module _ {W : Type 0} (clock : Clock F W) where
    -- `KVAwareTimeBudget(...)`, which reads the clock
    unfoldable pub start_timer :
        Telemetry F W → F → Option F → Option F → Option F → W → TimeBudget F W × W
    unfolding reserve_of
    start_timer inner budget_s estimated throughput bytes w =
        let (now, w') = clock w in
        (
          record {
            inner_telemetry = inner;
            time_budget_s = budget_s;
            started_at = now;
            reserve_s = reserve_of estimated throughput bytes;
          },
          w',
        )

    -- once the inner callable has answered
    unfoldable pub timed : TimeBudget F W → Result F (Reading F) × W → Result F (Budget F) × W
    timed t (raise e, w) = (raise e, w)
    timed t (ok reading, w) =
        let (now, w') = clock w in
        let left = sub (sub t.time_budget_s (sub now t.started_at)) t.reserve_s in
        (ok (record (budget_of reading) { remaining_seconds = some left }), w')

    -- `KVAwareTimeBudget.__call__`
    unfoldable pub time_left : TimeBudget F W → BudgetTelemetry F W
    unfolding timed
    time_left t w = timed t (t.inner_telemetry w)
