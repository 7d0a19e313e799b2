-- ===== src/Scheduler/Planning.antt =====
-- The decision before a call in src/agentpause/scheduler.py, and the forecast of a session.
pub mod Decisions
mod Tests
use agentpause.Prelude.{ℕ, Bool, true, false, not, ◌==◌, Option, none, some, if◌then◌else◌}
use agentpause.Prelude.Int.{ℤ, pos}
use agentpause.Number.{Float, nought}
use agentpause.Errors.{Result, ok, raise}
use agentpause.Risk.{Budget, Decision, Ask, Verb, continue, wait, checkpoint, decide}
use agentpause.State.{compact}
use agentpause.Forecast.{Forecast, forecast_run}
use agentpause.Scheduler.{
  Config, Estimating, Reading, tokens_only, full, Scheduler, Session, decided, compacted, emit,
  input_tokens,
}

-- `Budget(remaining_tokens=int(raw))` for a bare int
unfoldable pub budget_of : {F : Type 0} → Reading F → Budget F
budget_of (full b) = b
budget_of (tokens_only n) = record {
  remaining_tokens = n;
  remaining_requests = none;
  reset_seconds = none;
  reset_requests_seconds = none;
  remaining_input_tokens = none;
  remaining_output_tokens = none;
  limit_tokens = none;
  refill_regime = none;
  remaining_seconds = none;
}

abbrev read : {F : Type 0} → Result F (Reading F) → Result F (Budget F)
read (ok reading) = ok (budget_of reading)
read (raise e) = raise e

-- `_read_budget`
abbrev pub read_budget : {F W : Type 0} → Config F W → W → Result F (Budget F) × W
read_budget c w = let (reading, w') = c.telemetry w in (read reading, w')

abbrev pub is_continue : Verb → Bool
is_continue continue = true
is_continue wait = false
is_continue checkpoint = false

abbrev pub suspends : {F : Type 0} → Result F (Decision F) → Result F Bool
suspends (raise e) = raise e
suspends (ok d) = ok (not (is_continue d.action))

module _ {F : Type 0} ⦃f : Float F⦄ where
  open f use {of_int, add, sub, mul, div, lt}

  -- the property `money_remaining`
  abbrev pub money_remaining : Option F → F → Option F
  money_remaining none spent = none
  money_remaining (some budget) spent = some (sub budget spent)

  -- `estimated / 1000.0 * price`
  abbrev pub price_of : ℤ → F → F
  price_of estimated price = mul (div (of_int estimated) (of_int (pos 1000))) price

  -- whether the price and the money left are known, and the step costs more than is left
  abbrev pub overruns : Option F → Option F → ℤ → Bool
  overruns none left estimated = false
  overruns (some price) none estimated = false
  overruns (some price) (some left) estimated = lt left (price_of estimated price)

  -- the decision, once money has had its say
  pub within_money : Bool → Budget F → Ask F → Decision F
  within_money false b a = decide b a
  within_money true b a = record {
    action = checkpoint;
    budget = b;
    estimated = a.estimated;
    sigma = a.sigma;
    wait_seconds = none;
  }

module _ {F W E : Type 0} ⦃f : Float F⦄ (est : Estimating F E) (c : Config F W) where
  -- the estimate and its sigma, or the quantile bound
  pub beliefs : E → ℤ → ℤ × F
  beliefs e input =
      let estimated = est.estimate e input in
      let plain : ℤ × F = (estimated, est.sigma e estimated) in
      elim (c.quantile) [
        | none ↦ plain
        | some q ↦ elim (est.upper_estimate e input q) [
          | none ↦ plain
          | some upper ↦ (upper, nought)
        ]
      ]

module _ {F W E X : Type 0} ⦃f : Float F⦄ (est : Estimating F E) (c : Config F W) where
  open f use {of_int, sub, mul, lt}

  -- preventive compaction
  pub slim : Session F X → Scheduler F E → Session F X × Scheduler F E
  slim se s =
      let input = input_tokens c.count_tokens se.cp.messages in
      elim (c.context_window) [
        | none ↦ (se, s)
        | some cw ↦
            if lt (mul c.compact_at (of_int cw)) (of_int input)
            then (let (saved, cp) = compact c.compact_keep_last c.compact_max_chars se.cp in
                let se' : Session F X = record se { cp = cp } in
                let input' = input_tokens c.count_tokens cp.messages in
                (
                  se',
                  if saved == 0 then s else emit c (compacted saved input' se.session_id cp.step) s,
                ))
            else (se, s)
      ]

  -- the deadline of the run, where telemetry reports none: the time that is left of it
  pub time_left : Budget F → Session F X → W → Option F × W
  time_left b se w = elim (b.remaining_seconds) [
    | some left ↦ (some left, w)
    | none ↦ elim (c.time_budget_s) [
      | none ↦ (none, w)
      | some limit ↦ let (now, w') = c.clock w in (some (sub limit (sub now se.started_at)), w')
    ]
  ]

  -- the arguments of `decide`
  pub ask_for : Session F X → Scheduler F E → Ask F
  ask_for se s =
      let input = input_tokens c.count_tokens se.cp.messages in
      let (estimated, sigma) = beliefs est c s.estimator input in
      record {
        estimated = estimated;
        sigma = sigma;
        k = s.safety_k;
        wait_threshold_s = c.wait_threshold_s;
        estimated_input = some input;
        estimated_output = some (est.max_tokens s.estimator);
        estimated_latency = est.estimate_latency s.estimator input;
        rpm_margin = c.rpm_margin;
      }

  -- `next_action` once the budget has been read
  pub next_for :
      Budget F → Session F X → Scheduler F E → W → Decision F × Session F X × Scheduler F E × W
  next_for b se s w =
      let (se', s') = slim se s in
      let ask = ask_for se' s' in
      let (left, w') = time_left b se' w in
      let b' : Budget F = record b { remaining_seconds = left } in
      let money = money_remaining c.money_budget s'.money_spent in
      let d = within_money (overruns c.price_per_1k_tokens money ask.estimated) b' ask in
      (
        d,
        se',
        emit c (decided d.action ask.estimated b'.remaining_tokens se.session_id se'.cp.step) s',
        w',
      )

  -- `next_action` once telemetry has answered or raised
  pub acted :
      Result F (Budget F)
      → Session F X
      → Scheduler F E
      → W
      → Result F (Decision F) × Session F X × Scheduler F E × W
  acted (raise e) se s w = (raise e, se, s, w)
  acted (ok b) se s w = let (d, se', s', w') = next_for b se s w in (ok d, se', s', w')

  pub next_action :
      Session F X → Scheduler F E → W → Result F (Decision F) × Session F X × Scheduler F E × W
  next_action se s w = let (reading, w') = read_budget c w in acted reading se s w'

  pub should_suspend :
      Session F X → Scheduler F E → W → Result F Bool × Session F X × Scheduler F E × W
  should_suspend se s w = let (r, se', s', w') = next_action se s w in (suspends r, se', s', w')

  -- `Session.forecast`, which changes neither the session nor the scheduler
  pub forecast : Session F X → Scheduler F E → ℕ → W → Result F (Forecast F) × W
  forecast se s steps w =
      let (reading, w') = read_budget c w in
      let input = input_tokens c.count_tokens se.cp.messages in
      let estimated = est.estimate s.estimator input in
      elim reading [
        | raise e ↦ (raise e, w')
        | ok b ↦
            let (left, w'') = time_left b se w' in
            let out = forecast_run b estimated (est.sigma s.estimator estimated) steps (record {
              k = s.safety_k;
              latency_per_step = est.estimate_latency s.estimator input;
              price_per_1k_tokens = c.price_per_1k_tokens;
              wait_threshold_s = c.wait_threshold_s;
              time_budget_s = left;
            }) in
            (ok out, w'')
      ]
