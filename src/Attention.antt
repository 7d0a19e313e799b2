-- ===== src/Attention.antt =====
-- src/agentpause/attention.py: a human's attention as a budget. A sliding window of questions with
-- a manual override, read out as a telemetry budget.
pub mod Presence
mod Tests
use agentpause.Prelude.{
  ℕ, ◌-◌, Bool, true, false, not, ◌&&◌, Option, none, some, List, [], ◌∷◌, ◌++◌, if◌then◌else◌, ltb,
  length,
}
use agentpause.Prelude.Int.{ℤ, pos}
use agentpause.Number.{Float, nought, max_f}
use agentpause.Errors.{Result, ok, raise}
use agentpause.World.{Clock}
use agentpause.Risk.{Budget}
use agentpause.Quota.{until_first}
use agentpause.Quota.Window.{prune}

pub record Attention (F : Type 0) : Type 0 where
  pub max_asks : ℕ
  pub window_s : F
  pub asks : List F
  pub away : Bool
  pub away_until : Option F

abbrev token_sentinel : ℕ
token_sentinel = 1_000_000_000

pub available : {F : Type 0} → Attention F → Attention F
available a = record a { away = false; away_until = none }

-- a wait that is known or an exception, as the optional wait that is returned
pub known : {F : Type 0} → Result F F → Result F (Option F)
known (ok d) = ok (some d)
known (raise e) = raise e

module _ {F : Type 0} ⦃f : Float F⦄ where
  abbrev pub attention_budget : ℕ → Option F → Budget F
  attention_budget left reset = record {
    remaining_tokens = pos token_sentinel;
    remaining_requests = some (pos left);
    reset_seconds = none;
    reset_requests_seconds = reset;
    remaining_input_tokens = none;
    remaining_output_tokens = none;
    limit_tokens = none;
    refill_regime = none;
    remaining_seconds = none;
  }

  -- `as_budget` once the reset is known or has raised
  pub with_reset : ℕ → Result F F → Result F (Budget F)
  with_reset left (ok d) = ok (attention_budget left (some d))
  with_reset left (raise e) = raise e

module _ {F W : Type 0} ⦃f : Float F⦄ where
  open f use {add, sub, le}

  -- `_prune`
  pub prune_asks : Clock F W → Attention F → W → Attention F × W
  prune_asks clock a w =
      let (now, w') = clock w in (record a { asks = prune (sub now a.window_s) a.asks }, w')

  -- `_sync_away_expiry`, which reads the clock only if a return time is declared
  pub sync_away_expiry : Clock F W → Attention F → W → Attention F × W
  sync_away_expiry clock a w = elim (a.away_until) [
    | none ↦ (a, w)
    | some t ↦
        if a.away
        then (let (now, w') = clock w in
            (if le t now then record a { away = false; away_until = none } else a, w'))
        else (a, w)
  ]

  -- `away(until_s)`
  pub step_away : Clock F W → Option F → Attention F → W → Attention F × W
  step_away clock none a w = (record a { away = true; away_until = none }, w)
  step_away clock (some d) a w =
      let (now, w') = clock w in (record a { away = true; away_until = some (add now d) }, w')

  pub is_away : Clock F W → Attention F → W → Bool × Attention F × W
  is_away clock a w = let (a', w') = sync_away_expiry clock a w in (a'.away, a', w')

  pub ready : Clock F W → Attention F → W → Bool × Attention F × W
  ready clock a w =
      let (gone, a1, w1) = is_away clock a w in
      if gone
      then (false, a1, w1)
      else let (a2, w2) = prune_asks clock a1 w1 in (ltb (length a2.asks) a2.max_asks, a2, w2)

  -- `max(0.0, until - clock())`, where the return time is known
  pub until_return : Clock F W → Option F → W → Option F × W
  until_return clock none w = (none, w)
  until_return clock (some t) w = let (now, w') = clock w in (some (max_f nought (sub t now)), w')

  pub wait_seconds : Clock F W → Attention F → W → Result F (Option F) × Attention F × W
  wait_seconds clock a w =
      let (gone, a1, w1) = is_away clock a w in
      if gone
      then (let (d, w2) = until_return clock a1.away_until w1 in (ok d, a1, w2))
      else let (a2, w2) = prune_asks clock a1 w1 in
        if ltb (length a2.asks) a2.max_asks
        then (ok (some nought), a2, w2)
        else let (r, w3) = until_first clock a2.asks a2.window_s w2 in (known r, a2, w3)

  pub record_ask : Clock F W → Attention F → W → Attention F × W
  record_ask clock a w =
      let (a', w') = prune_asks clock a w in
      let (now, w'') = clock w' in (record a' { asks = a'.asks ++ (now ∷ []) }, w'')

  -- `max(0, max_asks - len(asks))` is the truncated difference
  pub remaining : Clock F W → Attention F → W → ℕ × Attention F × W
  remaining clock a w =
      let (a', w') = prune_asks clock a w in (a'.max_asks - length a'.asks, a', w')

  -- `as_budget` for a person who is present
  pub present_budget : Clock F W → Attention F → W → Result F (Budget F) × Attention F × W
  present_budget clock a w =
      let (a2, w2) = prune_asks clock a w in
      let (left, a3, w3) = remaining clock a2 w2 in
      if ltb 0 left
      then (ok (attention_budget left (some nought)), a3, w3)
      else let (r, w4) = until_first clock a3.asks a3.window_s w3 in (with_reset left r, a3, w4)

  -- `as_budget` once `is_away` is known
  pub budget_from : Clock F W → Bool × Attention F × W → Result F (Budget F) × Attention F × W
  budget_from clock (true, a, w) =
      let (d, w') = until_return clock a.away_until w in (ok (attention_budget 0 d), a, w')
  budget_from clock (false, a, w) = present_budget clock a w

  pub as_budget : Clock F W → Attention F → W → Result F (Budget F) × Attention F × W
  as_budget clock a w = budget_from clock (is_away clock a w)
