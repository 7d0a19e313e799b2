-- ===== src/Risk.antt =====
-- src/agentpause/risk.py: a telemetry reading, the decision rule on it, and the risk score.
pub mod Decide
pub mod Binding
pub mod Wait
pub mod Score
mod Tests
use agentpause.Prelude.{
  ℕ, Bool, true, false, not, ◌&&◌, ◌||◌, Option, none, some, if◌then◌else◌, is_none,
}
use agentpause.Prelude.Int.{ℤ, pos, leb_ℤ, ltb_ℤ, ◌+ℤ◌, ◌-ℤ◌, max_ℤ}
use agentpause.Number.{Float, nought, min_f, max_f, or_else}

-- The measured refill regime of a provider, as refill.py reports it.
pub data Regime : Type 0 where
  continuous fixed unknown : Regime

pub record Budget (F : Type 0) : Type 0 where
  pub remaining_tokens : ℤ
  pub remaining_requests : Option ℤ
  pub reset_seconds : Option F
  pub reset_requests_seconds : Option F
  pub remaining_input_tokens : Option ℤ
  pub remaining_output_tokens : Option ℤ
  pub limit_tokens : Option ℤ
  pub refill_regime : Option Regime
  pub remaining_seconds : Option F

pub data Verb : Type 0 where
  continue wait checkpoint : Verb

pub record Decision (F : Type 0) : Type 0 where
  pub action : Verb
  pub budget : Budget F
  pub estimated : ℤ
  pub sigma : F
  pub wait_seconds : Option F

-- The arguments of `decide` behind the budget.
pub record Ask (F : Type 0) : Type 0 where
  pub estimated : ℤ
  pub sigma : F
  pub k : F
  pub wait_threshold_s : F
  pub estimated_input : Option ℤ
  pub estimated_output : Option ℤ
  pub estimated_latency : Option F
  pub rpm_margin : ℤ

-- `remaining is None or wanted is None or wanted <= remaining`
unfoldable pub covers : {A : Type 0} → (A → A → Bool) → Option A → Option A → Bool
covers le none _ = true
covers le (some r) none = true
covers le (some r) (some w) = le w r

-- `remaining is None or remaining >= needed`
unfoldable pub at_least : Option ℤ → ℤ → Bool
at_least none n = true
at_least (some r) n = leb_ℤ n r

abbrev pub is_fixed : Option Regime → Bool
is_fixed (some fixed) = true
is_fixed (some continuous) = false
is_fixed (some unknown) = false
is_fixed none = false

module _ {F : Type 0} ⦃f : Float F⦄ where
  open f use {of_int, lit, add, sub, mul, div, le, lt}

  -- `estimated + k * sigma`
  abbrev pub demand : ℤ → F → F → F
  demand estimated sigma k = add (of_int estimated) (mul k sigma)

  unfoldable pub should_checkpoint : ℤ → ℤ → F → F → Bool
  should_checkpoint remaining estimated sigma k = lt (of_int remaining) (demand estimated sigma k)

  abbrev wait_buffer : F
  wait_buffer = lit 115 100

  -- the wait from the limit and the reset, once both are known
  unfoldable pub refill_math : Budget F → ℤ → F → F → F
  refill_math b limit reset needed =
      let missing = limit -ℤ b.remaining_tokens in
      let rate = div (of_int missing) reset in
      let deficit = sub needed (of_int b.remaining_tokens) in
      if leb_ℤ missing (pos 0)
      then reset
      else if le deficit nought
      then lit 5 10
      else min_f reset (mul (div deficit rate) wait_buffer)

  unfoldable pub refill_wait : Budget F → F → Option F
  refill_wait b needed = elim (b.reset_seconds) [
    | none ↦ none
    | some reset ↦ if is_fixed b.refill_regime then some reset else elim (b.limit_tokens) [
      | none ↦ some reset
      | some limit ↦ if le reset nought then some reset else some (refill_math b limit reset needed)
    ]
  ]

  -- the five tests at the top of `decide`
  unfoldable pub tokens_fit : Budget F → Ask F → Bool
  unfolding should_checkpoint
  tokens_fit b a = not (should_checkpoint b.remaining_tokens a.estimated a.sigma a.k)

  unfoldable pub requests_fit : Budget F → Ask F → Bool
  unfolding at_least
  requests_fit b a = at_least b.remaining_requests (pos 1 +ℤ a.rpm_margin)

  unfoldable pub input_fit : Budget F → Ask F → Bool
  unfolding covers
  input_fit b a = covers leb_ℤ b.remaining_input_tokens a.estimated_input

  unfoldable pub output_fit : Budget F → Ask F → Bool
  unfolding covers
  output_fit b a = covers leb_ℤ b.remaining_output_tokens a.estimated_output

  unfoldable pub time_fit : Budget F → Ask F → Bool
  unfolding covers
  time_fit b a = covers le b.remaining_seconds a.estimated_latency

  -- `limit is not None and needed >= limit * 0.98`
  unfoldable pub needs_whole_window : Option ℤ → F → Bool
  needs_whole_window none needed = false
  needs_whole_window (some limit) needed = le (mul (of_int limit) (lit 98 100)) needed

  -- the wait that `decide` computes when the step does not fit
  unfoldable pub wait_for : Budget F → Ask F → Option F
  wait_for b a =
      let needed = demand a.estimated a.sigma a.k in
      if not (requests_fit b a)
      then or_else b.reset_requests_seconds b.reset_seconds
      else if is_none b.reset_seconds
      then none
      else if not (tokens_fit b a) && input_fit b a && output_fit b a
      then if needs_whole_window b.limit_tokens needed then none else refill_wait b needed
      else b.reset_seconds

  abbrev outcome : Budget F → Ask F → Verb → Option F → Decision F
  outcome b a verb w = record {
    action = verb;
    budget = b;
    estimated = a.estimated;
    sigma = a.sigma;
    wait_seconds = w;
  }

  -- the last test of `decide`
  unfoldable pub pause_or_suspend : Budget F → Ask F → Option F → Decision F
  pause_or_suspend b a none = outcome b a checkpoint none
  pause_or_suspend b a (some w) =
      if le w a.wait_threshold_s then outcome b a wait (some w) else outcome b a checkpoint none

  unfoldable pub decide : Budget F → Ask F → Decision F
  decide b a =
      if not (time_fit b a)
      then outcome b a checkpoint none
      else if tokens_fit b a && requests_fit b a && input_fit b a && output_fit b a
      then outcome b a continue none
      else pause_or_suspend b a (wait_for b a)

-- every definition of this file, for the tests
unfoldable pub program : Unit {0}
unfolding should_checkpoint refill_math refill_wait tokens_fit requests_fit input_fit output_fit
    time_fit needs_whole_window wait_for pause_or_suspend decide covers at_least
program = tt
