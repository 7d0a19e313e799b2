-- ===== src/Risk/Wait.antt =====
-- How long the decision rule of src/agentpause/risk.py waits, and when it refuses to wait.
use agentpause.Prelude.{true, false, none, some, ◌≡◌, arith, Bool-cases, Option-cases, inl, inr}
use agentpause.Prelude.Int.{ℤ, ◌≤ℤ◌, ◌-ℤ◌}
use agentpause.Number.{Float, ◌≼◌, IsExact, nought, truthy}
use agentpause.Number.Order.{min_f-le}
use agentpause.Risk.{
  Budget, Ask, continue, checkpoint, decide, demand, wait_for, tokens_fit, requests_fit, input_fit,
  output_fit, time_fit, needs_whole_window, should_checkpoint, refill_wait, refill_math,
  pause_or_suspend,
}
use agentpause.Risk.Decide.{decide-continue_iff}

module _ {F : Type 0} ⦃f : Float F⦄ where
  positive_deficit :
      (remaining : ℤ) (needed : F)
      → IsExact F
      → f.lt (f.of_int remaining) needed ≡ true
      → f.le (f.sub needed (f.of_int remaining)) nought ≡ false
  positive_deficit remaining needed x short =
      let r = f.of_int remaining in
      rw (x.le-sub needed r nought, x.add_comm nought r, x.add_zero r)
        (ground (arith, x.ordered.lt-eq-not-le r needed))

  -- A wait is suggested only if a reset is known, and never exceeds it, as long as the need is more
  -- than what remains.
  refill_wait-le :
      (b : Budget F) (needed : F) {w reset : F}
      → IsExact F
      → f.lt (f.of_int b.remaining_tokens) needed ≡ true
      → refill_wait b needed ≡ some w
      → b.reset_seconds ≡ some reset
      → w ≼ reset
  unfolding refill_wait refill_math
  refill_wait-le b needed {w} {reset} x short e r = elim (Option-cases (b.limit_tokens)) [
    | inl l ↦ ground (arith, x.ordered.le_refl reset)
    | inr (limit, l) ↦
        let missing = limit -ℤ b.remaining_tokens in
        let deficit = f.sub needed (f.of_int b.remaining_tokens) in
        let rate = f.div (f.of_int missing) reset in
        ground (
          arith,
          x.ordered.le_refl reset,
          positive_deficit b.remaining_tokens needed x short,
          min_f-le x.ordered reset (f.mul (f.div deficit rate) (f.lit 115 100)),
        )
  ]

  -- Without rounding, a pure token deficit never waits longer than the reset of the window: if the
  -- requests, the input and the output fit and a reset is reported, a suggested wait is at most it.
  pub decide-wait_le_reset :
      (b : Budget F) (a : Ask F) {w reset : F}
      → IsExact F
      → requests_fit b a ≡ true
      → input_fit b a ≡ true
      → output_fit b a ≡ true
      → b.reset_seconds ≡ some reset
      → (decide b a).wait_seconds ≡ some w
      → w ≼ reset
  unfolding decide pause_or_suspend wait_for tokens_fit should_checkpoint
  decide-wait_le_reset b a {w} {reset} x r i o e h =
      let needed = demand a.estimated a.sigma a.k in
      elim (Bool-cases (f.lt (f.of_int b.remaining_tokens) needed)) [
        | inl short ↦ elim (Option-cases (refill_wait b needed)) [
          | inl nothing ↦ ground arith
          | inr (v, q) ↦ ground (arith, refill_wait-le b needed x short q e)
        ]
        | inr enough ↦ ground (arith, x.ordered.le_refl reset)
      ]

  -- The anti-livelock rule: a step that needs 98% of the window or more, and lacks only tokens, is
  -- never waited for.
  pub decide_whole_window :
      (b : Budget F) (a : Ask F) {limit : ℤ}
      → b.limit_tokens ≡ some limit
      → f.mul (f.of_int limit) (f.lit 98 100) ≼ demand a.estimated a.sigma a.k
      → tokens_fit b a ≡ false
      → requests_fit b a ≡ true
      → input_fit b a ≡ true
      → output_fit b a ≡ true
      → (decide b a).action ≡ checkpoint
  unfolding decide pause_or_suspend wait_for needs_whole_window
  decide_whole_window b a l h t r i o = ground arith

  enough_tokens :
      (x : IsExact F) (r more : ℤ) (needed : F)
      → r ≤ℤ more
      → f.lt (f.of_int r) needed ≡ false
      → f.lt (f.of_int more) needed ≡ false
  enough_tokens x r more needed h t = ground (
    arith,
    x.ordered.lt-eq-not-le (f.of_int r) needed,
    x.ordered.lt-eq-not-le (f.of_int more) needed,
    x.of_int-le r more,
    x.ordered.le_trans needed (f.of_int r) (f.of_int more),
  )

  -- More remaining tokens never turn `continue` into anything else.
  pub decide_mono_tokens :
      (b : Budget F) (a : Ask F) (more : ℤ)
      → IsExact F
      → b.remaining_tokens ≤ℤ more
      → (decide b a).action ≡ continue
      → (decide (record b { remaining_tokens = more }) a).action ≡ continue
  decide_mono_tokens b a more x h c =
      let fits = (decide-continue_iff b a).0 c in
      (decide-continue_iff (record b { remaining_tokens = more }) a).1 (record {
        tokens =
            enough_tokens x b.remaining_tokens more (demand a.estimated a.sigma a.k) h fits.tokens;
        requests = fits.requests;
        input = fits.input;
        output = fits.output;
        time = fits.time;
      })

  -- A request reset of zero seconds counts as no reset at all: the decision is the one for a reading
  -- that does not report it, so the wait is taken from the token clock.
  pub decide_zero_reset :
      (b : Budget F) (a : Ask F) (zero_s : F)
      → truthy zero_s ≡ false
      → (decide (record b { reset_requests_seconds = some zero_s }) a).action
        ≡ (decide (record b { reset_requests_seconds = none }) a).action
  unfolding decide pause_or_suspend wait_for tokens_fit requests_fit input_fit output_fit time_fit
      refill_wait refill_math
  decide_zero_reset b a zero_s z = ground arith
