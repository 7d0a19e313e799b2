-- ===== src/Risk/Binding.antt =====
-- When `decide` of src/agentpause/risk.py waits, and for how long.
use agentpause.Prelude.{false, none, some, ◌≡◌}
use agentpause.Prelude.Int.{ℤ, pos, leb_ℤ, ◌+ℤ◌, ◌-ℤ◌, ◌≤ℤ◌}
use agentpause.Number.{Float, nought, min_f, or_else}
use agentpause.Risk.{Budget, Ask, fixed, demand, is_fixed}
use agentpause.Risk.Decide.{Covered}

module _ {F : Type 0} ⦃f : Float F⦄ where
  -- The wait for tokens alone: none reaches a step that needs nearly the whole window; otherwise it
  -- is the reset, unless the limit gives a rate at which the deficit is made up sooner.
  pub record Refills (b : Budget F) (a : Ask F) (w : F) : Type 0 where
    pub reset : F
    pub known : b.reset_seconds ≡ some reset
    pub within :
        (limit : ℤ)
        → b.limit_tokens ≡ some limit
        → f.le (f.mul (f.of_int limit) (f.lit 98 100)) (demand a.estimated a.sigma a.k) ≡ false
    pub no_limit : b.limit_tokens ≡ none → w ≡ reset
    pub fixed_window : b.refill_regime ≡ some fixed → w ≡ reset
    pub trickling :
        (limit : ℤ)
        → b.limit_tokens ≡ some limit
        → is_fixed b.refill_regime ≡ false
        → f.le reset nought ≡ false
        → leb_ℤ (limit -ℤ b.remaining_tokens) (pos 0) ≡ false
        → let deficit = f.sub (demand a.estimated a.sigma a.k) (f.of_int b.remaining_tokens) in
          let rate = f.div (f.of_int (limit -ℤ b.remaining_tokens)) reset in
          f.le deficit nought ≡ false → w ≡ min_f reset (f.mul (f.div deficit rate) (f.lit 115 100))

  -- The wait for the dimension that binds: requests have their own clock; an input or an output that
  -- does not fit waits out the reset; tokens refill.
  pub record BindingWait (b : Budget F) (a : Ask F) (w : F) : Type 0 where
    pub requests :
        (r : ℤ)
        → b.remaining_requests ≡ some r
        → ¬ (pos 1 +ℤ a.rpm_margin ≤ℤ r)
        → or_else b.reset_requests_seconds b.reset_seconds ≡ some w
    pub split :
        ((r : ℤ) → b.remaining_requests ≡ some r → pos 1 +ℤ a.rpm_margin ≤ℤ r)
        → ¬ (
            Covered ◌≤ℤ◌ b.remaining_input_tokens a.estimated_input
            × Covered ◌≤ℤ◌ b.remaining_output_tokens a.estimated_output)
        → b.reset_seconds ≡ some w
    pub tokens :
        ((r : ℤ) → b.remaining_requests ≡ some r → pos 1 +ℤ a.rpm_margin ≤ℤ r)
        → Covered ◌≤ℤ◌ b.remaining_input_tokens a.estimated_input
        → Covered ◌≤ℤ◌ b.remaining_output_tokens a.estimated_output
        → Refills b a w
