-- ===== src/Retry/Delay.antt =====
-- How long the retries of src/agentpause/retry.py wait.
use agentpause.Prelude.{ℕ, false, ◌≡◌, arith}
use agentpause.Prelude.Int.{pos, negsuc}
use agentpause.Number.{Float, ◌≼◌, IsOrdered, IsMonotone, nought}
use agentpause.Number.Order.{min_f-le}
use agentpause.Retry.{RetryPolicy, base_delay, delay}

module _ {F : Type 0} ⦃f : Float F⦄ (p : RetryPolicy F) (draw : F) (attempt : ℕ) where
  -- Without jitter a delay is at most `max_delay_s`, and at most the exponential backoff.
  pub delay_capped :
      IsOrdered F
      → p.jitter ≼ nought
      → (delay p draw attempt ≼ p.max_delay_s)
        × (delay p draw attempt ≼ f.mul p.base_delay_s (f.pow p.factor attempt))
  unfolding delay base_delay
  delay_capped o h =
      let power = f.mul p.base_delay_s (f.pow p.factor attempt) in
      ground (arith, min_f-le o power p.max_delay_s)

  -- With jitter `j` and a draw for which `2 * draw - 1` lies between -1 and 1, a delay lies between
  -- `base * (1 + j * -1)` and `base * (1 + j * 1)` for the capped backoff `base`: it may exceed
  -- `max_delay_s`.
  pub delay_jittered :
      IsMonotone F
      → f.le p.jitter nought ≡ false
      → nought ≼ base_delay p attempt
      → let one = f.of_int (pos 1) in
        let minus_one = f.of_int (negsuc 0) in
        let swing = f.sub (f.mul (f.of_int (pos 2)) draw) one in
        let base = base_delay p attempt in
        minus_one ≼ swing
        → swing ≼ one
        → (f.mul base (f.add one (f.mul p.jitter minus_one)) ≼ delay p draw attempt)
          × (delay p draw attempt ≼ f.mul base (f.add one (f.mul p.jitter one)))
  unfolding delay
  delay_jittered x j b lo hi =
      let o = x.ordered in
      let one = f.of_int (pos 1) in
      let base = base_delay p attempt in
      let same = o.le_refl one in
      let positive : nought ≼ p.jitter = ground (arith, o.le_total p.jitter nought) in
      rw j (
        x.mul_mono base _ _ b (x.add_mono one one _ _ same (x.mul_mono p.jitter _ _ positive lo)),
        x.mul_mono base _ _ b (x.add_mono one one _ _ same (x.mul_mono p.jitter _ _ positive hi)),
      )
