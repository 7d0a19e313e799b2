-- ===== src/Retry.antt =====
-- src/agentpause/retry.py: how long to wait before another try. `draw` is what `random.random()`
-- returns.
pub mod Delay
mod Tests
use agentpause.Prelude.{ℕ, Bool, Option, none, some, if◌then◌else◌}
use agentpause.Prelude.Int.{pos}
use agentpause.Number.{Float, nought, min_f}
use agentpause.World.{Sleep}

pub record RetryPolicy (F : Type 0) : Type 0 where
  pub max_retries : ℕ
  pub base_delay_s : F
  pub factor : F
  pub max_delay_s : F
  pub jitter : F

module _ {F : Type 0} ⦃f : Float F⦄ where
  open f use {of_int, add, sub, mul, pow, le}

  pub base_delay : RetryPolicy F → ℕ → F
  base_delay p attempt = min_f (mul p.base_delay_s (pow p.factor attempt)) p.max_delay_s

  unfoldable pub delay : RetryPolicy F → F → ℕ → F
  delay p draw attempt =
      let base = base_delay p attempt in
      if le p.jitter nought
      then base
      else mul base
          (add (of_int (pos 1)) (mul p.jitter (sub (mul (of_int (pos 2)) draw) (of_int (pos 1)))))

  -- `asleep`: an injected sleep, or that of asyncio
  pub asleep : {W : Type 0} → Option (Sleep F W) → Sleep F W → F → W → W
  asleep none asyncio_sleep d w = asyncio_sleep d w
  asleep (some s) asyncio_sleep d w = s d w
