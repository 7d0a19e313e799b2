-- ===== src/Retry/Tests.antt =====
-- Runs of the retry delays, and their theorems at the default policy.
use agentpause.Prelude.{none, ◌≡◌, refl}
use agentpause.Prelude.Int.{negsuc, ◌+ℤ◌, ◌-ℤ◌}
use agentpause.Number.{◌≼◌}
use agentpause.Number.Fixed.{Milli, milli, milli_float, Milli-IsOrdered, Milli-IsMonotone}
use agentpause.World.Ticking.{resting}
use agentpause.Retry.{RetryPolicy, base_delay, delay, asleep}
use agentpause.Retry.Delay.{delay_capped, delay_jittered}

abbrev policy : RetryPolicy Milli
policy = record {
  max_retries = 3;
  base_delay_s = milli 1000;
  factor = milli 2000;
  max_delay_s = milli 60_000;
  jitter = milli 250;
}

abbrev steady : RetryPolicy Milli
steady = record policy { jitter = milli 0 }

third : delay steady (milli 500) 2 ≡ milli 4000
unfolding delay base_delay
third = refl

-- the ceiling is 60 seconds, and jitter goes beyond it
beyond_ceiling : delay policy (milli 1000) 9 ≡ milli 75_000
unfolding delay base_delay ◌+ℤ◌ ◌-ℤ◌
beyond_ceiling = refl

sleeps : asleep none resting (milli 1500) 10 ≡ 12
unfolding asleep
sleeps = refl

delay_capped_example :
    (delay steady (milli 500) 9 ≼ milli 60_000)
    × (delay steady (milli 500) 9 ≼ milli_float.mul (milli 1000) (milli_float.pow (milli 2000) 9))
delay_capped_example = delay_capped steady (milli 500) 9 Milli-IsOrdered refl

delay_jittered_example :
    let base = base_delay policy 2 in
    (milli_float.mul base (
        milli_float.add
          (milli 1000)
          (milli_float.mul (milli 250) (record { thousandths = negsuc 999 })))
      ≼ delay policy (milli 750) 2)
    × (delay policy (milli 750) 2
        ≼ milli_float.mul base
            (milli_float.add (milli 1000) (milli_float.mul (milli 250) (milli 1000))))
unfolding base_delay ◌-ℤ◌
delay_jittered_example = delay_jittered policy (milli 750) 2 Milli-IsMonotone refl refl refl refl
