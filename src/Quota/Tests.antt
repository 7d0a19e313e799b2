-- ===== src/Quota/Tests.antt =====
-- Runs of the sliding-window quota, and its theorems in a world of whole seconds.
use agentpause.Prelude.{true, false, List, [], ◌∷◌, ◌++◌, ◌≡◌, ◌↔◌, refl, arith, All}
use agentpause.Prelude.Int.{◌+ℤ◌, ◌-ℤ◌}
use agentpause.Number.{◌≼◌}
use agentpause.Number.Fixed.{Milli, milli, milli_float, Milli-IsOrdered, Milli-IsExact}
use agentpause.Errors.{ok}
use agentpause.World.Ticking.{ticking, resting, ticking-IsMonotonic, resting-Sleeps}
use agentpause.Quota.Window.{prune, prune_splits}
use agentpause.Quota.{
  ToolQuota, prune_calls, ready, until_first, wait_seconds, record_call, pause, take_slot, acquire,
  guarded,
}
use agentpause.Quota.Laws.{Taken, IsValid, acquire-IsValid, wait_seconds_exact}

-- two calls in a minute, made at second 5 and at second 50
abbrev busy : ToolQuota Milli
busy = record {
  calls_per_window = 2;
  window_s = milli 60_000;
  calls = milli 5000 ∷ milli 50_000 ∷ [];
}

program : Unit {0}
unfolding prune prune_calls ready until_first wait_seconds record_call pause take_slot acquire
    guarded ◌+ℤ◌ ◌-ℤ◌
program = tt

full_now : (ready ticking busy 60).0 ≡ false
unfolding program
full_now = refl

free_later : (ready ticking busy 65).0 ≡ true
unfolding program
free_later = refl

-- at second 61 the oldest call has four seconds left in the window
waits : (wait_seconds ticking busy 60).0 ≡ ok (milli 4000)
unfolding program
waits = refl

acquires : (acquire ticking resting busy 60).1.calls ≡ milli 50_000 ∷ milli 67_000 ∷ []
unfolding program
acquires = refl

busy-IsValid : IsValid busy
busy-IsValid = record { positive = omega arith; bounded = omega arith }

acquire-IsValid_example :
    let (r, q', w') = acquire ticking resting busy 60 in
    (r ≡ ok tt) × IsValid q' × Taken ticking resting busy (milli 60_000) q' w'
acquire-IsValid_example =
    acquire-IsValid ticking resting busy 60 Milli-IsExact ticking-IsMonotonic resting-Sleeps
      busy-IsValid

wait_seconds_exact_example :
    (d : Milli) × ((wait_seconds ticking busy 60).0 ≡ ok d)
    × ((milli_float.add (milli 61_000) d ≼ milli 65_000)
        ↔ (milli 5000 ≼ milli_float.sub (milli 65_000) (milli 60_000)))
unfolding prune_calls prune ◌-ℤ◌
wait_seconds_exact_example =
    wait_seconds_exact ticking busy 60 (milli 5000) (milli 50_000 ∷ []) (milli 65_000) Milli-IsExact
      refl (omega arith)

prune_splits_example :
    (old : List Milli) × (busy.calls ≡ old ++ prune (milli 6000) busy.calls)
    × All (λ u. u ≼ milli 6000) old
    × All (λ u. milli_float.le u (milli 6000) ≡ false) (prune (milli 6000) busy.calls)
prune_splits_example = prune_splits Milli-IsOrdered (milli 6000) busy.calls ((refl, tt), (tt, tt))
