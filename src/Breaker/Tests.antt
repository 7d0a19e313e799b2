-- ===== src/Breaker/Tests.antt =====
-- Runs of the circuit breaker, and its theorems at concrete calls.
use agentpause.Prelude.{ℕ, ◌<◌, true, none, some, ◌≡◌, refl, arith, []}
use agentpause.Prelude.Int.{pos, ◌-ℤ◌, ◌+ℤ◌}
use agentpause.Number.Fixed.{Milli, milli, milli_float}
use agentpause.Errors.{ok, raise, rate_limit_hit, circuit_open_error, backend_error}
use agentpause.World.Ticking.{ticking, failing, replying, hello}
use agentpause.Breaker.{Breaker, half_open, init, state, count_failure, settle, guarded, call}
use agentpause.Breaker.Laws.{
  IsValid, Settled, call-IsValid, call_fails_fast, call_answers, calls, calls_trip,
}

-- two failures open it for ten seconds
abbrev fresh : Breaker Milli
fresh = record { failure_threshold = 2; cooldown_s = milli 10_000; failures = 0; opened_at = none }

abbrev tripped : Breaker Milli
tripped = record fresh { failures = 2; opened_at = some (milli 3000) }

program : Unit {0}
unfolding init state count_failure settle guarded call calls ◌-ℤ◌ ◌+ℤ◌
program = tt

starts : init 2 (milli 10_000) ≡ fresh
unfolding program
starts = refl

trips : calls ticking (failing (rate_limit_hit none)) hello 2 fresh 1 ≡ (tripped, 4)
unfolding program
trips = refl

probe_closes : call ticking (replying [] (pos 7)) hello tripped 20 ≡ (ok ([], pos 7), fresh, 22)
unfolding program
probe_closes = refl

fresh-IsValid : IsValid fresh
fresh-IsValid = record { positive = omega arith; below = λ e. omega arith }

call-IsValid_example : IsValid (call ticking (failing (rate_limit_hit none)) hello fresh 1).1
call-IsValid_example =
    call-IsValid ticking (failing (rate_limit_hit none)) hello fresh 1 fresh-IsValid

call_fails_fast_example :
    call ticking (replying [] (pos 7)) hello tripped 5 ≡ (raise circuit_open_error, tripped, 6)
unfolding ◌-ℤ◌
call_fails_fast_example = call_fails_fast ticking (replying [] (pos 7)) hello tripped 5 refl refl

call_answers_example :
    (call ticking (failing (backend_error true)) hello tripped 20).0 ≡ raise (backend_error true)
    × Settled ticking half_open (raise (backend_error true)) tripped 22 (
      (call ticking (failing (backend_error true)) hello tripped 20).1,
      (call ticking (failing (backend_error true)) hello tripped 20).2,
    )
unfolding state ◌-ℤ◌
call_answers_example =
    call_answers ticking (failing (backend_error true)) hello tripped 20 (λ e. ground arith)

calls_trip_example :
    let b' = (calls ticking (failing (rate_limit_hit none)) hello 2 fresh 1).0 in
    (b'.failures ≡ 2)
    × (2 < 2 → b'.opened_at ≡ none)
    × (◌≡◌ {A = ℕ} 2 2 → (t : Milli) × (b'.opened_at ≡ some t))
calls_trip_example =
    calls_trip ticking (failing (rate_limit_hit none)) hello 2 fresh 1
      (λ v. (rate_limit_hit none, refl, refl)) refl (omega arith) (omega arith)
