-- ===== src/Scheduler/Tests.antt =====
-- Runs of the calls of a session, and the theorems on them at a provider that is limited at first.
use agentpause.Prelude.{ℕ, ◌+◌, true, false, none, some, ◌≡◌, refl, arith}
use agentpause.Prelude.Int.{ℤ, pos, ◌+ℤ◌, ◌-ℤ◌}
use agentpause.Number.Fixed.{Milli, milli, milli_float}
use agentpause.Errors.{Error, Result, ok, raise, rate_limit_hit}
use agentpause.Text.{Text, codes}
use agentpause.World.Ticking.{ticking, hello}
use agentpause.Risk
use agentpause.Risk.{Budget, Decision, continue, checkpoint}
use agentpause.Store.{no_fault, path_of}
use agentpause.Scheduler.{
  Scheduler, call_with, call, acall, provider, add_message, register_rate_limit_hit, pause_for,
  rest, attempts, record_success, finish, spend,
}
use agentpause.Scheduler.Retries.{after, limits}
use agentpause.Scheduler.Loop.{while_true, while_true_ends}
use agentpause.Scheduler.Calls.{Advanced, begun, call_with_recovers, call_with_gives_up}
use agentpause.Scheduler.Resume.{fresh, session, packed, suspend, complete}
use agentpause.Scheduler.Resume.Roundtrip.{session-suspend, session-complete}
use agentpause.Scheduler.Sample.{warming, counting, config, scheduler, run, memory, plain, nothing}

program : Unit {0}
unfolding call_with call acall provider add_message register_rate_limit_hit pause_for rest attempts
    record_success finish ◌+ℤ◌ ◌-ℤ◌ Risk.program
program = tt

-- two rate limits, then the reply: the margin has grown twice
recovered :
    let (r, se, s, w) = call counting config run scheduler 0 in
    (r ≡ ok (codes "fine"))
    × (se.cp.step ≡ 3)
    × (s.rate_limit_hits ≡ 2)
    × (s.safety_k ≡ milli 2500)
    × (s.money_spent ≡ milli 240)
unfolding program
recovered = (refl, refl, refl, refl, refl)

no_async_backend : (acall counting config run scheduler 0).1 ≡ run
unfolding program
no_async_backend = refl

call_with_recovers_example :
    let (r, se', s', w') = call_with counting config (warming 3) true run scheduler 0 in
    (r ≡ ok (codes "fine"))
    × Advanced counting config (warming 3) true run (codes "fine") (pos 120) se'
    × (s'.rate_limit_hits ≡ 0 + limits config (warming 3) true hello 1 0 1)
    × (s'.money_spent ≡ spend (some (milli 2000)) (pos 120) (milli 0))
    × ((latency : Milli) × (s'.estimator ≡ 8))
unfolding pause_for rest ◌+ℤ◌
call_with_recovers_example =
    call_with_recovers counting config (warming 3) true run scheduler 0 1 (codes "fine") (pos 120)
      (omega arith) (rate_limit_hit (some (milli 1000)), refl, refl, tt) refl

abbrev limited : Error Milli
limited = rate_limit_hit (some (milli 1000))

call_with_gives_up_example :
    let backend = warming 100 in
    let (r, se', s', w') = call_with counting config backend true run scheduler 0 in
    let last = after config backend true hello 3 0 (begun config 0) in
    ((e : Error Milli) × (r ≡ raise e) × ((backend hello last).0 ≡ raise e))
    × (se' ≡ run)
    × (s'.money_spent ≡ milli 0)
    × (s'.estimator ≡ 7)
    × (s'.rate_limit_hits ≡ 0 + limits config backend true hello 4 0 1)
unfolding pause_for rest ◌+ℤ◌
call_with_gives_up_example =
    call_with_gives_up counting config (warming 100) true run scheduler 0
      (limited, refl, refl, (limited, refl, refl, (limited, refl, refl, (limited, refl, refl, tt))))

while_true_ends_example :
    (end : Result Milli (Text × ℤ) × Scheduler Milli ℕ × ℕ) × (while_true config
        (warming 100)
        true
        run.cp.messages
        4
        0
        scheduler
        (config.clock 0).1
      ≡ some end)
    × (call_with counting config (warming 100) true run scheduler 0
        ≡ finish counting config (config.clock 0).0 run end)
while_true_ends_example =
    while_true_ends counting config (warming 100) true 4 run scheduler 0 (omega arith)

session-suspend_example :
    let (r, _, files) = suspend memory plain (codes "dir") no_fault 0 run scheduler nothing in
    (r ≡ ok (path_of (codes "dir") (codes "a")))
    × ((session memory plain
          (codes "dir")
          ticking
          (codes "a")
          (record scheduler { estimator = 0 })
          files
          50).0
        ≡ ok (
          record {
            session_id = codes "a";
            started_at = milli 50_000;
            resumed = true;
            cp = packed memory plain (codes "dir") run scheduler;
          },
          record scheduler { estimator = 7 },
        ))
session-suspend_example =
    session-suspend memory plain (codes "dir") ticking run scheduler
      (record scheduler { estimator = 0 }) nothing 0 50 1 (λ _. 7) (λ s cp. refl) refl refl refl

session-complete_example :
    (session memory plain
      (codes "dir")
      ticking
      (codes "a")
      scheduler
      (complete (codes "dir") run nothing)
      50).0
    ≡ ok (
      record {
        session_id = codes "a";
        started_at = milli 50_000;
        resumed = false;
        cp = fresh none (codes "a");
      },
      scheduler,
    )
session-complete_example =
    session-complete memory plain (codes "dir") ticking run scheduler nothing 50
