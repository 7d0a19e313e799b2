-- ===== src/Coordinator/Tests.antt =====
-- Runs of the coordinator, and its theorems at a window of a thousand tokens.
use agentpause.Prelude.{ℕ, ◌+◌, [], ◌∷◌, none, ◌≡◌, ◌≢◌, refl, arith}
use agentpause.Prelude.Int.{pos, ◌+ℤ◌, ◌-ℤ◌, ◌≤ℤ◌, max_ℤ}
use agentpause.Prelude.Dict.{Dict}
use agentpause.Number.Fixed.{Milli, milli, milli_float, Milli-IsExact}
use agentpause.Errors.{ok}
use agentpause.Text.{Text, codes}
use agentpause.World.Ticking.{ticking}
use agentpause.Risk
use agentpause.Risk.{Budget, Decision, continue, checkpoint, decide}
use agentpause.Coordinator.{
  Coordinator, Telemetry, Request, register, ensure, reserved, complete, settle, judged, grant,
  request, allocate, arbitrate,
}
use agentpause.Coordinator.Holds.{Holds}
use agentpause.Coordinator.Overcommit.{Held, request_fits, arbitrate_fits}

abbrev window : Budget Milli
window = record {
  remaining_tokens = pos 1000;
  remaining_requests = none;
  reset_seconds = none;
  reset_requests_seconds = none;
  remaining_input_tokens = none;
  remaining_output_tokens = none;
  limit_tokens = none;
  refill_regime = none;
  remaining_seconds = none;
}

abbrev telemetry : Telemetry Milli ℕ
telemetry w = (ok window, w + 1)

abbrev pool : Coordinator Milli
pool = record {
  k = milli 2000;
  wait_threshold_s = milli 15_000;
  priority = [];
  order = [];
  reservations = [];
  waiting_since = [];
}

abbrev wants : Text → ℕ → Request Milli
wants id n = record { agent_id = id; estimated = pos n; sigma = milli 50_000 }

program : Unit {0}
unfolding register ensure complete settle judged grant request allocate arbitrate max_ℤ ◌+ℤ◌ ◌-ℤ◌
    Risk.program
program = tt

-- 600 and the margin of 100 leave no room for 300 and its margin
second_waits :
    let (_, c, w) = request telemetry ticking (wants (codes "a") 600) pool 0 in
    let (answer, c', _) = request telemetry ticking (wants (codes "b") 300) c w in
    (reserved c ≡ pos 700) × (reserved c' ≡ pos 700) × (reserved (complete (codes "a") c') ≡ pos 0)
unfolding program
second_waits = (refl, refl, refl)

-- the agent with the higher priority is served first, whatever the order of the requests
priority_first :
    let c = register (codes "b") (pos 1) (register (codes "a") (pos 0) pool) in
    let rs = wants (codes "a") 600 ∷ wants (codes "b") 700 ∷ [] in
    (arbitrate telemetry ticking rs c 0).1.reservations ≡ (codes "b", pos 800) ∷ []
unfolding program
priority_first = refl

request_fits_example :
    let (answer, c', w') = request telemetry ticking (wants (codes "a") 600) pool 0 in
    (d : Decision Milli) × (answer ≡ ok d)
    × (d.action ≡ continue → reserved c' ≤ℤ pos 1000)
    × (d.action ≢ continue → c'.reservations ≡ [])
unfolding ◌+ℤ◌
request_fits_example =
    request_fits telemetry ticking Milli-IsExact (wants (codes "a") 600) pool 0 window refl
      (omega arith)

arbitrate_fits_example :
    let rs = wants (codes "a") 600 ∷ wants (codes "b") 700 ∷ [] in
    let (answer, c', w') = arbitrate telemetry ticking rs pool 0 in
    ((all : Dict Text (Decision Milli)) × (answer ≡ ok all)
      × Held telemetry ticking Milli-IsExact rs pool.k all c'.reservations)
    × Holds c'.reservations
    × (reserved c' ≤ℤ pos 1000)
unfolding ◌+ℤ◌
arbitrate_fits_example =
    arbitrate_fits telemetry ticking Milli-IsExact
      (wants (codes "a") 600 ∷ wants (codes "b") 700 ∷ []) pool 0 window (λ w. refl)
      (omega arith, (omega arith, tt)) tt (omega arith)
