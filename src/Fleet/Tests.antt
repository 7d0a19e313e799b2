-- ===== src/Fleet/Tests.antt =====
-- Runs of the fleet, and its theorems at one agent.
use agentpause.Prelude.{ℕ, ◌+◌, false, none, some, [], ◌∷◌, ◌≡◌, refl}
use agentpause.Prelude.Int.{ℤ, pos, ◌+ℤ◌, ◌-ℤ◌, max_ℤ}
use agentpause.Prelude.Dict.{lookup}
use agentpause.Number.Fixed.{Milli, milli, milli_float}
use agentpause.Errors.{ok, raise, backend_error}
use agentpause.Text.{Text, codes, text_eq, text_instance}
use agentpause.World.{Backend}
use agentpause.World.Ticking.{ticking, replying, failing, hello}
use agentpause.Risk
use agentpause.Risk.{Budget, Decision, continue}
use agentpause.Coordinator
use agentpause.Coordinator.{get_or, Coordinator, reserved, request, grant, judged, settle, ensure}
use agentpause.Router
use agentpause.Router.{Route}
use agentpause.Fleet.{Learner, Fleet, known, register, after_call, after_request, call}
use agentpause.Fleet.Calls.{ready, own, cost, call_answered, call_failed_holds}

abbrev window : Budget Milli
window = record {
  remaining_tokens = pos 1000;
  remaining_requests = none;
  reset_seconds = none;
  reset_requests_seconds = none;
  remaining_input_tokens = none;
  remaining_output_tokens = none;
  limit_tokens = none;
  refill_regime = none;
  remaining_seconds = none;
}

abbrev learner : Learner Milli ℕ
learner = record {
  estimate = λ e input. pos 400;
  sigma = λ e estimated. milli 20_000;
  learn = λ e input used. e + 1;
  factory = 0;
}

abbrev fleet : Backend Milli ℕ → Fleet Milli ℕ ℕ
fleet provider = record {
  router = record {
    routes =
        record {
          name = codes "p";
          backend = provider;
          budget = λ w. (ok window, w);
          cooldown_until = milli 0;
        }
        ∷ [];
    key = λ b. milli_float.of_int b.remaining_tokens;
    default_cooldown_s = milli 5000;
    last_route = none;
    on_route = false;
    routed = [];
  };
  coordinator = record {
    k = milli 2000;
    wait_threshold_s = milli 15_000;
    priority = [];
    order = [];
    reservations = [];
    waiting_since = [];
  };
  estimators = [];
}

abbrev tokens : Text → ℤ
tokens t = pos 5

abbrev go : Decision Milli
go = record {
  action = continue;
  budget = window;
  estimated = pos 400;
  sigma = milli 20_000;
  wait_seconds = none;
}

abbrev works : Fleet Milli ℕ ℕ
works = fleet (replying (codes "hi") (pos 7))

abbrev broken : Fleet Milli ℕ ℕ
broken = fleet (failing (backend_error false))

program : Unit {0}
unfolding known register after_call after_request call request grant judged settle ensure
    Coordinator.register Coordinator.complete Router.score_routes Router.ranked Router.budget
    Router.descend Router.backend max_ℤ ◌+ℤ◌ ◌-ℤ◌ Risk.program
program = tt

-- after the reply nothing is held; after the failure 440 tokens stay held
released : reserved (call learner tokens ticking (codes "a") hello works 0).1.coordinator ≡ pos 0
unfolding program
released = refl

still_held :
    reserved (call learner tokens ticking (codes "a") hello broken 0).1.coordinator ≡ pos 440
unfolding program
still_held = refl

call_answered_example :
    let (answer, fl', w') = call learner tokens ticking (codes "a") hello works 0 in
    (answer ≡ ok (go, some (codes "hi", pos 7)))
    × (reserved fl'.coordinator +ℤ get_or (pos 0) (codes "a") works.coordinator.reservations
        ≡ reserved works.coordinator)
    × ((j : Text)
        → text_eq (codes "a") j ≡ false
        → lookup j fl'.coordinator.reservations ≡ lookup j works.coordinator.reservations)
    × (lookup (codes "a") fl'.estimators ≡ some (get_or 0 (codes "a") works.estimators + 1))
    × ((j : Text)
        → text_eq (codes "a") j ≡ false
        → lookup j fl'.estimators ≡ lookup j works.estimators)
unfolding program
call_answered_example =
    call_answered learner tokens ticking (codes "a") hello works 0 go (codes "hi") (pos 7) refl refl
      refl

call_failed_holds_example :
    let start = ready learner tokens ticking (codes "a") hello broken 0 in
    let (answer, fl', w') = call learner tokens ticking (codes "a") hello broken 0 in
    (answer ≡ raise (backend_error false))
    × (fl'.estimators ≡ start.estimators)
    × (reserved fl'.coordinator +ℤ own learner tokens ticking (codes "a") hello broken 0
        ≡ reserved start.coordinator +ℤ cost learner tokens ticking (codes "a") hello broken 0)
unfolding program
call_failed_holds_example =
    call_failed_holds learner tokens ticking (codes "a") hello broken 0 go (backend_error false)
      refl refl refl
