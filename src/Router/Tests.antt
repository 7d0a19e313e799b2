-- ===== src/Router/Tests.antt =====
-- Runs of the router, and its theorem at three providers.
use agentpause.Prelude.{ℕ, true, none, some, List, [], ◌∷◌, ◌≡◌, refl, All}
use agentpause.Prelude.Int.{ℤ, pos, ◌+ℤ◌}
use agentpause.Number.Fixed.{Milli, milli, milli_float, Milli-IsOrdered}
use agentpause.Errors.{Error, ok, raise, telemetry_error, rate_limit_hit, fatal, verdict}
use agentpause.Text.{Text, codes}
use agentpause.World.{Message}
use agentpause.World.Ticking.{ticking, replying, failing, hello}
use agentpause.Risk.{Budget}
use agentpause.Router.{
  Route, Router, Entry, score_routes, ranked, park, budget, served, descend, backend,
}
use agentpause.Router.Ranking.{Eligible, Outdone, candidates, budget_best}

abbrev holding : ℕ → Budget Milli
holding n = record {
  remaining_tokens = pos n;
  remaining_requests = none;
  reset_seconds = some (milli 20_000);
  reset_requests_seconds = none;
  remaining_input_tokens = none;
  remaining_output_tokens = none;
  limit_tokens = none;
  refill_regime = none;
  remaining_seconds = none;
}

abbrev small : Route Milli ℕ
small = record {
  name = codes "small";
  backend = replying (codes "hi") (pos 7);
  budget = λ w. (ok (holding 100), w);
  cooldown_until = milli 0;
}

-- the most room, but rate limited
abbrev large : Route Milli ℕ
large = record {
  name = codes "large";
  backend = failing (rate_limit_hit none);
  budget = λ w. (ok (holding 900), w);
  cooldown_until = milli 0;
}

abbrev dark : Route Milli ℕ
dark = record small { name = codes "dark"; budget = λ w. (raise telemetry_error, w) }

abbrev router : Router Milli ℕ
router = record {
  routes = dark ∷ small ∷ large ∷ [];
  key = λ b. milli_float.of_int b.remaining_tokens;
  default_cooldown_s = milli 5000;
  last_route = none;
  on_route = true;
  routed = [];
}

program : Unit {0}
unfolding score_routes ranked park budget descend backend ◌+ℤ◌
program = tt

shows_largest : (budget ticking router 10).0 ≡ ok (holding 900)
unfolding program
shows_largest = refl

-- the largest fails, is parked until its window resets, and the next one serves
falls_through : backend ticking hello router 10 ≡ (
  ok (codes "hi", pos 7),
  record router {
    routes = dark ∷ small ∷ record large { cooldown_until = milli 32_000 } ∷ [];
    last_route = some (codes "small");
    routed = (codes "small", holding 100) ∷ [];
  },
  14,
)
unfolding program
falls_through = refl

budget_best_example :
    let b = holding 900 in
    let w' = (candidates ticking router 10).1 in
    let key = λ (budget : Budget Milli). milli_float.of_int budget.remaining_tokens in
    (e : Entry Milli ℕ) × (e.budget ≡ b)
    × Eligible router.routes key (milli 10_000) e
    × All (Outdone key (milli 10_000) (milli 900_000)) router.routes
    × ((messages : List Message) (reply : Text × ℤ)
        → (e.route.backend messages w').0 ≡ ok reply
        → backend ticking messages router 10
          ≡ (ok reply, served e router, (e.route.backend messages w').1))
    × ((messages : List Message) (x : Error Milli)
        → (e.route.backend messages w').0 ≡ raise x
        → verdict x ≡ fatal
        → backend ticking messages router 10 ≡ (raise x, router, (e.route.backend messages w').1))
unfolding program
budget_best_example = budget_best Milli-IsOrdered ticking router 10 (holding 900) refl
