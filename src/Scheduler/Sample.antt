-- ===== src/Scheduler/Sample.antt =====
-- A provider, an estimator, a scheduler and a session for the tests.
use agentpause.Prelude.{ℕ, ◌+◌, ltb, length, true, false, Option, none, some, [], if◌then◌else◌}
use agentpause.Prelude.Int.{pos}
use agentpause.Number.Fixed.{Milli, milli, milli_float}
use agentpause.Errors.{ok, raise, rate_limit_hit}
use agentpause.Text.{codes}
use agentpause.World.{Backend}
use agentpause.World.Ticking.{ticking, resting, hello}
use agentpause.State.{Checkpoint}
use agentpause.Store.{Codec, Files}
use agentpause.Scheduler.{Config, Estimating, tokens_only, Scheduler, Session}
use agentpause.Scheduler.Resume.{Memory}

-- rate limited up to the given second
abbrev pub warming : ℕ → Backend Milli ℕ
warming n messages w =
    if ltb w n
    then (raise (rate_limit_hit (some (milli 1000))), w + 1)
    else (ok (codes "fine", pos 120), w + 1)

-- an estimator that remembers how many steps it has seen
abbrev pub counting : Estimating Milli ℕ
counting = record {
  estimate = λ e input. pos 400;
  sigma = λ e estimated. milli 20_000;
  upper_estimate = λ e input q. none;
  estimate_latency = λ e input. some (milli 2000);
  max_tokens = λ e. pos 100;
  learn = λ e input used latency. e + 1;
}

abbrev pub config : Config Milli ℕ
config = record {
  backend = some (warming 5);
  async_backend = none;
  telemetry = λ w. (ok (tokens_only (pos 1000)), w);
  count_tokens = λ t. pos (length t);
  wait_threshold_s = milli 15_000;
  retry = record {
    max_retries = 3;
    base_delay_s = milli 1000;
    factor = milli 2000;
    max_delay_s = milli 60_000;
    jitter = milli 0;
  };
  sleep_fn = resting;
  async_sleep_fn = none;
  asyncio_sleep = resting;
  random = λ w. (milli 500, w);
  k_bump = milli 250;
  k_max = milli 4000;
  price_per_1k_tokens = some (milli 2000);
  money_budget = some (milli 1000);
  on_event = true;
  quantile = none;
  context_window = some (pos 1000);
  compact_at = milli 600;
  compact_keep_last = 4;
  compact_max_chars = 200;
  time_budget_s = some (milli 3_600_000);
  clock = ticking;
  rpm_margin = pos 0;
}

abbrev pub scheduler : Scheduler Milli ℕ
scheduler = record {
  estimator = 7;
  safety_k = milli 2000;
  rate_limit_hits = 0;
  money_spent = milli 0;
  events = [];
}

abbrev pub run : Session Milli (Option ℕ)
run = record {
  session_id = codes "a";
  started_at = milli 0;
  resumed = false;
  cp = record {
    session_id = codes "a";
    step = 2;
    messages = hello;
    idempotency_keys = [];
    total_tokens_used = pos 90;
    extra = none;
  };
}

abbrev pub memory : Memory ℕ (Option ℕ)
memory = record {
  blank = none;
  put = λ e x. some e;
  recall = λ x. elim x [ none ↦ none | some e ↦ some (λ _. e) ];
}

abbrev pub plain : Codec (Option ℕ) ℕ (Checkpoint (Option ℕ))
plain = record { dump = λ s cp. cp; parse = λ c. some c }

abbrev pub nothing : Files (Checkpoint (Option ℕ))
nothing p = none
