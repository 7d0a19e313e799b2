-- ===== src/LiteLlm/Tests.antt =====
-- Runs of the LiteLLM adapter, and its theorems on fixed-point numbers.
use agentpause.Prelude.{
  ℕ, ◌+◌, ◌-◌, ◌*◌, Option, none, some, [], ◌∷◌, ◌≡◌, refl, if◌then◌else◌, ltb,
}
use agentpause.Prelude.Int.{pos, ◌+ℤ◌, ◌-ℤ◌}
use agentpause.Number.Fixed.{Milli, milli, milli_float, Milli-IsExact}
use agentpause.Errors.{Result, ok, raise, rate_limit_hit, foreign}
use agentpause.Text.{Text, codes}
use agentpause.World.{Clock}
use agentpause.Risk.{Budget}
use agentpause.Json as Json
use agentpause.Slots.{bind}
use agentpause.Compat.Header.{
  Headers, lower, span, strip_left, blank, strip_right, strip, digits_value, unit_of, unit_group,
  suffix_of, to_float, scaled, seconds_of, total, duration_end, duration_of, parse_reset, whole_of,
  count_of, reset_of,
}
use agentpause.Compat.Freshness.{IsSooner}
use agentpause.LiteLlm.{
  Response, ProviderError, responded, failed, Completion, Adapter, init, ends_with, take_header,
  scan, reply_text, limit_hit, map_provider_error, answered, assign, assigned, absorb_headers, call,
  replied, served, backend, pinged, ping, is_fresh, tokens_left, after_ping, telemetry_if,
  telemetry, aged_reset, budget_of, budget,
}
use agentpause.LiteLlm.Reads.{reported, backend-budget}
use agentpause.LiteLlm.Failures.{budget_limited, backend_unreadable}

-- a text of digits is that many seconds
abbrev number : ℕ → Text → Option Milli
number acc [] = some (milli (acc * 1000))
number acc (c ∷ s) = if ltb 57 c then none else number (acc * 10 + (c - 48)) s

abbrev reading : Json.Reading Milli
reading = record {
  int_of = λ s. none;
  int_of_real = λ x. some (milli_float.trunc x);
  float_of = λ s. number 0 s;
  text_of = λ j. [];
}

abbrev until : Text → Result Milli (Option Milli)
until s = ok none

-- the world is the time; a request takes a second
abbrev clock : Clock Milli ℕ
clock w = (milli w, w)

abbrev headers : Headers
headers =
    (codes "llm_provider-x-ratelimit-remaining-tokens", codes "120")
    ∷ (codes "x-ratelimit-remaining-requests", codes "7")
    ∷ (codes "x-ratelimit-reset-tokens", codes "2m")
    ∷ []

abbrev response : Response
response = record { headers = headers; choices = some (codes "hi") ∷ []; total_tokens = pos 9 }

abbrev unreadable : Response
unreadable = record response { headers = (codes "x-ratelimit-remaining-tokens", codes "lots") ∷ [] }

abbrev refusal : ProviderError
refusal = record {
  status_code = some (pos 429);
  class_name = codes "RateLimitError";
  retry_after = some (codes "30");
}

abbrev responds : Response → Completion ℕ
responds answer messages max w = (responded answer, w + 1000)

abbrev refuses : Completion ℕ
refuses messages max w = (failed refusal, w + 1000)

program : Unit {0}
unfolding bind lower span strip_left blank strip_right strip digits_value unit_of unit_group
    suffix_of to_float scaled seconds_of total duration_end duration_of parse_reset whole_of
    count_of Json.read_int reset_of init ends_with take_header scan reply_text limit_hit
    map_provider_error answered assign assigned absorb_headers call replied served backend pinged
    ping is_fresh tokens_left after_ping telemetry_if telemetry aged_reset budget_of budget ◌+ℤ◌
    ◌-ℤ◌
program = tt

abbrev adapter : Adapter Milli
unfolding program
adapter =
    init (codes "x-ratelimit-remaining-tokens") (codes "x-ratelimit-remaining-requests")
      (codes "x-ratelimit-reset-tokens") none (milli 10000)

first_reading : (telemetry reading until (responds response) clock adapter 0).result ≡ ok (pos 120)
unfolding program
first_reading = refl

abbrev limits : Response
limits = record response {
  headers = reported (codes "120") (codes "80") (codes "40") (codes "7") (codes "2m");
}

backend-budget_example :
    let run = backend reading until (responds limits) clock [] adapter 0 in
    (out : Budget Milli) × ((budget reading until
        (responds limits)
        clock
        run.adapter
        run.world).result
      ≡ ok out)
    × (out.remaining_tokens ≡ pos 120)
    × (out.remaining_requests ≡ some (pos 7))
    × (out.remaining_input_tokens ≡ some (pos 80))
    × (out.remaining_output_tokens ≡ some (pos 40))
    × IsSooner (some (milli 120_000)) out.reset_seconds
unfolding program
backend-budget_example =
    backend-budget Milli-IsExact reading until (responds limits) clock [] adapter 0 1000 limits
      (codes "120") (codes "80") (codes "40") (codes "7") (codes "2m") (pos 120) (pos 80) (pos 40)
      (pos 7) (milli 120_000) refl (refl, refl, refl) refl (milli 120_000, refl, refl)
      (milli 80_000, refl, refl) (milli 40_000, refl, refl) (milli 7_000, refl, refl) refl refl refl

budget_limited_example :
    let run = budget reading until refuses clock adapter 0 in
    (run.result ≡ raise (rate_limit_hit (some (milli 30_000))))
    × (run.adapter ≡ adapter)
    × (run.world ≡ 1000)
unfolding program
budget_limited_example =
    budget_limited reading until refuses clock adapter 0 1000 refusal (codes "30") (milli 30_000)
      refl refl refl refl refl

abbrev known : Adapter Milli
known = record adapter { remaining = some (pos 5) }

backend_unreadable_example :
    let run = backend reading until (responds unreadable) clock [] known 0 in
    let next = telemetry reading until (responds unreadable) clock run.adapter run.world in
    (run.result ≡ raise foreign) × (next.result ≡ ok (pos 5)) × (next.world ≡ 1000)
unfolding program
backend_unreadable_example =
    backend_unreadable reading until (responds unreadable) clock [] known 0 1000 unreadable
      (codes "lots") (pos 5) refl refl refl refl refl
