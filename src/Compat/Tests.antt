-- ===== src/Compat/Tests.antt =====
-- Runs of the HTTP adapter, and its theorems on fixed-point numbers.
use agentpause.Prelude.{
  ℕ, zero, suc, ◌+◌, ◌-◌, ◌*◌, Option, none, some, [], ◌∷◌, ◌==◌, ◌≡◌, ◌≢◌, refl, if◌then◌else◌,
}
use agentpause.Prelude.Int.{ℤ, pos, ◌+ℤ◌, ◌-ℤ◌}
use agentpause.Number.Fixed.{Milli, milli, milli_float, Milli-IsExact}
use agentpause.Errors.{Result, ok}
use agentpause.Text.{Text, codes}
use agentpause.World.{Clock}
use agentpause.Risk as Risk
use agentpause.Risk.{Budget, Ask, continue, decide}
use agentpause.Json as Json
use agentpause.Json.{Json, int, str, object, array, field, no_fields, item, no_items}
use agentpause.Slots.{bind}
use agentpause.Refill.{regime}
use agentpause.Compat.Header.{
  Headers, lower, lowered, grab, span, strip_left, blank, strip_right, strip, digits_value, unit_of,
  unit_group, suffix_of, to_float, scaled, seconds_of, total, duration_end, duration_of,
  parse_reset, whole_of, count_of, reset_of, hint_of, retry_after, limits_with, limits_found,
  limits_of,
}
use agentpause.Compat.{
  Post, Adapter, cached_reset, implied_rate, point_of, sample_point, voted, sampled, sooner, aged,
  with_regime, status_of, absorbed, checked, answered, call, fallback_budget,
}
use agentpause.Compat.Serving.{
  used_tokens, first_choice, reply_text, replied, backend, refused, counted_ping, pinged, ping,
  fresh_at, age_adjusted, served_from, after_ping, budget_if, budget,
}
use agentpause.Compat.Statuses.{class_of, Classified, call-Classified}
use agentpause.Compat.Exhausted.{budget_exhausted}
use agentpause.Compat.Freshness.{Served, budget_fresh}

-- a decimal with up to three places
abbrev decimals : ℕ → ℕ → Text → Option ℕ
decimals zero acc [] = some acc
decimals zero acc (c ∷ s) = none
decimals (suc n) acc [] = decimals n (acc * 10) []
decimals (suc n) acc (c ∷ s) = decimals n (acc * 10 + (c - 48)) s

abbrev thousandths : ℕ → Text → Option ℕ
thousandths acc [] = some (acc * 1000)
thousandths acc (c ∷ s) =
    let whole = thousandths (acc * 10 + (c - 48)) s in if c == 46 then decimals 3 acc s else whole

abbrev as_milli : Option ℕ → Option Milli
as_milli none = none
as_milli (some n) = some (milli n)

abbrev reading : Json.Reading Milli
reading = record {
  int_of = λ s. none;
  int_of_real = λ x. some (milli_float.trunc x);
  float_of = λ s. as_milli (thousandths 0 s);
  text_of = λ j. [];
}

abbrev until : Text → Result Milli (Option Milli)
until s = ok none

abbrev headers : Headers
headers =
    (codes "X-RateLimit-Remaining-Tokens", codes "120")
    ∷ (codes "x-ratelimit-reset-tokens", codes "2m59.56s")
    ∷ (codes "x-ratelimit-limit-tokens", codes "6000")
    ∷ []

abbrev body : Json Milli
body = object (
    field (codes "choices")
      (array (
        item
          (object (
            field (codes "message") (object (field (codes "content") (str (codes "hi")) no_fields))
              no_fields))
          no_items))
      (field (codes "usage") (object (field (codes "total_tokens") (int (pos 7)) no_fields))
        no_fields))

-- the world is the time; a request takes a second
abbrev clock : Clock Milli ℕ
clock w = (milli w, w)

abbrev answer : ℤ → Headers → Post Milli ℕ
answer status h messages max w = (ok (status, h, body), w + 1000)

abbrev adapter : Adapter Milli
adapter = record {
  fallback_remaining = none;
  max_age_s = milli 10000;
  cached = none;
  read_at = none;
  detector = record { min_gap_s = milli 1000; min_votes = 2; window = 8; votes = [] };
  prev_ping = none;
  ping_tokens = pos 0;
  ping_count = 0;
}

program : Unit {0}
unfolding Risk.program bind lower lowered grab span strip_left blank strip_right strip digits_value
    unit_of unit_group suffix_of to_float scaled seconds_of total duration_end duration_of
    parse_reset whole_of count_of reset_of hint_of retry_after limits_with limits_found limits_of
    cached_reset implied_rate point_of sample_point voted sampled sooner aged with_regime status_of
    absorbed checked answered call used_tokens first_choice reply_text replied backend refused
    counted_ping pinged ping fresh_at age_adjusted fallback_budget served_from after_ping regime
    budget_if budget Json.get Json.find Json.holds Json.either Json.to_int Json.read_int ◌+ℤ◌ ◌-ℤ◌
program = tt

minutes_and_seconds : parse_reset reading until (codes "2m59.56s") ≡ ok (some (milli 179560))
unfolding program
minutes_and_seconds = refl

milliseconds_only : parse_reset reading until (codes "450ms") ≡ ok (some (milli 450))
unfolding program
milliseconds_only = refl

hours_only : parse_reset reading until (codes " 1h ") ≡ ok (some (milli 3_600_000))
unfolding program
hours_only = refl

no_duration : parse_reset reading until (codes "soon") ≡ ok none
unfolding program
no_duration = refl

abbrev cached : Budget Milli
cached = record {
  remaining_tokens = pos 120;
  remaining_requests = none;
  reset_seconds = some (milli 179560);
  reset_requests_seconds = none;
  remaining_input_tokens = none;
  remaining_output_tokens = none;
  limit_tokens = some (pos 6000);
  refill_regime = none;
  remaining_seconds = none;
}

abbrev after : Adapter Milli
after = (budget reading until (answer (pos 200) headers) clock adapter 0).adapter

first_ping :
    (after.ping_count ≡ 1) × (after.ping_tokens ≡ pos 7) × (after.read_at ≡ some (milli 1000))
unfolding program
first_ping = (refl, refl, refl)

reply :
    (backend reading until (answer (pos 200) headers) clock [] adapter 0).result
    ≡ ok (str (codes "hi"), pos 7)
unfolding program
reply = refl

call-Classified_example :
    Classified
      (class_of (pos 503))
      body
      (call reading until (answer (pos 503) []) clock [] none adapter 0).result
unfolding program
call-Classified_example =
    call-Classified reading until (answer (pos 503) []) clock [] none adapter 0 1000 (pos 503) []
      body none none refl refl refl

abbrev ask : Ask Milli
ask = record {
  estimated = pos 0;
  sigma = milli 0;
  k = milli 0;
  wait_threshold_s = milli 5000;
  estimated_input = none;
  estimated_output = none;
  estimated_latency = none;
  rpm_margin = pos 0;
}

budget_exhausted_example :
    (out : Budget Milli) × ((budget reading until (answer (pos 429) headers) clock adapter 0).result
      ≡ ok out)
    × (out.remaining_tokens ≡ pos 0)
    × (out.remaining_requests ≡ some (pos 0))
    × ((decide out ask).action ≢ continue)
unfolding program
budget_exhausted_example =
    budget_exhausted reading until (answer (pos 429) headers) clock adapter 0 1000 headers body
      (some cached) none ask 0 refl refl refl refl refl

budget_fresh_example :
    let run = budget reading until (answer (pos 200) headers) clock after 3000 in
    (out : Budget Milli) × (run.result ≡ ok out)
    × Served Milli-IsExact cached out
    × (run.world ≡ 3000)
unfolding program
budget_fresh_example =
    budget_fresh Milli-IsExact reading until (answer (pos 200) headers) clock after cached
      (milli 1000) 3000 refl refl refl refl tt
