-- ===== src/Anthropic/Tests.antt =====
-- Runs of the Anthropic adapter, and its theorems on a conversation.
use agentpause.Prelude.{ℕ, ◌+◌, true, Option, none, some, [], ◌∷◌, ◌++◌, map, ◌≡◌, refl}
use agentpause.Prelude.Int.{ℤ, pos, ◌+ℤ◌, ◌-ℤ◌}
use agentpause.Number.Fixed.{Milli, milli, milli_float}
use agentpause.Errors.{Result, ok}
use agentpause.Text.{Text, codes}
use agentpause.World.{Message, Clock}
use agentpause.Risk as Risk
use agentpause.Json as Json
use agentpause.Json.{Json, int, str, object, array, field, no_fields, item, no_items}
use agentpause.Slots.{bind}
use agentpause.Refill.{regime}
use agentpause.Compat as Compat
use agentpause.Compat.{
  implied_rate, point_of, sample_point, voted, sampled, sooner, aged, with_regime, status_of,
  absorbed, checked, answered,
}
use agentpause.Compat.Header.{
  Headers, lower, lowered, grab, to_float, whole_of, count_of, reset_of, hint_of, retry_after,
  limits_with, limits_found, limits_of,
}
use agentpause.Compat.Serving.{
  used_tokens, refused, counted_ping, pinged, fresh_at, age_adjusted, served_from, after_ping,
}
use agentpause.Anthropic.{
  Request, unmarked, marked, sent, split_system, system_block, request, Adapter, usage_of, tallied,
  usage_in, counted, joinable, block_text, joined_items, joined, summed, used_in, reply_in,
  translated, call, replied, backend, ping, budget_if, budget,
}
use agentpause.Anthropic.Messages.{conversation, conversation-request, request_breakpoints}

abbrev system : Message
system = record { role = codes "system"; content = codes "Be brief." }

abbrev question : Message
question = record { role = codes "user"; content = codes "Why?" }

abbrev answer : Message
answer = record { role = codes "assistant"; content = codes "So." }

abbrev again : Message
again = record { role = codes "user"; content = codes "Again?" }

conversation-request_example :
    conversation (request true 1024 (system ∷ question ∷ answer ∷ again ∷ []) none)
    ≡ system ∷ question ∷ answer ∷ again ∷ []
conversation-request_example =
    conversation-request true 1024 (system ∷ question ∷ answer ∷ again ∷ []) none

request_breakpoints_example :
    let q = request true 1024 (system ∷ ((question ∷ []) ++ (answer ∷ again ∷ []))) none in
    (q.system ≡ some (record { text = codes "Be brief."; cache_control = true }))
    × (q.messages ≡ map unmarked (question ∷ []) ++ (marked answer ∷ unmarked again ∷ []))
request_breakpoints_example = request_breakpoints 1024 system (question ∷ []) answer again none refl

abbrev reading : Json.Reading Milli
reading = record {
  int_of = λ s. none;
  int_of_real = λ x. some (milli_float.trunc x);
  float_of = λ s. some (milli 120_000);
  text_of = λ j. [];
}

abbrev until : Text → Result Milli (Option Milli)
until s = ok none

abbrev clock : Clock Milli ℕ
clock w = (milli w, w)

abbrev body : Json Milli
body = object (
    field (codes "content")
      (array (
        item
          (object (
            field (codes "type") (str (codes "text"))
              (field (codes "text") (str (codes "hi")) no_fields)))
          no_items))
      (field (codes "usage")
        (object (
          field (codes "input_tokens") (int (pos 40)) (
            field (codes "output_tokens") (int (pos 2))
              (field (codes "cache_read_input_tokens") (int (pos 30)) no_fields))))
        no_fields))

abbrev headers : Headers
headers = (codes "anthropic-ratelimit-tokens-remaining", codes "120") ∷ []

abbrev answers : Request → ℕ → Result Milli (ℤ × Headers × Json Milli) × ℕ
answers q w = (ok (pos 200, headers, body), w + 1000)

abbrev adapter : Adapter Milli
adapter = record {
  base = record {
    fallback_remaining = none;
    max_age_s = milli 10000;
    cached = none;
    read_at = none;
    detector = record { min_gap_s = milli 2000; min_votes = 2; window = 3; votes = [] };
    prev_ping = none;
    ping_tokens = pos 0;
    ping_count = 0;
  };
  cache_prompt = true;
  default_max_tokens = 1024;
  cache_read_tokens = pos 0;
  cache_write_tokens = pos 0;
}

program : Unit {0}
unfolding Risk.program bind lower lowered grab to_float whole_of count_of Json.read_int reset_of
    hint_of retry_after limits_with limits_found limits_of implied_rate point_of sample_point voted
    sampled sooner aged with_regime status_of absorbed checked answered Compat.call used_tokens
    refused counted_ping pinged fresh_at age_adjusted served_from after_ping regime Json.get
    Json.find Json.holds Json.either Json.to_int sent split_system system_block request usage_of
    tallied usage_in counted joinable block_text joined_items joined summed used_in reply_in
    translated call replied backend ping budget_if budget ◌+ℤ◌ ◌-ℤ◌
program = tt

reply :
    let left = backend reading until answers clock (question ∷ []) adapter 0 in
    (left.result ≡ ok (codes "hi", pos 42)) × (left.adapter.cache_read_tokens ≡ pos 30)
unfolding program
reply = (refl, refl)

-- A ping is counted, its tokens are not: the API reports no total.
first_ping :
    let left = budget reading until answers clock adapter 0 in
    (left.adapter.base.ping_count ≡ 1) × (left.adapter.base.ping_tokens ≡ pos 0)
unfolding program
first_ping = (refl, refl)
