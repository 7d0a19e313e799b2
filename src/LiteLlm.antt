-- ===== src/LiteLlm.antt =====
-- The class `LiteLLMAdapter` of src/agentpause/adapters/litellm.py: any provider of LiteLLM as backend
-- and telemetry. The completion function, the token counter and the clock are parameters.
pub mod Reads
pub mod Failures
mod Tests
use agentpause.Prelude.{
  ℕ, Bool, true, false, not, ◌&&◌, ◌||◌, Option, none, some, List, [], ◌∷◌, ◌/◌, ◌==◌,
  if◌then◌else◌, length, ltb,
}
use agentpause.Prelude.Int.{ℤ, pos, leb_ℤ}
use agentpause.Prelude.Dict.{Dict}
use agentpause.Number.{Float, nought, max_f}
use agentpause.Errors.{
  Result, ok, raise, Error, rate_limit_hit, telemetry_error, backend_error, foreign,
}
use agentpause.Text.{Text, codes, text_eq}
use agentpause.World.{Message, Clock}
use agentpause.Risk.{Budget}
use agentpause.Json.{Reading}
use agentpause.Slots.{bind}
use agentpause.Compat.Header.{Headers, lower, count_of, reset_of}
use agentpause.Compat.{ping_message}

-- What the adapter reads of a response: the headers that LiteLLM passes on, the content of each choice,
-- which may be None, and the tokens used.
pub record Response : Type 0 where
  pub headers : Headers
  pub choices : List (Option Text)
  pub total_tokens : ℤ

-- What it reads of an exception: its status code, the name of its class and its `retry-after`.
pub record ProviderError : Type 0 where
  pub status_code : Option ℤ
  pub class_name : Text
  pub retry_after : Option Text

pub data Answer : Type 0 where
  responded : Response → Answer
  failed : ProviderError → Answer

-- `completion_fn` and `acompletion_fn`; a call may cap the reply's tokens
abbrev pub Completion : Type 0 → Type 0
Completion W = List Message → Option ℕ → W → Answer × W

pub record Adapter (F : Type 0) : Type 0 where
  pub remaining_header : Text
  pub requests_header : Text
  pub reset_header : Text
  pub fallback_remaining : Option ℤ
  pub max_age_s : F
  -- the last reading and when it was taken
  pub remaining : Option ℤ
  pub remaining_input : Option ℤ
  pub remaining_output : Option ℤ
  pub remaining_requests : Option ℤ
  pub reset_seconds : Option F
  pub read_at : Option F

-- What a method leaves: its result, the adapter and the world.
pub record Run (F W A : Type 0) : Type 0 where
  pub result : Result F A
  pub adapter : Adapter F
  pub world : W

abbrev pub ran : {F W A : Type 0} → Result F A → Adapter F → W → Run F W A
ran r a w = record { result = r; adapter = a; world = w }

-- `__init__`
unfoldable pub init : {F : Type 0} → Text → Text → Text → Option ℤ → F → Adapter F
unfolding lower
init remaining_header requests_header reset_header fallback max_age = record {
  remaining_header = lower remaining_header;
  requests_header = lower requests_header;
  reset_header = lower reset_header;
  fallback_remaining = fallback;
  max_age_s = max_age;
  remaining = none;
  remaining_input = none;
  remaining_output = none;
  remaining_requests = none;
  reset_seconds = none;
  read_at = none;
}

-- `k.endswith(suffix)`
unfoldable pub ends_with : Text → Text → Bool
ends_with suffix [] = text_eq [] suffix
ends_with suffix (c ∷ k) = text_eq (c ∷ k) suffix || ends_with suffix k

-- the headers that the loop of `_absorb_headers` has found
pub record Found : Type 0 where
  pub tokens : Option Text
  pub input_tokens : Option Text
  pub output_tokens : Option Text
  pub requests : Option Text
  pub reset : Option Text

abbrev pub nothing_found : Found
nothing_found = record {
  tokens = none;
  input_tokens = none;
  output_tokens = none;
  requests = none;
  reset = none;
}

module _ {F : Type 0} (a : Adapter F) where
  -- one header, in lower case
  unfoldable pub take_header : Text → Text → Found → Found
  unfolding ends_with
  take_header k raw found =
      if ends_with (codes "input-tokens-remaining") k
      then record found { input_tokens = some raw }
      else if ends_with (codes "output-tokens-remaining") k
      then record found { output_tokens = some raw }
      else if ends_with a.remaining_header k || ends_with (codes "ratelimit-tokens-remaining") k
      then record found { tokens = some raw }
      else if ends_with a.requests_header k || ends_with (codes "requests-remaining") k
      then record found { requests = some raw }
      else if ends_with a.reset_header k || ends_with (codes "ratelimit-tokens-reset") k
      then record found { reset = some raw }
      else found

  unfoldable pub scan : Headers → Found → Found
  unfolding take_header lower
  scan [] found = found
  scan ((k, raw) ∷ rest) found = scan rest (take_header (lower k) raw found)

-- the first choice's content, or the empty text; without a choice it is an IndexError
unfoldable pub reply_text : {F : Type 0} → List (Option Text) → Result F Text
reply_text [] = raise foreign
reply_text (none ∷ rest) = ok []
reply_text (some content ∷ rest) = ok content

abbrev member : Text → List Text → Bool
member s [] = false
member s (t ∷ ts) = text_eq s t || member s ts

-- the exceptions that are transient, whatever their status
abbrev pub transient_names : List Text
transient_names =
    codes "Timeout"
    ∷ codes "APITimeoutError"
    ∷ codes "APIConnectionError"
    ∷ codes "ServiceUnavailableError"
    ∷ codes "InternalServerError"
    ∷ []

abbrev pub within : ℤ → ℤ → Option ℤ → Bool
within low high none = false
within low high (some status) = leb_ℤ low status && leb_ℤ status high

module _ {F : Type 0} ⦃f : Float F⦄ (r : Reading F) where
  -- `float(ra) if ra is not None else None`, where a ValueError propagates
  unfoldable pub limit_hit : Option Text → Error F
  limit_hit none = rate_limit_hit none
  limit_hit (some ra) = elim (r.float_of ra) [ none ↦ foreign | some x ↦ rate_limit_hit (some x) ]

  -- `_map_provider_error`, and the `raise` behind it
  unfoldable pub map_provider_error : ProviderError → Error F
  unfolding limit_hit
  map_provider_error e =
      if within (pos 429) (pos 429) e.status_code || text_eq e.class_name (codes "RateLimitError")
      then limit_hit e.retry_after
      else if within (pos 500) (pos 599) e.status_code || member e.class_name transient_names
      then backend_error true
      else foreign

  unfoldable pub answered : Answer → Result F Response
  unfolding map_provider_error
  answered (responded response) = ok response
  answered (failed e) = raise (map_provider_error e)

  -- an assignment whose right side may raise: then the later ones are not made
  unfoldable pub assign :
      {A : Type 0}
      → Result F A
      → Adapter F
      → (A → Result F Unit × Adapter F)
      → Result F Unit × Adapter F
  assign (raise e) a rest = (raise e, a)
  assign (ok v) a rest = rest v

  -- the end of `_absorb_headers`, in the order of its assignments
  unfoldable pub assigned :
      (Text → Result F (Option F)) → Found → Adapter F → Result F Unit × Adapter F
  unfolding assign count_of reset_of
  assigned until found a = assign (count_of r found.tokens) a λ tokens.
      let a1 = record a { remaining = tokens } in
      assign (count_of r found.input_tokens) a1 λ input.
        let a2 = record a1 { remaining_input = input } in
        assign (count_of r found.output_tokens) a2 λ output.
          let a3 = record a2 { remaining_output = output } in
          assign (count_of r found.requests) a3 λ requests.
            let a4 = record a3 { remaining_requests = requests } in
            assign (reset_of r until found.reset) a4
              λ reset. (ok tt, record a4 { reset_seconds = reset })

module _ {F W : Type 0} ⦃f : Float F⦄ (r : Reading F) (until : Text → Result F (Option F))
    (completion : Completion W) (clock : Clock F W) where
  open f use {sub, le}

  -- `_absorb_headers`: the time is taken before the values are parsed
  unfoldable pub absorb_headers : Headers → Adapter F → W → Run F W Unit
  unfolding assigned scan
  absorb_headers headers a w =
      let (now, w') = clock w in
      let (result, a') =
        assigned r until (scan a headers nothing_found) (record a { read_at = some now }) in
      ran result a' w'

  -- `_call`
  unfoldable pub call : List Message → Option ℕ → W → Result F Response × W
  unfolding answered
  call messages max_tokens w =
      let (answer, w') = completion messages max_tokens w in (answered r answer, w')

  unfoldable pub replied : Response → Run F W Unit → Run F W (Text × ℤ)
  unfolding bind reply_text
  replied response run = record {
    result =
        bind run.result
          λ u. bind (reply_text response.choices) λ reply. ok (reply, response.total_tokens);
    adapter = run.adapter;
    world = run.world;
  }

  unfoldable pub served : Result F Response × W → Adapter F → Run F W (Text × ℤ)
  unfolding replied absorb_headers
  served (raise e, w) a = ran (raise e) a w
  served (ok response, w) a = replied response (absorb_headers response.headers a w)

  unfoldable pub backend : List Message → Adapter F → W → Run F W (Text × ℤ)
  unfolding served call
  backend messages a w = served (call messages none w) a

  unfoldable pub pinged : Result F Response × W → Adapter F → Run F W Unit
  unfolding absorb_headers
  pinged (raise e, w) a = ran (raise e) a w
  pinged (ok response, w) a = absorb_headers response.headers a w

  unfoldable pub ping : Adapter F → W → Run F W Unit
  unfolding pinged call
  ping a w = pinged (call ping_message (some 1) w) a

  -- `_is_fresh`, which reads the clock if there is a reading
  unfoldable pub is_fresh : F → Option F → W → Bool × W
  is_fresh max_age none w = (false, w)
  is_fresh max_age (some t) w = let (now, w') = clock w in (le (sub now t) max_age, w')

  -- the end of `telemetry`: what was read, or the fallback
  unfoldable pub tokens_left : Option ℤ → Option ℤ → Result F ℤ
  tokens_left (some n) fallback = ok n
  tokens_left none (some n) = ok n
  tokens_left none none = raise telemetry_error

  unfoldable pub after_ping : Run F W Unit → Run F W ℤ
  unfolding tokens_left bind
  after_ping run = record {
    result = bind run.result λ u. tokens_left run.adapter.remaining run.adapter.fallback_remaining;
    adapter = run.adapter;
    world = run.world;
  }

  unfoldable pub telemetry_if : Bool → Adapter F → W → Run F W ℤ
  unfolding after_ping ping tokens_left
  telemetry_if true a w = ran (tokens_left a.remaining a.fallback_remaining) a w
  telemetry_if false a w = after_ping (ping a w)

  unfoldable pub telemetry : Adapter F → W → Run F W ℤ
  unfolding is_fresh telemetry_if
  telemetry a w = let (fresh, w') = is_fresh a.max_age_s a.read_at w in telemetry_if fresh a w'

  -- `_aged_reset`
  unfoldable pub aged_reset : Option F → Option F → W → Option F × W
  aged_reset none t w = (none, w)
  aged_reset (some reset) none w = (some reset, w)
  aged_reset (some reset) (some t) w =
      let (now, w') = clock w in (some (max_f nought (sub reset (max_f nought (sub now t)))), w')

  -- the rest of `budget`, once telemetry has answered
  unfoldable pub budget_of : Result F ℤ → Adapter F → W → Run F W (Budget F)
  unfolding aged_reset
  budget_of (raise e) a w = ran (raise e) a w
  budget_of (ok n) a w =
      let (reset, w') = aged_reset a.reset_seconds a.read_at w in
      ran
        (ok (record {
          remaining_tokens = n;
          remaining_requests = a.remaining_requests;
          reset_seconds = reset;
          reset_requests_seconds = none;
          remaining_input_tokens = a.remaining_input;
          remaining_output_tokens = a.remaining_output;
          limit_tokens = none;
          refill_regime = none;
          remaining_seconds = none;
        }))
        a w'

  unfoldable pub budget : Adapter F → W → Run F W (Budget F)
  unfolding telemetry budget_of
  budget a w = let run = telemetry a w in budget_of run.result run.adapter run.world

-- The async twins make the same calls in the same order, with `acompletion_fn`.
module _ {F W : Type 0} ⦃f : Float F⦄ (r : Reading F) (until : Text → Result F (Option F))
    (acompletion : Completion W) (clock : Clock F W) where
  unfoldable pub acall : List Message → Option ℕ → W → Result F Response × W
  unfolding call
  acall = call r until acompletion clock

  unfoldable pub abackend : List Message → Adapter F → W → Run F W (Text × ℤ)
  unfolding served acall
  abackend messages a w = served r until acompletion clock (acall messages none w) a

  unfoldable pub aping : Adapter F → W → Run F W Unit
  unfolding pinged acall
  aping a w = pinged r until acompletion clock (acall ping_message (some 1) w) a

  unfoldable pub atelemetry_if : Bool → Adapter F → W → Run F W ℤ
  unfolding after_ping aping tokens_left
  atelemetry_if true a w =
      ran (tokens_left r until acompletion clock a.remaining a.fallback_remaining) a w
  atelemetry_if false a w = after_ping r until acompletion clock (aping a w)

  unfoldable pub atelemetry : Adapter F → W → Run F W ℤ
  unfolding is_fresh atelemetry_if
  atelemetry a w =
      let (fresh, w') = is_fresh r until acompletion clock a.max_age_s a.read_at w in
      atelemetry_if fresh a w'

  unfoldable pub abudget : Adapter F → W → Run F W (Budget F)
  unfolding atelemetry budget_of
  abudget a w =
      let run = atelemetry a w in
      budget_of r until acompletion clock run.result run.adapter run.world

-- `invalidate`
unfoldable pub invalidate : {F : Type 0} → Adapter F → Adapter F
invalidate a = record a { read_at = none }

-- `count_tokens`: the counter's answer, or an estimate if it raises
unfoldable pub counted : Text → Option ℤ → ℤ
counted s (some n) = n
counted s none = pos (if ltb 1 (length s / 4) then length s / 4 else 1)

unfoldable pub count_tokens : {W : Type 0} → (Text → W → Option ℤ × W) → Text → W → ℤ × W
unfolding counted
count_tokens token_counter s w = let (n, w') = token_counter s w in (counted s n, w')
