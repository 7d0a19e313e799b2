-- ===== src/LiteLlm/Reads.antt =====
-- What the adapter of src/agentpause/adapters/litellm.py tells of the response that it saw last.
use agentpause.Prelude.{true, Option, none, some, List, [], ◌∷◌, ap, ◌∙◌, ◌≡◌, refl}
use agentpause.Prelude.Int.{ℤ}
use agentpause.Number.{◌≼◌, Float, nought, max_f, IsExact}
use agentpause.Number.Order.{le-max_f}
use agentpause.Errors.{Result, ok}
use agentpause.Text.{Text, codes}
use agentpause.World.{Message, Clock}
use agentpause.Risk.{Budget}
use agentpause.Json.{Reading, read_int}
use agentpause.Slots.{bind}
use agentpause.Compat.{sooner}
use agentpause.Compat.Header.{Headers, lower, to_float, whole_of, count_of, parse_reset, reset_of}
use agentpause.Compat.Freshness.{IsAhead, IsSooner, sooner-IsSooner}
use agentpause.LiteLlm.{
  Response, responded, Completion, Adapter, Found, nothing_found, ends_with, take_header, scan,
  assign, assigned, answered, absorb_headers, call, replied, served, backend, is_fresh, tokens_left,
  telemetry_if, telemetry, aged_reset, budget_of, budget,
}

-- The default names of the headers.
abbrev pub Default : {F : Type 0} → Adapter F → Type 0
Default a =
    (a.remaining_header ≡ codes "x-ratelimit-remaining-tokens")
    × (a.requests_header ≡ codes "x-ratelimit-remaining-requests")
    × (a.reset_header ≡ codes "x-ratelimit-reset-tokens")

-- the limits that Anthropic reports, with the prefix that LiteLLM may put before each name
abbrev pub reported : Text → Text → Text → Text → Text → Headers
reported tokens input output requests reset =
    (codes "llm_provider-anthropic-ratelimit-input-tokens-remaining", input)
    ∷ (codes "llm_provider-anthropic-ratelimit-output-tokens-remaining", output)
    ∷ (codes "llm_provider-Anthropic-RateLimit-Tokens-Remaining", tokens)
    ∷ (codes "llm_provider-anthropic-ratelimit-requests-remaining", requests)
    ∷ (codes "llm_provider-anthropic-ratelimit-tokens-reset", reset)
    ∷ []

module _ {F W : Type 0} ⦃f : Float F⦄ (exact : IsExact F) (r : Reading F)
    (until : Text → Result F (Option F)) (completion : Completion W) (clock : Clock F W) where
  aged_reset-IsSooner :
      (reset : Option F) (t : F) (w : W)
      → IsAhead reset
      → IsSooner reset (aged_reset r until completion clock reset (some t) w).0
  unfolding aged_reset sooner
  aged_reset-IsSooner none t w h = refl
  aged_reset-IsSooner (some x) t w h =
      let now = (clock w).0 in
      let age = max_f nought (f.sub now t) in
      sooner-IsSooner exact age (some x) (le-max_f exact.ordered nought (f.sub now t)).0 h

  -- an adapter whose last response could be read
  abbrev reading : Adapter F → F → ℤ → Option ℤ → Option ℤ → Option ℤ → Option F → Adapter F
  reading a t n input output requests reset = record a {
    read_at = some t;
    remaining = some n;
    remaining_input = input;
    remaining_output = output;
    remaining_requests = requests;
    reset_seconds = reset;
  }

  assigned_ok :
      (found : Found) (a : Adapter F) (t : F) (n : ℤ) (input output requests : Option ℤ)
      (reset : Option F)
      → count_of r found.tokens ≡ ok (some n)
      → count_of r found.input_tokens ≡ ok input
      → count_of r found.output_tokens ≡ ok output
      → count_of r found.requests ≡ ok requests
      → reset_of r until found.reset ≡ ok reset
      → assigned r until found (record a { read_at = some t })
        ≡ (ok tt, reading a t n input output requests reset)
  unfolding assigned assign
  assigned_ok found a t n input output requests reset tokens ins outs reqs resets =
      rw (tokens, ins, outs, reqs, resets) refl

  -- what an adapter with a fresh reading tells
  abbrev told : Adapter F → ℤ → W → Budget F
  told a n w = record {
    remaining_tokens = n;
    remaining_requests = a.remaining_requests;
    reset_seconds = (aged_reset r until completion clock a.reset_seconds a.read_at w).0;
    reset_requests_seconds = none;
    remaining_input_tokens = a.remaining_input;
    remaining_output_tokens = a.remaining_output;
    limit_tokens = none;
    refill_regime = none;
    remaining_seconds = none;
  }

  budget_fresh_lem :
      (a : Adapter F) (t : F) (n : ℤ) (w : W)
      → a.remaining ≡ some n
      → a.read_at ≡ some t
      → f.le (f.sub (clock w).0 t) a.max_age_s ≡ true
      → (budget r until completion clock a w).result ≡ ok (told a n (clock w).1)
  unfolding budget telemetry is_fresh telemetry_if tokens_left budget_of
  budget_fresh_lem a t n w held read young = rw (read, young, held) refl

  -- a text that reads as a number
  abbrev pub Reads : Text → ℤ → Type 0
  Reads s n = (x : F) × (r.float_of s ≡ some x) × (r.int_of_real x ≡ some n)

  count_of-Reads : (s : Text) (n : ℤ) → Reads s n → count_of r (some s) ≡ ok (some n)
  unfolding count_of whole_of to_float read_int bind
  count_of-Reads s n (x, p, q) = rw (count_of, whole_of, to_float, p, read_int, q) refl

  scan-reported :
      (a : Adapter F) (tokens input output requests reset : Text)
      → Default a
      → scan a (reported tokens input output requests reset) nothing_found ≡ record {
        tokens = some tokens;
        input_tokens = some input;
        output_tokens = some output;
        requests = some requests;
        reset = some reset;
      }
  unfolding scan take_header ends_with lower
  scan-reported a tokens input output requests reset (p, q, s) =
      ap (λ b. scan b (reported tokens input output requests reset) nothing_found)
        (λ i. record a { remaining_header = p i; requests_header = q i; reset_header = s i })

  -- Without rounding, and with the default header names: after a call that Anthropic answers with its
  -- five limits, `budget` tells that budget for as long as the reading is fresh, whatever the
  -- provider would answer by then: the numbers that were reported for the tokens, the input, the
  -- output and the requests, and the reset, which is not negative, no further away and still not
  -- negative.
  pub backend-budget :
      (messages : List Message) (a : Adapter F) (w w' : W) (response : Response)
      (tokens input output requests reset : Text) (n i o q : ℤ) (x : F)
      → completion messages none w ≡ (responded response, w')
      → Default a
      → response.headers ≡ reported tokens input output requests reset
      → Reads tokens n
      → Reads input i
      → Reads output o
      → Reads requests q
      → parse_reset r until reset ≡ ok (some x)
      → nought ≼ x
      → f.le (f.sub (clock (clock w').1).0 (clock w').0) a.max_age_s ≡ true
      → let run = backend r until completion clock messages a w in
        (out : Budget F) × ((budget r until completion clock run.adapter run.world).result ≡ ok out)
        × (out.remaining_tokens ≡ n)
        × (out.remaining_requests ≡ some q)
        × (out.remaining_input_tokens ≡ some i)
        × (out.remaining_output_tokens ≡ some o)
        × IsSooner (some x) out.reset_seconds
  unfolding backend call answered served replied absorb_headers reset_of
  backend-budget messages a w w' response tokens input output requests reset n i o q x sent names
        headers ns is os qs xs ahead young =
      let now = (clock w').0 in
      let a' = reading a now n (some i) (some o) (some q) (some x) in
      let w'' = (clock (clock w').1).1 in
      let scanned =
        ap (λ h. scan a h nothing_found) headers
        ∙ scan-reported a tokens input output requests reset names in
      let found : Found = record {
        tokens = some tokens;
        input_tokens = some input;
        output_tokens = some output;
        requests = some requests;
        reset = some reset;
      } in
      let kept =
        assigned_ok found a now n (some i) (some o) (some q) (some x) (count_of-Reads tokens n ns)
          (count_of-Reads input i is) (count_of-Reads output o os) (count_of-Reads requests q qs)
          xs in
      (
        told a' n w'',
        rw (sent, scanned, kept) (budget_fresh_lem a' now n (clock w').1 refl refl young),
        refl,
        refl,
        refl,
        refl,
        aged_reset-IsSooner (some x) now w'' ahead,
      )
