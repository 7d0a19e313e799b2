-- ===== src/LiteLlm/Failures.antt =====
-- What the adapter of src/agentpause/adapters/litellm.py does when the provider fails, or answers with
-- headers that are not numbers.
use agentpause.Prelude.{true, false, Option, none, some, List, ◌≡◌, refl}
use agentpause.Prelude.Int.{ℤ, pos}
use agentpause.Number.{Float}
use agentpause.Errors.{Result, ok, raise, rate_limit_hit, foreign}
use agentpause.Text.{Text}
use agentpause.World.{Message, Clock}
use agentpause.Json.{Reading}
use agentpause.Slots.{bind}
use agentpause.Compat.{ping_message}
use agentpause.Compat.Header.{count_of, whole_of, to_float}
use agentpause.LiteLlm.{
  Response, ProviderError, responded, failed, Completion, Adapter, nothing_found, scan, assign,
  assigned, limit_hit, map_provider_error, answered, absorb_headers, call, replied, served, backend,
  pinged, ping, is_fresh, tokens_left, after_ping, telemetry_if, telemetry, budget_of, budget,
}

module _ {F W : Type 0} ⦃f : Float F⦄ (r : Reading F) (until : Text → Result F (Option F))
    (completion : Completion W) (clock : Clock F W) where
  -- A stale reading whose ping fails with status 429 is an error, not a reading: `budget` raises
  -- `RateLimitHit` with the delay that the provider names, whatever fallback is set, and the adapter is
  -- as it was.
  pub budget_limited :
      (a : Adapter F) (w w' : W) (e : ProviderError) (ra : Text) (x : F)
      → (is_fresh r until completion clock a.max_age_s a.read_at w).0 ≡ false
      → completion ping_message
          (some 1)
          (is_fresh r until completion clock a.max_age_s a.read_at w).1
        ≡ (failed e, w')
      → e.status_code ≡ some (pos 429)
      → e.retry_after ≡ some ra
      → r.float_of ra ≡ some x
      → let run = budget r until completion clock a w in
        (run.result ≡ raise (rate_limit_hit (some x))) × (run.adapter ≡ a) × (run.world ≡ w')
  unfolding budget telemetry telemetry_if after_ping bind ping pinged call answered
      map_provider_error limit_hit budget_of
  budget_limited a w w' e ra x stale sent limited hint parsed =
      rw (stale, sent, limited, hint, limit_hit, parsed) (refl, refl, refl)

  count_of_unreadable : (s : Text) → r.float_of s ≡ none → count_of r (some s) ≡ raise foreign
  unfolding count_of whole_of to_float bind
  count_of_unreadable s h = rw (count_of, whole_of, to_float, h) refl

  -- A call whose remaining-tokens header is not a number raises, but its reading counts as taken: as
  -- long as it is fresh, `telemetry` makes no request and tells the tokens that an earlier response
  -- reported.
  pub backend_unreadable :
      (messages : List Message) (a : Adapter F) (w w' : W) (response : Response) (s : Text) (n : ℤ)
      → completion messages none w ≡ (responded response, w')
      → (scan a response.headers nothing_found).tokens ≡ some s
      → r.float_of s ≡ none
      → a.remaining ≡ some n
      → f.le (f.sub (clock (clock w').1).0 (clock w').0) a.max_age_s ≡ true
      → let run = backend r until completion clock messages a w in
        let next = telemetry r until completion clock run.adapter run.world in
        (run.result ≡ raise foreign) × (next.result ≡ ok n) × (next.world ≡ (clock (clock w').1).1)
  unfolding backend call answered served replied absorb_headers assigned assign bind telemetry
      is_fresh telemetry_if tokens_left
  backend_unreadable messages a w w' response s n sent found unreadable held young =
      rw
        (
          sent,
          answered,
          served,
          replied,
          absorb_headers,
          found,
          count_of_unreadable s unreadable,
          young,
          held,
        )
        (refl, refl, refl)
