-- ===== src/Compat/Exhausted.antt =====
-- A ping that the provider refuses, in src/agentpause/adapters/openai_compat.py: it is a reading of an
-- exhausted budget, and the agent does not go on.
use agentpause.Prelude.{ℕ, false, Option, none, some, List, ◌≡◌, ◌≢◌, refl, arith}
use agentpause.Prelude.Int.{pos, ◌+ℤ◌}
use agentpause.Number.{Float, or_else, nought, max_f}
use agentpause.Errors.{Result, ok, raise, rate_limit_hit}
use agentpause.Text.{Text}
use agentpause.World.{Message, Clock}
use agentpause.Risk.{Budget, Ask, continue, decide, requests_fit, at_least}
use agentpause.Risk.Decide.{continue_iff_tests}
use agentpause.Json.{Json, Reading}
use agentpause.Slots.{bind}
use agentpause.Refill.{Detector}
use agentpause.Compat.Header.{Headers, limits_of, retry_after}
use agentpause.Compat.{
  Sample, Post, Adapter, exhausted, cached_reset, status_of, absorbed, checked, answered, call,
  ping_message, aged, with_regime,
}
use agentpause.Compat.Serving.{
  refused, pinged, ping, fresh_at, age_adjusted, served_from, after_ping, budget_if, budget,
}

module _ {F : Type 0} ⦃f : Float F⦄ where
  -- nothing is left, in tokens or requests
  abbrev pub IsExhausted : Budget F → Type 0
  IsExhausted b = (b.remaining_tokens ≡ pos 0) × (b.remaining_requests ≡ some (pos 0))

  decide-IsExhausted :
      (b : Budget F) (a : Ask F) (margin : ℕ)
      → b.remaining_requests ≡ some (pos 0)
      → a.rpm_margin ≡ pos margin
      → (decide b a).action ≢ continue
  unfolding requests_fit at_least ◌+ℤ◌
  decide-IsExhausted b a margin empty h goes =
      let (t, fits, i, o, s) = (continue_iff_tests b a).0 goes in
      absurd (ground (arith, rw (empty, h) at fits))

  with_regime-IsExhausted :
      (d : Detector F) (b : Budget F) → IsExhausted b → IsExhausted (with_regime d b)
  unfolding with_regime
  with_regime-IsExhausted d b h = ground arith

  aged-IsExhausted : (age : F) (b : Budget F) → IsExhausted b → IsExhausted (aged age b)
  unfolding aged
  aged-IsExhausted age b h = ground arith

module _ {F W : Type 0} ⦃f : Float F⦄ (r : Reading F) (until : Text → Result F (Option F))
    (post : Post F W) (clock : Clock F W) where
  age_adjusted-IsExhausted :
      (t : Option F) (b : Budget F) (w : W)
      → IsExhausted b
      → IsExhausted (age_adjusted r until post clock t b w).0
  unfolding age_adjusted
  age_adjusted-IsExhausted none b w h = h
  age_adjusted-IsExhausted (some t) b w h =
      aged-IsExhausted (max_f nought (f.sub (clock w).0 t)) b h

  served-IsExhausted :
      (b : Budget F) (a : Adapter F) (w : W)
      → IsExhausted b
      → (out : Budget F) × ((served_from r until post clock (some b) a w).result ≡ ok out)
        × IsExhausted out
  unfolding served_from
  served-IsExhausted b a w h =
      let b' = with_regime a.detector b in
      let (out, w') = age_adjusted r until post clock a.read_at b' w in
      (out, refl, age_adjusted-IsExhausted a.read_at b' w (with_regime-IsExhausted a.detector b h))

  -- a 429 whose headers can be read
  call_refused :
      (messages : List Message) (max_tokens : Option ℕ) (a : Adapter F) (w w' : W)
      (headers : Headers) (body : Json F) (found : Option (Budget F)) (ra : Option F)
      → post messages max_tokens w ≡ (ok (pos 429, headers, body), w')
      → limits_of r until headers ≡ ok found
      → retry_after r headers ≡ ok ra
      → (call r until post clock messages max_tokens a w).result ≡ raise (rate_limit_hit ra)
  unfolding call answered checked bind status_of absorbed
  call_refused messages max_tokens a w w' headers body none ra sent read hint =
      rw (sent, answered, read, absorbed, hint) refl
  call_refused messages max_tokens a w w' headers body (some b) ra sent read hint =
      rw (sent, answered, read, absorbed, hint) refl

  pinged_refused :
      (prev : Option (Sample F)) (ra : Option F) (a : Adapter F) (w : W)
      → let run = pinged r until post clock prev (raise (rate_limit_hit ra)) a w in
        (out : Budget F) × ((after_ping r until post clock run.result run.adapter run.world).result
          ≡ ok out)
        × IsExhausted out
  unfolding after_ping pinged refused
  pinged_refused prev ra a w =
      let (now, w') = clock w in
      let b = exhausted (or_else ra (cached_reset a.cached)) ra in
      let a' = (refused r until post clock ra a w).adapter in
      served-IsExhausted b a' w' (refl, refl)

  -- A stale reading whose ping is answered with 429 makes no error, if the rate-limit headers and the
  -- `retry-after` of the answer can be read: `budget` returns a reading with no tokens and no requests
  -- left, on which the decision rule never lets a step run that needs at least one request.
  pub budget_exhausted :
      (a : Adapter F) (w w' : W) (headers : Headers) (body : Json F) (found : Option (Budget F))
      (ra : Option F) (ask : Ask F) (margin : ℕ)
      → (fresh_at r until post clock a.max_age_s a.read_at w).0 ≡ false
      → post ping_message (some 1) (fresh_at r until post clock a.max_age_s a.read_at w).1
        ≡ (ok (pos 429, headers, body), w')
      → limits_of r until headers ≡ ok found
      → retry_after r headers ≡ ok ra
      → ask.rpm_margin ≡ pos margin
      → (out : Budget F) × ((budget r until post clock a w).result ≡ ok out)
        × (out.remaining_tokens ≡ pos 0)
        × (out.remaining_requests ≡ some (pos 0))
        × ((decide out ask).action ≢ continue)
  unfolding budget budget_if ping
  budget_exhausted a w w' headers body found ra ask margin stale sent read hint needs =
      let at = (fresh_at r until post clock a.max_age_s a.read_at w).1 in
      let run = call r until post clock ping_message (some 1) a at in
      let (out, told, empty) = pinged_refused a.prev_ping ra run.adapter run.world in
      let refused_call =
        call_refused ping_message (some 1) a at w' headers body found ra sent read hint in
      (
        out,
        rw (stale, budget_if, refused_call) told,
        empty.0,
        empty.1,
        decide-IsExhausted out ask margin empty.1 needs,
      )
