-- ===== src/Compat/Serving.antt =====
-- The callables of src/agentpause/adapters/openai_compat.py that a scheduler takes: the backend, the
-- telemetry and its ping.
use agentpause.Prelude.{
  ℕ, suc, ◌/◌, Bool, true, false, Option, none, some, List, [], if◌then◌else◌, length, ltb,
}
use agentpause.Prelude.Int.{ℤ, pos, ◌+ℤ◌}
use agentpause.Number.{Float, nought, max_f, or_else}
use agentpause.Errors.{
  Result, ok, raise, rate_limit_hit, telemetry_error, checkpoint_error, backend_error, kv_error,
  gpu_error, circuit_open_error, foreign,
}
use agentpause.Text.{Text, codes, text_instance}
use agentpause.World.{Message, Clock}
use agentpause.Risk.{Budget}
use agentpause.Json.{
  Json, array, object, null, str, int, item, no_items, no_fields, Reading, get, either, to_int,
  text,
}
use agentpause.Slots.{bind}
use agentpause.Compat.{
  Post, Sample, Adapter, Run, ran, exhausted, cached_reset, sample_point, sampled, aged,
  with_regime, ping_message, call, fallback_budget,
}

module _ {F W : Type 0} ⦃f : Float F⦄ (r : Reading F) (until : Text → Result F (Option F))
    (post : Post F W) (clock : Clock F W) where
  open f use {sub, le, of_int}

  -- `int(body.get("usage", {}).get("total_tokens") or 0)`
  unfoldable pub used_tokens : Json F → Result F ℤ
  unfolding bind get either to_int
  used_tokens body =
      bind (get (codes "usage") (object no_fields) body)
        λ usage. bind (get (codes "total_tokens") null usage) λ n. to_int r (either n (int (pos 0)))

  -- the first entry of `body.get("choices") or [{}]`; an index out of range is an IndexError
  unfoldable pub first_choice : Json F → Result F (Json F)
  first_choice (array (item choice rest)) = ok choice
  first_choice _ = raise foreign

  -- the content of the reply, whatever it is: a null or missing one is the empty text
  unfoldable pub reply_text : Json F → Result F (Json F)
  unfolding bind get either first_choice text
  reply_text body = bind (get (codes "choices") null body) λ choices.
      bind (first_choice (either choices (array (item (object no_fields) no_items)))) λ choice.
        bind (get (codes "message") (object no_fields) choice) λ message.
          bind (get (codes "content") null message) λ content. ok (either content (str []))

  unfoldable pub replied : Result F (Json F) → Adapter F → W → Run F W (Json F × ℤ)
  unfolding sample_point reply_text used_tokens bind
  replied (raise e) a w = ran (raise e) a w
  replied (ok body) a w =
      ran (bind (reply_text body) λ reply. bind (used_tokens body) λ used. ok (reply, used))
        (record a { prev_ping = sample_point a }) w

  unfoldable pub backend : List Message → Adapter F → W → Run F W (Json F × ℤ)
  unfolding replied call
  backend messages a w =
      let run = call r until post clock messages none a w in
      replied run.result run.adapter run.world

  -- A ping that was refused is a reading: nothing is left, and the provider says for how long.
  unfoldable pub refused : Option F → Adapter F → W → Run F W Unit
  unfolding cached_reset
  refused ra a w =
      let (now, w') = clock w in
      ran (ok tt)
        (record a {
          ping_count = suc a.ping_count;
          cached = some (exhausted (or_else ra (cached_reset a.cached)) ra);
          read_at = some now;
          prev_ping = none;
        })
        w'

  -- a ping whose reply could be counted, or not
  unfoldable pub counted_ping : Option (Sample F) → Result F ℤ → Adapter F → W → Run F W Unit
  unfolding sampled sample_point
  counted_ping prev (raise e) a w = ran (raise e) a w
  counted_ping prev (ok n) a w =
      let a' = record a { ping_tokens = a.ping_tokens +ℤ n } in
      ran (ok tt) (sampled prev (sample_point a') a') w

  unfoldable pub pinged : Option (Sample F) → Result F (Json F) → Adapter F → W → Run F W Unit
  unfolding refused counted_ping used_tokens
  pinged prev (ok body) a w =
      counted_ping prev (used_tokens body) (record a { ping_count = suc a.ping_count }) w
  pinged prev (raise (rate_limit_hit ra)) a w = refused ra a w
  pinged prev (raise telemetry_error) a w = ran (raise telemetry_error) a w
  pinged prev (raise checkpoint_error) a w = ran (raise checkpoint_error) a w
  pinged prev (raise (backend_error b)) a w = ran (raise (backend_error b)) a w
  pinged prev (raise kv_error) a w = ran (raise kv_error) a w
  pinged prev (raise gpu_error) a w = ran (raise gpu_error) a w
  pinged prev (raise circuit_open_error) a w = ran (raise circuit_open_error) a w
  pinged prev (raise foreign) a w = ran (raise foreign) a w

  unfoldable pub ping : Adapter F → W → Run F W Unit
  unfolding pinged call
  ping a w =
      let run = call r until post clock ping_message (some 1) a w in
      pinged a.prev_ping run.result run.adapter run.world

  -- `_is_fresh`, which reads the clock if there is a reading
  unfoldable pub fresh_at : F → Option F → W → Bool × W
  fresh_at max_age none w = (false, w)
  fresh_at max_age (some t) w = let (now, w') = clock w in (le (sub now t) max_age, w')

  -- `_age_adjusted`
  unfoldable pub age_adjusted : Option F → Budget F → W → Budget F × W
  unfolding aged
  age_adjusted none b w = (b, w)
  age_adjusted (some t) b w = let (now, w') = clock w in (aged (max_f nought (sub now t)) b, w')

  -- the end of `budget`, from the cache
  unfoldable pub served_from : Option (Budget F) → Adapter F → W → Run F W (Budget F)
  unfolding with_regime age_adjusted fallback_budget
  served_from none a w = ran (fallback_budget a.fallback_remaining) a w
  served_from (some b) a w =
      let b' = with_regime a.detector b in
      let (out, w') = age_adjusted a.read_at b' w in ran (ok out) (record a { cached = some b' }) w'

  unfoldable pub after_ping : Result F Unit → Adapter F → W → Run F W (Budget F)
  unfolding served_from
  after_ping (raise e) a w = ran (raise e) a w
  after_ping (ok u) a w = served_from a.cached a w

  unfoldable pub budget_if : Bool → Adapter F → W → Run F W (Budget F)
  unfolding served_from after_ping ping
  budget_if true a w = served_from a.cached a w
  budget_if false a w = let run = ping a w in after_ping run.result run.adapter run.world

  unfoldable pub budget : Adapter F → W → Run F W (Budget F)
  unfolding fresh_at budget_if
  budget a w = let (fresh, w') = fresh_at a.max_age_s a.read_at w in budget_if fresh a w'

-- `invalidate`
unfoldable pub invalidate : {F : Type 0} → Adapter F → Adapter F
invalidate a = record a { read_at = none }

module _ {F W : Type 0} ⦃f : Float F⦄ (r : Reading F) (until : Text → Result F (Option F))
    (post : Post F W) (clock : Clock F W) where
  unfoldable pub tokens_left : Result F (Budget F) → Result F ℤ
  tokens_left (ok b) = ok b.remaining_tokens
  tokens_left (raise e) = raise e

  unfoldable pub telemetry : Adapter F → W → Run F W ℤ
  unfolding tokens_left budget
  telemetry a w =
      let run = budget r until post clock a w in
      record { result = tokens_left run.result; adapter = run.adapter; world = run.world }

-- `max(1, len(text) // 4)`
unfoldable pub count_tokens : Text → ℕ
count_tokens s = if ltb 1 (length s / 4) then length s / 4 else 1
