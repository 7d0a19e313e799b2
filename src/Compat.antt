-- ===== src/Compat.antt =====
-- The class `OpenAICompatAdapter` of src/agentpause/adapters/openai_compat.py: a provider's raw HTTP
-- API as backend and telemetry. The transport and the clock are parameters.
pub mod Header
pub mod Serving
pub mod Registry
pub mod Freshness
pub mod Exhausted
pub mod Statuses
mod Tests
use agentpause.Prelude.{
  ℕ, suc, Bool, true, false, not, ◌&&◌, Option, none, some, List, [], ◌∷◌, if◌then◌else◌,
}
use agentpause.Prelude.Int.{ℤ, pos, leb_ℤ, ◌+ℤ◌, ◌-ℤ◌}
use agentpause.Prelude.Dict.{Dict, lookup}
use agentpause.Number.{Float, nought, max_f, truthy, or_else}
use agentpause.Errors.{
  Result, ok, raise, Error, rate_limit_hit, telemetry_error, checkpoint_error, backend_error,
  kv_error, gpu_error, circuit_open_error, foreign,
}
use agentpause.Text.{Text, codes, text_instance}
use agentpause.World.{Message, Clock}
use agentpause.Risk.{Budget, Regime, unknown, continuous, fixed}
use agentpause.Refill.{Detector, feed, regime}
use agentpause.Json.{
  Json, array, object, null, str, int, item, no_items, no_fields, Reading, get, either, to_int,
  text,
}
use agentpause.Slots.{bind}
use agentpause.Compat.Header.{Headers, limits_of, retry_after}

-- `post_fn`: the status, the headers and the body. The URL, the key and the model are fixed; a call
-- may cap the reply's tokens.
abbrev pub Post : Type 0 → Type 0 → Type 0
Post F W = List Message → Option ℕ → W → Result F (ℤ × Headers × Json F) × W

-- the reading of a ping: when, what remained, and the refill rate that it implies
pub record Sample (F : Type 0) : Type 0 where
  pub at : F
  pub remaining : ℤ
  pub implied : F

pub record Adapter (F : Type 0) : Type 0 where
  pub fallback_remaining : Option ℤ
  pub max_age_s : F
  -- the cached reading and when it was taken
  pub cached : Option (Budget F)
  pub read_at : Option F
  pub detector : Detector F
  pub prev_ping : Option (Sample F)
  pub ping_tokens : ℤ
  pub ping_count : ℕ

-- What a method leaves: its result, the adapter and the world.
pub record Run (F W A : Type 0) : Type 0 where
  pub result : Result F A
  pub adapter : Adapter F
  pub world : W

abbrev pub ran : {F W A : Type 0} → Result F A → Adapter F → W → Run F W A
ran r a w = record { result = r; adapter = a; world = w }

abbrev pub ping_message : List Message
ping_message = record { role = codes "user"; content = codes "ping" } ∷ []

abbrev pub exhausted : {F : Type 0} → Option F → Option F → Budget F
exhausted reset reset_requests = record {
  remaining_tokens = pos 0;
  remaining_requests = some (pos 0);
  reset_seconds = reset;
  reset_requests_seconds = reset_requests;
  remaining_input_tokens = none;
  remaining_output_tokens = none;
  limit_tokens = none;
  refill_regime = none;
  remaining_seconds = none;
}

abbrev is_known : Regime → Bool
is_known continuous = true
is_known fixed = true
is_known unknown = false

module _ {F : Type 0} ⦃f : Float F⦄ where
  open f use {of_int, lit, sub, div, le, lt}

  -- the reset of the cached reading, or 5 seconds if there is none
  unfoldable pub cached_reset : Option (Budget F) → Option F
  cached_reset none = some (lit 5 1)
  cached_reset (some b) = b.reset_seconds

  -- `(limit - remaining) / reset` where both are known and the reset is positive
  unfoldable pub implied_rate : Budget F → F
  implied_rate b = elim (b.limit_tokens) [
    | none ↦ nought
    | some limit ↦ elim (b.reset_seconds) [
      | none ↦ nought
      | some reset ↦
          if lt nought reset then div (of_int (limit -ℤ b.remaining_tokens)) reset else nought
    ]
  ]

  -- `_sample_point`
  unfoldable pub point_of : Option (Budget F) → Option F → Option (Sample F)
  unfolding implied_rate
  point_of none t = none
  point_of (some b) none = none
  point_of (some b) (some t) =
      some (record { at = t; remaining = b.remaining_tokens; implied = implied_rate b })

  unfoldable pub sample_point : Adapter F → Option (Sample F)
  unfolding point_of
  sample_point a = point_of a.cached a.read_at

  -- the vote of two samples with no traffic between them
  unfoldable pub voted : Option (Sample F) → Sample F → Detector F → Detector F
  voted none p d = d
  voted (some prev) p d =
      feed d (sub p.at prev.at) (of_int (p.remaining -ℤ prev.remaining)) prev.implied

  -- the end of `ping`, after a reply
  unfoldable pub sampled : Option (Sample F) → Option (Sample F) → Adapter F → Adapter F
  unfolding voted
  sampled prev none a = a
  sampled prev (some p) a = record a { detector = voted prev p a.detector; prev_ping = some p }

  -- a reset that is due sooner by the age of the reading
  unfoldable pub sooner : F → Option F → Option F
  sooner age none = none
  sooner age (some reset) = some (max_f nought (sub reset age))

  -- an age of zero returns the reading itself
  unfoldable pub aged : F → Budget F → Budget F
  unfolding sooner
  aged age b =
      if truthy age
      then record b {
        reset_seconds = sooner age b.reset_seconds;
        reset_requests_seconds = sooner age b.reset_requests_seconds;
      }
      else b

  -- the regime that the detector has found, in the cached reading
  unfoldable pub with_regime : Detector F → Budget F → Budget F
  with_regime d b = if is_known (regime d) then record b { refill_regime = some (regime d) } else b

  unfoldable pub fallback_budget : Option ℤ → Result F (Budget F)
  fallback_budget none = raise telemetry_error
  fallback_budget (some n) =
      ok (record (exhausted none none) { remaining_tokens = n; remaining_requests = none })

  -- `if status == 429 ... if 500 <= status <= 599 ... if status >= 400`
  unfoldable pub status_of : ℤ → Result F (Option F) → Json F → Result F (Json F)
  unfolding bind
  status_of status hint body =
      if leb_ℤ (pos 429) status && leb_ℤ status (pos 429)
      then bind hint (λ ra. raise (rate_limit_hit ra))
      else if leb_ℤ (pos 500) status && leb_ℤ status (pos 599)
      then raise (backend_error true)
      else if leb_ℤ (pos 400) status
      then raise (backend_error false)
      else ok body

module _ {F W : Type 0} ⦃f : Float F⦄ (r : Reading F) (until : Text → Result F (Option F))
    (post : Post F W) (clock : Clock F W) where
  open f use {sub, le, of_int}

  -- `_absorb`, once the headers have been read
  unfoldable pub absorbed : Result F (Option (Budget F)) → Adapter F → W → Run F W Unit
  absorbed (raise e) a w = ran (raise e) a w
  absorbed (ok none) a w = ran (ok tt) a w
  absorbed (ok (some b)) a w =
      let (now, w') = clock w in ran (ok tt) (record a { cached = some b; read_at = some now }) w'

  unfoldable pub checked : ℤ → Headers → Json F → Run F W Unit → Run F W (Json F)
  unfolding status_of
  checked status headers body run = record {
    result = bind run.result (λ u. status_of status (retry_after r headers) body);
    adapter = run.adapter;
    world = run.world;
  }

  -- once the transport has answered
  unfoldable pub answered : Result F (ℤ × Headers × Json F) × W → Adapter F → Run F W (Json F)
  unfolding checked absorbed
  answered (raise e, w) a = ran (raise e) a w
  answered (ok (status, headers, body), w) a =
      checked status headers body (absorbed (limits_of r until headers) a w)

  -- `_call`, that is `_post_and_check`
  unfoldable pub call : List Message → Option ℕ → Adapter F → W → Run F W (Json F)
  unfolding answered
  call messages max_tokens a w = answered (post messages max_tokens w) a
