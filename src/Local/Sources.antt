-- ===== src/Local/Sources.antt =====
-- The two sources of src/agentpause/adapters/local_resources.py that read hardware: the context window
-- of a llama.cpp slot, and the free memory of a GPU.
use agentpause.Prelude.{
  ℕ, Bool, true, false, ◌&&◌, Option, none, some, List, [], ◌∷◌, if◌then◌else◌, is_none, suc,
  length,
}
use agentpause.Prelude.Int.{ℤ, pos, ◌-ℤ◌, max_ℤ}
use agentpause.Number.{Float, truthy}
use agentpause.Errors.{Result, ok, raise, Error, telemetry_error, foreign}
use agentpause.Text.{Text, codes}
use agentpause.Risk.{Budget}
use agentpause.Json.{
  Json, Items, Fields, truth, str, array, object, no_items, item, Reading, find, to_int,
}
use agentpause.Slots.{LlamaCppSlots, get_props, get_slot, bind}
use agentpause.KvStore.Load.{is_kv}
use agentpause.Local.{BudgetTelemetry}

-- A field read out of a body: `ok none` is a KeyError, a TypeError or a ValueError, and `raise` any
-- other exception.
abbrev pub Extractor : Type 0 → Type 0
Extractor F = Json F → Result F (Option ℤ)

-- a budget of tokens out of a window
abbrev pub windowed : {F : Type 0} → ℤ → ℤ → Budget F
windowed remaining limit = record {
  remaining_tokens = remaining;
  remaining_requests = none;
  reset_seconds = none;
  reset_requests_seconds = none;
  remaining_input_tokens = none;
  remaining_output_tokens = none;
  limit_tokens = some limit;
  refill_regime = none;
  remaining_seconds = none;
}

module _ {F : Type 0} where
  unfoldable pub count_items : Items F → ℕ
  count_items no_items = 0
  count_items (item x xs) = suc (count_items xs)

  -- what `int(value)` raises is caught
  unfoldable pub caught : Result F ℤ → Result F (Option ℤ)
  caught (ok n) = ok (some n)
  caught (raise e) = ok none

module _ {F : Type 0} ⦃f : Float F⦄ (r : Reading F) where
  -- `int(value)`
  abbrev number : Json F → Result F (Option ℤ)
  number v = caught (to_int r v)

  -- `d["n_ctx"]` of a dict that has it
  unfoldable pub own_context : Fields F → Result F (Option ℤ)
  unfolding caught find to_int
  own_context d = elim (find (codes "n_ctx") d) [ some v ↦ number v | none ↦ ok none ]

  unfoldable pub nested_context : Json F → Option (Json F)
  unfolding find
  nested_context (object d) = find (codes "n_ctx") d
  nested_context _ = none

  -- `dgs["n_ctx"]`, where `dgs` may be missing
  unfoldable pub settings_context : Option (Json F) → Option (Json F)
  unfolding nested_context
  settings_context none = none
  settings_context (some dgs) = nested_context dgs

  -- `_default_context_field`
  unfoldable pub default_context_field : Extractor F
  unfolding own_context settings_context caught to_int
  default_context_field (object d) =
      elim (settings_context (find (codes "default_generation_settings") d)) [
        | some v ↦ number v
        | none ↦ own_context d
      ]
  default_context_field _ = raise foreign

  -- `len(v) if isinstance(v, (list, tuple)) else int(v)`, and with a string measured too
  unfoldable pub counted : Json F → Result F (Option ℤ)
  unfolding caught to_int count_items
  counted (array xs) = ok (some (pos (count_items xs)))
  counted v = number v

  unfoldable pub measured : Json F → Result F (Option ℤ)
  unfolding counted
  measured (str s) = ok (some (pos (length s)))
  measured v = counted v

  -- `n_decoded` of `next_token`, a dict or a list whose first entry is one
  unfoldable pub decoded : Json F → Option (Json F)
  unfolding find
  decoded (object d) = find (codes "n_decoded") d
  decoded (array (item (object d) xs)) = find (codes "n_decoded") d
  decoded _ = none

  unfoldable pub decoded_field : Option (Json F) → Option (Json F)
  unfolding decoded
  decoded_field none = none
  decoded_field (some v) = decoded v

  abbrev is_false : Option (Json F) → Bool
  is_false (some (truth false)) = true
  is_false _ = false

  -- a slot that has no counter: 0 if it looks idle
  unfoldable pub idle : Fields F → Result F (Option ℤ)
  unfolding find
  idle d =
      if is_none (find (codes "id_task") d) && is_false (find (codes "is_processing") d)
      then ok (some (pos 0))
      else ok none

  -- the fallback on `next_token`
  unfoldable pub from_next : Fields F → Result F (Option ℤ)
  unfolding decoded_field idle caught to_int find
  from_next d = elim (decoded_field (find (codes "next_token") d)) [
    | some v ↦ number v
    | none ↦ idle d
  ]

  -- the first of the keys that the slot has, each with its way to read the value
  unfoldable pub first_of :
      List (Text × (Json F → Result F (Option ℤ)))
      → Fields F
      → Result F (Option ℤ)
      → Result F (Option ℤ)
  unfolding find
  first_of [] d otherwise = otherwise
  first_of ((key, read) ∷ keys) d otherwise = elim (find key d) [
    | some v ↦ read v
    | none ↦ first_of keys d otherwise
  ]

  abbrev used_keys : List (Text × (Json F → Result F (Option ℤ)))
  used_keys =
      (codes "n_prompt_tokens", number)
      ∷ (codes "cache_tokens", counted)
      ∷ (codes "n_past", number)
      ∷ (codes "prompt", measured)
      ∷ (codes "tokens", counted)
      ∷ []

  -- `_default_used_field`
  unfoldable pub default_used_field : Extractor F
  unfolding first_of from_next measured caught to_int
  default_used_field (object d) = first_of used_keys d (from_next d)
  default_used_field _ = raise foreign

-- `LlamaCppContextBudget`
pub record ContextBudget (F S : Type 0) : Type 0 where
  pub slots : LlamaCppSlots F S
  pub reading : Reading F
  pub base_url : Text
  pub id_slot : ℤ
  pub safety_margin_tokens : ℤ
  pub context_field : Extractor F
  pub used_field : Extractor F

module _ {F S : Type 0} ⦃f : Float F⦄ (c : ContextBudget F S) where
  -- `except KVError: raise TelemetryError`
  unfoldable pub blind : {A : Type 0} → Error F → Result F A
  blind e = if is_kv e then raise telemetry_error else raise e

  -- `except (KeyError, TypeError, ValueError): raise TelemetryError`
  unfoldable pub required : Result F (Option ℤ) → Result F ℤ
  required (raise e) = raise e
  required (ok none) = raise telemetry_error
  required (ok (some n)) = ok n

  -- once both bodies are there
  unfoldable pub context_left : Json F → Json F → Result F (Budget F)
  unfolding required bind
  context_left props slot = bind (required (c.context_field props)) λ size.
      bind (required (c.used_field slot))
        λ used. ok (windowed (max_ℤ (pos 0) (size -ℤ used -ℤ c.safety_margin_tokens)) size)

  unfoldable pub after_slot : Json F → Result F (Json F) × S → Result F (Budget F) × S
  unfolding context_left blind
  after_slot props (raise e, s) = (blind e, s)
  after_slot props (ok slot, s) = (context_left props slot, s)

  unfoldable pub after_props : Result F (Json F) × S → Result F (Budget F) × S
  unfolding after_slot blind
  after_props (raise e, s) = (blind e, s)
  after_props (ok props, s) = after_slot props (get_slot c.reading c.slots c.base_url c.id_slot s)

  unfoldable pub context_budget : BudgetTelemetry F S
  unfolding after_props
  context_budget s = after_props (get_props c.reading c.slots c.base_url s)

-- `GPUMemoryBudget`
pub record GpuBudget (F W : Type 0) : Type 0 where
  pub bytes_per_token : Option F
  pub safety_margin_bytes : ℤ
  -- `reader_fn(device_index)`: the free and the total bytes
  pub reader : W → Result F (ℤ × ℤ) × W

module _ {F W : Type 0} ⦃f : Float F⦄ (g : GpuBudget F W) where
  open f use {of_int, div, trunc}

  -- `int(bytes / bytes_per_token)`; a divisor of zero is a ZeroDivisionError
  unfoldable pub gpu_tokens : Option F → ℤ → ℤ → Result F (Budget F)
  gpu_tokens none free total = raise telemetry_error
  gpu_tokens (some per_token) free total =
      let left = max_ℤ (pos 0) (free -ℤ g.safety_margin_bytes) in
      if truthy per_token
      then ok
          (windowed (trunc (div (of_int left) per_token)) (trunc (div (of_int total) per_token)))
      else raise foreign

  unfoldable pub gpu_read : Result F (ℤ × ℤ) × W → Result F (Budget F) × W
  unfolding gpu_tokens
  gpu_read (raise e, w) = (raise telemetry_error, w)
  gpu_read (ok (free, total), w) = (gpu_tokens g.bytes_per_token free total, w)

  unfoldable pub gpu_budget : BudgetTelemetry F W
  unfolding gpu_read
  gpu_budget w = gpu_read (g.reader w)
