-- ===== src/Local/Facade.antt =====
-- `LocalResourceBudget` of src/agentpause/adapters/local_resources.py: the sources behind one callable,
-- calibrated by the first save of a KV cache. The world is the directory of blobs and the server.
use agentpause.Prelude.{
  ℕ, Bool, true, false, ◌*◌, ltb, Option, none, some, [], ◌∷◌, if◌then◌else◌, is_none, ◌&&◌,
}
use agentpause.Prelude.Int.{ℤ, pos, ltb_ℤ}
use agentpause.Number.{Float}
use agentpause.Errors.{Result, ok, raise, foreign}
use agentpause.Text.{Text}
use agentpause.World.{Clock}
use agentpause.State.{Checkpoint}
use agentpause.Store.{Fault}
use agentpause.Json.{Json, Reading}
use agentpause.Slots.{LlamaCppSlots, get_props}
use agentpause.KvStore.{Kv, Extra, Blobs, Machine, Setup, served}
use agentpause.KvStore.Save.{SavedWith, save_with_kv}
use agentpause.Local.{BudgetTelemetry, as_reading, composite, start_timer, time_left}
use agentpause.Local.Sources.{
  ContextBudget, GpuBudget, context_budget, gpu_budget, default_context_field, default_used_field,
}
use agentpause.Local.Price.{Predicting, price_per_1k_tokens_from_estimator}

pub record LocalBudget (F W : Type 0) : Type 0 where
  pub base_url : Text
  pub id_slot : ℤ
  pub safety_margin_tokens : ℤ
  pub time_budget_s : Option F
  pub hourly_cost : Option F
  pub min_free_bytes_override : Option ℕ
  pub slots : LlamaCppSlots F W
  pub reading : Reading F
  -- the reader of the GPU's free and total bytes
  pub gpu_reader : W → Result F (ℤ × ℤ) × W
  pub gpu_available : Bool
  pub bytes_per_token : Option F
  pub measured_save_s : Option F

-- `_MIN_FREE_BYTES_FLOOR`
abbrev pub min_free_floor : ℕ
min_free_floor = 500_000_000

-- `max(floor, 5 * blob_bytes)`
abbrev pub room_for : ℕ → ℕ
room_for blob_bytes = if ltb min_free_floor (5 * blob_bytes) then 5 * blob_bytes else min_free_floor

-- What a save has calibrated: the budget, and the disk guard of the store.
pub record Calibrated (F W : Type 0) : Type 0 where
  pub budget : LocalBudget F W
  pub min_free_bytes : Option ℕ

-- whether the reader answered
unfoldable pub detected : {F : Type 0} → Result F (ℤ × ℤ) → Bool
detected (ok x) = true
detected (raise e) = false

-- `suggest_price_per_1k_tokens`: the cost of the call, or that of the constructor
unfoldable pub cost_of : {F : Type 0} → Option F → Option F → Option F
cost_of none b = b
cost_of (some a) b = some a

module _ {F : Type 0} ⦃f : Float F⦄ where
  open f use {lit}

  -- the reserve: measured, or 5 seconds before the first save
  unfoldable pub reserve_for : Option F → F
  reserve_for none = lit 5 1
  reserve_for (some s) = s

  unfoldable pub price_with : Option F → Predicting F → ℤ → Result F (Option F)
  price_with none e n = raise foreign
  price_with (some cost) e n = price_per_1k_tokens_from_estimator e n cost

module _ {F W : Type 0} ⦃f : Float F⦄ where
  open f use {of_int, div}

  unfoldable pub probe_gpu : LocalBudget F W → W → LocalBudget F W × W
  unfolding detected
  probe_gpu l w =
      let (r, w') = l.gpu_reader w in
      (record l { gpu_available = detected r; bytes_per_token = none; measured_save_s = none }, w')

  -- `__init__` once the context size has been looked for: a KeyError or ValueError propagates
  unfoldable pub opened : LocalBudget F W → Result F (Option ℤ) → W → Result F (LocalBudget F W) × W
  unfolding probe_gpu
  opened l (raise e) w = (raise e, w)
  opened l (ok none) w = (raise foreign, w)
  opened l (ok (some n_ctx)) w = let (l', w') = probe_gpu l w in (ok l', w')

  unfoldable pub open_with :
      LocalBudget F W → Result F (Json F) × W → Result F (LocalBudget F W) × W
  unfolding opened
  open_with l (raise e, w) = (raise e, w)
  open_with l (ok props, w) = opened l (default_context_field l.reading props) w

  -- `__init__`
  unfoldable pub init : LocalBudget F W → W → Result F (LocalBudget F W) × W
  unfolding open_with
  init l w = open_with l (get_props l.reading l.slots l.base_url w)

  -- the context source of `__call__`
  abbrev pub context_of : LocalBudget F W → ContextBudget F W
  context_of l = record {
    slots = l.slots;
    reading = l.reading;
    base_url = l.base_url;
    id_slot = l.id_slot;
    safety_margin_tokens = l.safety_margin_tokens;
    context_field = default_context_field l.reading;
    used_field = default_used_field l.reading;
  }

  abbrev pub gpu_of : LocalBudget F W → GpuBudget F W
  gpu_of l = record {
    bytes_per_token = l.bytes_per_token;
    safety_margin_bytes = pos 0;
    reader = l.gpu_reader;
  }

  -- the resources, without the deadline
  unfoldable pub resources : LocalBudget F W → BudgetTelemetry F W
  resources l =
      let context = context_budget (context_of l) in
      if l.gpu_available && (if is_none l.bytes_per_token then false else true)
      then composite (as_reading context ∷ as_reading (gpu_budget (gpu_of l)) ∷ [])
      else context

  module _ (clock : Clock F W) where
    -- `__call__` with a deadline: the timer is built anew
    unfoldable pub under_deadline : LocalBudget F W → Option F → BudgetTelemetry F W
    unfolding resources reserve_for
    under_deadline l none w = resources l w
    under_deadline l (some budget_s) w =
        let (timer, w') =
          start_timer clock (as_reading (resources l)) budget_s
            (some (reserve_for l.measured_save_s)) none none w in
        time_left clock timer w'

    -- `__call__`
    unfoldable pub local_budget : LocalBudget F W → BudgetTelemetry F W
    unfolding under_deadline
    local_budget l w = under_deadline l l.time_budget_s w

  unfoldable pub suggest_price_per_1k_tokens :
      LocalBudget F W → Predicting F → ℤ → Option F → Result F (Option F)
  unfolding cost_of price_with
  suggest_price_per_1k_tokens l e n cost = price_with (cost_of cost l.hourly_cost) e n

  -- what a save that went through calibrates; `blob_bytes` is `os.path.getsize` of the blob
  unfoldable pub calibrate : Kv → F → ℕ → Option ℕ → LocalBudget F W → Calibrated F W
  calibrate kv elapsed blob_bytes min_free l = record {
    budget = record l {
      measured_save_s = some elapsed;
      bytes_per_token =
          if ltb_ℤ (pos 0) kv.n_saved
          then some (div (of_int (pos blob_bytes)) (of_int kv.n_saved))
          else l.bytes_per_token;
    };
    min_free_bytes =
        if is_none l.min_free_bytes_override then some (room_for blob_bytes) else min_free;
  }

-- What the wrapped `save_with_kv` leaves: what the store's own leaves, and the calibration.
pub record SavedAndCalibrated (F X Content S : Type 0) : Type 0 where
  pub saved : SavedWith F X Content S
  pub calibrated : Calibrated F (Blobs × S)

module _ {F W : Type 0} ⦃f : Float F⦄ where
  unfoldable pub calibrated_by :
      (Text → ℕ) → Option Kv → F → Option ℕ → LocalBudget F W → Calibrated F W
  unfolding calibrate
  calibrated_by size none elapsed min_free l = record { budget = l; min_free_bytes = min_free }
  calibrated_by size (some kv) elapsed min_free l = calibrate kv elapsed (size kv.file) min_free l

module _ {F X Content S : Type 0} ⦃f : Float F⦄ (size : Text → ℕ) where
  open f use {sub}

  -- once the store has answered; an exception propagates
  unfoldable pub after_save :
      Clock F (Blobs × S)
      → F
      → Option ℕ
      → LocalBudget F (Blobs × S)
      → Result F Unit
      → SavedWith F X Content S
      → SavedAndCalibrated F X Content S
  unfolding calibrated_by
  after_save clock started min_free l (raise e) out = record {
    saved = out;
    calibrated = record { budget = l; min_free_bytes = min_free };
  }
  after_save clock started min_free l (ok u) out =
      let (now, at) = clock (out.machine.blobs, out.machine.server) in
      record {
        saved = record out { machine = served at out.machine };
        calibrated = calibrated_by size out.checkpoint.extra.kv (sub now started) min_free l;
      }

  -- `_save_with_kv_and_calibrate`, where `size` is `os.path.getsize` of a blob
  unfoldable pub save_and_calibrate :
      {Stamp : Type 0}
      → Clock F (Blobs × S)
      → Setup F X Stamp Content S
      → LocalBudget F (Blobs × S)
      → Fault Content
      → Stamp
      → Text
      → Checkpoint (Extra X)
      → Machine Content S
      → SavedAndCalibrated F X Content S
  unfolding after_save
  save_and_calibrate clock s l fault stamp nonce cp m =
      let (started, at) = clock (m.blobs, m.server) in
      let out = save_with_kv s fault stamp nonce cp (served at m) in
      after_save clock started s.min_free_bytes l out.result out
