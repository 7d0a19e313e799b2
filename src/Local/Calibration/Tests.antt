-- ===== src/Local/Calibration/Tests.antt =====
-- Runs of a save that calibrates the local budgets, with its theorems.
use agentpause.Prelude.{ℕ, true, false, ◌*◌, ◌≤◌, ◌+◌, Option, none, some, [], ◌∷◌, ◌≡◌, refl}
use agentpause.Prelude.Int.{pos, ◌-ℤ◌}
use agentpause.Number.Fixed.{Milli, milli, milli_float}
use agentpause.Errors.{ok, raise, foreign, kv_error}
use agentpause.Text.{Text, codes}
use agentpause.World.{Clock}
use agentpause.State.{Checkpoint}
use agentpause.Store.{no_fault, save, load, decode, path_of, join_path}
use agentpause.Json.{int, str, object, field, no_fields, find, get, text, holds, either, to_int}
use agentpause.Slots.{
  LlamaCppSlots, rstrip, as_kv_error, bind, get_props, model_of, fingerprint, counted, save_slot,
}
use agentpause.KvStore.{
  Extra, Blobs, Machine, Setup, guard, pruned, free_on, file_of, file_of_kv, named,
}
use agentpause.KvStore.Save.{
  save_with_kv, save_over, admitted, posted, printed, commit, delete_previous,
}
use agentpause.KvStore.Committing.{fresh}
use agentpause.Local.Facade.{LocalBudget, calibrate, calibrated_by, after_save, save_and_calibrate}
use agentpause.Local.Calibration.{save_and_calibrate_room, save_and_calibrate_fault}

abbrev Disk : Type 0
Disk = Option (Checkpoint (Extra ℕ))

-- the time is the state of the server
abbrev World : Type 0
World = Blobs × ℕ

abbrev clock : Clock Milli World
clock at = (milli at.1, at)

abbrev slots : LlamaCppSlots Milli World
slots = record {
  get_fn = λ url at. (ok (object (field (codes "model_path") (str (codes "m")) no_fields)), at);
  post_fn = λ url name at.
      (ok (object (field (codes "n_saved") (int (pos 50)) no_fields)), (name ∷ at.0, at.1 + 7000));
}

abbrev down : LlamaCppSlots Milli World
down = record {
  get_fn = λ url at. (raise foreign, at);
  post_fn = λ url name at. (raise foreign, at);
}

abbrev setup : LlamaCppSlots Milli World → Setup Milli ℕ ℕ Disk ℕ
setup s = record {
  codec = record { dump = λ n cp. some cp; parse = λ c. c };
  directory = codes "d";
  slots = s;
  reading = record {
    int_of = λ n. none;
    int_of_real = λ x. some (milli_float.trunc x);
    float_of = λ n. none;
    text_of = λ j. [];
  };
  base_url = codes "u";
  id_slot = 0;
  min_free_bytes = none;
  prune_oldest = true;
  free = λ at. 100;
  stuck = λ name. false;
  sessions = λ fs. [];
}

abbrev local : LocalBudget Milli World
local = record {
  base_url = codes "u";
  id_slot = pos 0;
  safety_margin_tokens = pos 256;
  time_budget_s = none;
  hourly_cost = none;
  min_free_bytes_override = none;
  slots = slots;
  reading = record {
    int_of = λ n. none;
    int_of_real = λ x. some (milli_float.trunc x);
    float_of = λ n. none;
    text_of = λ j. [];
  };
  gpu_reader = λ at. (ok (pos 1000, pos 4000), at);
  gpu_available = true;
  bytes_per_token = none;
  measured_save_s = none;
}

abbrev task : Checkpoint (Extra ℕ)
task = record {
  session_id = codes "a";
  step = 3;
  messages = [];
  idempotency_keys = [];
  total_tokens_used = pos 90;
  extra = record { kv = none; others = 7 };
}

abbrev empty : Machine Disk ℕ
empty = record { files = λ p. none; blobs = []; server = 0; consumed = [] }

-- every blob has two hundred million bytes
abbrev size : Text → ℕ
size name = 200_000_000

program : Unit {0}
unfolding join_path path_of load save decode find get text holds either to_int rstrip as_kv_error
    bind get_props model_of fingerprint counted save_slot named file_of_kv file_of free_on pruned
    guard delete_previous commit printed posted admitted save_over save_with_kv calibrate
    calibrated_by after_save save_and_calibrate ◌-ℤ◌
program = tt

-- seven seconds, and four million bytes a token
calibrated :
    (save_and_calibrate size clock (setup slots) local no_fault 0 (codes "1") task empty).calibrated
    ≡ record {
      budget = record local {
        measured_save_s = some (milli 7000);
        bytes_per_token = some (milli 4_000_000_000);
      };
      min_free_bytes = some 1_000_000_000;
    }
unfolding program
calibrated = refl

save_and_calibrate_room_example :
    let after =
      (save_and_calibrate size clock
        (setup slots)
        local
        no_fault
        0
        (codes "1")
        task
        empty).calibrated in
    (need : ℕ) × (after.min_free_bytes ≡ some need)
    × (500_000_000 ≤ need)
    × (5 * 200_000_000 ≤ need)
unfolding program
save_and_calibrate_room_example =
    save_and_calibrate_room size clock (setup slots) local no_fault 0 (codes "1") task empty
      (fresh (codes "a_1.bin") (codes "m") (pos 50)) refl refl refl

save_and_calibrate_fault_example :
    let after =
      save_and_calibrate size clock (setup down) local no_fault 0 (codes "1") task empty in
    (after.saved ≡ save_with_kv (setup down) no_fault 0 (codes "1") task empty)
    × (after.calibrated.budget ≡ local)
    × (after.calibrated.min_free_bytes ≡ none)
unfolding program
save_and_calibrate_fault_example =
    save_and_calibrate_fault size clock (setup down) local no_fault 0 (codes "1") task empty
      kv_error refl
