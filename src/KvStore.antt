-- ===== src/KvStore.antt =====
-- The class `KVStateStore` of src/agentpause/llamacpp_kv.py: a checkpoint store that also keeps the
-- KV cache of a llama.cpp server, as blob files in `kv_dir`. A machine is the checkpoint directory,
-- the names in `kv_dir`, the server and the blobs that were restored. The server saves into `kv_dir`,
-- so its transport takes those names and returns them.
pub mod Save
pub mod Load
pub mod Fork
pub mod Names
pub mod Saving
pub mod Committing
pub mod Loading
pub mod Warming
pub mod Branching
pub mod Collecting
mod Tests
use agentpause.Prelude.{
  ℕ, suc, ◌+◌, Bool, true, false, not, ◌&&◌, ◌||◌, Option, none, some, List, [], ◌∷◌, ◌++◌,
  if◌then◌else◌, ltb,
}
use agentpause.Prelude.Int.{ℤ}
use agentpause.Prelude.Dict.{Dict, lookup, insert, erase}
use agentpause.Number.{Float}
use agentpause.Errors.{
  Result, ok, raise, Error, rate_limit_hit, telemetry_error, checkpoint_error, backend_error,
  kv_error, gpu_error, circuit_open_error, foreign,
}
use agentpause.Text.{Text, codes, text_eq, text_instance}
use agentpause.State.{Checkpoint}
use agentpause.Store.{Codec, Fault, Files, save, load, stored, fork_stored}
use agentpause.Json.{Reading}
use agentpause.Slots.{LlamaCppSlots, fingerprint, save_slot, restore_slot}

-- `extra["kv"]`
pub record Kv : Type 0 where
  pub file : Text
  pub model_fingerprint : Text
  pub n_saved : ℤ
  pub consumed : Bool

-- `extra`: its entry `kv`, if there is one, and the rest
pub record Extra (X : Type 0) : Type 0 where
  pub kv : Option Kv
  pub others : X

-- The names of the files in `kv_dir`. The server takes no name with a separator.
abbrev pub Blobs : Type 0
Blobs = List Text

pub record Machine (Content S : Type 0) : Type 0 where
  pub files : Files Content
  pub blobs : Blobs
  pub server : S
  -- `_consumed`
  pub consumed : Dict Text Text

-- The arguments of the constructor, and what the operating system answers.
pub record Setup (F X Stamp Content S : Type 0) : Type 0 where
  pub codec : Codec (Extra X) Stamp Content
  pub directory : Text
  pub slots : LlamaCppSlots F (Blobs × S)
  pub reading : Reading F
  pub base_url : Text
  pub id_slot : ℕ
  pub min_free_bytes : Option ℕ
  pub prune_oldest : Bool
  -- `disk_usage_fn(kv_dir).free`
  pub free : Blobs × S → ℕ
  -- `os.remove` of this blob raises
  pub stuck : Text → Bool
  -- `name[:-len(".json")]` of the names in the checkpoint directory that end in ".json"
  pub sessions : Files Content → List Text

abbrev pub blob_in : Text → Blobs → Bool
blob_in name [] = false
blob_in name (b ∷ bs) = text_eq b name || blob_in name bs

abbrev pub without : Text → Blobs → Blobs
without name [] = []
without name (b ∷ bs) = let rest = without name bs in if text_eq b name then rest else b ∷ rest

-- `f"{session_id}_{nonce}.bin"`
abbrev pub blob_name : Text → Text → Text
blob_name session_id nonce = session_id ++ (codes "_" ++ (nonce ++ codes ".bin"))

-- the file that the entry `kv` names, if it names one
unfoldable pub named : Text → Option Text
named [] = none
named (c ∷ s) = some (c ∷ s)

unfoldable pub file_of_kv : Option Kv → Option Text
unfolding named
file_of_kv none = none
file_of_kv (some kv) = named kv.file

module _ {X : Type 0} where
  abbrev pub with_kv : Option Kv → Checkpoint (Extra X) → Checkpoint (Extra X)
  with_kv kv cp = record cp { extra = record cp.extra { kv = kv } }

  unfoldable pub file_of : Option (Checkpoint (Extra X)) → Option Text
  unfolding file_of_kv
  file_of none = none
  file_of (some cp) = file_of_kv cp.extra.kv

  -- `except CheckpointError: continue`
  unfoldable pub file_loaded : {F : Type 0} → Result F (Option (Checkpoint (Extra X))) → Option Text
  unfolding file_of
  file_loaded (ok cp) = file_of cp
  file_loaded (raise e) = none

abbrev pub keys_of : Dict Text Text → List Text
keys_of [] = []
keys_of ((k, v) ∷ d) = k ∷ keys_of d

-- the machine after a request
abbrev pub served : {Content S : Type 0} → Blobs × S → Machine Content S → Machine Content S
served (bs, server) m = record m { blobs = bs; server = server }

-- `_delete_blob`, given the blobs whose removal raises
unfoldable pub delete_blob : (Text → Bool) → Text → Blobs → Blobs
delete_blob stuck [] bs = bs
delete_blob stuck (c ∷ name) bs = if stuck (c ∷ name) then bs else without (c ∷ name) bs

-- one more name for the set `referenced`
unfoldable pub add_reference : Option Text → List Text → List Text
add_reference none names = names
add_reference (some name) names = name ∷ names

-- the loop over the names in `kv_dir`
unfoldable pub sweep : (Text → Bool) → List Text → List Text → Blobs → ℕ × Blobs
unfolding delete_blob
sweep stuck kept [] bs = (0, bs)
sweep stuck kept (name ∷ names) bs =
    let next = if blob_in name kept then bs else delete_blob stuck name bs in
    let (removed, bs') = sweep stuck kept names next in
    (if blob_in name kept then removed else suc removed, bs')

module _ {F X Stamp Content S : Type 0} ⦃f : Float F⦄ (s : Setup F X Stamp Content S) where
  open s use {codec, directory}

  -- what `gc_orphans` finds in the checkpoint directory
  unfoldable pub references : List Text → Files Content → List Text
  unfolding add_reference file_loaded
  references [] fs = []
  references (id ∷ ids) fs =
      add_reference (file_loaded {F = F} (load codec directory id fs)) (references ids fs)

  unfoldable pub gc_orphans : Machine Content S → ℕ × Machine Content S
  unfolding sweep references
  gc_orphans m =
      let (removed, bs) = sweep s.stuck (references (s.sessions m.files) m.files) m.blobs m.blobs in
      (removed, record m { blobs = bs })

  -- one round of the loop of `gc_consumed`, once the name has been popped
  unfoldable pub collect : Text → Option Text → Machine Content S → ℕ × Machine Content S
  unfolding delete_blob
  collect id none m = (0, m)
  collect id (some []) m = (0, record m { consumed = erase id m.consumed })
  collect id (some (c ∷ name)) m = (
    1,
    record m { consumed = erase id m.consumed; blobs = delete_blob s.stuck (c ∷ name) m.blobs },
  )

  unfoldable pub collect_all : List Text → Machine Content S → ℕ × Machine Content S
  unfolding collect
  collect_all [] m = (0, m)
  collect_all (id ∷ ids) m =
      let (one, m') = collect id (lookup id m.consumed) m in
      let (rest, m'') = collect_all ids m' in (one + rest, m'')

  unfoldable pub gc_consumed : Option Text → Machine Content S → ℕ × Machine Content S
  unfolding collect_all
  gc_consumed none m = collect_all (keys_of m.consumed) m
  gc_consumed (some id) m = collect_all (id ∷ []) m

  -- the disk-space guard of `save_with_kv`
  unfoldable pub free_on : Machine Content S → ℕ
  free_on m = s.free (m.blobs, m.server)

  unfoldable pub pruned : ℕ → Machine Content S → Machine Content S
  unfolding free_on gc_orphans gc_consumed
  pruned need m =
      if ltb (free_on m) need && s.prune_oldest then (gc_consumed none (gc_orphans m).1).1 else m

  unfoldable pub guard : Option ℕ → Machine Content S → Result F Unit × Machine Content S
  unfolding pruned free_on
  guard none m = (ok tt, m)
  guard (some need) m =
      let m' = pruned need m in (if ltb (free_on m') need then raise kv_error else ok tt, m')
