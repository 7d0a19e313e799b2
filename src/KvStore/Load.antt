-- ===== src/KvStore/Load.antt =====
-- `load_with_kv` of src/agentpause/llamacpp_kv.py: restore the blob, or say why not.
use agentpause.Prelude.{Bool, true, false, Option, none, some, if◌then◌else◌}
use agentpause.Prelude.Int.{ℤ}
use agentpause.Prelude.Dict.{insert}
use agentpause.Number.{Float}
use agentpause.Errors.{
  Result, ok, raise, Error, rate_limit_hit, telemetry_error, checkpoint_error, backend_error,
  kv_error, gpu_error, circuit_open_error, foreign,
}
use agentpause.Text.{Text, text_eq, text_instance}
use agentpause.State.{Checkpoint}
use agentpause.Store.{load}
use agentpause.Slots.{fingerprint, restore_slot}
use agentpause.KvStore.{Kv, Extra, Machine, Setup, blob_in, with_kv, served, delete_blob}

pub data Outcome : Type 0 where
  -- `kv_restored=True`, with `n_restored`
  restored : ℤ → Outcome
  no_checkpoint no_kv kv_file_missing unreachable model_mismatch : Outcome

-- `except KVError`
abbrev pub is_kv : {F : Type 0} → Error F → Bool
is_kv (rate_limit_hit _) = false
is_kv telemetry_error = false
is_kv checkpoint_error = false
is_kv (backend_error _) = false
is_kv kv_error = true
is_kv gpu_error = false
is_kv circuit_open_error = false
is_kv foreign = false

module _ {F X Stamp Content S : Type 0} ⦃f : Float F⦄ (s : Setup F X Stamp Content S) where
  open s use {codec, directory, slots, reading, base_url, id_slot}

  abbrev pub Loaded : Type 0
  Loaded = Result F (Option (Checkpoint (Extra X)) × Outcome) × Machine Content S

  -- `del cp.extra["kv"]` on the returned checkpoint
  abbrev pub degrade : Checkpoint (Extra X) → Outcome → Machine Content S → Loaded
  degrade cp why m = (ok (some (with_kv none cp), why), m)

  module _ (id : Text) (cp : Checkpoint (Extra X)) (kv : Kv) where
    -- once the server has answered
    unfoldable pub answered : Result F ℤ → Machine Content S → Loaded
    answered (raise e) m = if is_kv e then degrade cp unreachable m else (raise e, m)
    answered (ok n) m = (
      ok (some (with_kv (some (record kv { consumed = true })) cp), restored n),
      record m { consumed = insert id kv.file m.consumed },
    )

    -- once the fingerprint has been read
    unfoldable pub matched : Result F Text → Machine Content S → Loaded
    unfolding answered delete_blob
    matched (raise e) m = if is_kv e then degrade cp unreachable m else (raise e, m)
    matched (ok model) m =
        let (n, at) = restore_slot reading slots base_url id_slot kv.file (m.blobs, m.server) in
        if text_eq model kv.model_fingerprint
        then answered n (served at m)
        else degrade cp model_mismatch (record m { blobs = delete_blob s.stuck kv.file m.blobs })

  -- once the checkpoint and its entry `kv` are known
  unfoldable pub load_kv : Text → Checkpoint (Extra X) → Option Kv → Machine Content S → Loaded
  unfolding matched
  load_kv id cp none m = (ok (some cp, no_kv), m)
  load_kv id cp (some kv) m =
      let (model, at) = fingerprint reading slots base_url (m.blobs, m.server) in
      if blob_in kv.file m.blobs
      then matched id cp kv model (served at m)
      else degrade cp kv_file_missing m

  unfoldable pub load_loaded :
      Text → Result F (Option (Checkpoint (Extra X))) → Machine Content S → Loaded
  unfolding load_kv
  load_loaded id (raise e) m = (raise e, m)
  load_loaded id (ok none) m = (ok (none, no_checkpoint), m)
  load_loaded id (ok (some cp)) m = load_kv id cp cp.extra.kv m

  unfoldable pub load_with_kv : Text → Machine Content S → Loaded
  unfolding load_loaded
  load_with_kv id m = load_loaded id (load codec directory id m.files) m
