-- ===== src/KvStore/Save.antt =====
-- `save_with_kv` of src/agentpause/llamacpp_kv.py: the blob first, the checkpoint second.
use agentpause.Prelude.{false, Option, none, some, if◌then◌else◌}
use agentpause.Prelude.Int.{ℤ}
use agentpause.Number.{Float}
use agentpause.Errors.{Result, ok, raise, kv_error}
use agentpause.Text.{Text, text_eq, text_instance}
use agentpause.State.{Checkpoint}
use agentpause.Store.{Fault, Files, save, load}
use agentpause.Slots.{fingerprint, save_slot}
use agentpause.KvStore.{
  Extra, Blobs, Machine, Setup, blob_in, blob_name, with_kv, file_of, served, delete_blob, guard,
}

-- How `save_with_kv` ends: the caller's checkpoint is changed in place.
pub record SavedWith (F X Content S : Type 0) : Type 0 where
  pub result : Result F Unit
  pub checkpoint : Checkpoint (Extra X)
  pub machine : Machine Content S

module _ {F X Stamp Content S : Type 0} ⦃f : Float F⦄ (s : Setup F X Stamp Content S) where
  open s use {codec, directory, slots, reading, base_url, id_slot}

  abbrev pub Saved : Type 0
  Saved = SavedWith F X Content S

  abbrev pub ended : Result F Unit → Checkpoint (Extra X) → Machine Content S → Saved
  ended r cp m = record { result = r; checkpoint = cp; machine = m }

  unfoldable pub delete_previous : Option Text → Text → Blobs → Blobs
  unfolding delete_blob
  delete_previous none name bs = bs
  delete_previous (some old) name bs = if text_eq old name then bs else delete_blob s.stuck old bs

  -- the logical commit, and the collection of the previous blob
  unfoldable pub commit :
      Option Text
      → Text
      → Checkpoint (Extra X)
      → Result F Text × Files Content
      → Machine Content S
      → Saved
  unfolding delete_previous
  commit previous name cp (raise e, fs) m = ended (raise e) cp (record m { files = fs })
  commit previous name cp (ok path, fs) m =
      ended (ok tt) cp (record m { files = fs; blobs = delete_previous previous name m.blobs })

  module _ (fault : Fault Content) (stamp : Stamp) (previous : Option Text) (name : Text) where
    -- once the fingerprint has been read
    unfoldable pub printed : Checkpoint (Extra X) → ℤ → Result F Text → Machine Content S → Saved
    unfolding commit
    printed cp n (raise e) m = ended (raise e) cp m
    printed cp n (ok model) m =
        let cp' =
          with_kv
            (some
              (record { file = name; model_fingerprint = model; n_saved = n; consumed = false }))
            cp in
        commit previous name cp' (save codec directory fault stamp cp' m.files) m

    -- once the server has answered
    unfoldable pub posted : Checkpoint (Extra X) → Result F ℤ → Machine Content S → Saved
    unfolding printed
    posted cp (raise e) m = ended (raise e) cp m
    posted cp (ok n) m =
        let (model, at) = fingerprint reading slots base_url (m.blobs, m.server) in
        if blob_in name m.blobs
        then printed cp n model (served at m)
        else ended (raise kv_error) cp m

    -- once the disk has been looked at
    unfoldable pub admitted : Checkpoint (Extra X) → Result F Unit × Machine Content S → Saved
    unfolding posted
    admitted cp (raise e, m) = ended (raise e) cp m
    admitted cp (ok u, m) =
        let (n, at) = save_slot reading slots base_url id_slot name (m.blobs, m.server) in
        posted cp n (served at m)

  -- once the previous checkpoint has been loaded
  unfoldable pub save_over :
      Fault Content
      → Stamp
      → Text
      → Checkpoint (Extra X)
      → Result F (Option (Checkpoint (Extra X)))
      → Machine Content S
      → Saved
  unfolding admitted guard file_of
  save_over fault stamp nonce cp (raise e) m = ended (raise e) cp m
  save_over fault stamp nonce cp (ok previous) m =
      admitted fault stamp (file_of previous) (blob_name cp.session_id nonce) cp
        (guard s s.min_free_bytes m)

  unfoldable pub save_with_kv :
      Fault Content → Stamp → Text → Checkpoint (Extra X) → Machine Content S → Saved
  unfolding save_over
  save_with_kv fault stamp nonce cp m =
      save_over fault stamp nonce cp (load codec directory cp.session_id m.files) m
