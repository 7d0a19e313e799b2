-- ===== src/KvStore/Fork.antt =====
-- `fork_with_kv` of src/agentpause/llamacpp_kv.py: each branch has its own copy of the blob.
use agentpause.Prelude.{Bool, false, Option, none, some, ◌∷◌, if◌then◌else◌}
use agentpause.Number.{Float}
use agentpause.Errors.{Result, ok, raise, foreign}
use agentpause.Text.{Text, text_instance}
use agentpause.State.{Checkpoint}
use agentpause.Store.{Fault, Files, save, stored, fork_stored}
use agentpause.KvStore.{Kv, Extra, Blobs, Machine, Setup, blob_in, blob_name, with_kv, file_of_kv}

-- How `shutil.copyfile` ended: an OSError may leave part of the copy behind.
pub data Copy : Type 0 where
  copied : Copy
  copy_failed : Bool → Copy

abbrev pub add_blob : Text → Blobs → Blobs
add_blob name bs = if blob_in name bs then bs else name ∷ bs

module _ {F X Stamp Content S : Type 0} ⦃f : Float F⦄ (s : Setup F X Stamp Content S) where
  open s use {codec, directory, slots, reading, base_url, id_slot}

  -- the clone once it is stored, and the machine with the new files
  abbrev pub Forked : Type 0
  Forked = Result F (Checkpoint (Extra X)) × Machine Content S

  abbrev pub with_files :
      Result F (Checkpoint (Extra X)) × Files Content → Machine Content S → Forked
  with_files (r, fs) m = (r, record m { files = fs })

  unfoldable pub store_clone :
      Fault Content → Stamp → Checkpoint (Extra X) → Machine Content S → Forked
  store_clone fault stamp clone m =
      with_files (stored codec directory clone (save codec directory fault stamp clone m.files)) m

  module _ (fault : Fault Content) (stamp : Stamp) (new_name : Text) where
    -- once the parent's blob has been copied
    unfoldable pub fork_copy : Copy → Checkpoint (Extra X) → Kv → Machine Content S → Forked
    unfolding store_clone
    fork_copy copied clone kv m =
        store_clone fault stamp
          (with_kv (some (record kv { file = new_name; consumed = false })) clone)
          (record m { blobs = add_blob new_name m.blobs })
    fork_copy (copy_failed left) clone kv m =
        (raise foreign, if left then record m { blobs = add_blob new_name m.blobs } else m)

    -- once the logical fork is stored
    unfoldable pub fork_blob : Copy → Checkpoint (Extra X) → Option Kv → Machine Content S → Forked
    unfolding fork_copy store_clone file_of_kv
    fork_blob copy clone none m = (ok clone, m)
    fork_blob copy clone (some kv) m = elim (file_of_kv (some kv)) [
      | none ↦ (ok clone, m)
      | some file ↦
          if blob_in file m.blobs
          then fork_copy copy clone kv m
          else store_clone fault stamp (with_kv none clone) m
    ]

    unfoldable pub forked : Copy → Forked → Forked
    unfolding fork_blob
    forked copy (raise e, m) = (raise e, m)
    forked copy (ok clone, m) = fork_blob copy clone clone.extra.kv m

  -- The two stores, of the clone and of the clone with its own blob, may each fail.
  unfoldable pub fork_with_kv :
      Fault Content → Fault Content → Stamp → Copy → Text → Text → Text → Machine Content S → Forked
  unfolding forked
  fork_with_kv fault fault' stamp copy nonce id new_id m =
      forked fault' stamp (blob_name new_id nonce) copy
        (with_files (fork_stored codec directory fault stamp id new_id m.files) m)
