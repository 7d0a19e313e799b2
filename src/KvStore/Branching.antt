-- ===== src/KvStore/Branching.antt =====
-- What `fork_with_kv` of src/agentpause/llamacpp_kv.py leaves behind.
use agentpause.Prelude.{Bool, true, false, Option, some, [], ◌∷◌, ◌≡◌, ◌≢◌, refl, ap, ◌∙◌, arith}
use agentpause.Number.{Float}
use agentpause.Errors.{ok, raise, foreign}
use agentpause.Text.{Text, text_eq_iff, text_instance}
use agentpause.State.{Checkpoint}
use agentpause.Store.{IsFaithful, Fault, no_fault, load, save, fork_stored, exists, path_of}
use agentpause.Store.Paths.{IsPlain}
use agentpause.Store.Saves.{load-save, load-save_ne}
use agentpause.Store.Migration.{fork_stored_lem, stored-save}
use agentpause.KvStore.{
  Blobs, Extra, Kv, Machine, Setup, blob_in, blob_name, named, file_of_kv, with_kv,
}
use agentpause.KvStore.Fork.{
  Copy, copied, copy_failed, add_blob, with_files, store_clone, fork_copy, fork_blob, forked,
  fork_with_kv,
}

-- the clone that the checkpoint directory gets first, with the parent's entry
abbrev pub cloned : {X : Type 0} → Text → Checkpoint (Extra X) → Checkpoint (Extra X)
cloned new_id parent = record parent { session_id = new_id }

-- the clone with its own blob
abbrev pub branched : {X : Type 0} → Text → Text → Kv → Checkpoint (Extra X) → Checkpoint (Extra X)
branched name new_id kv parent =
    with_kv (some (record kv { file = name; consumed = false })) (cloned new_id parent)

module _ {F X Stamp Content S : Type 0} ⦃f : Float F⦄ (s : Setup F X Stamp Content S) where
  open s use {codec, directory}

  store_clone_ok :
      (stamp : Stamp) (clone : Checkpoint (Extra X)) (m : Machine Content S)
      → store_clone s no_fault stamp clone m ≡ (
        ok clone,
        record m { files = (save {F = F} codec directory no_fault stamp clone m.files).1 },
      )
  unfolding store_clone
  store_clone_ok stamp clone m =
      ap (λ p. with_files s p m) (stored-save F codec directory stamp clone m.files)

  named-some : (name : Text) → name ≢ [] → named name ≡ some name
  unfolding named
  named-some [] h = absurd (h refl)
  named-some (c ∷ n) h = refl

  fork_blob_copied :
      (fault : Fault Content) (stamp : Stamp) (name : Text) (copy : Copy)
      (clone : Checkpoint (Extra X)) (o : Option Kv) (kv : Kv) (m : Machine Content S)
      → o ≡ some kv
      → kv.file ≢ []
      → blob_in kv.file m.blobs ≡ true
      → fork_blob s fault stamp name copy clone o m ≡ fork_copy s fault stamp name copy clone kv m
  unfolding fork_blob file_of_kv
  fork_blob_copied fault stamp name copy clone o kv m e ne there =
      rw (e, fork_blob, named-some kv.file ne) (rw there refl)

  blob_in-add_blob :
      (b name : Text) (bs : Blobs)
      → (blob_in name (add_blob name bs) ≡ true)
        × (blob_in b bs ≡ true → blob_in b (add_blob name bs) ≡ true)
  blob_in-add_blob b name bs =
      (ground (arith, text_eq_iff name name), λ h. ground (arith, text_eq_iff name b))

  module _ (stamp : Stamp) (nonce id new_id : Text) (parent : Checkpoint (Extra X)) (kv : Kv)
      (m : Machine Content S) (faithful : IsFaithful codec)
      (l : load {F = F} codec directory id m.files ≡ ok (some parent))
      (e : parent.extra.kv ≡ some kv) (ne : kv.file ≢ []) (there : blob_in kv.file m.blobs ≡ true)
      (free : exists (path_of directory new_id) m.files ≡ false) where
    fork_run :
        (fault : Fault Content) (copy : Copy)
        → let fs = (fork_stored {F = F} codec directory no_fault stamp id new_id m.files).1 in
          fork_with_kv s no_fault fault stamp copy nonce id new_id m
          ≡ fork_copy s fault stamp
              (blob_name new_id nonce)
              copy
              (cloned new_id parent)
              kv
              (record m { files = fs })
    unfolding fork_with_kv forked
    fork_run fault copy =
        let run = fork_stored {F = F} codec directory no_fault stamp id new_id m.files in
        let m' = record m { files = run.1 } in
        let went =
          (fork_stored_lem F codec directory stamp id new_id parent m.files faithful l free).0 in
        ap (λ r. forked s fault stamp (blob_name new_id nonce) copy (r, m')) went
        ∙ fork_blob_copied fault stamp (blob_name new_id nonce) copy (cloned new_id parent)
            parent.extra.kv kv m' e ne there

    -- A fork whose copy fails is not undone: the exception leaves a clone in the checkpoint directory
    -- that names the parent's blob.
    pub fork_with_kv_shares :
        (fault : Fault Content) (left : Bool)
        → let (r, m') = fork_with_kv s no_fault fault stamp (copy_failed left) nonce id new_id m in
          (r ≡ raise foreign)
          × (load {F = F} codec directory new_id m'.files ≡ ok (some (cloned new_id parent)))
          × ((cloned new_id parent).extra.kv ≡ some kv)
    unfolding fork_copy
    fork_with_kv_shares fault left =
        let stored_clone =
          (fork_stored_lem F codec directory stamp id new_id parent m.files faithful l free).1 in
        rw (fork_run fault (copy_failed left)) (refl, ground (arith, stored_clone), e)

    fork_done :
        let name = blob_name new_id nonce in
        let clone = branched name new_id kv parent in
        let fs = (fork_stored {F = F} codec directory no_fault stamp id new_id m.files).1 in
        let m' = record m { files = fs; blobs = add_blob name m.blobs } in
        fork_with_kv s no_fault no_fault stamp copied nonce id new_id m
        ≡ (ok clone, record m' { files = (save {F = F} codec directory no_fault stamp clone fs).1 })
    unfolding fork_copy
    fork_done =
        let name = blob_name new_id nonce in
        let fs = (fork_stored {F = F} codec directory no_fault stamp id new_id m.files).1 in
        fork_run no_fault copied
        ∙ store_clone_ok stamp (branched name new_id kv parent)
            (record m { files = fs; blobs = add_blob name m.blobs })

    -- A fork that meets no fault gives the clone its own blob: the clone that is returned is what the new
    -- id loads, its entry names the copy, which is not consumed, and both blobs are in `kv_dir`. The
    -- new id has no checkpoint and the copy's name is not taken, and neither id has a path separator.
    pub fork_with_kv_own :
        blob_in (blob_name new_id nonce) m.blobs ≡ false
        → IsPlain id
        → IsPlain new_id
        → id ≢ new_id
        → let name = blob_name new_id nonce in
          let (r, m') = fork_with_kv s no_fault no_fault stamp copied nonce id new_id m in
          let clone = branched name new_id kv parent in
          (r ≡ ok clone)
          × (load {F = F} codec directory new_id m'.files ≡ ok (some clone))
          × (load {F = F} codec directory id m'.files ≡ ok (some parent))
          × (kv.file ≢ name)
          × (blob_in kv.file m'.blobs ≡ true)
          × (blob_in name m'.blobs ≡ true)
    fork_with_kv_own fresh_name p q other =
        let name = blob_name new_id nonce in
        let clone = branched name new_id kv parent in
        let fs = (fork_stored {F = F} codec directory no_fault stamp id new_id m.files).1 in
        let parent_there =
          (fork_stored_lem F codec directory stamp id new_id parent m.files faithful l free).2 p q
            other in
        rw fork_done (
          refl,
          (load-save F codec directory stamp clone fs new_id faithful refl).1,
          load-save_ne F codec directory no_fault stamp clone fs id p q other ∙ parent_there,
          (λ same. ground (arith, same)),
          (blob_in-add_blob kv.file name m.blobs).1 there,
          (blob_in-add_blob kv.file name m.blobs).0,
        )
