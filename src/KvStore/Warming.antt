-- ===== src/KvStore/Warming.antt =====
-- The round trip of src/agentpause/llamacpp_kv.py: a checkpoint saved with its KV cache is a warm start.
use agentpause.Prelude.{true, Option, some, ◌≡◌, refl, ap, ◌∙◌}
use agentpause.Prelude.Int.{ℤ}
use agentpause.Number.{Float}
use agentpause.Errors.{Result, ok}
use agentpause.Text.{Text, text_eq, text_eq_iff, text_instance}
use agentpause.State.{Checkpoint}
use agentpause.Store.{IsFaithful, Fault, load}
use agentpause.Slots.{fingerprint, restore_slot}
use agentpause.KvStore.{Blobs, Extra, Kv, Machine, Setup, blob_in, blob_name, with_kv, served}
use agentpause.KvStore.Load.{restored, answered, matched, load_kv, load_loaded, load_with_kv}
use agentpause.KvStore.Save.{save_with_kv}
use agentpause.KvStore.Committing.{IsReadOnly, fresh, save_with_kv_ok, blobs-fingerprint}

module _ {F X Stamp Content S : Type 0} ⦃f : Float F⦄ (s : Setup F X Stamp Content S) where
  open s use {codec, directory, slots, reading, base_url, id_slot}

  -- the server restores this blob, if it is there
  abbrev Restores : Text → ℤ → Type 0
  Restores name n =
      (at : Blobs × S)
      → blob_in name at.0 ≡ true
      → (restore_slot reading slots base_url id_slot name at).0 ≡ ok n

  matched_restores :
      (id : Text) (n : ℤ) (cp : Checkpoint (Extra X)) (kv : Kv) (r : Result F Text)
      (m : Machine Content S)
      → r ≡ ok kv.model_fingerprint
      → (restore_slot reading slots base_url id_slot kv.file (m.blobs, m.server)).0 ≡ ok n
      → (matched s id cp kv r m).0
        ≡ ok (some (with_kv (some (record kv { consumed = true })) cp), restored n)
  unfolding matched answered
  matched_restores id n cp kv r m told restores =
      let model = kv.model_fingerprint in
      let same : text_eq model model ≡ true = (text_eq_iff model model).1 refl in
      rw (told, same, restores) refl

  restore_kv :
      (id : Text) (n : ℤ) (cp : Checkpoint (Extra X)) (kv : Kv) (m : Machine Content S)
      → IsReadOnly slots
      → ((at : Blobs × S) → (fingerprint reading slots base_url at).0 ≡ ok kv.model_fingerprint)
      → Restores kv.file n
      → blob_in kv.file m.blobs ≡ true
      → (load_kv s id cp (some kv) m).0
        ≡ ok (some (with_kv (some (record kv { consumed = true })) cp), restored n)
  unfolding load_kv
  restore_kv id n cp kv m get one_model restores there =
      let (model, at) = fingerprint reading slots base_url (m.blobs, m.server) in
      let still : blob_in kv.file at.0 ≡ true =
        ap (blob_in kv.file) (blobs-fingerprint s get (m.blobs, m.server)) ∙ there in
      rw there (
        matched_restores id n cp kv model (served at m) (one_model (m.blobs, m.server))
          (restores at still))

  load_checkpoint :
      (id : Text) (cp : Checkpoint (Extra X)) (m : Machine Content S)
      → load {F = F} codec directory id m.files ≡ ok (some cp)
      → load_with_kv s id m ≡ load_kv s id cp cp.extra.kv m
  unfolding load_with_kv load_loaded
  load_checkpoint id cp m l = rw l refl

  -- Saving with the KV cache and loading again is a warm start: if the save went through, the server
  -- still has its one model and restores a blob that is in `kv_dir`, then the load restores it and
  -- returns the checkpoint that was saved, with the entry for the blob marked consumed.
  pub load-save_with_kv :
      IsFaithful codec
      → IsReadOnly slots
      → (fault : Fault Content) (stamp : Stamp) (nonce model : Text) (n : ℤ)
        (cp : Checkpoint (Extra X)) (before : Option (Checkpoint (Extra X))) (m : Machine Content S)
      → ((at : Blobs × S) → (fingerprint reading slots base_url at).0 ≡ ok model)
      → Restores (blob_name cp.session_id nonce) n
      → load {F = F} codec directory cp.session_id m.files ≡ ok before
      → (save_with_kv s fault stamp nonce cp m).result ≡ ok tt
      → (saved : ℤ) × ((load_with_kv s cp.session_id
            (save_with_kv s fault stamp nonce cp m).machine).0
          ≡ ok (
            some (
                with_kv
                  (some (record (fresh (blob_name cp.session_id nonce) model saved) {
                    consumed = true;
                  }))
                  cp),
            restored n,
          ))
  load-save_with_kv faithful get fault stamp nonce model n cp before m one_model restores l h =
      let out = save_with_kv s fault stamp nonce cp m in
      let name = blob_name cp.session_id nonce in
      let (saved, model', at, told, e, loads, there) =
        save_with_kv_ok s faithful get fault stamp nonce cp before m l h in
      let model_then = one_model at in
      let same : model' ≡ model = cc in
      let kv = fresh name model saved in
      let now : load {F = F} codec directory cp.session_id out.machine.files
          ≡ ok (some (with_kv (some kv) cp)) =
        loads ∙ ap (λ c. ok (some c)) (e ∙ ap (λ t. with_kv (some (fresh name t saved)) cp) same) in
      (
        saved,
        ap (λ r. r.0) (load_checkpoint cp.session_id (with_kv (some kv) cp) out.machine now)
            ∙ restore_kv cp.session_id n (with_kv (some kv) cp) kv out.machine get one_model
                restores there,
      )
