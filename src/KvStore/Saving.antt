-- ===== src/KvStore/Saving.antt =====
-- What `save_with_kv` of src/agentpause/llamacpp_kv.py guarantees: either nothing that was stored has
-- changed, or the checkpoint and its blob are both there.
use agentpause.Prelude.{
  ℕ, ◌≤◌, ltb, if◌then◌else◌, false, some, arith, Option, ◌≡◌, ◌≢◌, refl, ap, ◌∙◌, inl, inr,
  Bool-cases, ◌⊎◌, subst,
}
use agentpause.Prelude.Int.{ℤ}
use agentpause.Number.{Float}
use agentpause.Errors.{Error, Result, ok, raise, kv_error}
use agentpause.Text.{Text, text_instance}
use agentpause.State.{Checkpoint}
use agentpause.Store.{Fault, no_fault, at_open, at_write, at_replace, Files, save, load, path_of}
use agentpause.Store.Saves.{save_result, load-save_fault}
use agentpause.Slots.{fingerprint, save_slot}
use agentpause.KvStore.{
  Extra, Machine, Setup, blob_in, blob_name, file_of, guard, free_on, pruned, served,
}
use agentpause.KvStore.Save.{SavedWith, commit, printed, posted, admitted, save_over, save_with_kv}
use agentpause.KvStore.Collecting.{files-guard}

pub fault_cases :
    {Content : Type 0} (fault : Fault Content) → (fault ≡ no_fault) ⊎ (fault ≢ no_fault)
fault_cases no_fault = inl refl
fault_cases at_open = inr λ h. cc
fault_cases (at_write c) = inr λ h. cc
fault_cases at_replace = inr λ h. cc

module _ {F X Stamp Content S : Type 0} ⦃f : Float F⦄ (s : Setup F X Stamp Content S) where
  open s use {codec, directory, slots, reading, base_url, id_slot}

  -- If an attempt raised, every session loads what it loaded before, and the caller's checkpoint has
  -- changed only if it was the directory that failed.
  abbrev Untouched :
      Fault Content → Text → Checkpoint (Extra X) → Files Content → SavedWith F X Content S → Type 0
  Untouched fault id cp fs out =
      (e : Error F)
      → out.result ≡ raise e
      → (load {F = F} codec directory id out.machine.files ≡ load codec directory id fs)
        × ((fault ≢ no_fault) ⊎ (out.checkpoint ≡ cp))

  commit_raised :
      (previous : Option Text) (name : Text) (cp : Checkpoint (Extra X))
      (p : Result F Text × Files Content) (m : Machine Content S) (e : Error F)
      → (commit s previous name cp p m).result ≡ raise e
      → (p.0 ≡ raise e) × ((commit s previous name cp p m).machine.files ≡ p.1)
  unfolding commit
  commit_raised previous name cp (ok path, fs) m e h = absurd cc
  commit_raised previous name cp (raise e', fs) m e h = (cc, refl)

  commit_fault :
      (fault : Fault Content) (stamp : Stamp) (previous : Option Text) (name id : Text)
      (cp cp' : Checkpoint (Extra X)) (m : Machine Content S)
      → Untouched fault id cp m.files
          (commit s previous name cp' (save codec directory fault stamp cp' m.files) m)
  commit_fault fault stamp previous name id cp cp' m e h =
      let raised =
        commit_raised previous name cp' (save codec directory fault stamp cp' m.files) m e h in
      elim (fault_cases fault) [
        | inl fine ↦
            let went : (save {F = F} codec directory fault stamp cp' m.files).0
                ≡ ok (path_of directory cp'.session_id) =
              rw fine (save_result F codec directory stamp cp' m.files) in
            absurd cc
        | inr faulty ↦ (
          ap (load codec directory id) raised.1
              ∙ (load-save_fault F codec directory fault stamp cp' m.files id faulty).1,
          inl faulty,
        )
      ]

  module _ (fault : Fault Content) (stamp : Stamp) (previous : Option Text) (name id : Text)
      (cp : Checkpoint (Extra X)) where
    printed_fault :
        (n : ℤ) (r : Result F Text) (m : Machine Content S)
        → Untouched fault id cp m.files (printed s fault stamp previous name cp n r m)
    unfolding printed
    printed_fault n (raise e) m e' h = (refl, inr refl)
    printed_fault n (ok model) m e' h = commit_fault fault stamp previous name id cp _ m e' h

    posted_fault :
        (r : Result F ℤ) (m : Machine Content S)
        → Untouched fault id cp m.files (posted s fault stamp previous name cp r m)
    unfolding posted
    posted_fault (raise e) m = λ e' h. (refl, inr refl)
    posted_fault (ok n) m = elim (Bool-cases (blob_in name m.blobs)) [
      | inl there ↦
          let (model, at) = fingerprint reading slots base_url (m.blobs, m.server) in
          rw there (printed_fault n model (served at m))
      | inr missing ↦ rw missing (λ e h. (refl, inr refl))
    ]

    admitted_fault :
        (r : Result F Unit) (m : Machine Content S)
        → Untouched fault id cp m.files (admitted s fault stamp previous name cp (r, m))
    unfolding admitted
    admitted_fault (raise e) m = λ e' h. (refl, inr refl)
    admitted_fault (ok u) m =
        let (n, at) = save_slot reading slots base_url id_slot name (m.blobs, m.server) in
        posted_fault n (served at m)

  save_over_fault :
      (fault : Fault Content) (stamp : Stamp) (nonce id : Text) (cp : Checkpoint (Extra X))
      (r : Result F (Option (Checkpoint (Extra X)))) (m : Machine Content S)
      → Untouched fault id cp m.files (save_over s fault stamp nonce cp r m)
  unfolding save_over
  save_over_fault fault stamp nonce id cp (raise e) m = λ e' h. (refl, inr refl)
  save_over_fault fault stamp nonce id cp (ok previous) m =
      let (r, m') = guard s s.min_free_bytes m in
      subst
        (λ fs.
          Untouched fault id cp fs
            (admitted s fault stamp (file_of previous) (blob_name cp.session_id nonce) cp (r, m')))
        (files-guard s s.min_free_bytes m)
        (admitted_fault fault stamp (file_of previous) (blob_name cp.session_id nonce) id cp r m')

  -- A save with the KV cache that raises, wherever it failed, has changed no stored checkpoint: every
  -- session loads what it loaded before. The caller's checkpoint is as it was, unless it was the
  -- checkpoint directory that failed.
  pub save_with_kv_fault :
      (fault : Fault Content) (stamp : Stamp) (nonce id : Text) (cp : Checkpoint (Extra X))
      (m : Machine Content S) (e : Error F)
      → (save_with_kv s fault stamp nonce cp m).result ≡ raise e
      → let out = save_with_kv s fault stamp nonce cp m in
        (load {F = F} codec directory id out.machine.files ≡ load codec directory id m.files)
        × ((fault ≢ no_fault) ⊎ (out.checkpoint ≡ cp))
  unfolding save_with_kv
  save_with_kv_fault fault stamp nonce id cp m e h =
      save_over_fault fault stamp nonce id cp (load codec directory cp.session_id m.files) m e h

  admitted_room :
      (fault : Fault Content) (stamp : Stamp) (previous : Option Text) (name : Text) (need : ℕ)
      (cp : Checkpoint (Extra X)) (m m' : Machine Content S)
      → (admitted s fault stamp previous name cp
          (if ltb (free_on s m') need then raise kv_error else ok tt, m)).result
        ≡ ok tt
      → ltb (free_on s m') need ≡ false
  unfolding admitted
  admitted_room fault stamp previous name need cp m m' =
      elim (Bool-cases (ltb (free_on s m') need)) [
        | inl short ↦ rw (short, admitted) λ h. absurd cc
        | inr enough ↦ λ h. enough
      ]

  save_over_room :
      (fault : Fault Content) (stamp : Stamp) (nonce : Text) (need : ℕ) (cp : Checkpoint (Extra X))
      (r : Result F (Option (Checkpoint (Extra X)))) (m : Machine Content S)
      → s.min_free_bytes ≡ some need
      → (save_over s fault stamp nonce cp r m).result ≡ ok tt
      → ltb (free_on s (pruned s need m)) need ≡ false
  unfolding save_over guard
  save_over_room fault stamp nonce need cp (raise e) m guarded h = absurd cc
  save_over_room fault stamp nonce need cp (ok previous) m guarded h =
      let m' = pruned s need m in
      admitted_room fault stamp (file_of previous) (blob_name cp.session_id nonce) need cp m' m'
        (rw (guarded, guard) at h)

  -- With a disk guard, a save with the KV cache goes through only if the bytes asked for are free: at
  -- once, or after the one attempt to prune.
  pub save_with_kv_room :
      (fault : Fault Content) (stamp : Stamp) (nonce : Text) (need : ℕ) (cp : Checkpoint (Extra X))
      (m : Machine Content S)
      → s.min_free_bytes ≡ some need
      → (save_with_kv s fault stamp nonce cp m).result ≡ ok tt
      → need ≤ free_on s (pruned s need m)
  unfolding save_with_kv
  save_with_kv_room fault stamp nonce need cp m guarded went =
      let enough =
        save_over_room fault stamp nonce need cp (load codec directory cp.session_id m.files) m
          guarded went in
      ground arith
