-- ===== src/KvStore/Committing.antt =====
-- What a successful `save_with_kv` of src/agentpause/llamacpp_kv.py leaves behind.
use agentpause.Prelude.{
  true, false, Option, none, some, [], ◌≡◌, ◌≢◌, refl, sym, ap, ◌∙◌, arith, inl, inr, Bool-cases,
  subst,
}
use agentpause.Prelude.Int.{ℤ}
use agentpause.Number.{Float}
use agentpause.Errors.{Result, ok, raise}
use agentpause.Text.{Text, text_eq, text_eq_iff, text_instance}
use agentpause.State.{Checkpoint}
use agentpause.Store.{IsFaithful, Fault, Files, save, load}
use agentpause.Store.Saves.{load-save, load-save_fault}
use agentpause.Slots.{LlamaCppSlots, get_props, fingerprint, save_slot}
use agentpause.KvStore.{
  Blobs, Extra, Kv, Machine, Setup, blob_in, blob_name, file_of, guard, with_kv, served,
}
use agentpause.KvStore.Save.{
  SavedWith, delete_previous, commit, printed, posted, admitted, save_over, save_with_kv,
}
use agentpause.KvStore.Names.{blob_in-delete_blob, blob_in-delete_blob_ne}
use agentpause.KvStore.Saving.{fault_cases}

-- A GET changes no file.
abbrev pub IsReadOnly : {F S : Type 0} → LlamaCppSlots F (Blobs × S) → Type 0
IsReadOnly {F} {S} slots = (url : Text) (at : Blobs × S) → (slots.get_fn url at).1.0 ≡ at.0

-- the entry for a blob that was just saved
abbrev pub fresh : Text → Text → ℤ → Kv
fresh name model n = record {
  file = name;
  model_fingerprint = model;
  n_saved = n;
  consumed = false;
}

module _ {F X Stamp Content S : Type 0} ⦃f : Float F⦄ (s : Setup F X Stamp Content S) where
  open s use {codec, directory, slots, reading, base_url, id_slot}

  pub blobs-fingerprint :
      IsReadOnly slots → (at : Blobs × S) → (fingerprint reading slots base_url at).1.0 ≡ at.0
  unfolding fingerprint get_props
  blobs-fingerprint get at = get _ at

  delete_previous_keeps :
      (previous : Option Text) (name : Text) (bs : Blobs)
      → blob_in name (delete_previous s previous name bs) ≡ blob_in name bs
  unfolding delete_previous
  delete_previous_keeps none name bs = refl
  delete_previous_keeps (some old) name bs = elim (Bool-cases (text_eq old name)) [
    | inl same ↦ rw same refl
    | inr other ↦
        let ne : old ≢ name = λ e. ground (arith, text_eq_iff old name, e) in
        rw other (blob_in-delete_blob_ne s.stuck name old bs ne)
  ]

  delete_previous_removes :
      (old name : Text) (bs : Blobs)
      → old ≢ name
      → old ≢ []
      → s.stuck old ≡ false
      → blob_in old (delete_previous s (some old) name bs) ≡ false
  unfolding delete_previous
  delete_previous_removes old name bs ne some_name free =
      ground (arith, text_eq_iff old name, blob_in-delete_blob s.stuck old bs some_name)

  -- A checkpoint that names the new blob is stored, the blob is there, and the previous one is not.
  abbrev Committed : Option Text → Text → Checkpoint (Extra X) → SavedWith F X Content S → Type 0
  Committed previous name cp out =
      (n : ℤ) × (model : Text) × (at : Blobs × S) × ((fingerprint reading slots base_url at).0
        ≡ ok model)
      × (out.checkpoint ≡ with_kv (some (fresh name model n)) cp)
      × (load {F = F} codec directory cp.session_id out.machine.files
          ≡ ok (some (with_kv (some (fresh name model n)) cp)))
      × (blob_in name out.machine.blobs ≡ true)
      × ((old : Text)
          → previous ≡ some old
          → old ≢ name
          → old ≢ []
          → s.stuck old ≡ false
          → blob_in old out.machine.blobs ≡ false)

  commit_went :
      (previous : Option Text) (name : Text) (cp : Checkpoint (Extra X))
      (p : Result F Text × Files Content) (m : Machine Content S)
      → (commit s previous name cp p m).result ≡ ok tt
      → (path : Text) × (p.0 ≡ ok path)
        × (commit s previous name cp p m ≡ record {
          result = ok tt;
          checkpoint = cp;
          machine = record m { files = p.1; blobs = delete_previous s previous name m.blobs };
        })
  unfolding commit
  commit_went previous name cp (ok path, fs) m h = (path, refl, refl)
  commit_went previous name cp (raise e', fs) m h = absurd cc

  module _ (faithful : IsFaithful codec) where
    commit_ok :
        (fault : Fault Content) (stamp : Stamp) (previous : Option Text) (name model : Text) (n : ℤ)
        (cp : Checkpoint (Extra X)) (m : Machine Content S) (at : Blobs × S)
        → (fingerprint reading slots base_url at).0 ≡ ok model
        → blob_in name m.blobs ≡ true
        → let cp' = with_kv (some (fresh name model n)) cp in
          let out = commit s previous name cp' (save codec directory fault stamp cp' m.files) m in
          out.result ≡ ok tt → Committed previous name cp out
    commit_ok fault stamp previous name model n cp m at told there h =
        let cp' = with_kv (some (fresh name model n)) cp in
        let p = save {F = F} codec directory fault stamp cp' m.files in
        let (path, wrote, run) = commit_went previous name cp' p m h in
        elim (fault_cases fault) [
          | inr faulty ↦
              let failed =
                (load-save_fault F codec directory fault stamp cp' m.files [] faulty).0 in
              absurd cc
          | inl fine ↦ subst (Committed previous name cp) (sym run) (
            n,
            model,
            at,
            told,
            refl,
            rw fine (load-save F codec directory stamp cp' m.files cp'.session_id faithful refl).1,
            delete_previous_keeps previous name m.blobs ∙ there,
            λ old e ne some_name free.
                ap (λ o. blob_in old (delete_previous s o name m.blobs)) e
                ∙ delete_previous_removes old name m.blobs ne some_name free,
          )
        ]

    module _ (get : IsReadOnly slots) (fault : Fault Content) (stamp : Stamp)
        (previous : Option Text) (name : Text) (cp : Checkpoint (Extra X)) where
      printed_ok :
          (n : ℤ) (r : Result F Text) (m : Machine Content S) (at : Blobs × S)
          → (fingerprint reading slots base_url at).0 ≡ r
          → blob_in name m.blobs ≡ true
          → (printed s fault stamp previous name cp n r m).result ≡ ok tt
          → Committed previous name cp (printed s fault stamp previous name cp n r m)
      unfolding printed
      printed_ok n (raise e) m at told there h = absurd cc
      printed_ok n (ok model) m at told there h =
          commit_ok fault stamp previous name model n cp m at told there h

      posted_ok :
          (r : Result F ℤ) (m : Machine Content S)
          → (posted s fault stamp previous name cp r m).result ≡ ok tt
          → Committed previous name cp (posted s fault stamp previous name cp r m)
      unfolding posted
      posted_ok (raise e) m = λ h. absurd cc
      posted_ok (ok n) m = elim (Bool-cases (blob_in name m.blobs)) [
        | inl there ↦
            let (model, at) = fingerprint reading slots base_url (m.blobs, m.server) in
            let still : blob_in name at.0 ≡ true =
              ap (blob_in name) (blobs-fingerprint get (m.blobs, m.server)) ∙ there in
            rw there (printed_ok n model (served at m) (m.blobs, m.server) refl still)
        | inr missing ↦ rw missing (λ h. absurd cc)
      ]

      admitted_ok :
          (r : Result F Unit) (m : Machine Content S)
          → (admitted s fault stamp previous name cp (r, m)).result ≡ ok tt
          → Committed previous name cp (admitted s fault stamp previous name cp (r, m))
      unfolding admitted
      admitted_ok (raise e) m = λ h. absurd cc
      admitted_ok (ok u) m =
          let (n, at) = save_slot reading slots base_url id_slot name (m.blobs, m.server) in
          posted_ok n (served at m)

    save_over_ok :
        IsReadOnly slots
        → (fault : Fault Content) (stamp : Stamp) (nonce : Text) (cp : Checkpoint (Extra X))
          (before : Option (Checkpoint (Extra X))) (m : Machine Content S)
        → load {F = F} codec directory cp.session_id m.files ≡ ok before
        → (save_with_kv s fault stamp nonce cp m).result ≡ ok tt
        → Committed
            (file_of before)
            (blob_name cp.session_id nonce)
            cp
            (save_with_kv s fault stamp nonce cp m)
    unfolding save_with_kv save_over
    save_over_ok get fault stamp nonce cp before m l =
        let (r, m') = guard s s.min_free_bytes m in
        rw l (admitted_ok get fault stamp (file_of before) (blob_name cp.session_id nonce) cp r m')

    -- After a save with the KV cache that went through, the caller's checkpoint has an entry for the new
    -- blob, which is not consumed and bears the model that the server reported, the session loads that checkpoint, and the blob is in `kv_dir`. The
    -- server answers GETs without changing files, and what was dumped can be read back.
    pub save_with_kv_ok :
        IsReadOnly slots
        → (fault : Fault Content) (stamp : Stamp) (nonce : Text) (cp : Checkpoint (Extra X))
          (before : Option (Checkpoint (Extra X))) (m : Machine Content S)
        → load {F = F} codec directory cp.session_id m.files ≡ ok before
        → (save_with_kv s fault stamp nonce cp m).result ≡ ok tt
        → let name = blob_name cp.session_id nonce in
          let out = save_with_kv s fault stamp nonce cp m in
          (n : ℤ) × (model : Text) × (at : Blobs × S) × ((fingerprint reading slots base_url at).0
            ≡ ok model)
          × (out.checkpoint ≡ with_kv (some (fresh name model n)) cp)
          × (load {F = F} codec directory cp.session_id out.machine.files
              ≡ ok (some out.checkpoint))
          × (blob_in name out.machine.blobs ≡ true)
    save_with_kv_ok get fault stamp nonce cp before m l h =
        let (n, model, at, told, e, loads, there, gone) =
          save_over_ok get fault stamp nonce cp before m l h in
        (n, model, at, told, e, loads ∙ ap (λ c. ok (some c)) (sym e), there)

    -- A session has one live blob: a save with the KV cache that went through removes the blob that the
    -- stored checkpoint named before, if that is another one and its removal does not raise.
    pub save_with_kv_collects :
        IsReadOnly slots
        → (fault : Fault Content) (stamp : Stamp) (nonce : Text) (cp : Checkpoint (Extra X))
          (before : Option (Checkpoint (Extra X))) (old : Text) (m : Machine Content S)
        → load {F = F} codec directory cp.session_id m.files ≡ ok before
        → file_of before ≡ some old
        → old ≢ blob_name cp.session_id nonce
        → old ≢ []
        → s.stuck old ≡ false
        → (save_with_kv s fault stamp nonce cp m).result ≡ ok tt
        → let blobs = (save_with_kv s fault stamp nonce cp m).machine.blobs in
          (blob_in old blobs ≡ false) × (blob_in (blob_name cp.session_id nonce) blobs ≡ true)
    save_with_kv_collects get fault stamp nonce cp before old m l e ne some_name free h =
        let (n, model, at, told, same, loads, there, gone) =
          save_over_ok get fault stamp nonce cp before m l h in
        (gone old e ne some_name free, there)
