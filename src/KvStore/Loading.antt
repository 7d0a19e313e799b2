-- ===== src/KvStore/Loading.antt =====
-- What `load_with_kv` of src/agentpause/llamacpp_kv.py guarantees.
use agentpause.Prelude.{true, Option, none, some, ◌≡◌, refl, ap, arith, inl, inr, Bool-cases}
use agentpause.Prelude.Int.{ℤ}
use agentpause.Prelude.Dict.{lookup, lookup-insert}
use agentpause.Number.{Float}
use agentpause.Errors.{Error, Result, ok, raise}
use agentpause.Text.{Text, text_eq, text_eq_iff, text_instance}
use agentpause.State.{Checkpoint}
use agentpause.Store.{load}
use agentpause.Slots.{fingerprint, restore_slot}
use agentpause.KvStore.{Blobs, Extra, Kv, Machine, Setup, blob_in, with_kv, served}
use agentpause.KvStore.Load.{
  Outcome, restored, is_kv, Loaded, answered, matched, load_kv, load_loaded, load_with_kv,
}

module _ {F X Stamp Content S : Type 0} ⦃f : Float F⦄ (s : Setup F X Stamp Content S) where
  open s use {codec, directory, slots, reading, base_url, id_slot}

  -- The server answers with a JSON object of the expected form, or fails as its client reports.
  abbrev pub IsSound : Type 0
  IsSound =
      ((at : Blobs × S) (e : Error F)
        → (fingerprint reading slots base_url at).0 ≡ raise e
        → is_kv e ≡ true)
      × ((name : Text) (at : Blobs × S) (e : Error F)
          → (restore_slot reading slots base_url id_slot name at).0 ≡ raise e
          → is_kv e ≡ true)

  -- whatever the request gave, there is a checkpoint and a verdict
  abbrev Given : Loaded s → Type 0
  Given out = (c : Option (Checkpoint (Extra X)) × Outcome) × (out.0 ≡ ok c)

  module _ (id : Text) (cp : Checkpoint (Extra X)) (kv : Kv) where
    answered-Given :
        (r : Result F ℤ) (m : Machine Content S)
        → ((e : Error F) → r ≡ raise e → is_kv e ≡ true)
        → Given (answered s id cp kv r m)
    unfolding answered
    answered-Given (ok n) m sound = (_, refl)
    answered-Given (raise e) m sound = rw (sound e refl) (_, refl)

    matched-Given :
        IsSound
        → (r : Result F Text) (m : Machine Content S)
        → ((e : Error F) → r ≡ raise e → is_kv e ≡ true)
        → Given (matched s id cp kv r m)
    unfolding matched
    matched-Given sound (raise e) m h = rw (h e refl) (_, refl)
    matched-Given sound (ok model) m h = elim (Bool-cases (text_eq model kv.model_fingerprint)) [
      | inl same ↦
          let (n, at) = restore_slot reading slots base_url id_slot kv.file (m.blobs, m.server) in
          rw same (answered-Given n (served at m) (sound.1 kv.file (m.blobs, m.server)))
      | inr other ↦ rw other (_, refl)
    ]

  load_kv-Given :
      IsSound
      → (id : Text) (cp : Checkpoint (Extra X)) (kv : Option Kv) (m : Machine Content S)
      → Given (load_kv s id cp kv m)
  unfolding load_kv
  load_kv-Given sound id cp none m = (_, refl)
  load_kv-Given sound id cp (some kv) m = elim (Bool-cases (blob_in kv.file m.blobs)) [
    | inl there ↦
        let (model, at) = fingerprint reading slots base_url (m.blobs, m.server) in
        rw there (matched-Given id cp kv sound model (served at m) (sound.0 (m.blobs, m.server)))
    | inr missing ↦ rw missing (_, refl)
  ]

  -- Loading with the KV cache degrades and does not raise: when the checkpoint itself can be loaded, or
  -- there is none, the call returns, whatever became of the blob and of the server, if the server's
  -- answers have the expected form.
  pub load_with_kv_returns :
      (id : Text) (cp : Option (Checkpoint (Extra X))) (m : Machine Content S)
      → IsSound
      → load {F = F} codec directory id m.files ≡ ok cp
      → (c : Option (Checkpoint (Extra X)) × Outcome) × ((load_with_kv s id m).0 ≡ ok c)
  unfolding load_with_kv load_loaded
  load_with_kv_returns id none m sound l = rw l (_, refl)
  load_with_kv_returns id (some cp) m sound l = rw l (load_kv-Given sound id cp cp.extra.kv m)

  -- What a restore that is reported rests on.
  abbrev Warm :
      Text
      → Machine Content S
      → Checkpoint (Extra X)
      → Kv
      → Option (Checkpoint (Extra X))
      → Machine Content S
      → Type 0
  Warm id m cp kv cp' m' =
      (blob_in kv.file m.blobs ≡ true)
      × ((fingerprint reading slots base_url (m.blobs, m.server)).0 ≡ ok kv.model_fingerprint)
      × (cp' ≡ some (with_kv (some (record kv { consumed = true })) cp))
      × (lookup id m'.consumed ≡ some kv.file)

  module _ (id : Text) (cp : Checkpoint (Extra X)) (kv : Kv) (cp' : Option (Checkpoint (Extra X)))
      (n : ℤ) where
    answered-Warm :
        (r : Result F ℤ) (m : Machine Content S)
        → (answered s id cp kv r m).0 ≡ ok (cp', restored n)
        → (cp' ≡ some (with_kv (some (record kv { consumed = true })) cp))
          × (lookup id (answered s id cp kv r m).1.consumed ≡ some kv.file)
    unfolding answered
    answered-Warm (ok k) m h =
        (cc, ground (arith, lookup-insert id id kv.file m.consumed, text_eq_iff id id))
    answered-Warm (raise e) m h = elim (Bool-cases (is_kv e)) [
      | inl kv_failed ↦ absurd (ground arith)
      | inr other ↦ absurd (ground arith)
    ]

    matched-Warm :
        (r : Result F Text) (m : Machine Content S)
        → (matched s id cp kv r m).0 ≡ ok (cp', restored n)
        → (r ≡ ok kv.model_fingerprint)
          × (cp' ≡ some (with_kv (some (record kv { consumed = true })) cp))
          × (lookup id (matched s id cp kv r m).1.consumed ≡ some kv.file)
    unfolding matched
    matched-Warm (raise e) m = λ h. elim (Bool-cases (is_kv e)) [
      | inl kv_failed ↦ absurd (ground arith)
      | inr other ↦ absurd (ground arith)
    ]
    matched-Warm (ok model) m = elim (Bool-cases (text_eq model kv.model_fingerprint)) [
      | inl same ↦
          let (k, at) = restore_slot reading slots base_url id_slot kv.file (m.blobs, m.server) in
          rw same λ h.
            let (loaded, noted) = answered-Warm k (served at m) h in
            (ap ok ((text_eq_iff model kv.model_fingerprint).0 same), loaded, noted)
      | inr other ↦ rw other λ h. absurd cc
    ]

  load_kv-Warm :
      (id : Text) (cp : Checkpoint (Extra X)) (o : Option Kv) (cp' : Option (Checkpoint (Extra X)))
      (n : ℤ) (m : Machine Content S)
      → (load_kv s id cp o m).0 ≡ ok (cp', restored n)
      → (kv : Kv) × (o ≡ some kv) × Warm id m cp kv cp' (load_kv s id cp o m).1
  unfolding load_kv
  load_kv-Warm id cp none cp' n m = λ h. absurd cc
  load_kv-Warm id cp (some kv) cp' n m = elim (Bool-cases (blob_in kv.file m.blobs)) [
    | inl there ↦
        let (model, at) = fingerprint reading slots base_url (m.blobs, m.server) in
        rw there λ h.
          let (fits, loaded, noted) = matched-Warm id cp kv cp' n model (served at m) h in
          (kv, refl, (there, fits, loaded, noted))
    | inr missing ↦ rw missing λ h. absurd cc
  ]

  load_loaded-Warm :
      (id : Text) (r : Result F (Option (Checkpoint (Extra X))))
      (cp' : Option (Checkpoint (Extra X))) (n : ℤ) (m : Machine Content S)
      → (load_loaded s id r m).0 ≡ ok (cp', restored n)
      → (cp : Checkpoint (Extra X)) × (kv : Kv) × (r ≡ ok (some cp))
        × (cp.extra.kv ≡ some kv)
        × Warm id m cp kv cp' (load_loaded s id r m).1
  unfolding load_loaded
  load_loaded-Warm id (raise e) cp' n m h = absurd cc
  load_loaded-Warm id (ok none) cp' n m h = absurd cc
  load_loaded-Warm id (ok (some cp)) cp' n m h =
      let (kv, e, warm) = load_kv-Warm id cp cp.extra.kv cp' n m h in (cp, kv, refl, e, warm)

  -- A restore is reported only if the session's stored checkpoint names a blob that is in `kv_dir` and
  -- the server has the model that the blob was saved with. The checkpoint that is returned is the
  -- stored one with that entry marked consumed, and the blob is noted for `gc_consumed`.
  pub load_with_kv_restored :
      (id : Text) (cp' : Option (Checkpoint (Extra X))) (n : ℤ) (m : Machine Content S)
      → (load_with_kv s id m).0 ≡ ok (cp', restored n)
      → (cp : Checkpoint (Extra X)) × (kv : Kv) × (load {F = F} codec directory id m.files
          ≡ ok (some cp))
        × (cp.extra.kv ≡ some kv)
        × ((blob_in kv.file m.blobs ≡ true)
            × ((fingerprint reading slots base_url (m.blobs, m.server)).0 ≡ ok kv.model_fingerprint)
            × (cp' ≡ some (with_kv (some (record kv { consumed = true })) cp))
            × (lookup id (load_with_kv s id m).1.consumed ≡ some kv.file))
  unfolding load_with_kv
  load_with_kv_restored id cp' n m h =
      load_loaded-Warm id (load codec directory id m.files) cp' n m h

  files-answered :
      (id : Text) (cp : Checkpoint (Extra X)) (kv : Kv) (r : Result F ℤ) (m : Machine Content S)
      → (answered s id cp kv r m).1.files ≡ m.files
  unfolding answered
  files-answered id cp kv (ok n) m = refl
  files-answered id cp kv (raise e) m = ground arith

  files-matched :
      (id : Text) (cp : Checkpoint (Extra X)) (kv : Kv) (r : Result F Text) (m : Machine Content S)
      → (matched s id cp kv r m).1.files ≡ m.files
  unfolding matched
  files-matched id cp kv (raise e) m = ground arith
  files-matched id cp kv (ok model) m =
      let (n, at) = restore_slot reading slots base_url id_slot kv.file (m.blobs, m.server) in
      ground (arith, files-answered id cp kv n (served at m))

  files-load_loaded :
      (id : Text) (r : Result F (Option (Checkpoint (Extra X)))) (m : Machine Content S)
      → (load_loaded s id r m).1.files ≡ m.files
  unfolding load_loaded load_kv
  files-load_loaded id (raise e) m = refl
  files-load_loaded id (ok none) m = refl
  files-load_loaded id (ok (some cp)) m = go cp.extra.kv
    where
      go : (o : Option Kv) → (load_kv s id cp o m).1.files ≡ m.files
      go none = refl
      go (some kv) =
          let (model, at) = fingerprint reading slots base_url (m.blobs, m.server) in
          ground (arith, files-matched id cp kv model (served at m))

  -- Loading with the KV cache writes no checkpoint: whatever it returns or raises, the checkpoint
  -- directory is as it was, so the entry that a degraded load drops is dropped in memory only.
  pub load_with_kv_frame :
      (id : Text) (m : Machine Content S) → (load_with_kv s id m).1.files ≡ m.files
  unfolding load_with_kv
  load_with_kv_frame id m = files-load_loaded id (load codec directory id m.files) m
