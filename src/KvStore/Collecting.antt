-- ===== src/KvStore/Collecting.antt =====
-- What the two collectors of src/agentpause/llamacpp_kv.py remove.
use agentpause.Prelude.{
  ℕ, Bool, true, false, not, ◌&&◌, ◌||◌, Option, none, some, List, [], ◌∷◌, ◌≡◌, ◌≢◌, refl, ap, ◌∙◌,
  arith, inl, inr, Bool-cases, if◌then◌else◌,
}
use agentpause.Prelude.Dict.{lookup}
use agentpause.Number.{Float}
use agentpause.Errors.{Result, ok, raise}
use agentpause.Text.{Text, text_eq, text_eq_iff, text_instance}
use agentpause.State.{Checkpoint}
use agentpause.Store.{Files, load}
use agentpause.KvStore.{
  Blobs, Extra, Machine, Setup, blob_in, delete_blob, add_reference, file_of, file_loaded,
  references, sweep, gc_orphans, collect, collect_all, gc_consumed, pruned, guard, keys_of,
}
use agentpause.KvStore.Names.{blob_in-delete_blob, blob_in-delete_blob_ne, blob_in-add_reference}

-- a blob that is kept, or whose removal raises, survives a round; another one does not
sweep_round :
    (stuck : Text → Bool) (kept : List Text) (b name : Text) (bs : Blobs)
    → b ≢ []
    → blob_in b (if blob_in name kept then bs else delete_blob stuck name bs)
      ≡ (blob_in b bs && (not (text_eq name b) || (blob_in b kept || stuck b)))
sweep_round stuck kept b name bs ne = elim (Bool-cases (text_eq name b)) [
  | inl same ↦
      let e : name ≡ b = (text_eq_iff name b).0 same in
      ground (arith, e, blob_in-delete_blob stuck b bs ne)
  | inr other ↦
      let h : name ≢ b = λ e. ground (arith, text_eq_iff name b, e) in
      ground (arith, blob_in-delete_blob_ne stuck b name bs h)
]

blob_in-sweep :
    (stuck : Text → Bool) (kept : List Text) (b : Text) (names : List Text) (bs : Blobs)
    → b ≢ []
    → blob_in b (sweep stuck kept names bs).1
      ≡ (blob_in b bs && (not (blob_in b names) || (blob_in b kept || stuck b)))
unfolding sweep
blob_in-sweep stuck kept b [] bs ne = ground arith
blob_in-sweep stuck kept b (name ∷ names) bs ne =
    let next = if blob_in name kept then bs else delete_blob stuck name bs in
    blob_in-sweep stuck kept b names next ne
    ∙ ap (λ x. x && (not (blob_in b names) || (blob_in b kept || stuck b)))
        (sweep_round stuck kept b name bs ne)
    ∙ ground arith

add_reference_none :
    (b : Text) (o : Option Text) (names : List Text)
    → o ≢ some b
    → blob_in b names ≡ false
    → blob_in b (add_reference o names) ≡ false
unfolding add_reference
add_reference_none b none names n h = h
add_reference_none b (some name) names n h = elim (Bool-cases (text_eq name b)) [
  | inl same ↦ absurd (n (ap some ((text_eq_iff name b).0 same)))
  | inr other ↦ ground arith
]

file_loaded_none :
    {F X : Type 0} (b : Text) (r : Result F (Option (Checkpoint (Extra X))))
    → ((cp : Checkpoint (Extra X)) → r ≡ ok (some cp) → file_of (some cp) ≢ some b)
    → file_loaded r ≢ some b
unfolding file_loaded
file_loaded_none b (raise e) h = λ e. cc
file_loaded_none b (ok none) h = λ e. ground arith
file_loaded_none b (ok (some cp)) h = h cp refl

module _ {F X Stamp Content S : Type 0} ⦃f : Float F⦄ (s : Setup F X Stamp Content S) where
  open s use {codec, directory}

  -- The name that a stored checkpoint gives its blob is among those that `gc_orphans` keeps.
  references-load :
      (id : Text) (ids : List Text) (fs : Files Content) (cp : Checkpoint (Extra X)) (b : Text)
      → blob_in id ids ≡ true
      → load {F = F} codec directory id fs ≡ ok (some cp)
      → file_of (some cp) ≡ some b
      → blob_in b (references s ids fs) ≡ true
  unfolding references file_loaded add_reference
  references-load id [] fs cp b h l e = absurd (ground arith)
  references-load id (i ∷ ids) fs cp b h l e = elim (Bool-cases (text_eq i id)) [
    | inl same ↦
        let name : file_loaded (load {F = F} codec directory i fs) ≡ some b =
          ap (λ j. file_loaded (load {F = F} codec directory j fs)) ((text_eq_iff i id).0 same)
          ∙ ap file_loaded l
          ∙ e in
        ap (λ o. blob_in b (add_reference o (references s ids fs))) name
        ∙ ground (arith, text_eq_iff b b)
    | inr other ↦
        blob_in-add_reference b (file_loaded (load {F = F} codec directory i fs))
          (references s ids fs) (references-load id ids fs cp b (ground arith) l e)
  ]

  -- A name that no checkpoint gives its blob is not among those that `gc_orphans` keeps.
  references-none :
      (b : Text) (ids : List Text) (fs : Files Content)
      → ((id : Text) (cp : Checkpoint (Extra X))
          → blob_in id ids ≡ true
          → load {F = F} codec directory id fs ≡ ok (some cp)
          → file_of (some cp) ≢ some b)
      → blob_in b (references s ids fs) ≡ false
  unfolding references file_loaded add_reference
  references-none b [] fs h = refl
  references-none b (id ∷ ids) fs h =
      add_reference_none b (file_loaded (load {F = F} codec directory id fs)) (references s ids fs)
        (file_loaded_none b (load {F = F} codec directory id fs)
          (λ cp. h id cp (ground (arith, text_eq_iff id id))))
        (references-none b ids fs (λ i cp listed. h i cp (ground arith)))

  references_exact :
      (b : Text) (m : Machine Content S)
      → b ≢ []
      → blob_in b (gc_orphans s m).1.blobs ≡ (
          blob_in b m.blobs && (blob_in b (references s (s.sessions m.files) m.files) || s.stuck b))
  unfolding gc_orphans
  references_exact b m ne =
      let kept = references s (s.sessions m.files) m.files in
      ground (arith, blob_in-sweep s.stuck kept b m.blobs m.blobs ne)

  -- `gc_orphans` keeps the blob that a checkpoint in the directory names, and removes one that no
  -- checkpoint in the directory names, unless its removal raises; the checkpoints, the server and the
  -- restored blobs stay as they were.
  pub gc_orphans_exact :
      (b : Text) (m : Machine Content S)
      → b ≢ []
      → let m' = (gc_orphans s m).1 in
        ((id : Text) (cp : Checkpoint (Extra X))
          → blob_in id (s.sessions m.files) ≡ true
          → load {F = F} codec directory id m.files ≡ ok (some cp)
          → file_of (some cp) ≡ some b
          → blob_in b m'.blobs ≡ blob_in b m.blobs)
        × (((id : Text) (cp : Checkpoint (Extra X))
              → blob_in id (s.sessions m.files) ≡ true
              → load {F = F} codec directory id m.files ≡ ok (some cp)
              → file_of (some cp) ≢ some b)
            → s.stuck b ≡ false
            → blob_in b m'.blobs ≡ false)
        × (m'.files ≡ m.files)
        × (m'.consumed ≡ m.consumed)
        × (m'.server ≡ m.server)
  unfolding gc_orphans
  gc_orphans_exact b m ne =
      let ids = s.sessions m.files in
      (
        λ id cp listed l e.
            ground (arith, references_exact b m ne, references-load id ids m.files cp b listed l e),
        λ h free. ground (arith, references_exact b m ne, references-none b ids m.files h, free),
        refl,
        refl,
        refl,
      )

  files-collect :
      (id : Text) (o : Option Text) (m : Machine Content S) → (collect s id o m).1.files ≡ m.files
  unfolding collect
  files-collect id none m = refl
  files-collect id (some []) m = refl
  files-collect id (some (c ∷ n)) m = refl

  files-collect_all :
      (ids : List Text) (m : Machine Content S) → (collect_all s ids m).1.files ≡ m.files
  unfolding collect_all
  files-collect_all [] m = refl
  files-collect_all (id ∷ ids) m =
      files-collect_all ids (collect s id (lookup id m.consumed) m).1
      ∙ files-collect id (lookup id m.consumed) m

  files-pruned : (need : ℕ) (m : Machine Content S) → (pruned s need m).files ≡ m.files
  unfolding pruned gc_consumed gc_orphans
  files-pruned need m =
      let m' = (gc_orphans s m).1 in ground (arith, files-collect_all (keys_of m'.consumed) m')

  -- Making room leaves every checkpoint.
  pub files-guard : (need : Option ℕ) (m : Machine Content S) → (guard s need m).1.files ≡ m.files
  unfolding guard
  files-guard none m = refl
  files-guard (some need) m = files-pruned need m
