-- ===== src/Store/Migration.antt =====
-- What forking and migrating a stored checkpoint guarantee in src/agentpause/state.py.
use agentpause.Prelude.{
  Bool, true, false, Option, none, some, ◌≡◌, ◌≢◌, ◌⊎◌, inl, inr, refl, sym, ap, subst, ◌∙◌, arith,
}
use agentpause.Errors.{Result, ok, raise, checkpoint_error}
use agentpause.Text.{Text, text_eq_iff}
use agentpause.State.{Checkpoint, fork}
use agentpause.Store.{
  Codec, IsFaithful, Fault, no_fault, path_of, Files, exists, save, load, stored, fork_loaded,
  fork_stored, Bundle, bundle_format, bundle_of, export_bundle, import_state, import_bundle,
}
use agentpause.Store.Paths.{IsPlain}
use agentpause.Store.Saves.{load-save, load-save_ne}

module _ (F : Type 0) {X Stamp Content : Type 0} (codec : Codec X Stamp Content) (d : Text) where
  pub stored-save :
      (stamp : Stamp) (cp : Checkpoint X) (fs : Files Content)
      → stored {F = F} codec d cp (save codec d no_fault stamp cp fs)
        ≡ (ok cp, (save {F = F} codec d no_fault stamp cp fs).1)
  unfolding stored save
  stored-save stamp cp fs = refl

  abbrev Forked : Text → Text → Checkpoint X → Result F (Checkpoint X) × Files Content → Type 0
  Forked id new_id parent (r, fs') =
      (r ≡ ok (record parent { session_id = new_id }))
      × (load {F = F} codec d new_id fs' ≡ ok (some (record parent { session_id = new_id })))
      × (IsPlain id → IsPlain new_id → id ≢ new_id → load {F = F} codec d id fs' ≡ ok (some parent))

  fork_loaded_ok :
      (stamp : Stamp) (new_id : Text) (parent : Checkpoint X) (fs : Files Content)
      → exists (path_of d new_id) fs ≡ false
      → let clone = fork new_id parent in
        fork_loaded {F = F} codec d no_fault stamp (ok (some parent)) new_id fs
        ≡ (ok clone, (save {F = F} codec d no_fault stamp clone fs).1)
  unfolding fork_loaded
  fork_loaded_ok stamp new_id parent fs free =
      rw (free, fork_loaded) (stored-save stamp (fork new_id parent) fs)

  import_state_ok :
      (stamp : Stamp) (cp : Checkpoint X) (overwrite : Bool) (fs : Files Content)
      → (overwrite ≡ true) ⊎ (exists (path_of d cp.session_id) fs ≡ false)
      → import_state {F = F} codec d no_fault stamp (some cp) overwrite fs
        ≡ (ok cp, (save {F = F} codec d no_fault stamp cp fs).1)
  unfolding import_state
  import_state_ok stamp cp overwrite fs h = ground (arith, stored-save stamp cp fs)

  -- Nothing but a new file comes of a successful fork: the clone has the parent's history under the new
  -- id, is what the new id loads, and, if neither id has a path separator and they differ, the parent
  -- still loads as it did.
  pub fork_stored_lem :
      (stamp : Stamp) (id new_id : Text) (parent : Checkpoint X) (fs : Files Content)
      → IsFaithful codec
      → load {F = F} codec d id fs ≡ ok (some parent)
      → exists (path_of d new_id) fs ≡ false
      → let (r, fs') = fork_stored {F = F} codec d no_fault stamp id new_id fs in
        (r ≡ ok (record parent { session_id = new_id }))
        × (load {F = F} codec d new_id fs' ≡ ok (some (record parent { session_id = new_id })))
        × (IsPlain id
            → IsPlain new_id
            → id ≢ new_id
            → load {F = F} codec d id fs' ≡ ok (some parent))
  unfolding fork_stored fork
  fork_stored_lem stamp id new_id parent fs faithful l free =
      let clone = record parent { session_id = new_id } in
      let run =
        ap (λ r. fork_loaded {F = F} codec d no_fault stamp r new_id fs) l
        ∙ fork_loaded_ok stamp new_id parent fs free in
      subst (Forked id new_id parent) (sym run) (
        refl,
        (load-save F codec d stamp clone fs new_id faithful refl).1,
        λ p q ne. load-save_ne F codec d no_fault stamp clone fs id p q ne ∙ l,
      )

  -- A fork never overwrites: if the new id has a file, or the parent has none, it raises and the
  -- directory is as it was.
  pub fork_stored_refuses :
      (fault : Fault Content) (stamp : Stamp) (id new_id : Text) (parent : Option (Checkpoint X))
      (fs : Files Content)
      → load {F = F} codec d id fs ≡ ok parent
      → (parent ≡ none) ⊎ (exists (path_of d new_id) fs ≡ true)
      → fork_stored {F = F} codec d fault stamp id new_id fs ≡ (raise checkpoint_error, fs)
  unfolding fork_stored fork_loaded
  fork_stored_refuses fault stamp id new_id none fs l h = rw (l, fork_loaded)
  fork_stored_refuses fault stamp id new_id (some parent) fs l (inl h) = cc
  fork_stored_refuses fault stamp id new_id (some parent) fs l (inr h) = rw (l, fork_loaded, h)

  -- An import that is refused, because the format is another one, the state is malformed, or the id is
  -- taken and overwriting was not asked for, leaves the directory as it was.
  pub import_bundle_refuses :
      (fault : Fault Content) (stamp : Stamp) (b : Bundle X Stamp) (fs : Files Content)
      → (b.format ≢ bundle_format)
        ⊎ (b.state ≡ none)
        ⊎ ((cp : Checkpoint X) × (b.state ≡ some cp) × (exists (path_of d cp.session_id) fs ≡ true))
      → import_bundle {F = F} codec d fault stamp b false fs ≡ (raise checkpoint_error, fs)
  unfolding import_bundle import_state
  import_bundle_refuses fault stamp b fs h = ground (arith, text_eq_iff b.format bundle_format)

module _ (F : Type 0) {X Stamp Content : Type 0} (codec : Codec X Stamp Content) (d d' : Text) where
  -- Migration: a checkpoint that one store exports and another imports is what the second loads,
  -- if it had none under that id or is told to overwrite it.
  pub import-export_bundle :
      (now stamp : Stamp) (overwrite : Bool) (cp : Checkpoint X) (fs fs' : Files Content)
      → IsFaithful codec
      → load {F = F} codec d cp.session_id fs ≡ ok (some cp)
      → (overwrite ≡ true) ⊎ (exists (path_of d' cp.session_id) fs' ≡ false)
      → (b : Bundle X Stamp) × (export_bundle {F = F} codec d now cp.session_id fs ≡ ok b)
        × (let (r, fs'') = import_bundle {F = F} codec d' no_fault stamp b overwrite fs' in
            (r ≡ ok cp) × (load {F = F} codec d' cp.session_id fs'' ≡ ok (some cp)))
  unfolding export_bundle import_bundle bundle_of
  import-export_bundle now stamp overwrite cp fs fs' faithful l h =
      let b : Bundle X Stamp = record {
        format = bundle_format;
        exported_at = now;
        state = some cp;
      } in
      let run = import_state_ok F codec d' stamp cp overwrite fs' h in
      (
        b,
        ap (bundle_of {F = F} codec d now) l,
        subst (λ r. (r.0 ≡ ok cp) × (load {F = F} codec d' cp.session_id r.1 ≡ ok (some cp)))
            (sym run) (refl, (load-save F codec d' stamp cp fs' cp.session_id faithful refl).1),
      )
