-- ===== src/Store/Saves.antt =====
-- What saving, loading and clearing guarantee in src/agentpause/state.py.
use agentpause.Prelude.{none, some, ◌≡◌, ◌≢◌, refl, ap, ◌∙◌, arith}
use agentpause.Errors.{ok, raise, checkpoint_error}
use agentpause.Text.{Text, text_eq_iff}
use agentpause.State.{Checkpoint}
use agentpause.Store.{
  Codec, IsFaithful, Fault, no_fault, at_open, at_write, at_replace, safe, path_of, tmp_of, Files,
  clear, save, decode, load,
}
use agentpause.Store.Paths.{IsPlain, path_of-ne-tmp_of, path_of-safe, path_of-injective}

module _ (F : Type 0) {X Stamp Content : Type 0} (codec : Codec X Stamp Content) (d : Text) where
  -- What a checkpoint's own path holds after a save that went through.
  save_file :
      (stamp : Stamp) (cp : Checkpoint X) (fs : Files Content)
      → (save {F = F} codec d no_fault stamp cp fs).1 (path_of d cp.session_id)
        ≡ some (codec.dump stamp cp)
  unfolding save
  save_file stamp cp fs =
      let path = path_of d cp.session_id in
      ground (arith, text_eq_iff path path, text_eq_iff (tmp_of path) (tmp_of path))

  pub save_result :
      (stamp : Stamp) (cp : Checkpoint X) (fs : Files Content)
      → (save {F = F} codec d no_fault stamp cp fs).0 ≡ ok (path_of d cp.session_id)
  unfolding save
  save_result stamp cp fs = refl

  save_fault_result :
      (fault : Fault Content) (stamp : Stamp) (cp : Checkpoint X) (fs : Files Content)
      → fault ≢ no_fault
      → (save {F = F} codec d fault stamp cp fs).0 ≡ raise checkpoint_error
  unfolding save
  save_fault_result no_fault stamp cp fs h = absurd (h refl)
  save_fault_result at_open stamp cp fs h = refl
  save_fault_result (at_write c) stamp cp fs h = refl
  save_fault_result at_replace stamp cp fs h = refl

  -- A save that failed has at most written the temporary file.
  save_fault_frame :
      (fault : Fault Content) (stamp : Stamp) (cp : Checkpoint X) (fs : Files Content) (p : Text)
      → fault ≢ no_fault
      → p ≢ tmp_of (path_of d cp.session_id)
      → (save {F = F} codec d fault stamp cp fs).1 p ≡ fs p
  unfolding save
  save_fault_frame no_fault stamp cp fs p h g = absurd (h refl)
  save_fault_frame fault stamp cp fs p h g =
      ground (arith, text_eq_iff (tmp_of (path_of d cp.session_id)) p)

  -- Any other path holds what it held before, unless it is the temporary file.
  save_frame :
      (fault : Fault Content) (stamp : Stamp) (cp : Checkpoint X) (fs : Files Content) (p : Text)
      → p ≢ path_of d cp.session_id
      → p ≢ tmp_of (path_of d cp.session_id)
      → (save {F = F} codec d fault stamp cp fs).1 p ≡ fs p
  unfolding save
  save_frame no_fault stamp cp fs p h g =
      let path = path_of d cp.session_id in
      ground (arith, text_eq_iff path p, text_eq_iff (tmp_of path) p)
  save_frame fault stamp cp fs p h g = save_fault_frame fault stamp cp fs p (λ e. ground arith) g

  -- A saved checkpoint is read back as it was, under its own id and under any id that has the same
  -- file.
  pub load-save :
      (stamp : Stamp) (cp : Checkpoint X) (fs : Files Content) (id : Text)
      → IsFaithful codec
      → path_of d id ≡ path_of d cp.session_id
      → let (r, fs') = save {F = F} codec d no_fault stamp cp fs in
        (r ≡ ok (path_of d cp.session_id)) × (load {F = F} codec d id fs' ≡ ok (some cp))
  unfolding load decode
  load-save stamp cp fs id faithful same = (
    save_result stamp cp fs,
    ap (decode codec d)
          (ap (save {F = F} codec d no_fault stamp cp fs).1 same ∙ save_file stamp cp fs)
        ∙ rw (faithful stamp cp, decode) refl,
  )

  -- A save that fails leaves every session, its own included, as it was: whatever the fault, `load`
  -- gives what it gave before.
  pub load-save_fault :
      (fault : Fault Content) (stamp : Stamp) (cp : Checkpoint X) (fs : Files Content) (id : Text)
      → fault ≢ no_fault
      → let (r, fs') = save {F = F} codec d fault stamp cp fs in
        (r ≡ raise checkpoint_error) × (load {F = F} codec d id fs' ≡ load codec d id fs)
  unfolding load
  load-save_fault fault stamp cp fs id h = (
    save_fault_result fault stamp cp fs h,
    ap (decode codec d) (
        save_fault_frame fault stamp cp fs (path_of d id) h (path_of-ne-tmp_of d id cp.session_id)),
  )

  -- Saving one session does not touch one with another file.
  pub load-save_other :
      (fault : Fault Content) (stamp : Stamp) (cp : Checkpoint X) (fs : Files Content) (id : Text)
      → path_of d id ≢ path_of d cp.session_id
      → load {F = F} codec d id (save {F = F} codec d fault stamp cp fs).1 ≡ load codec d id fs
  unfolding load
  load-save_other fault stamp cp fs id h =
      ap (decode codec d)
        (save_frame fault stamp cp fs (path_of d id) h (path_of-ne-tmp_of d id cp.session_id))

  -- Saving one session does not touch another, if neither id has a path separator.
  pub load-save_ne :
      (fault : Fault Content) (stamp : Stamp) (cp : Checkpoint X) (fs : Files Content) (id : Text)
      → IsPlain id
      → IsPlain cp.session_id
      → id ≢ cp.session_id
      → load {F = F} codec d id (save {F = F} codec d fault stamp cp fs).1 ≡ load codec d id fs
  load-save_ne fault stamp cp fs id p q h =
      load-save_other fault stamp cp fs id (λ e. h (path_of-injective d id cp.session_id p q e))

  -- Two sessions can share a file: after a checkpoint has been saved, the id with its separators
  -- replaced by underscores loads it too, with the other session's id in it.
  pub load-save_shared :
      (stamp : Stamp) (cp : Checkpoint X) (fs : Files Content)
      → IsFaithful codec
      → load {F = F} codec d (safe cp.session_id) (save {F = F} codec d no_fault stamp cp fs).1
        ≡ ok (some cp)
  load-save_shared stamp cp fs faithful =
      (load-save stamp cp fs (safe cp.session_id) faithful (path_of-safe d cp.session_id)).1

  pub load-clear_same :
      (fs : Files Content) (id : Text) → load {F = F} codec d id (clear d id fs) ≡ ok none
  unfolding load clear decode
  load-clear_same fs id =
      let path = path_of d id in
      let mine : (clear d id fs) path ≡ none = ground (arith, text_eq_iff path path) in
      ap (decode codec d) mine

  -- After `clear` there is no checkpoint, and every session with another file keeps its own.
  pub load-clear :
      (fs : Files Content) (id other : Text)
      → path_of d other ≢ path_of d id
      → (load {F = F} codec d id (clear d id fs) ≡ ok none)
        × (load {F = F} codec d other (clear d id fs) ≡ load codec d other fs)
  unfolding load clear decode
  load-clear fs id other h =
      let path = path_of d id in
      let theirs : (clear d id fs) (path_of d other) ≡ fs (path_of d other) =
        ground (arith, text_eq_iff path (path_of d other)) in
      (load-clear_same fs id, ap (decode codec d) theirs)
