-- ===== src/Store/Refine.antt =====
-- The files of src/agentpause/state.py behave as the table of checkpoints that they hold.
use agentpause.Prelude.{
  not, Option, none, some, List, [], ◌∷◌, ◌++◌, ◌≡◌, ◌≢◌, refl, sym, ap, ◌∙◌, arith, Bool-cases,
  inl, inr, is_none, Option-cases,
}
use agentpause.Errors.{ok, checkpoint_error, ok-ne-raise}
use agentpause.Text.{Text, text_eq, text_eq_iff, codes}
use agentpause.State.{Checkpoint, fork}
use agentpause.Store.{
  Codec, IsFaithful, Fault, no_fault, at_open, at_write, at_replace, Files, safe, path_of, exists,
  save, load, decode, clear, stored, fork_stored, fork_loaded, join_path,
}
use agentpause.Store.Paths.{path_of-cancel}
use agentpause.Store.Saves.{
  load-save, load-save_fault, load-save_other, load-clear, load-clear_same,
}
use agentpause.Store.Spec.{
  Op, to_save, to_load, to_clear, to_fork, Reply, Table, put, spec_save, spec_fork, spec_step,
  spec_run, reply_of, step, run,
}

module _ (F : Type 0) {X Stamp Content : Type 0} (codec : Codec X Stamp Content) (d : Text) where
  -- The files hold the table: every session loads its entry.
  abbrev pub Holds : Files Content → Table X → Type 0
  Holds fs t = (id : Text) → load {F = F} codec d id fs ≡ ok (t (safe id))

  same_file : (s t : Text) → safe s ≡ safe t → path_of d s ≡ path_of d t
  unfolding path_of
  same_file s t e = ap (λ x. join_path d (x ++ codes ".json")) e

  load_path :
      (a b : Text) (fs : Files Content)
      → path_of d a ≡ path_of d b
      → load {F = F} codec d a fs ≡ load codec d b fs
  unfolding load
  load_path a b fs e = ap (λ p. decode codec d (fs p)) e

  decode_some :
      (x : Option Content) (o : Option (Checkpoint X))
      → decode {F = F} codec d x ≡ ok o
      → not (is_none x) ≡ not (is_none o)
  unfolding decode
  decode_some none o = λ h. ground (arith, h)
  decode_some (some c) o = elim (Option-cases (codec.parse c)) [
    | inl broken ↦ rw (broken, decode) λ h. absurd (ok-ne-raise o checkpoint_error (sym h))
    | inr (cp, whole) ↦ rw (whole, decode) λ h. ground (arith, h)
  ]

  -- a session has a file exactly when the table has an entry
  exists-load :
      (id : Text) (fs : Files Content) (o : Option (Checkpoint X))
      → load {F = F} codec d id fs ≡ ok o
      → exists (path_of d id) fs ≡ not (is_none o)
  unfolding load
  exists-load id fs o h = decode_some (fs (path_of d id)) o h

  module _ (faithful : IsFaithful codec) where
    save-Holds :
        (stamp : Stamp) (cp : Checkpoint X) (fs : Files Content) (t : Table X)
        → Holds fs t
        → Holds (save {F = F} codec d no_fault stamp cp fs).1 (put (safe cp.session_id) (some cp) t)
    save-Holds stamp cp fs t h id = elim (Bool-cases (text_eq (safe cp.session_id) (safe id))) [
      | inl same ↦
          let e = (text_eq_iff (safe cp.session_id) (safe id)).0 same in
          rw same
            (load-save F codec d stamp cp fs id faithful (same_file id cp.session_id (sym e))).1
      | inr other ↦
          let ne : path_of d id ≢ path_of d cp.session_id = λ e. ground (
            arith,
            text_eq_iff (safe cp.session_id) (safe id),
            path_of-cancel d id cp.session_id e,
          ) in
          rw other (load-save_other F codec d no_fault stamp cp fs id ne ∙ h id)
    ]

    clear-Holds :
        (id : Text) (fs : Files Content) (t : Table X)
        → Holds fs t
        → Holds (clear d id fs) (put (safe id) none t)
    clear-Holds id fs t h other = elim (Bool-cases (text_eq (safe id) (safe other))) [
      | inl same ↦
          let e = (text_eq_iff (safe id) (safe other)).0 same in
          rw same (
            load_path other id (clear d id fs) (same_file other id (sym e))
            ∙ load-clear_same F codec d fs id)
      | inr differ ↦
          let ne : path_of d other ≢ path_of d id =
            λ e. ground (arith, text_eq_iff (safe id) (safe other), path_of-cancel d other id e) in
          rw differ ((load-clear F codec d fs id other ne).1 ∙ h other)
    ]

    -- One step of the files against one step of the table.
    abbrev Agrees : Reply F X × Files Content → Reply F X × Table X → Type 0
    Agrees (r, fs) (r', t) = (r ≡ r') × Holds fs t

    save_refines :
        (fault : Fault Content) (stamp : Stamp) (cp : Checkpoint X) (fs : Files Content)
        (t : Table X)
        → Holds fs t
        → Agrees
            (reply_of codec d (stored codec d cp (save {F = F} codec d fault stamp cp fs)))
            (spec_save fault cp t)
    unfolding spec_save reply_of stored save
    save_refines no_fault stamp cp fs t h = (refl, save-Holds stamp cp fs t h)
    save_refines at_open stamp cp fs t h = (refl, h)
    save_refines (at_write c) stamp cp fs t h =
        (refl, λ id. (load-save_fault F codec d (at_write c) stamp cp fs id (λ e. cc)).1 ∙ h id)
    save_refines at_replace stamp cp fs t h =
        (refl, λ id. (load-save_fault F codec d at_replace stamp cp fs id (λ e. cc)).1 ∙ h id)

    fork_refines :
        (fault : Fault Content) (stamp : Stamp) (parent taken : Option (Checkpoint X))
        (new_id : Text) (fs : Files Content) (t : Table X)
        → exists (path_of d new_id) fs ≡ not (is_none taken)
        → Holds fs t
        → Agrees
            (reply_of codec d (fork_loaded {F = F} codec d fault stamp (ok parent) new_id fs))
            (spec_fork fault parent taken new_id t)
    unfolding fork_loaded spec_fork reply_of
    fork_refines fault stamp none taken new_id fs t free h = (refl, h)
    fork_refines fault stamp (some parent) none new_id fs t free h =
        rw free (save_refines fault stamp (fork new_id parent) fs t h)
    fork_refines fault stamp (some parent) (some cp) new_id fs t free h = rw free (refl, h)

    step_refines :
        (op : Op X Stamp Content) (fs : Files Content) (t : Table X)
        → Holds fs t
        → Agrees (step codec d op fs) (spec_step op t)
    unfolding step spec_step fork_stored
    step_refines (to_save fault stamp cp) fs t h = save_refines fault stamp cp fs t h
    step_refines (to_load id) fs t h = (h id, h)
    step_refines (to_clear id) fs t h = (refl, clear-Holds id fs t h)
    step_refines (to_fork fault stamp id new_id) fs t h = rw (h id) (
        fork_refines fault stamp (t (safe id)) (t (safe new_id)) new_id fs t
          (exists-load new_id fs (t (safe new_id)) (h new_id)) h)

    -- No sequence of saves, loads, deletions and forks, whichever of its writes fail, tells the
    -- checkpoint directory from a table of checkpoints: if the files hold the table to begin with, every
    -- reply is the table's.
    pub run_refines :
        (ops : List (Op X Stamp Content)) (fs : Files Content) (t : Table X)
        → Holds fs t
        → run {F = F} codec d ops fs ≡ spec_run ops t
    unfolding run spec_run
    run_refines [] fs t h = refl
    run_refines (op ∷ ops) fs t h =
        let (same, holds) = step_refines op fs t h in
        rw (same, run_refines ops (step {F = F} codec d op fs).1 (spec_step op t).1 holds) refl
