-- ===== src/Store/Spec.antt =====
-- What the class `StateStore` of src/agentpause/state.py promises, without files: a table from session
-- ids to checkpoints. Ids that differ only in path separators and underscores are one key.
use agentpause.Prelude.{Option, none, some, List, [], ◌∷◌, if◌then◌else◌}
use agentpause.Errors.{Result, ok, raise, checkpoint_error}
use agentpause.Text.{Text, text_eq}
use agentpause.State.{Checkpoint, fork}
use agentpause.Store.{
  Codec, Fault, no_fault, at_open, at_write, at_replace, Files, safe, save, load, clear, stored,
  fork_stored,
}

-- What a client asks of a store. A write may fail at any of its steps.
pub data Op (X Stamp Content : Type 0) : Type 0 where
  to_save : Fault Content → Stamp → Checkpoint X → Op X Stamp Content
  to_load : Text → Op X Stamp Content
  to_clear : Text → Op X Stamp Content
  to_fork : Fault Content → Stamp → Text → Text → Op X Stamp Content

-- What it sees: the checkpoint that was stored or loaded, nothing, or an error.
abbrev pub Reply : Type 0 → Type 0 → Type 0
Reply F X = Result F (Option (Checkpoint X))

abbrev pub Table : Type 0 → Type 0
Table X = Text → Option (Checkpoint X)

module _ {X : Type 0} where
  abbrev pub put : Text → Option (Checkpoint X) → Table X → Table X
  put key entry t k = if text_eq key k then entry else t k

module _ {F X : Type 0} where
  -- A save that goes through is a new entry; one that fails is an error and nothing else.
  unfoldable pub spec_save :
      {Content : Type 0} → Fault Content → Checkpoint X → Table X → Reply F X × Table X
  spec_save no_fault cp t = (ok (some cp), put (safe cp.session_id) (some cp) t)
  spec_save at_open cp t = (raise checkpoint_error, t)
  spec_save (at_write c) cp t = (raise checkpoint_error, t)
  spec_save at_replace cp t = (raise checkpoint_error, t)

  -- A fork needs a parent, and an id that is free.
  unfoldable pub spec_fork :
      {Content : Type 0}
      → Fault Content
      → Option (Checkpoint X)
      → Option (Checkpoint X)
      → Text
      → Table X
      → Reply F X × Table X
  unfolding spec_save fork
  spec_fork fault none taken new_id t = (raise checkpoint_error, t)
  spec_fork fault (some parent) (some cp) new_id t = (raise checkpoint_error, t)
  spec_fork fault (some parent) none new_id t = spec_save fault (fork new_id parent) t

  unfoldable pub spec_step :
      {Stamp Content : Type 0} → Op X Stamp Content → Table X → Reply F X × Table X
  unfolding spec_save spec_fork
  spec_step (to_save fault stamp cp) t = spec_save fault cp t
  spec_step (to_load id) t = (ok (t (safe id)), t)
  spec_step (to_clear id) t = (ok none, put (safe id) none t)
  spec_step (to_fork fault stamp id new_id) t =
      spec_fork fault (t (safe id)) (t (safe new_id)) new_id t

  unfoldable pub spec_run :
      {Stamp Content : Type 0} → List (Op X Stamp Content) → Table X → List (Reply F X)
  unfolding spec_step
  spec_run [] t = []
  spec_run (op ∷ ops) t = let (r, t') = spec_step op t in r ∷ spec_run ops t'

module _ {F X Stamp Content : Type 0} (codec : Codec X Stamp Content) (directory : Text) where
  -- the reply of an operation that stores a checkpoint
  unfoldable pub reply_of : Result F (Checkpoint X) × Files Content → Reply F X × Files Content
  reply_of (ok cp, fs) = (ok (some cp), fs)
  reply_of (raise e, fs) = (raise e, fs)

  -- the operations of the code
  unfoldable pub step : Op X Stamp Content → Files Content → Reply F X × Files Content
  unfolding reply_of
  step (to_save fault stamp cp) fs =
      reply_of (stored codec directory cp (save codec directory fault stamp cp fs))
  step (to_load id) fs = (load codec directory id fs, fs)
  step (to_clear id) fs = (ok none, clear directory id fs)
  step (to_fork fault stamp id new_id) fs =
      reply_of (fork_stored codec directory fault stamp id new_id fs)

  unfoldable pub run : List (Op X Stamp Content) → Files Content → List (Reply F X)
  unfolding step
  run [] fs = []
  run (op ∷ ops) fs = let (r, fs') = step op fs in r ∷ run ops fs'
