-- ===== src/Store.antt =====
-- The class `StateStore` of src/agentpause/state.py over a model of a directory: files by path. JSON
-- enters as a codec, and the operating system may fail a write at any point.
pub mod Paths
pub mod Saves
pub mod Migration
pub mod Spec
pub mod Refine
mod Tests
use agentpause.Prelude.{
  ℕ, ◌==◌, Bool, true, false, not, ◌&&◌, ◌||◌, Option, none, some, List, [], ◌∷◌, ◌++◌, ◌≡◌,
  if◌then◌else◌, is_none,
}
use agentpause.Errors.{Result, ok, raise, checkpoint_error}
use agentpause.Text.{Text, codes, text_eq, last, replace}
use agentpause.State.{Checkpoint, fork}

-- `json.dump` of the payload and `Checkpoint(**json.load(f)["state"])`, over a type of file contents.
-- `Stamp` is what a payload holds beside the state: its id and its time.
pub record Codec (X Stamp Content : Type 0) : Type 0 where
  pub dump : Stamp → Checkpoint X → Content
  pub parse : Content → Option (Checkpoint X)

-- What was dumped can be read back.
abbrev pub IsFaithful : {X Stamp Content : Type 0} → Codec X Stamp Content → Type 0
IsFaithful {X} {Stamp} c = (s : Stamp) (cp : Checkpoint X) → c.parse (c.dump s cp) ≡ some cp

-- What an `OSError` during `save` leaves in the temporary file: it could not be opened, part of the
-- payload was written, or all of it was and the rename failed.
pub data Fault (Content : Type 0) : Type 0 where
  no_fault : Fault Content
  at_open : Fault Content
  at_write : Content → Fault Content
  at_replace : Fault Content

abbrev sep : ℕ
sep = 47

-- `os.path.join(directory, name)` for a name that does not begin with a separator
unfoldable pub join_path : Text → Text → Text
join_path [] name = name
join_path (c ∷ d) name = if last (c ∷ d) == sep then (c ∷ d) ++ name else (c ∷ d) ++ (sep ∷ name)

-- `session_id.replace(os.sep, "_")`
abbrev pub safe : Text → Text
safe = replace 47 95

-- `_path`
unfoldable pub path_of : Text → Text → Text
path_of directory session_id = join_path directory (safe session_id ++ codes ".json")

abbrev pub tmp_of : Text → Text
tmp_of path = path ++ codes ".tmp"

-- The directory: what each path holds.
abbrev pub Files : Type 0 → Type 0
Files Content = Text → Option Content

module _ {Content : Type 0} where
  abbrev pub write : Text → Content → Files Content → Files Content
  write path content fs p = if text_eq path p then some content else fs p

  abbrev pub remove : Text → Files Content → Files Content
  remove path fs p = if text_eq path p then none else fs p

  -- `os.path.exists`
  abbrev pub exists : Text → Files Content → Bool
  exists path fs = not (is_none (fs path))

  -- `os.replace(tmp, path)`
  abbrev pub move : Text → Text → Files Content → Files Content
  move tmp path fs p = if text_eq path p then fs tmp else remove tmp fs p

pub record Bundle (X Stamp : Type 0) : Type 0 where
  pub format : Text
  pub exported_at : Stamp
  -- `Checkpoint(**bundle["state"])`, if that does not raise
  pub state : Option (Checkpoint X)

abbrev pub bundle_format : Text
bundle_format = codes "agentpause-checkpoint/1"

-- `clear`: a path that is not there stays so
unfoldable pub clear : {Content : Type 0} → Text → Text → Files Content → Files Content
clear directory session_id fs = remove (path_of directory session_id) fs

module _ {F X Stamp Content : Type 0} (codec : Codec X Stamp Content) (directory : Text) where
  unfoldable pub save :
      Fault Content → Stamp → Checkpoint X → Files Content → Result F Text × Files Content
  save no_fault stamp cp fs =
      let path = path_of directory cp.session_id in
      let content = codec.dump stamp cp in
      (ok path, move (tmp_of path) path (write (tmp_of path) content fs))
  save at_open stamp cp fs = (raise checkpoint_error, fs)
  save (at_write partial) stamp cp fs =
      (raise checkpoint_error, write (tmp_of (path_of directory cp.session_id)) partial fs)
  save at_replace stamp cp fs = (
    raise checkpoint_error,
    write (tmp_of (path_of directory cp.session_id)) (codec.dump stamp cp) fs,
  )

  -- `load` once the file has been looked for
  unfoldable pub decode : Option Content → Result F (Option (Checkpoint X))
  decode none = ok none
  decode (some content) = elim (codec.parse content) [
    | none ↦ raise checkpoint_error
    | some cp ↦ ok (some cp)
  ]

  unfoldable pub load : Text → Files Content → Result F (Option (Checkpoint X))
  load session_id fs = decode (fs (path_of directory session_id))

  -- a checkpoint that is stored and handed back, unless storing it raises
  unfoldable pub stored :
      Checkpoint X → Result F Text × Files Content → Result F (Checkpoint X) × Files Content
  stored cp (ok path, fs) = (ok cp, fs)
  stored cp (raise e, fs) = (raise e, fs)

  -- `fork` once the parent has been loaded
  unfoldable pub fork_loaded :
      Fault Content
      → Stamp
      → Result F (Option (Checkpoint X))
      → Text
      → Files Content
      → Result F (Checkpoint X) × Files Content
  fork_loaded fault stamp (raise e) new_id fs = (raise e, fs)
  fork_loaded fault stamp (ok none) new_id fs = (raise checkpoint_error, fs)
  fork_loaded fault stamp (ok (some parent)) new_id fs =
      let clone = fork new_id parent in
      if exists (path_of directory new_id) fs
      then (raise checkpoint_error, fs)
      else stored clone (save fault stamp clone fs)

  unfoldable pub fork_stored :
      Fault Content → Stamp → Text → Text → Files Content → Result F (Checkpoint X) × Files Content
  fork_stored fault stamp session_id new_id fs =
      fork_loaded fault stamp (load session_id fs) new_id fs

  -- `export_bundle` once the checkpoint has been loaded
  pub bundle_of : Stamp → Result F (Option (Checkpoint X)) → Result F (Bundle X Stamp)
  bundle_of now (raise e) = raise e
  bundle_of now (ok none) = raise checkpoint_error
  bundle_of now (ok (some cp)) =
      ok (record { format = bundle_format; exported_at = now; state = some cp })

  pub export_bundle : Stamp → Text → Files Content → Result F (Bundle X Stamp)
  export_bundle now session_id fs = bundle_of now (load session_id fs)

  -- `import_bundle` once the format has been checked
  pub import_state :
      Fault Content
      → Stamp
      → Option (Checkpoint X)
      → Bool
      → Files Content
      → Result F (Checkpoint X) × Files Content
  import_state fault stamp none overwrite fs = (raise checkpoint_error, fs)
  import_state fault stamp (some cp) overwrite fs =
      if not overwrite && exists (path_of directory cp.session_id) fs
      then (raise checkpoint_error, fs)
      else stored cp (save fault stamp cp fs)

  pub import_bundle :
      Fault Content
      → Stamp
      → Bundle X Stamp
      → Bool
      → Files Content
      → Result F (Checkpoint X) × Files Content
  import_bundle fault stamp b overwrite fs =
      if not (text_eq b.format bundle_format)
      then (raise checkpoint_error, fs)
      else import_state fault stamp b.state overwrite fs
