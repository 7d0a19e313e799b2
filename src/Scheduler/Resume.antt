-- ===== src/Scheduler/Resume.antt =====
-- How a session of src/agentpause/scheduler.py is opened, stored and finished.
pub mod Roundtrip
use agentpause.Prelude.{ltb, Bool, true, false, Option, none, some, []}
use agentpause.Prelude.Int.{pos}
use agentpause.Errors.{Result, ok, raise}
use agentpause.Text.{Text}
use agentpause.World.{Clock}
use agentpause.State.{Checkpoint}
use agentpause.Store.{Codec, Fault, Files, save, load, clear}
use agentpause.Scheduler.{Scheduler, Session}

-- What `extra` holds: nothing at first, and with `extra["estimator"] = estimator.to_dict()` the
-- statistics, which `estimator.load` puts back. `recall` gives None where there is no entry, or an
-- empty one.
pub record Memory (E X : Type 0) : Type 0 where
  pub blank : X
  pub put : E → X → X
  pub recall : X → Option (E → E)

-- `Checkpoint(session_id=session_id)`
pub fresh : {X : Type 0} → X → Text → Checkpoint X
fresh blank session_id = record {
  session_id = session_id;
  step = 0;
  messages = [];
  idempotency_keys = [];
  total_tokens_used = pos 0;
  extra = blank;
}

module _ {F E X : Type 0} (memory : Memory E X) where
  -- the statistics of a resumed session
  abbrev restore : Bool → X → Scheduler F E → Scheduler F E
  restore false extra s = s
  restore true extra s = elim (memory.recall extra) [
    | none ↦ s
    | some load_state ↦ record s { estimator = load_state s.estimator }
  ]

  -- `Session.__init__` once the store has answered
  pub opened : Text → F → Option (Checkpoint X) → Scheduler F E → Session F X × Scheduler F E
  opened id started none s = (
    record { session_id = id; started_at = started; resumed = false; cp = fresh memory.blank id },
    s,
  )
  opened id started (some cp) s =
      let resumed = ltb 0 cp.step in
      (
        record { session_id = id; started_at = started; resumed = resumed; cp = cp },
        restore resumed cp.extra s,
      )

  abbrev pub opened_from :
      Text
      → F
      → Scheduler F E
      → Result F (Option (Checkpoint X))
      → Result F (Session F X × Scheduler F E)
  opened_from id started s (raise e) = raise e
  opened_from id started s (ok found) = ok (opened id started found s)

  module _ {Stamp Content W : Type 0} (codec : Codec X Stamp Content) (directory : Text) where
    -- `scheduler.session(session_id)`
    pub session :
        Clock F W
        → Text
        → Scheduler F E
        → Files Content
        → W
        → Result F (Session F X × Scheduler F E) × W
    session clock id s fs w =
        let (started, w') = clock w in (opened_from id started s (load codec directory id fs), w')

  module _ {Stamp Content : Type 0} (codec : Codec X Stamp Content) (directory : Text) where
    -- the first statement of `checkpoint`
    abbrev pub packed : Session F X → Scheduler F E → Checkpoint X
    packed se s = record (se.cp) { extra = memory.put s.estimator se.cp.extra }

    -- a save that fails has changed `extra` all the same
    pub suspend :
        Fault Content
        → Stamp
        → Session F X
        → Scheduler F E
        → Files Content
        → Result F Text × Session F X × Files Content
    suspend fault stamp se s fs =
        let cp = packed se s in
        let (r, fs') = save codec directory fault stamp cp fs in (r, record se { cp = cp }, fs')

-- `complete`
pub complete : {F X Content : Type 0} → Text → Session F X → Files Content → Files Content
complete directory se fs = clear directory se.session_id fs
