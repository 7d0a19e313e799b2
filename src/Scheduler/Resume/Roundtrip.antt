-- ===== src/Scheduler/Resume/Roundtrip.antt =====
-- A session that is suspended and opened again, in src/agentpause/scheduler.py.
use agentpause.Prelude.{ℕ, suc, true, false, some, ◌≡◌, ap, ◌∙◌, arith}
use agentpause.Errors.{ok}
use agentpause.Text.{Text}
use agentpause.World.{Clock}
use agentpause.State.{Checkpoint}
use agentpause.Store.{Codec, IsFaithful, no_fault, Files, path_of}
use agentpause.Store.Saves.{load-save, load-clear_same}
use agentpause.Scheduler.{Scheduler, Session}
use agentpause.Scheduler.Resume.{
  Memory, fresh, opened, opened_from, session, packed, suspend, complete,
}

module _ {F E X Stamp Content W : Type 0} (memory : Memory E X) (codec : Codec X Stamp Content)
    (d : Text) (clock : Clock F W) where
  opened_resumed :
      (id : Text) (started : F) (cp : Checkpoint X) (n : ℕ) (g : E → E) (s : Scheduler F E)
      → cp.step ≡ suc n
      → memory.recall cp.extra ≡ some g
      → opened memory id started (some cp) s ≡ (
        record { session_id = id; started_at = started; resumed = true; cp = cp },
        record s { estimator = g s.estimator },
      )
  unfolding opened
  opened_resumed id started cp n g s h r = ground arith

  -- A session that has made a step, suspended and opened again under its id, is resumed where it
  -- was: its whole state is back, and a scheduler of any other history has the saved statistics, if
  -- those can be read back.
  pub session-suspend :
      (se : Session F X) (s s' : Scheduler F E) (fs : Files Content) (stamp : Stamp) (w : W) (n : ℕ)
      (g : E → E)
      → IsFaithful codec
      → se.session_id ≡ se.cp.session_id
      → se.cp.step ≡ suc n
      → memory.recall (memory.put s.estimator se.cp.extra) ≡ some g
      → let (r, _, fs') = suspend memory codec d no_fault stamp se s fs in
        (r ≡ ok (path_of d se.cp.session_id))
        × ((session memory codec d clock se.session_id s' fs' w).0
            ≡ ok (
              record {
                session_id = se.session_id;
                started_at = (clock w).0;
                resumed = true;
                cp = packed memory codec d se s;
              },
              record s' { estimator = g s'.estimator },
            ))
  unfolding suspend session
  session-suspend se s s' fs stamp w n g faithful same step back =
      let cp = packed memory codec d se s in
      let (r, l) = load-save F codec d stamp cp fs se.session_id faithful (ap (path_of d) same) in
      (
        r,
        ap (opened_from memory se.session_id (clock w).0 s') l
            ∙ ap ok (opened_resumed se.session_id (clock w).0 cp n g s' step back),
      )

  -- A session that is complete is forgotten: opened again, its id starts afresh.
  pub session-complete :
      (se : Session F X) (s : Scheduler F E) (fs : Files Content) (w : W)
      → (session memory codec d clock se.session_id s (complete d se fs) w).0
        ≡ ok (
          record {
            session_id = se.session_id;
            started_at = (clock w).0;
            resumed = false;
            cp = fresh memory.blank se.session_id;
          },
          s,
        )
  unfolding session complete opened
  session-complete se s fs w =
      ap (opened_from memory se.session_id (clock w).0 s)
        (load-clear_same F codec d fs se.session_id)
