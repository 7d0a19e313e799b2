-- ===== src/Local/Calibration.antt =====
-- What the facade of src/agentpause/adapters/local_resources.py does with its deadline, and what a
-- save calibrates.
mod Tests
use agentpause.Prelude.{
  ℕ, Bool, true, false, ◌*◌, ◌≤◌, Option, none, some, ◌≡◌, ◌≢◌, refl, sym, ap, ◌∙◌, arith, ltb,
  is_none, if◌then◌else◌,
}
use agentpause.Prelude.Int.{ℤ, pos}
use agentpause.Number.{Float}
use agentpause.Errors.{Error, Result, ok, raise}
use agentpause.Text.{Text}
use agentpause.World.{Clock}
use agentpause.State.{Checkpoint}
use agentpause.Store.{Fault}
use agentpause.Risk.{Budget}
use agentpause.Scheduler.{Reading}
use agentpause.KvStore.{Kv, Extra, Blobs, Machine, Setup, served}
use agentpause.KvStore.Save.{SavedWith, save_with_kv}
use agentpause.Local.{as_reading, reading_of, start_timer, timed, time_left, reserve_of}
use agentpause.Local.Facade.{
  LocalBudget, resources, reserve_for, under_deadline, local_budget, calibrate, calibrated_by,
  after_save, save_and_calibrate, SavedAndCalibrated, room_for, min_free_floor,
}

module _ {F W : Type 0} ⦃f : Float F⦄ (clock : Clock F W) where
  timed_left :
      (now budget_s reserve : F) (l : LocalBudget F W) (r : Result F (Reading F)) (w : W)
      (b : Budget F)
      → (timed clock
          (record {
            inner_telemetry = as_reading (resources l);
            time_budget_s = budget_s;
            started_at = now;
            reserve_s = reserve;
          })
          (r, w)).0
        ≡ ok b
      → b.remaining_seconds ≡ some (f.sub (f.sub budget_s (f.sub (clock w).0 now)) reserve)
  unfolding timed
  timed_left now budget_s reserve l (ok x) w b h = ground (arith, sym h)
  timed_left now budget_s reserve l (raise e) w b h = absurd cc

  -- The deadline of the facade starts again with every reading: the seconds that it reports are the
  -- whole time budget, less the time between two clock readings of this very call and the reserve. How
  -- long ago the run began does not enter.
  pub local_budget_restarts :
      (l : LocalBudget F W) (budget_s : F) (b : Budget F) (w : W)
      → l.time_budget_s ≡ some budget_s
      → (local_budget clock l w).0 ≡ ok b
      → let (started, at) = clock w in
        let now = (clock (resources l at).1).0 in
        b.remaining_seconds
        ≡ some (f.sub (f.sub budget_s (f.sub now started)) (reserve_for l.measured_save_s))
  unfolding local_budget under_deadline start_timer reserve_of time_left as_reading
  local_budget_restarts l budget_s b w h = rw h λ told.
      let (started, at) = clock w in
      let (r, w') = resources l at in
      timed_left started budget_s (reserve_for l.measured_save_s) l (reading_of r) w' b told

room_for_bounds : (bytes : ℕ) → (min_free_floor ≤ room_for bytes) × (5 * bytes ≤ room_for bytes)
room_for_bounds bytes = ground arith

module _ {F X Stamp Content S : Type 0} ⦃f : Float F⦄ (size : Text → ℕ)
    (clock : Clock F (Blobs × S)) where
  -- A save that went through sets the disk guard, unless the caller has fixed it: from then on at least
  -- half a gigabyte and at least five times the blob just written must be free.
  pub save_and_calibrate_room :
      (s : Setup F X Stamp Content S) (l : LocalBudget F (Blobs × S)) (fault : Fault Content)
      (stamp : Stamp) (nonce : Text) (cp : Checkpoint (Extra X)) (m : Machine Content S) (kv : Kv)
      → l.min_free_bytes_override ≡ none
      → let m' = served (clock (m.blobs, m.server)).1 m in
        let out = save_with_kv s fault stamp nonce cp m' in
        out.result ≡ ok tt
        → out.checkpoint.extra.kv ≡ some kv
        → let after = (save_and_calibrate size clock s l fault stamp nonce cp m).calibrated in
          (need : ℕ) × (after.min_free_bytes ≡ some need)
          × (500_000_000 ≤ need)
          × (5 * size kv.file ≤ need)
  unfolding save_and_calibrate after_save calibrated_by calibrate
  save_and_calibrate_room s l fault stamp nonce cp m kv free went entry =
      let bounds = room_for_bounds (size kv.file) in
      (
        room_for (size kv.file),
        rw (went, after_save, entry, calibrated_by, free) refl,
        bounds.0,
        bounds.1,
      )

  -- A save that raises calibrates nothing: the budget and the disk guard stay as they were.
  pub save_and_calibrate_fault :
      (s : Setup F X Stamp Content S) (l : LocalBudget F (Blobs × S)) (fault : Fault Content)
      (stamp : Stamp) (nonce : Text) (cp : Checkpoint (Extra X)) (m : Machine Content S)
      (e : Error F)
      → let m' = served (clock (m.blobs, m.server)).1 m in
        (save_with_kv s fault stamp nonce cp m').result ≡ raise e
        → let after = save_and_calibrate size clock s l fault stamp nonce cp m in
          (after.saved ≡ save_with_kv s fault stamp nonce cp m')
          × (after.calibrated.budget ≡ l)
          × (after.calibrated.min_free_bytes ≡ s.min_free_bytes)
  unfolding save_and_calibrate after_save
  save_and_calibrate_fault s l fault stamp nonce cp m e h = rw (h, after_save) (refl, refl, refl)
