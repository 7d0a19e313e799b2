-- ===== src/Breaker/Laws.antt =====
-- What the circuit breaker of src/agentpause/breaker.py guarantees.
use agentpause.Prelude.{
  ℕ, zero, suc, ◌+◌, ◌<◌, ◌≤◌, false, none, some, List, ◌≡◌, ◌≢◌, ◌⊎◌, refl, arith,
}
use agentpause.Prelude.Int.{ℤ}
use agentpause.Number.{Float}
use agentpause.Errors.{Error, Result, ok, raise, circuit_open_error, transient, fatal, verdict}
use agentpause.Text.{Text}
use agentpause.World.{Message, Clock, Backend}
use agentpause.Breaker.{
  Breaker, Status, closed, half_open, open_, state, count_failure, settle, guarded, call,
}

-- A closed circuit has counted fewer failures than the threshold.
pub record IsValid {F : Type 0} (b : Breaker F) : Type 0 where
  pub positive : 0 < b.failure_threshold
  pub below : b.opened_at ≡ none → b.failures < b.failure_threshold

-- What one answer makes of a breaker that was not open, and of the world `w` that the answer left: the
-- clock is read once more if and only if the circuit opens, and the circuit has then opened at that
-- reading.
abbrev pub Settled :
    {F W : Type 0}
    → Clock F W
    → Status
    → Result F (Text × ℤ)
    → Breaker F
    → W
    → Breaker F × W
    → Type 0
Settled clock s (ok x) b w (b', w') = (b'.failures ≡ 0) × (b'.opened_at ≡ none) × (w' ≡ w)
Settled {F} clock s (raise e) b w (b', w') =
    (verdict e ≡ fatal → (b' ≡ b) × (w' ≡ w))
    × (verdict e ≡ transient
        → (b'.failures ≡ b.failures + 1)
          × ((s ≡ half_open) ⊎ (b.failure_threshold ≤ b.failures + 1)
              → (b'.opened_at ≡ some (clock w).0) × (w' ≡ (clock w).1))
          × (s ≡ closed
              → b.failures + 1 < b.failure_threshold
              → (b'.opened_at ≡ b.opened_at) × (w' ≡ w)))

module _ {F W : Type 0} ⦃f : Float F⦄ (clock : Clock F W) (backend : Backend F W) where
  settle-IsValid :
      (s : Status) (r : Result F (Text × ℤ)) (b : Breaker F) (w : W)
      → IsValid b
      → IsValid (settle clock s r b w).1
  unfolding settle count_failure
  settle-IsValid s (ok x) b w v = record { positive = v.positive; below = λ e. v.positive }
  settle-IsValid s (raise e) b w v = ground arith

  guarded-IsValid :
      (messages : List Message) (s : Status) (b : Breaker F) (w : W)
      → IsValid b
      → IsValid (guarded clock backend messages s b w).1
  unfolding guarded
  guarded-IsValid messages closed b w v =
      settle-IsValid closed (backend messages w).0 b (backend messages w).1 v
  guarded-IsValid messages half_open b w v =
      settle-IsValid half_open (backend messages w).0 b (backend messages w).1 v
  guarded-IsValid messages open_ b w v = v

  -- A call keeps the invariant: as long as the circuit is closed, the count of failures is below the
  -- threshold.
  pub call-IsValid :
      (messages : List Message) (b : Breaker F) (w : W)
      → IsValid b
      → IsValid (call clock backend messages b w).1
  unfolding call
  call-IsValid messages b w v = guarded-IsValid messages (state clock b w).0 b (state clock b w).1 v

  -- While the circuit is open a call fails fast: it raises, the breaker is as it was, and the world
  -- has seen one reading of the clock and no call of the backend.
  pub call_fails_fast :
      (messages : List Message) (b : Breaker F) (w : W) {opened : F}
      → b.opened_at ≡ some opened
      → f.le b.cooldown_s (f.sub (clock w).0 opened) ≡ false
      → call clock backend messages b w ≡ (raise circuit_open_error, b, (clock w).1)
  unfolding call guarded state
  call_fails_fast messages b w p q = rw (p, q)

  settle-Settled :
      (s : Status) (r : Result F (Text × ℤ)) (b : Breaker F) (w : W)
      → let (_, b', w') = settle clock s r b w in Settled clock s r b w (b', w')
  unfolding settle count_failure
  settle-Settled s (ok x) b w = (refl, refl, refl)
  settle-Settled s (raise e) b w = (
    λ h. (ground arith, ground arith),
    λ h. (ground arith, λ g. (ground arith, ground arith), λ p g. (ground arith, ground arith)),
  )

  settle_result :
      (s : Status) (r : Result F (Text × ℤ)) (b : Breaker F) (w : W) → (settle clock s r b w).0 ≡ r
  unfolding settle
  settle_result s (ok x) b w = refl
  settle_result s (raise e) b w = ground arith

  guarded_answers :
      (messages : List Message) (s : Status) (b : Breaker F) (w : W)
      → s ≢ open_
      → let (r, w1) = backend messages w in
        let (r', b', w') = guarded clock backend messages s b w in
        (r' ≡ r) × Settled clock s r b w1 (b', w')
  unfolding guarded
  guarded_answers messages closed b w h =
      let (r, w') = backend messages w in
      (settle_result closed r b w', settle-Settled closed r b w')
  guarded_answers messages half_open b w h =
      let (r, w') = backend messages w in
      (settle_result half_open r b w', settle-Settled half_open r b w')
  guarded_answers messages open_ b w h = absurd (h refl)

  -- Outside the open state the backend is called, and its answer is the result and alone decides what
  -- the breaker becomes: a reply closes the circuit and clears the count; a fatal error changes
  -- nothing; a transient error adds one to the count. If the circuit was half-open or the count
  -- reaches the threshold, it opens, anew if it had been open, at a reading of the clock that
  -- follows the answer; otherwise a closed circuit stays closed. Nothing else touches the world: no
  -- second call of the backend, and no other reading of the clock.
  pub call_answers :
      (messages : List Message) (b : Breaker F) (w : W)
      → let (s, w0) = state clock b w in
        let (r, w1) = backend messages w0 in
        let (r', b', w') = call clock backend messages b w in
        s ≢ open_ → (r' ≡ r) × Settled clock s r b w1 (b', w')
  unfolding call
  call_answers messages b w h = let (s, w') = state clock b w in guarded_answers messages s b w' h

  -- `n` calls in a row with the same messages
  unfoldable pub calls : List Message → ℕ → Breaker F → W → Breaker F × W
  calls messages zero b w = (b, w)
  calls messages (suc n) b w =
      let (_, b', w') = call clock backend messages b w in calls messages n b' w'

  closed_failure :
      (messages : List Message) (b : Breaker F) (w : W)
      → ((v : W) → (e : Error F) × ((backend messages v).0 ≡ raise e) × (verdict e ≡ transient))
      → b.opened_at ≡ none
      → let b' = (call clock backend messages b w).1 in
        (b'.failures ≡ b.failures + 1)
        × (b.failures + 1 < b.failure_threshold → b'.opened_at ≡ none)
        × (b.failure_threshold ≤ b.failures + 1 → (t : F) × (b'.opened_at ≡ some t))
  unfolding call guarded state settle count_failure
  closed_failure messages b w fails c =
      let (e, r, t) = fails w in
      (ground arith, λ h. ground arith, λ h. ((clock (backend messages w).1).0, ground arith))

  call_threshold :
      (messages : List Message) (b : Breaker F) (w : W)
      → (call clock backend messages b w).1.failure_threshold ≡ b.failure_threshold
  unfolding call guarded settle count_failure
  call_threshold messages b w = ground arith

  -- A backend that always fails transiently opens a closed circuit at exactly the threshold: after
  -- fewer failures in a row it is still closed and has counted them all, and at the threshold it opens.
  pub calls_trip :
      (messages : List Message) (n : ℕ) (b : Breaker F) (w : W)
      → ((v : W) → (e : Error F) × ((backend messages v).0 ≡ raise e) × (verdict e ≡ transient))
      → b.opened_at ≡ none
      → b.failures + n ≤ b.failure_threshold
      → 0 < n
      → let b' = (calls messages n b w).0 in
        (b'.failures ≡ b.failures + n)
        × (b.failures + n < b.failure_threshold → b'.opened_at ≡ none)
        × (b.failures + n ≡ b.failure_threshold → (t : F) × (b'.opened_at ≡ some t))
  unfolding calls
  calls_trip messages zero b w fails c h p = absurd (omega arith)
  calls_trip messages (suc zero) b w fails c h p =
      let (z, m, o) = closed_failure messages b w fails c in (z, λ g. m g, λ g. o (omega arith))
  calls_trip messages (suc (suc n)) b w fails c h p =
      let (z, m, o) = closed_failure messages b w fails c in
      let rest = call clock backend messages b w in
      let same = call_threshold messages b w in
      let (z', m', o') =
        calls_trip messages (suc n) rest.1 rest.2 fails (m (omega arith)) (omega arith)
          (omega arith) in
      (omega arith, λ g. m' (omega arith), λ g. o' (omega arith))
