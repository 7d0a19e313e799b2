-- ===== src/Quota.antt =====
-- src/agentpause/tools.py: a client-side sliding window of calls.
pub mod Window
pub mod Laws
mod Tests
use agentpause.Prelude.{ℕ, Bool, true, false, List, [], ◌∷◌, ◌++◌, if◌then◌else◌, ltb, length}
use agentpause.Number.{Float, nought}
use agentpause.Errors.{Result, ok, raise, foreign}
use agentpause.World.{Clock, Sleep}
use Window.{prune}

pub record ToolQuota (F : Type 0) : Type 0 where
  pub calls_per_window : ℕ
  pub window_s : F
  pub calls : List F

module _ {F W : Type 0} ⦃f : Float F⦄ where
  open f use {add, sub, lt}

  -- `_prune`
  pub prune_calls : Clock F W → ToolQuota F → W → ToolQuota F × W
  prune_calls clock q w =
      let (now, w') = clock w in (record q { calls = prune (sub now q.window_s) q.calls }, w')

  pub ready : Clock F W → ToolQuota F → W → Bool × ToolQuota F × W
  ready clock q w =
      let (q', w') = prune_calls clock q w in (ltb (length q'.calls) q.calls_per_window, q', w')

  -- `self._calls[0] + self.window_s - self._clock()`, where an empty list raises IndexError
  unfoldable pub until_first : Clock F W → List F → F → W → Result F F × W
  until_first clock [] window_s w = (raise foreign, w)
  until_first clock (t ∷ ts) window_s w =
      let (now, w') = clock w in (ok (sub (add t window_s) now), w')

  pub wait_seconds : Clock F W → ToolQuota F → W → Result F F × ToolQuota F × W
  wait_seconds clock q w =
      let (q', w') = prune_calls clock q w in
      if ltb (length q'.calls) q.calls_per_window
      then (ok nought, q', w')
      else let (r, w'') = until_first clock q'.calls q.window_s w' in (r, q', w'')

  pub record_call : Clock F W → ToolQuota F → W → ToolQuota F × W
  record_call clock q w =
      let (q', w') = prune_calls clock q w in
      let (now, w'') = clock w' in (record q' { calls = q'.calls ++ (now ∷ []) }, w'')

  -- `if wait > 0: sleep_fn(wait)`
  pub pause : Sleep F W → F → W → W
  pause sleep d w = if lt nought d then sleep d w else w

  -- `acquire` once the wait is known; an exception leaves it at once
  pub take_slot :
      Clock F W → Sleep F W → Result F F → ToolQuota F → W → Result F (Unit {0}) × ToolQuota F × W
  take_slot clock sleep (ok d) q w =
      let (q', w') = record_call clock q (pause sleep d w) in (ok tt, q', w')
  take_slot clock sleep (raise e) q w = (raise e, q, w)

  pub acquire : Clock F W → Sleep F W → ToolQuota F → W → Result F (Unit {0}) × ToolQuota F × W
  acquire clock sleep q w =
      let (r, q', w') = wait_seconds clock q w in take_slot clock sleep r q' w'

  -- the wrapper that `guard` returns: the tool runs once the slot is taken
  pub guarded :
      {A : Type 0}
      → Clock F W
      → Sleep F W
      → (W → Result F A × W)
      → ToolQuota F
      → W
      → Result F A × ToolQuota F × W
  guarded clock sleep tool q w =
      let (r, q', w') = acquire clock sleep q w in
      elim r [ ok _ ↦ let (a, w'') = tool w' in (a, q', w'') | raise e ↦ (raise e, q', w') ]
