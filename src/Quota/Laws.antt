-- ===== src/Quota/Laws.antt =====
-- What the sliding-window quota of src/agentpause/tools.py guarantees.
use mathlib.Core.List.{append_assoc}
use agentpause.Prelude.{
  suc, ◌<◌, ◌≤◌, List, [], ◌∷◌, ◌≡◌, ◌↔◌, ◌⊎◌, ◌++◌, All, All-map, All-append, sym, refl, ◌∙◌, ap,
  arith, inl, inr, Bool-cases, ltb, length, List-cases, length-append,
}
use agentpause.Number.{Float, ◌≼◌, IsExact, nought}
use agentpause.Number.Order.{add-sub_le, le_of_sub-le-zero, le_of_not-lt}
use agentpause.Errors.{Result, ok, raise}
use agentpause.World.{Clock, Sleep, IsMonotonic, Sleeps}
use agentpause.Quota.Window.{prune, length-prune, prune_drops}
use agentpause.Quota.{
  ToolQuota, prune_calls, until_first, wait_seconds, record_call, pause, take_slot, acquire,
}

-- No more calls are remembered than fit in one window.
pub record IsValid {F : Type 0} (q : ToolQuota F) : Type 0 where
  pub positive : 0 < q.calls_per_window
  pub bounded : length q.calls ≤ q.calls_per_window

module _ {F W : Type 0} ⦃f : Float F⦄ (clock : Clock F W) (sleep : Sleep F W) where
  -- A reading that comes after the pause for the oldest call finds that call out of the window.
  oldest_expires :
      (t window_s : F) (w : W)
      → IsExact F
      → IsMonotonic clock
      → Sleeps clock sleep
      → let d = f.sub (f.add t window_s) (clock w).0 in
        t ≼ f.sub (clock (pause sleep d (clock w).1)).0 window_s
  unfolding pause
  oldest_expires t window_s w x m s =
      let (now, w') = clock w in
      let leaves = f.add t window_s in
      let d = f.sub leaves now in
      let reach = add-sub_le x leaves now in
      let after = (clock (pause sleep d w')).0 in
      elim (Bool-cases (f.lt nought d)) [
        | inl long ↦ ground (
          arith,
          x.sub-le t after window_s,
          s d w,
          x.ordered.le_trans leaves (f.add now d) after reach.1,
        )
        | inr short ↦ ground (
          arith,
          x.sub-le t after window_s,
          m w,
          le_of_sub-le-zero x leaves now (le_of_not-lt x.ordered nought d short),
          x.ordered.le_trans leaves now after,
        )
      ]

  record_call_room :
      (q : ToolQuota F) (w : W)
      → length q.calls < q.calls_per_window
      → length (record_call clock q w).0.calls ≤ q.calls_per_window
  unfolding record_call prune_calls
  record_call_room q w h =
      let old = prune (f.sub (clock w).0 q.window_s) q.calls in
      let new = (clock (clock w).1).0 in
      omega
        (arith, length-append old (new ∷ []), length-prune (f.sub (clock w).0 q.window_s) q.calls)

  record_call_full :
      (q : ToolQuota F) (w : W) (t : F) (ts : List F)
      → q.calls ≡ t ∷ ts
      → t ≼ f.sub (clock w).0 q.window_s
      → length q.calls ≤ q.calls_per_window
      → length (record_call clock q w).0.calls ≤ q.calls_per_window
  unfolding record_call prune_calls prune
  record_call_full q w t ts e gone h =
      let cutoff = f.sub (clock w).0 q.window_s in
      let new = (clock (clock w).1).0 in
      let dropped : prune cutoff (t ∷ ts) ≡ prune cutoff ts = rw gone in
      let len : length q.calls ≡ suc (length ts) = ap length e in
      let same : prune cutoff q.calls ≡ prune cutoff ts = ap (prune cutoff) e ∙ dropped in
      rw same (omega (arith, length-append (prune cutoff ts) (new ∷ []), length-prune cutoff ts))

  record_call_keeps :
      (q : ToolQuota F) (w : W) → (record_call clock q w).0.calls_per_window ≡ q.calls_per_window
  unfolding record_call prune_calls
  record_call_keeps q w = refl

  full_slot :
      (q : ToolQuota F) (w : W)
      → IsExact F
      → IsMonotonic clock
      → Sleeps clock sleep
      → IsValid q
      → q.calls_per_window ≤ length q.calls
      → let (r, w') = until_first clock q.calls q.window_s w in
        let (r', q', _) = take_slot clock sleep r q w' in (r' ≡ ok tt) × IsValid q'
  unfolding until_first take_slot
  full_slot q w x m s v full = elim (List-cases q.calls) [
    | inl e ↦ absurd (omega (arith, v.positive, ap length e))
    | inr (t, ts, e) ↦
        let d = f.sub (f.add t q.window_s) (clock w).0 in
        let w' = pause sleep d (clock w).1 in
        ground (
          arith,
          record_call_full q w' t ts e (oldest_expires t q.window_s w x m s) v.bounded,
          record_call_keeps q w',
        )
  ]

  prune_calls_bounds :
      (q : ToolQuota F) (w : W)
      → let q' = (prune_calls clock q w).0 in
        (length q'.calls ≤ length q.calls) × (q'.calls_per_window ≡ q.calls_per_window)
  unfolding prune_calls
  prune_calls_bounds q w = (length-prune _ _, refl)

  -- A call has been taken: it is remembered, at the last reading of the clock, behind the earlier
  -- calls. Only a first part of those is forgotten, and each call in it had left the window at `first`
  -- or at the reading before the last.
  abbrev pub Taken : ToolQuota F → F → ToolQuota F → W → Type 0
  Taken q first q' w' =
      (v : W) × (older kept : List F) × (q.calls ≡ older ++ kept)
      × (q'.calls ≡ kept ++ ((clock (clock v).1).0 ∷ []))
      × (w' ≡ (clock (clock v).1).1)
      × All (λ t. (t ≼ f.sub first q.window_s) ⊎ (t ≼ f.sub (clock v).0 q.window_s)) older

  record_call-Taken :
      (q : ToolQuota F) (first : F) (w : W)
      → let q1 = record q { calls = prune (f.sub first q.window_s) q.calls } in
        let (q', w') = record_call clock q1 w in Taken q first q' w'
  unfolding record_call prune_calls
  record_call-Taken q first w =
      let cutoff = f.sub first q.window_s in
      let last = f.sub (clock w).0 q.window_s in
      let live = prune cutoff q.calls in
      let (old, e, p) = prune_drops cutoff q.calls in
      let (old', e', p') = prune_drops last live in
      let gone = λ (t : F). (t ≼ cutoff) ⊎ (t ≼ last) in
      (
        w,
        old ++ old',
        prune last live,
        e ∙ ap (λ ts. old ++ ts) e' ∙ sym (append_assoc old old' (prune last live)),
        refl,
        refl,
        All-append gone old old' (All-map (λ t. t ≼ cutoff) gone old (λ t h. inl h) p)
            (All-map (λ t. t ≼ last) gone old' (λ t h. inr h) p'),
      )

  take_slot-Taken :
      (q : ToolQuota F) (first : F) (r : Result F F) (w : W)
      → let q1 = record q { calls = prune (f.sub first q.window_s) q.calls } in
        let (r', q', w') = take_slot clock sleep r q1 w in r' ≡ ok tt → Taken q first q' w'
  unfolding take_slot
  take_slot-Taken q first (ok d) w = λ h. record_call-Taken q first (pause sleep d w)
  take_slot-Taken q first (raise e) w = λ h. absurd (ground arith)

  acquire-Taken :
      (q : ToolQuota F) (w : W)
      → let (r, q', w') = acquire clock sleep q w in r ≡ ok tt → Taken q (clock w).0 q' w'
  unfolding acquire wait_seconds prune_calls
  acquire-Taken q w =
      let (now, w1) = clock w in
      let live = prune (f.sub now q.window_s) q.calls in
      let (d, w2) = until_first clock live q.window_s w1 in
      elim (Bool-cases (ltb (length live) q.calls_per_window)) [
        | inl room ↦ rw room (take_slot-Taken q now (ok nought) w1)
        | inr full ↦ rw full (take_slot-Taken q now d w2)
      ]

  acquire_slot :
      (q : ToolQuota F) (w : W)
      → IsExact F
      → IsMonotonic clock
      → Sleeps clock sleep
      → IsValid q
      → let (r, q', _) = acquire clock sleep q w in (r ≡ ok tt) × IsValid q'
  unfolding acquire wait_seconds take_slot prune_calls
  acquire_slot q w x m s v =
      let (q', w') = prune_calls clock q w in
      let pruned = prune_calls_bounds q w in
      let v' : IsValid q' = record {
        positive = omega (arith, v.positive, pruned.1);
        bounded = omega (arith, v.bounded, pruned.0, pruned.1);
      } in
      elim (Bool-cases (ltb (length q'.calls) q.calls_per_window)) [
        | inl room ↦ rw room (
            ground (
              arith,
              record_call_room q' (pause sleep nought w'),
              record_call_keeps q' (pause sleep nought w'),
              v'.positive,
            ))
        | inr full ↦ rw full (full_slot q' w' x m s v' (ground arith))
      ]

  -- Without rounding, with a clock that does not go back and a sleep that lasts as long as asked, and
  -- for a quota of at least one call that remembers no more than it allows, `acquire` always gets a
  -- slot. Its call is remembered behind those that are left, only calls that have left the window are
  -- forgotten, and still no more are remembered than the quota allows.
  pub acquire-IsValid :
      (q : ToolQuota F) (w : W)
      → IsExact F
      → IsMonotonic clock
      → Sleeps clock sleep
      → IsValid q
      → let (r, q', w') = acquire clock sleep q w in
        (r ≡ ok tt) × IsValid q' × Taken q (clock w).0 q' w'
  acquire-IsValid q w x m s v =
      let (taken, valid) = acquire_slot q w x m s v in (taken, valid, acquire-Taken q w taken)

module _ {F W : Type 0} ⦃f : Float F⦄ (clock : Clock F W) where
  -- Without rounding, and when no slot is free, `wait_seconds` is exact: a reading of the clock is
  -- at least that much later than the one it was computed from if and only if the oldest call has
  -- left the window by then.
  pub wait_seconds_exact :
      (q : ToolQuota F) (w : W) (t : F) (ts : List F) (later : F)
      → IsExact F
      → (prune_calls clock q w).0.calls ≡ t ∷ ts
      → q.calls_per_window ≤ length (t ∷ ts)
      → let now = (clock (prune_calls clock q w).1).0 in
        (d : F) × ((wait_seconds clock q w).0 ≡ ok d)
        × ((f.add now d ≼ later) ↔ (t ≼ f.sub later q.window_s))
  unfolding wait_seconds until_first
  wait_seconds_exact q w t ts later x e full =
      let now = (clock (prune_calls clock q w).1).0 in
      let leaves = f.add t q.window_s in
      let d = f.sub leaves now in
      let reach = add-sub_le x leaves now in
      (
        d,
        ground arith,
        (
          λ h.
              rw (x.sub-le t later q.window_s)
                (x.ordered.le_trans leaves (f.add now d) later reach.1 h),
          λ h.
              x.ordered.le_trans (f.add now d) leaves later reach.0
                (rw (x.sub-le t later q.window_s) at h),
        ),
      )
