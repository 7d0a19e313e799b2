-- ===== src/Forecast/Steps.antt =====
-- What the simulation of src/agentpause/forecast.py makes of the steps it is asked for.
use agentpause.Prelude.{
  ℕ, zero, suc, ◌+◌, ◌≤◌, ◌<◌, Bool, true, false, Option, none, some, ◌≡◌, ◌⊎◌, inl, inr, refl, sym,
  ap, ◌∙◌, subst, arith, if◌then◌else◌,
}
use agentpause.Prelude.Int.{ℤ}
use agentpause.Number.{Float, ◌≼◌, IsExact, nought}
use agentpause.Number.Order.{le-add}
use agentpause.Risk.{Budget, demand, refill_wait}
use agentpause.Forecast.{
  Walk, Rates, pause_by, stall, turn, walk, start, report, forecast_run, hits_wall, at_wall, charge,
  simulated,
}

module _ {F : Type 0} ⦃f : Float F⦄ where
  -- the charges of `n` steps, added up one by one
  abbrev pub charged : F → ℕ → F
  charged per_step zero = nought
  charged per_step (suc n) = f.add (charged per_step n) per_step

  -- What one turn does to the counts: it stops at the wall or makes a step, with one pause at most.
  record Turned (per_step : F) (w w' : Walk F) : Type 0 where
    stalls_le : w'.waits + w'.suspensions ≤ suc (w.waits + w.suspensions)
    made :
        ((w'.context_wall ≡ true) × (w'.steps_done ≡ w.steps_done) × (w'.total ≡ w.total))
        ⊎ ((w'.context_wall ≡ false)
            × (w'.steps_done ≡ suc w.steps_done)
            × (w'.total ≡ f.add w.total per_step))

  pause_by_frame :
      (b : Budget F) (threshold : F) (pause : Option F) (w : Walk F)
      → let w' = pause_by b threshold pause w in
        (w'.waits + w'.suspensions ≡ suc (w.waits + w.suspensions))
        × (w'.steps_done ≡ w.steps_done)
        × (w'.total ≡ w.total)
        × (w'.context_wall ≡ w.context_wall)
  unfolding pause_by
  pause_by_frame b threshold none w = (omega arith, refl, refl, refl)
  pause_by_frame b threshold (some pause) w = ground arith

  turn-Turned :
      (b : Budget F) (per_step threshold : F) (w : Walk F)
      → w.context_wall ≡ false
      → Turned per_step w (turn b per_step threshold w)
  unfolding turn
  turn-Turned b per_step threshold w h =
      let o = refill_wait (simulated b w.remaining) per_step in
      let frame = pause_by_frame b threshold o w in
      record { stalls_le = ground (arith, frame); made = ground (arith, frame) }

  -- The counts once the loop is over.
  record Walked (per_step : F) (n : ℕ) (w w' : Walk F) : Type 0 where
    stalls_le : w'.waits + w'.suspensions ≤ w.waits + w.suspensions + n
    steps_total :
        (m : ℕ)
        → w.total ≡ charged per_step m
        → w.steps_done ≡ m
        → w'.total ≡ charged per_step w'.steps_done
    made :
        ((w'.context_wall ≡ true) × (w'.steps_done < w.steps_done + n))
        ⊎ ((w'.context_wall ≡ false) × (w'.steps_done ≡ w.steps_done + n))

  walk-suc :
      (b : Budget F) (per_step threshold : F) (n : ℕ) (w : Walk F) (wall : Bool)
      → let w' = turn b per_step threshold w in
        w'.context_wall ≡ wall
        → walk b per_step threshold (suc n) w
          ≡ (if wall then w' else walk b per_step threshold n w')
  unfolding walk
  walk-suc b per_step threshold n w wall h =
      let w' = turn b per_step threshold w in
      ap (λ t. if t then w' else walk b per_step threshold n w') h

  walk-Walked :
      (b : Budget F) (per_step threshold : F) (n : ℕ) (w : Walk F)
      → w.context_wall ≡ false
      → Walked per_step n w (walk b per_step threshold n w)
  unfolding walk
  walk-Walked b per_step threshold zero w h = record {
    stalls_le = omega arith;
    steps_total = λ m p q. p ∙ ap (charged per_step) (sym q);
    made = inr (h, omega arith);
  }
  walk-Walked b per_step threshold (suc n) w h =
      let w' = turn b per_step threshold w in
      let t = turn-Turned b per_step threshold w h in
      elim (t.made) [
        | inl (wall, s, z) ↦
            subst (Walked per_step (suc n) w) (sym (walk-suc b per_step threshold n w true wall))
              (record {
                stalls_le = omega (arith, t.stalls_le);
                steps_total = λ m p q. z ∙ p ∙ ap (charged per_step) (sym (s ∙ q));
                made = inl (wall, omega (arith, s));
              })
        | inr (clear, s, z) ↦
            let rest = walk-Walked b per_step threshold n w' clear in
            subst (Walked per_step (suc n) w) (sym (walk-suc b per_step threshold n w false clear))
              (record {
                stalls_le = omega (arith, t.stalls_le, rest.stalls_le);
                steps_total = λ m p q.
                    rest.steps_total (suc m) (z ∙ ap (λ v. f.add v per_step) p)
                      (omega (arith, s, q));
                made = ground (arith, rest.made, s);
              })
      ]

  -- A forecast makes every step it is asked for, unless it stops at the context wall, and then it
  -- makes fewer. It charges each step that it makes the same, and pauses at most once for each step
  -- that was asked for.
  pub forecast_run_steps :
      (b : Budget F) (estimated : ℤ) (sigma : F) (n : ℕ) (r : Rates F)
      → let out = forecast_run b estimated sigma n r in
        (((out.context_wall ≡ true) × (out.steps < n))
          ⊎ ((out.context_wall ≡ false) × (out.steps ≡ n)))
        × (out.total_tokens ≡ f.round (charged (demand estimated sigma r.k) out.steps))
        × (out.waits + out.suspensions ≤ n)
  unfolding forecast_run report
  forecast_run_steps b estimated sigma n r =
      let per_step = demand estimated sigma r.k in
      let o = walk-Walked b per_step r.wait_threshold_s n (start b) refl in
      (ground (arith, o.made), ap f.round (o.steps_total 0 refl refl), omega (arith, o.stalls_le))

  charged_pos : IsExact F → (p : F) (n : ℕ) → nought ≼ p → nought ≼ charged p n
  charged_pos x p zero h = x.ordered.le_refl nought
  charged_pos x p (suc n) h =
      x.ordered.le_trans _ _ _ (charged_pos x p n h) (le-add x (charged p n) p h)

  -- A window that holds a charge and another one holds the charge, and then the other one.
  charge_fits :
      IsExact F
      → (p r : F) (n : ℕ) → nought ≼ p
      → charged p (suc n) ≼ r
      → (f.lt r p ≡ false) × (charged p n ≼ f.sub r p)
  charge_fits x p r n h e =
      let one_more = le-add x p (charged p n) (charged_pos x p n h) in
      let p_le : p ≼ r = x.ordered.le_trans p _ r one_more (rw (x.add_comm p (charged p n)) e) in
      (ground (arith, x.ordered.lt-eq-not-le r p), rw (x.sub-le (charged p n) r p) e)

  turn_fits :
      (b : Budget F) (p threshold : F) (w : Walk F)
      → f.lt w.remaining p ≡ false
      → turn b p threshold w ≡ charge p w
  unfolding turn
  turn_fits b p threshold w h =
      ap
        (λ t.
          if t
          then if hits_wall b.limit_tokens p
            then at_wall w
            else (let paused = stall b p threshold w in
                if f.lt paused.remaining p then at_wall paused else charge p paused)
          else charge p w)
        h

  abbrev Smooth : Walk F → Walk F → Type 0
  Smooth w w' =
      (w'.waits ≡ w.waits)
      × (w'.suspensions ≡ w.suspensions)
      × (w'.waiting_s ≡ w.waiting_s)
      × (w'.context_wall ≡ false)

  walk-Smooth :
      IsExact F
      → (b : Budget F) (p threshold : F) (n : ℕ) (w : Walk F) → nought ≼ p
      → charged p n ≼ w.remaining
      → w.context_wall ≡ false
      → Smooth w (walk b p threshold n w)
  unfolding walk
  walk-Smooth x b p threshold zero w h e c = (refl, refl, refl, c)
  walk-Smooth x b p threshold (suc n) w h e c =
      let (fits, e') = charge_fits x p w.remaining n h e in
      let step = turn_fits b p threshold w fits in
      let clear = ap (λ v. v.context_wall) step ∙ c in
      let whole = walk-suc b p threshold n w false clear ∙ ap (walk b p threshold n) step in
      subst (Smooth w) (sym whole) (walk-Smooth x b p threshold n (charge p w) h e' c)

  -- Without rounding, a window that holds all the steps needs no pause: the forecast makes every
  -- step, waits for nothing and suspends never.
  pub forecast_run_smooth :
      IsExact F
      → (b : Budget F) (estimated : ℤ) (sigma : F) (n : ℕ) (r : Rates F)
      → nought ≼ demand estimated sigma r.k
      → charged (demand estimated sigma r.k) n ≼ f.of_int b.remaining_tokens
      → let out = forecast_run b estimated sigma n r in
        (out.steps ≡ n)
        × (out.waits ≡ 0)
        × (out.suspensions ≡ 0)
        × (out.waiting_s ≡ nought)
        × (out.context_wall ≡ false)
  unfolding forecast_run report
  forecast_run_smooth x b estimated sigma n r h e =
      let p = demand estimated sigma r.k in
      let (a, s, z, c) = walk-Smooth x b p r.wait_threshold_s n (start b) h e refl in
      let o = walk-Walked b p r.wait_threshold_s n (start b) refl in
      (ground (arith, o.made, c), a, s, z, c)
