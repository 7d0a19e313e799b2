-- ===== src/Scheduler/Planning/Decisions.antt =====
-- What the decision before a call in src/agentpause/scheduler.py guarantees.
use agentpause.Prelude.{
  Bool, true, false, not, none, ◌≡◌, ◌↔◌, refl, sym, ap, ◌∙◌, subst, arith, Option, some,
}
use agentpause.Prelude.Int.{ℤ, pos}
use agentpause.Number.{Float, nought}
use agentpause.Errors.{Error, Result, ok, raise}
use agentpause.Risk.{Budget, Decision, Ask, continue, checkpoint}
use agentpause.Risk.Decide.{Fits, decide-continue_iff}
use agentpause.State.{compact}
use agentpause.Scheduler.{Config, Estimating, Scheduler, Session, input_tokens}
use agentpause.Scheduler.Planning.{
  read_budget, money_remaining, overruns, within_money, slim, time_left, ask_for, beliefs, next_for,
  next_action, should_suspend, acted, suspends, is_continue,
}

module _ {F : Type 0} ⦃f : Float F⦄ where
  within_money_iff :
      (over : Bool) (b : Budget F) (a : Ask F)
      → let d = within_money over b a in
        ((d.action ≡ continue) ↔ (Fits b a × (over ≡ false)))
        × (over ≡ true → (d.action ≡ checkpoint) × (d.wait_seconds ≡ none))
  unfolding within_money
  within_money_iff false b a = (
    (λ h. ((decide-continue_iff b a).0 h, refl), λ (h, _). (decide-continue_iff b a).1 h),
    λ h. cc,
  )
  within_money_iff true b a = ((λ h. cc, λ h. cc), λ h. (refl, refl))

continue_of : {F : Type 0} (d : Decision F) → suspends (ok d) ≡ ok false → d.action ≡ continue
continue_of d h = ground arith

module _ {F : Type 0} ⦃f : Float F⦄ where
  overruns_iff :
      (price limit : Option F) (spent : F) (n : ℤ)
      → let cost = λ (p : F). f.mul (f.div (f.of_int n) (f.of_int (pos 1000))) p in
        let over = overruns price (money_remaining limit spent) n in
        ((over ≡ false)
          ↔ ((p m : F) → price ≡ some p → limit ≡ some m → f.lt (f.sub m spent) (cost p) ≡ false))
        × ((p m : F)
            → price ≡ some p
            → limit ≡ some m
            → f.lt (f.sub m spent) (cost p) ≡ true
            → over ≡ true)
  overruns_iff none limit spent n = ((λ h p m a b. cc, λ h. refl), λ p m a b h. cc)
  overruns_iff (some price) none spent n = ((λ h p m a b. cc, λ h. refl), λ p m a b h. cc)
  overruns_iff (some price) (some limit) spent n =
      ((λ h p m a b. ground arith, λ h. h price limit refl refl), λ p m a b h. ground arith)

module _ {F W E : Type 0} ⦃f : Float F⦄ (c : Config F W) where
  -- the cost of the step is compared with what is left of the money
  abbrev pub Costs : Bool → Ask F → Scheduler F E → F → F → Type 0
  Costs over a s price limit =
      let cost = f.mul (f.div (f.of_int a.estimated) (f.of_int (pos 1000))) price in
      f.lt (f.sub limit s.money_spent) cost ≡ over

  -- If a price and a money budget are set, the step costs no more than is left.
  abbrev pub Affordable : Ask F → Scheduler F E → Type 0
  Affordable a s =
      (price limit : F)
      → c.price_per_1k_tokens ≡ some price
      → c.money_budget ≡ some limit
      → Costs false a s price limit

module _ {F W E X : Type 0} ⦃f : Float F⦄ (est : Estimating F E) (c : Config F W) where
  -- Only the hook is called.
  slim_frame :
      (se : Session F X) (s : Scheduler F E)
      → let (se', s') = slim est c se s in
        (s'.estimator ≡ s.estimator)
        × (s'.safety_k ≡ s.safety_k)
        × (s'.money_spent ≡ s.money_spent)
        × (se'.cp.step ≡ se.cp.step)
        × (se'.session_id ≡ se.session_id)
  unfolding slim compact
  slim_frame se s = ground arith

  -- The deadline that the decision meets: telemetry's own, or else the time budget less the time since
  -- the session started, at a reading of the clock.
  pub record Dated (b : Budget F) (se : Session F X) (w : W) (left : Option F) : Type 0 where
    pub reported : (t : F) → b.remaining_seconds ≡ some t → left ≡ some t
    pub budgeted :
        (limit : F)
        → b.remaining_seconds ≡ none
        → c.time_budget_s ≡ some limit
        → left ≡ some (f.sub limit (f.sub (c.clock w).0 se.started_at))
    pub unknown : b.remaining_seconds ≡ none → c.time_budget_s ≡ none → left ≡ none

  -- What is asked for: the estimate and its spread, or the quantile bound without a spread where there
  -- is one, and the input, output, latency and margins of the step.
  pub record Asked (se : Session F X) (s : Scheduler F E) (a : Ask F) : Type 0 where
    pub plain :
        let input = input_tokens c.count_tokens se.cp.messages in
        let n = est.estimate s.estimator input in
        (c.quantile ≡ none → (a.estimated ≡ n) × (a.sigma ≡ est.sigma s.estimator n))
        × ((q : F)
            → c.quantile ≡ some q
            → est.upper_estimate s.estimator input q ≡ none
            → (a.estimated ≡ n) × (a.sigma ≡ est.sigma s.estimator n))
    pub upper :
        (q : F) (n : ℤ)
        → c.quantile ≡ some q
        → est.upper_estimate s.estimator (input_tokens c.count_tokens se.cp.messages) q ≡ some n
        → (a.estimated ≡ n) × (a.sigma ≡ nought)
    pub input : a.estimated_input ≡ some (input_tokens c.count_tokens se.cp.messages)
    pub output : a.estimated_output ≡ some (est.max_tokens s.estimator)
    pub latency :
        a.estimated_latency
        ≡ est.estimate_latency s.estimator (input_tokens c.count_tokens se.cp.messages)
    pub margins :
        (a.k ≡ s.safety_k)
        × (a.rpm_margin ≡ c.rpm_margin)
        × (a.wait_threshold_s ≡ c.wait_threshold_s)

  time_left-Dated :
      (b : Budget F) (se : Session F X) (w : W) → Dated b se w (time_left est c b se w).0
  unfolding time_left
  time_left-Dated b se w = record {
    reported = λ t h. rw h refl;
    budgeted = λ limit h t. rw (h, t) refl;
    unknown = λ h t. rw (h, t) refl;
  }

  ask_for-Asked : (se : Session F X) (s : Scheduler F E) → Asked se s (ask_for est c se s)
  unfolding ask_for beliefs
  ask_for-Asked se s = record {
    plain = (λ h. rw h (refl, refl), λ q h u. rw (h, beliefs, u) (refl, refl));
    upper = λ q n h u. rw (h, beliefs, u) (refl, refl);
    input = refl;
    output = refl;
    latency = refl;
    margins = (refl, refl, refl);
  }

  -- the reading with the deadline of the run in it
  abbrev pub dated : Budget F → Session F X → W → Budget F
  dated b se w = record b { remaining_seconds = (time_left est c b se w).0 }

  -- whether the next step costs more than the money that is left
  abbrev too_dear : Session F X → Scheduler F E → Bool
  too_dear se s =
      overruns c.price_per_1k_tokens (money_remaining c.money_budget s.money_spent)
        (ask_for est c se s).estimated

  -- The decision, for the session that preventive compaction leaves.
  abbrev pub Judged : Budget F → Session F X → Scheduler F E → Decision F → Type 0
  Judged b se s d =
      ((d.action ≡ continue) ↔ (Fits b (ask_for est c se s) × Affordable c (ask_for est c se s) s))
      × ((price limit : F)
          → c.price_per_1k_tokens ≡ some price
          → c.money_budget ≡ some limit
          → Costs c true (ask_for est c se s) s price limit
          → (d.action ≡ checkpoint) × (d.wait_seconds ≡ none))

  too_dear-Affordable :
      (se : Session F X) (s : Scheduler F E)
      → ((too_dear se s ≡ false) ↔ Affordable c (ask_for est c se s) s)
        × ((price limit : F)
            → c.price_per_1k_tokens ≡ some price
            → c.money_budget ≡ some limit
            → Costs c true (ask_for est c se s) s price limit
            → too_dear se s ≡ true)
  too_dear-Affordable se s =
      let n = (ask_for est c se s).estimated in
      let (iff, over) = overruns_iff c.price_per_1k_tokens c.money_budget s.money_spent n in
      (iff, λ price limit p m h. over price limit p m h)

  -- Only the estimator, the margin and the money spent matter.
  same_ask :
      (se : Session F X) (s s' : Scheduler F E)
      → s'.estimator ≡ s.estimator
      → s'.safety_k ≡ s.safety_k
      → s'.money_spent ≡ s.money_spent
      → (ask_for est c se s' ≡ ask_for est c se s) × (too_dear se s' ≡ too_dear se s)
  unfolding ask_for
  same_ask se s s' p q m = (
    λ i. ask_for est c se (record s { estimator = p i; safety_k = q i }),
    λ i. too_dear se (record s { estimator = p i; safety_k = q i; money_spent = m i }),
  )

  next_for-Judged :
      (b : Budget F) (se : Session F X) (s : Scheduler F E) (w : W)
      → let (d, se', s', w') = next_for est c b se s w in Judged (dated b se' w) se' s d
  unfolding next_for
  next_for-Judged b se s w =
      let (se', s') = slim est c se s in
      let (p, q, m, _, _) = slim_frame se s in
      let (ask, dear) = same_ask se' s s' p q m in
      let b' = dated b se' w in
      let d = within_money (too_dear se' s') b' (ask_for est c se' s') in
      let (fits, over) = within_money_iff (too_dear se' s') b' (ask_for est c se' s') in
      let (affordable, costly) = too_dear-Affordable se' s in
      let go : (d.action ≡ continue) ↔ (Fits b' (ask_for est c se' s) × (too_dear se' s ≡ false)) =
        subst (λ v. (d.action ≡ continue) ↔ (Fits b' v × (too_dear se' s ≡ false))) ask
          (subst (λ t. (d.action ≡ continue) ↔ (Fits b' (ask_for est c se' s') × (t ≡ false))) dear
            fits) in
      (
        (
          λ h. let (fit, cheap) = go.0 h in (fit, affordable.0 cheap),
          λ (fit, cheap). go.1 (fit, affordable.1 cheap),
        ),
        λ price limit p m h. over (dear ∙ costly price limit p m h),
      )

  acted_frame :
      (reading : Result F (Budget F)) (se : Session F X) (s : Scheduler F E) (w : W)
      → let (r, se', s', w') = acted est c reading se s w in
        (s'.estimator ≡ s.estimator)
        × (s'.safety_k ≡ s.safety_k)
        × (s'.money_spent ≡ s.money_spent)
        × (se'.cp.step ≡ se.cp.step)
        × (se'.session_id ≡ se.session_id)
        × ((e : Error F) → reading ≡ raise e → (r ≡ raise e) × (se' ≡ se) × (s' ≡ s))
  unfolding acted next_for
  acted_frame (raise x) se s w = (refl, refl, refl, refl, refl, λ e h. (ground arith, refl, refl))
  acted_frame (ok b) se s w =
      let (p, q, m, t, n) = slim_frame se s in
      (ground (arith, p), ground (arith, q), ground (arith, m), t, n, λ e h. absurd (ground arith))

  next_action-Judged :
      (se : Session F X) (s : Scheduler F E) (w : W) (b : Budget F)
      → (read_budget c w).0 ≡ ok b
      → let (r, se', s', w') = next_action est c se s w in
        (d : Decision F) × (r ≡ ok d) × Judged (dated b se' (c.telemetry w).1) se' s d
  unfolding next_action acted
  next_action-Judged se s w b h =
      let w' = (c.telemetry w).1 in
      subst
        (λ reading.
          let (r, se', s', w'') = acted est c reading se s w' in
          (d : Decision F) × (r ≡ ok d) × Judged (dated b se' w') se' s d)
        (sym h) (_, refl, next_for-Judged b se s w')

  -- If telemetry answers, so does `next_action`. It judges the history that preventive compaction
  -- leaves by what is asked for and by the deadline, telemetry's own or that of the run: it decides
  -- `continue` exactly when the step fits every dimension that is known, the deadline included, and
  -- does not cost more than the money that is left; a step that does is suspended, never waited for.
  pub next_action_judges :
      (se : Session F X) (s : Scheduler F E) (w : W) (b : Budget F)
      → (read_budget c w).0 ≡ ok b
      → let (r, se', s', w') = next_action est c se s w in
        (d : Decision F) × (a : Ask F) × (left : Option F) × (r ≡ ok d)
        × Asked se' s a
        × Dated b se' (c.telemetry w).1 left
        × ((d.action ≡ continue)
            ↔ (Fits (record b { remaining_seconds = left }) a × Affordable c a s))
        × ((price limit : F)
            → c.price_per_1k_tokens ≡ some price
            → c.money_budget ≡ some limit
            → Costs c true a s price limit
            → (d.action ≡ checkpoint) × (d.wait_seconds ≡ none))
  next_action_judges se s w b h =
      let (d, e, judged) = next_action-Judged se s w b h in
      let se' = (next_action est c se s w).1 in
      let w' = (c.telemetry w).1 in
      (
        d,
        ask_for est c se' s,
        (time_left est c b se' w').0,
        e,
        ask_for-Asked se' s,
        time_left-Dated b se' w',
        judged.0,
        judged.1,
      )

  -- If telemetry answers, `should_suspend` says no exactly when the next step fits every dimension
  -- that is known and costs no more than the money that is left.
  pub should_suspend_iff :
      (se : Session F X) (s : Scheduler F E) (w : W) (b : Budget F)
      → (read_budget c w).0 ≡ ok b
      → let (r, se', s', w') = should_suspend est c se s w in
        (r ≡ ok false) ↔ (
          Fits (dated b se' (c.telemetry w).1) (ask_for est c se' s)
          × Affordable c (ask_for est c se' s) s)
  unfolding should_suspend
  should_suspend_iff se s w b h =
      let (d, e, (fits, _)) = next_action-Judged se s w b h in
      let r = (next_action est c se s w).0 in
      (
        λ p. fits.0 (continue_of d (sym (ap suspends e) ∙ p)),
        λ p. ap suspends e ∙ ap (λ v. ok (not (is_continue v))) (fits.1 p),
      )

  -- Deciding is no step: the estimator, the margin, the money spent, the step and the id of the
  -- session are as they were, and if telemetry raises, so does `next_action` and all is as it was.
  pub next_action_frame :
      (se : Session F X) (s : Scheduler F E) (w : W)
      → let (r, se', s', w') = next_action est c se s w in
        (s'.estimator ≡ s.estimator)
        × (s'.safety_k ≡ s.safety_k)
        × (s'.money_spent ≡ s.money_spent)
        × (se'.cp.step ≡ se.cp.step)
        × (se'.session_id ≡ se.session_id)
        × ((e : Error F) → (read_budget c w).0 ≡ raise e → (r ≡ raise e) × (se' ≡ se) × (s' ≡ s))
  unfolding next_action
  next_action_frame se s w = acted_frame (read_budget c w).0 se s (c.telemetry w).1
