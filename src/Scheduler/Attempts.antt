-- ===== src/Scheduler/Attempts.antt =====
-- The retry loop of a call in src/agentpause/scheduler.py.
use agentpause.Prelude.{
  inl, inr, ℕ, zero, suc, ◌+◌, ◌≤◌, Bool, List, ◌≡◌, refl, sym, ap, ◌∙◌, subst, arith,
  if◌then◌else◌,
}
use agentpause.Prelude.Int.{ℤ}
use agentpause.Number.{Float}
use agentpause.Errors.{Result-cases, is_limit, Error, Result, ok, raise, transient, fatal, verdict}
use agentpause.Text.{Text}
use agentpause.World.{Message, Backend}
use agentpause.Scheduler.{
  Config, Scheduler, noted, announce, pause_for, attempts, register_rate_limit_hit,
}
use agentpause.Scheduler.Retries.{
  Kept, noted-Kept, retried-Kept, noted_hits, verdict-cases, Kept-refl, Kept-trans, rested, after,
  Fails, limits, after_failure,
}

module _ {F W E : Type 0} ⦃f : Float F⦄ (c : Config F W) (backend : Backend F W) (sync : Bool)
    (messages : List Message) where
  -- the state with which the next attempt begins
  abbrev next : Error F → ℕ → Scheduler F E → W → Scheduler F E
  next e attempt s w = announce c sync attempt (pause_for c e attempt w).0 (noted c e s)

  -- The four ways of an attempt.
  pub attempts_answered :
      (left attempt : ℕ) (s : Scheduler F E) (w : W) (x : Text × ℤ)
      → (backend messages w).0 ≡ ok x
      → attempts c backend sync messages left attempt s w ≡ (ok x, s, (backend messages w).1)
  unfolding attempts
  attempts_answered zero attempt s w x h = ground arith
  attempts_answered (suc left) attempt s w x h = ground arith

  pub attempts_fatal :
      (left attempt : ℕ) (s : Scheduler F E) (w : W) (e : Error F)
      → (backend messages w).0 ≡ raise e
      → verdict e ≡ fatal
      → attempts c backend sync messages left attempt s w ≡ (raise e, s, (backend messages w).1)
  unfolding attempts
  attempts_fatal zero attempt s w e h v = ground arith
  attempts_fatal (suc left) attempt s w e h v = ground arith

  pub attempts_over :
      (attempt : ℕ) (s : Scheduler F E) (w : W) (e : Error F)
      → (backend messages w).0 ≡ raise e
      → attempts c backend sync messages 0 attempt s w
        ≡ (raise e, noted c e s, (backend messages w).1)
  unfolding attempts
  attempts_over attempt s w e h = ground arith

  pub attempts_again :
      (left attempt : ℕ) (s : Scheduler F E) (w : W) (e : Error F)
      → (backend messages w).0 ≡ raise e
      → verdict e ≡ transient
      → let w' = (backend messages w).1 in
        attempts c backend sync messages (suc left) attempt s w
        ≡ attempts c backend sync messages left
            (suc attempt)
            (next e attempt s w')
            (rested c backend sync e attempt w')
  unfolding attempts
  attempts_again left attempt s w e h v = ground arith

  next_hits :
      (e : Error F) (attempt : ℕ) (s : Scheduler F E) (w : W)
      → (next e attempt s w).rate_limit_hits ≡ s.rate_limit_hits + (if is_limit e then 1 else 0)
  unfolding register_rate_limit_hit
  next_hits e attempt s w = ground arith

  -- What the attempts come to, if after `n` failures one of them is decisive.
  abbrev pub Ends :
      ℕ
      → ℕ
      → Result F (Text × ℤ)
      → Scheduler F E
      → W
      → Result F (Text × ℤ) × Scheduler F E × W
      → Type 0
  Ends n attempt r s w (r', s', w') =
      (r' ≡ r)
      × (w' ≡ (backend messages (after c backend sync messages n attempt w)).1)
      × (s'.rate_limit_hits ≡ s.rate_limit_hits + limits c backend sync messages n attempt w)
      × Kept s s'

  Ends-step :
      (n attempt : ℕ) (r : Result F (Text × ℤ)) (s : Scheduler F E) (w : W) (e : Error F)
      (out : Result F (Text × ℤ) × Scheduler F E × W)
      → (backend messages w).0 ≡ raise e
      → let w' = (backend messages w).1 in
        Ends n (suc attempt) r (next e attempt s w') (rested c backend sync e attempt w') out
        → Ends (suc n) attempt r s w out
  Ends-step n attempt r s w e out h (p, q, l, k) =
      let (a, b) = after_failure c backend sync messages n attempt w e h in
      (
        p,
        q ∙ ap (λ v. (backend messages v).1) (sym a),
        omega (arith, l, b, next_hits e attempt s (backend messages w).1),
        Kept-trans _ _ _ (retried-Kept c e sync attempt _ s) k,
      )

  pub attempts-Ends :
      (n left attempt : ℕ) (r : Result F (Text × ℤ)) (s : Scheduler F E) (w : W)
      → n ≤ left
      → Fails c backend sync messages n attempt w
      → (backend messages (after c backend sync messages n attempt w)).0 ≡ r
      → ((e : Error F) → r ≡ raise e → verdict e ≡ fatal)
      → Ends n attempt r s w (attempts c backend sync messages left attempt s w)
  attempts-Ends zero left attempt (ok x) s w m h e d =
      subst (Ends 0 attempt (ok x) s w) (sym (attempts_answered left attempt s w x e))
        (refl, refl, omega arith, record { estimator = refl; money = refl; hits = omega arith })
  attempts-Ends zero left attempt (raise x) s w m h e d =
      subst (Ends 0 attempt (raise x) s w) (sym (attempts_fatal left attempt s w x e (d x refl)))
        (refl, refl, omega arith, record { estimator = refl; money = refl; hits = omega arith })
  attempts-Ends (suc n) zero attempt r s w m h e d = absurd (omega arith)
  attempts-Ends (suc n) (suc left) attempt r s w m (x, t, v, h) e d =
      subst (Ends (suc n) attempt r s w) (sym (attempts_again left attempt s w x t v)) (
        Ends-step n attempt r s w x _ t (
          attempts-Ends n left (suc attempt) r _ _ (omega arith) h
            (ap (λ v. (backend messages v).0)
                (sym (after_failure c backend sync messages n attempt w x t).0)
              ∙ e)
            d))

  -- What the attempts come to, if each of them fails.
  pub attempts_exhausted :
      (left attempt : ℕ) (s : Scheduler F E) (w : W)
      → Fails c backend sync messages (suc left) attempt w
      → let (r', s', w') = attempts c backend sync messages left attempt s w in
        let last = backend messages (after c backend sync messages left attempt w) in
        (r' ≡ last.0)
        × (w' ≡ last.1)
        × (s'.rate_limit_hits
            ≡ s.rate_limit_hits + limits c backend sync messages (suc left) attempt w)
        × Kept s s'
  attempts_exhausted zero attempt s w (e, t, v, h) =
      let whole = attempts_over attempt s w e t in
      let (a, b) = after_failure c backend sync messages 0 attempt w e t in
      (
        ap (λ o. o.0) whole ∙ sym t,
        ap (λ o. o.2) whole,
        ap (λ o. o.1.rate_limit_hits) whole ∙ omega (arith, b, noted_hits c e s),
        subst (Kept s) (sym (ap (λ o. o.1) whole)) (noted-Kept c e s),
      )
  attempts_exhausted (suc left) attempt s w (e, t, v, h) =
      let w1 = (backend messages w).1 in
      let whole = attempts_again left attempt s w e t v in
      let (a, b) = after_failure c backend sync messages left attempt w e t in
      let (a', b') = after_failure c backend sync messages (suc left) attempt w e t in
      let (p, q, l, k) =
        attempts_exhausted left (suc attempt) (next e attempt s w1)
          (rested c backend sync e attempt w1) h in
      (
        ap (λ o. o.0) whole ∙ p ∙ ap (λ v. (backend messages v).0) (sym a),
        ap (λ o. o.2) whole ∙ q ∙ ap (λ v. (backend messages v).1) (sym a),
        ap (λ o. o.1.rate_limit_hits) whole ∙ omega (arith, l, b', next_hits e attempt s w1),
        subst (Kept s) (sym (ap (λ o. o.1) whole))
            (Kept-trans _ _ _ (retried-Kept c e sync attempt _ s) k),
      )

  -- Whatever the answers are, the scheduler keeps what a call may not change.
  pub attempts-Kept :
      (left attempt : ℕ) (s : Scheduler F E) (w : W)
      → Kept s (attempts c backend sync messages left attempt s w).1
  attempts-Kept zero attempt s w = elim (Result-cases (backend messages w).0) [
    | inl (x, h) ↦ subst (λ o. Kept s o.1) (sym (attempts_answered 0 attempt s w x h)) (Kept-refl s)
    | inr (e, h) ↦ subst (λ o. Kept s o.1) (sym (attempts_over attempt s w e h)) (noted-Kept c e s)
  ]
  attempts-Kept (suc left) attempt s w = elim (Result-cases (backend messages w).0) [
    | inl (x, h) ↦
        subst (λ o. Kept s o.1) (sym (attempts_answered (suc left) attempt s w x h)) (Kept-refl s)
    | inr (e, h) ↦ elim (verdict-cases e) [
      | inl v ↦
          subst (λ o. Kept s o.1) (sym (attempts_fatal (suc left) attempt s w e h v)) (Kept-refl s)
      | inr v ↦
          subst (λ o. Kept s o.1) (sym (attempts_again left attempt s w e h v))
            (Kept-trans _ _ _ (retried-Kept c e sync attempt _ s)
              (attempts-Kept left (suc attempt) _ _))
    ]
  ]
