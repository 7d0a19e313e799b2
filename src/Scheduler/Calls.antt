-- ===== src/Scheduler/Calls.antt =====
-- What a call of src/agentpause/scheduler.py leaves behind.
use agentpause.Prelude.{ℕ, suc, ◌+◌, ◌≤◌, Bool, [], ◌∷◌, ◌++◌, ◌≡◌, refl, ap, ◌∙◌, subst, arith}
use agentpause.Prelude.Int.{ℤ, ◌+ℤ◌}
use agentpause.Number.{Float}
use agentpause.Errors.{Error, Result, ok, raise}
use agentpause.Text.{Text, codes}
use agentpause.World.{Backend}
use agentpause.Scheduler.{
  Config, Estimating, Scheduler, Session, attempts, call_with, finish, record_success, add_message,
  input_tokens, emit, Event, spend,
}
use agentpause.Scheduler.Retries.{Fails, after, limits, Fails-last}
use agentpause.Scheduler.Attempts.{attempts-Ends, attempts_exhausted}

emit_frame :
    {F W E : Type 0} ⦃f : Float F⦄ (c : Config F W) (e : Event F) (s : Scheduler F E)
    → let s' = emit c e s in
      (s'.rate_limit_hits ≡ s.rate_limit_hits)
      × (s'.safety_k ≡ s.safety_k)
      × (s'.money_spent ≡ s.money_spent)
      × (s'.estimator ≡ s.estimator)
emit_frame c e s = ground arith

-- the world in which the first attempt of a call is made
abbrev pub begun : {F W : Type 0} → Config F W → W → W
begun c w = (c.clock w).1

module _ {F W E X : Type 0} ⦃f : Float F⦄ (est : Estimating F E) (c : Config F W)
    (backend : Backend F W) (sync : Bool) where
  -- One more step in a session: the tokens are counted, the reply closes the history, and nothing
  -- else has changed.
  pub record Advanced (se : Session F X) (reply : Text) (used : ℤ) (se' : Session F X)
      : Type 0 where
    pub step : se'.cp.step ≡ suc se.cp.step
    pub tokens : se'.cp.total_tokens_used ≡ se.cp.total_tokens_used +ℤ used
    pub history :
        se'.cp.messages
        ≡ se.cp.messages ++ (record { role = codes "assistant"; content = reply } ∷ [])
    pub keys : se'.cp.idempotency_keys ≡ se.cp.idempotency_keys
    pub extra : se'.cp.extra ≡ se.cp.extra
    pub session_id : (se'.session_id ≡ se.session_id) × (se'.cp.session_id ≡ se.cp.session_id)

  -- What a call comes to, from what its attempts came to.
  abbrev Settled :
      Session F X
      → Result F (Text × ℤ)
      → Scheduler F E
      → Result F Text × Session F X × Scheduler F E × W
      → Type 0
  Settled se (ok (reply, used)) s (r, se', s', w) =
      (r ≡ ok reply)
      × Advanced se reply used se'
      × (s'.rate_limit_hits ≡ s.rate_limit_hits)
      × (s'.safety_k ≡ s.safety_k)
      × (s'.money_spent ≡ spend c.price_per_1k_tokens used s.money_spent)
      × ((latency : F) × (s'.estimator
            ≡ est.learn s.estimator (input_tokens c.count_tokens se.cp.messages) used latency))
  Settled se (raise e) s (r, se', s', w) = (r ≡ raise e) × (se' ≡ se) × (s' ≡ s)

  finish-Settled :
      (started : F) (se : Session F X) (r : Result F (Text × ℤ)) (s : Scheduler F E) (w : W)
      → Settled se r s (finish est c started se (r, s, w))
  unfolding finish record_success add_message
  finish-Settled started se (raise e) s w = (refl, refl, refl)
  finish-Settled started se (ok (reply, used)) s w =
      let (now, w') = c.clock w in
      let input = input_tokens c.count_tokens se.cp.messages in
      let frame = emit_frame c _ _ in
      (
        refl,
        record {
          step = omega arith;
          tokens = refl;
          history = refl;
          keys = refl;
          extra = refl;
          session_id = (refl, refl);
        },
        frame.0,
        frame.1,
        frame.2,
        (f.sub now started, frame.3),
      )

  -- A call recovers: if `n` attempts in a row fail transiently, with `n` at most `max_retries`,
  -- and the one after them is answered, then the call returns that reply and the session has made
  -- one step more. The tokens, the money and the estimator are charged once, and each rate limit
  -- among the `n` failures has been counted.
  pub call_with_recovers :
      (se : Session F X) (s : Scheduler F E) (w : W) (n : ℕ) (reply : Text) (used : ℤ)
      → n ≤ c.retry.max_retries
      → Fails c backend sync se.cp.messages n 0 (begun c w)
      → (backend se.cp.messages (after c backend sync se.cp.messages n 0 (begun c w))).0
        ≡ ok (reply, used)
      → let (r, se', s', w') = call_with est c backend sync se s w in
        (r ≡ ok reply)
        × Advanced se reply used se'
        × (s'.rate_limit_hits
            ≡ s.rate_limit_hits + limits c backend sync se.cp.messages n 0 (begun c w))
        × (s'.money_spent ≡ spend c.price_per_1k_tokens used s.money_spent)
        × ((latency : F) × (s'.estimator
              ≡ est.learn s.estimator (input_tokens c.count_tokens se.cp.messages) used latency))
  unfolding call_with
  call_with_recovers se s w n reply used m h e =
      let ms = se.cp.messages in
      let started = (c.clock w).0 in
      let out = attempts c backend sync ms (c.retry.max_retries) 0 s (begun c w) in
      let (p, q, l, k) =
        attempts-Ends c backend sync ms n _ 0 (ok (reply, used)) s (begun c w) m h e (λ x y. cc) in
      let settled : Settled se (ok (reply, used)) out.1 (finish est c started se out) =
        subst (λ r. Settled se r out.1 (finish est c started se out)) p
          (finish-Settled started se out.0 out.1 out.2) in
      let (r, a, hits, margin, money, (latency, learnt)) = settled in
      (
        r,
        a,
        hits ∙ l,
        money ∙ ap (spend c.price_per_1k_tokens used) k.money,
        (latency, learnt ∙ ap (λ x. est.learn x _ used latency) k.estimator),
      )

  -- A call gives up: if the first attempt and all `max_retries` others fail transiently, the last
  -- error is raised. The session, the money and the estimator are as they were, and each rate limit
  -- has been counted.
  pub call_with_gives_up :
      (se : Session F X) (s : Scheduler F E) (w : W)
      → Fails c backend sync se.cp.messages (suc c.retry.max_retries) 0 (begun c w)
      → let (r, se', s', w') = call_with est c backend sync se s w in
        let last = after c backend sync se.cp.messages c.retry.max_retries 0 (begun c w) in
        ((e : Error F) × (r ≡ raise e) × ((backend se.cp.messages last).0 ≡ raise e))
        × (se' ≡ se)
        × (s'.money_spent ≡ s.money_spent)
        × (s'.estimator ≡ s.estimator)
        × (s'.rate_limit_hits
            ≡ s.rate_limit_hits
              + limits c backend sync se.cp.messages (suc c.retry.max_retries) 0 (begun c w))
  unfolding call_with
  call_with_gives_up se s w h =
      let ms = se.cp.messages in
      let started = (c.clock w).0 in
      let out = attempts c backend sync ms (c.retry.max_retries) 0 s (begun c w) in
      let (p, q, l, k) = attempts_exhausted c backend sync ms _ 0 s (begun c w) h in
      let (e, last) = Fails-last c backend sync ms _ 0 (begun c w) h in
      let (r, u, v) : Settled se (raise e) out.1 (finish est c started se out) =
        subst (λ r. Settled se r out.1 (finish est c started se out)) (p ∙ last)
          (finish-Settled started se out.0 out.1 out.2) in
      (
        (e, r, last),
        u,
        ap (λ x. x.money_spent) v ∙ k.money,
        ap (λ x. x.estimator) v ∙ k.estimator,
        ap (λ x. x.rate_limit_hits) v ∙ l,
      )
