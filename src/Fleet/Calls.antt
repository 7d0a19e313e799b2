-- ===== src/Fleet/Calls.antt =====
-- What a call of an agent in src/agentpause/fleet.py does to the shared window.
use agentpause.Prelude.{true, false, Option, none, some, List, ◌≡◌, ap, ◌∙◌, subst, arith}
use agentpause.Prelude.Int.{ℤ, pos, ◌+ℤ◌}
use agentpause.Prelude.Dict.{lookup, insert, erase, lookup-insert, lookup-erase_ne}
use agentpause.Number.{Float}
use agentpause.Errors.{Error, Result, ok, raise}
use agentpause.Text.{Text, text_eq, text_eq_iff, text_instance}
use agentpause.World.{Message, Clock}
use agentpause.Risk.{Decision, continue}
use agentpause.Coordinator as Coordinator
use agentpause.Coordinator.{Coordinator, request, get_or, reserved, margin, is_go, sum_values}
use agentpause.Coordinator.Holds.{
  request-reservations, sum_values-insert, sum_values-erase-insert, complete-reservations,
}
use agentpause.Router.{Router, budget, backend}
use agentpause.Fleet.{
  Learner, Fleet, known, register, estimator_of, after_call, after_request, wish, call, input_of,
}

module _ {F W E : Type 0} ⦃f : Float F⦄ (learner : Learner F E) (count_tokens : Text → ℤ)
    (clock : Clock F W) (id : Text) (messages : List Message) (fl : Fleet F W E) (w : W) where
  -- the fleet once the agent is known, and what the coordinator answers it
  abbrev pub ready : Fleet F W E
  ready = known learner count_tokens clock id fl

  abbrev pub asked : Result F (Decision F) × Coordinator F × W
  asked =
      request (budget clock ready.router) clock (wish learner count_tokens clock id messages ready)
        ready.coordinator w

  -- what the router answers, if it is called
  abbrev pub routed : Result F (Text × ℤ) × Router F W × W
  routed = backend clock messages ready.router asked.2

  -- the hold of the agent before the call, and its cost
  abbrev pub own : ℤ
  own = get_or (pos 0) id ready.coordinator.reservations

  abbrev pub cost : ℤ
  cost =
      margin (budget clock ready.router) clock (wish learner count_tokens clock id messages ready)
        ready.coordinator

  -- `call` for a request that is granted
  granted :
      (d : Decision F)
      → asked.0 ≡ ok d
      → d.action ≡ continue
      → call learner count_tokens clock id messages fl w
        ≡ after_call learner count_tokens clock id
            (input_of count_tokens messages)
            d
            (record ready { coordinator = asked.1 })
            routed
  unfolding call after_request
  granted d h g =
      let input = input_of count_tokens messages in
      let there : Fleet F W E = record ready { coordinator = asked.1 } in
      ap
        (λ answer.
          after_request learner count_tokens clock id input messages ready
            (answer, asked.1, asked.2))
        h
      ∙ ap
          (λ v.
            elim (is_go v) as (λ _. Result F (Decision F × Option (Text × ℤ)) × Fleet F W E × W) [
              | true ↦ after_call learner count_tokens clock id input d there routed
              | false ↦ (ok (d, none), there, asked.2)
            ])
          g

  known-reservations : ready.coordinator.reservations ≡ fl.coordinator.reservations
  unfolding known register Coordinator.register
  known-reservations = ground arith

  -- The agent's estimator is a new one if it had none.
  known-estimator :
      estimator_of learner count_tokens clock id ready ≡ get_or learner.factory id fl.estimators
  unfolding known register
  known-estimator = ground (arith, lookup-insert id id learner.factory fl.estimators)

  known_others :
      (j : Text) → text_eq id j ≡ false → lookup j ready.estimators ≡ lookup j fl.estimators
  unfolding known register
  known_others j h = ground (arith, lookup-insert id j learner.factory fl.estimators)

  -- A call that is granted and answered leaves no hold behind: the agent's hold, any stale one
  -- included, is out of the pool, and every other agent's hold is what it was. The agent's estimator,
  -- a new one if it had none, has learned the step, and the estimators of the others are as they
  -- were. All this compares with the fleet as it was before the call.
  pub call_answered :
      (d : Decision F) (reply : Text) (used : ℤ)
      → asked.0 ≡ ok d
      → d.action ≡ continue
      → routed.0 ≡ ok (reply, used)
      → let (answer, fl', w') = call learner count_tokens clock id messages fl w in
        (answer ≡ ok (d, some (reply, used)))
        × (reserved fl'.coordinator +ℤ get_or (pos 0) id fl.coordinator.reservations
            ≡ reserved fl.coordinator)
        × ((j : Text)
            → text_eq id j ≡ false
            → lookup j fl'.coordinator.reservations ≡ lookup j fl.coordinator.reservations)
        × (lookup id fl'.estimators
            ≡ some (
                learner.learn
                  (get_or learner.factory id fl.estimators)
                  (input_of count_tokens messages)
                  used))
        × ((j : Text) → text_eq id j ≡ false → lookup j fl'.estimators ≡ lookup j fl.estimators)
  unfolding after_call
  call_answered d reply used h g a =
      let input = input_of count_tokens messages in
      let there : Fleet F W E = record ready { coordinator = asked.1 } in
      let learnt = learner.learn (estimator_of learner count_tokens clock id ready) input used in
      let whole =
        granted d h g
        ∙ ap (λ r. after_call learner count_tokens clock id input d there (r, routed.1, routed.2))
            a in
      let before = ready.coordinator.reservations in
      let holds =
        complete-reservations id asked.1
        ∙ ap (erase id) (
            request-reservations (budget clock ready.router) clock
              (wish learner count_tokens clock id messages ready) ready.coordinator w d h
              (ap is_go g)) in
      (
        ap (λ o. o.0) whole,
        subst
            (λ ds.
              reserved (call learner count_tokens clock id messages fl w).1.coordinator
                +ℤ get_or (pos 0) id ds
              ≡ sum_values ds)
            known-reservations
            (ap (λ o. reserved o.1.coordinator +ℤ own) whole
              ∙ ap (λ r. sum_values r +ℤ own) holds
              ∙ sum_values-erase-insert id cost before),
        λ j other.
            ap (λ o. lookup j o.1.coordinator.reservations) whole
            ∙ ap (lookup j) holds
            ∙ lookup-erase_ne id j (insert id cost before) other
            ∙ ground (arith, lookup-insert id j cost before)
            ∙ ap (lookup j) known-reservations,
        ap (λ o. lookup id o.1.estimators) whole
            ∙ ground (arith, lookup-insert id id learnt ready.estimators, text_eq_iff id id)
            ∙ ap (λ e. some (learner.learn e input used)) known-estimator,
        λ j other.
            ap (λ o. lookup j o.1.estimators) whole
            ∙ ground (arith, lookup-insert id j learnt ready.estimators)
            ∙ known_others j other,
      )

  -- A call that is granted and then fails keeps its hold: the error is raised, no estimator has
  -- learned anything, and the cost of the call stays reserved in place of the agent's earlier hold.
  pub call_failed_holds :
      (d : Decision F) (e : Error F)
      → asked.0 ≡ ok d
      → d.action ≡ continue
      → routed.0 ≡ raise e
      → let (answer, fl', w') = call learner count_tokens clock id messages fl w in
        (answer ≡ raise e)
        × (fl'.estimators ≡ ready.estimators)
        × (reserved fl'.coordinator +ℤ own ≡ reserved ready.coordinator +ℤ cost)
  unfolding after_call
  call_failed_holds d e h g a =
      let input = input_of count_tokens messages in
      let there : Fleet F W E = record ready { coordinator = asked.1 } in
      let whole =
        granted d h g
        ∙ ap (λ r. after_call learner count_tokens clock id input d there (r, routed.1, routed.2))
            a in
      let holds =
        request-reservations (budget clock ready.router) clock
          (wish learner count_tokens clock id messages ready) ready.coordinator w d h
          (ap is_go g) in
      (
        ap (λ o. o.0) whole,
        ap (λ o. o.1.estimators) whole,
        ap (λ o. reserved o.1.coordinator +ℤ own) whole
            ∙ ap (λ r. sum_values r +ℤ own) holds
            ∙ sum_values-insert id cost ready.coordinator.reservations,
      )
