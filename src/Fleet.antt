-- ===== src/Fleet.antt =====
-- src/agentpause/fleet.py: many agents on many providers, by way of the coordinator and the router.
pub mod Calls
mod Tests
use agentpause.Prelude.{ℕ, Bool, true, false, Option, none, some, List, [], ◌∷◌, if◌then◌else◌}
use agentpause.Prelude.Int.{ℤ, pos}
use agentpause.Prelude.Dict.{Dict, insert}
use agentpause.Number.{Float}
use agentpause.Errors.{Error, Result, ok, raise}
use agentpause.Text.{Text, text_instance}
use agentpause.World.{Message, Clock}
use agentpause.Risk.{Decision}
use agentpause.Coordinator
use agentpause.Coordinator.{
  Coordinator, Request, request, complete, contains, set_default, get_or, is_go,
}
use agentpause.Router.{Router, budget, backend}
use agentpause.Scheduler.{input_tokens}

-- `sum(self.count_tokens(m["content"]) for m in messages)`
abbrev pub input_of : (Text → ℤ) → List Message → ℤ
input_of count_tokens messages = input_tokens count_tokens messages

-- what the fleet calls of an estimator, and `estimator_factory`
pub record Learner (F E : Type 0) : Type 0 where
  pub estimate : E → ℤ → ℤ
  pub sigma : E → ℤ → F
  pub learn : E → ℤ → ℤ → E
  pub factory : E

pub record Fleet (F W E : Type 0) : Type 0 where
  pub router : Router F W
  pub coordinator : Coordinator F
  pub estimators : Dict Text E

module _ {F W E : Type 0} ⦃f : Float F⦄ (learner : Learner F E) (count_tokens : Text → ℤ)
    (clock : Clock F W) where
  pub register : Text → ℤ → Fleet F W E → Fleet F W E
  register id priority fl = record fl {
    coordinator = Coordinator.register id priority fl.coordinator;
    estimators = set_default id learner.factory fl.estimators;
  }

  -- `estimator_for`: what it does to the fleet, and what it returns then
  pub known : Text → Fleet F W E → Fleet F W E
  known id fl = if contains id fl.estimators then fl else register id (pos 0) fl

  abbrev pub estimator_of : Text → Fleet F W E → E
  estimator_of id fl = get_or learner.factory id fl.estimators

  -- `call` once the router has answered or raised
  pub after_call :
      Text
      → ℤ
      → Decision F
      → Fleet F W E
      → Result F (Text × ℤ) × Router F W × W
      → Result F (Decision F × Option (Text × ℤ)) × Fleet F W E × W
  after_call id input d fl (raise e, router, w) = (raise e, record fl { router = router }, w)
  after_call id input d fl (ok (reply, used), router, w) = (
    ok (d, some (reply, used)),
    record fl {
      router = router;
      coordinator = complete id fl.coordinator;
      estimators = insert id (learner.learn (estimator_of id fl) input used) fl.estimators;
    },
    w,
  )

  -- `call` once the coordinator has decided
  pub after_request :
      Text
      → ℤ
      → List Message
      → Fleet F W E
      → Result F (Decision F) × Coordinator F × W
      → Result F (Decision F × Option (Text × ℤ)) × Fleet F W E × W
  after_request id input messages fl (raise e, c, w) = (raise e, record fl { coordinator = c }, w)
  after_request id input messages fl (ok d, c, w) =
      let fl' : Fleet F W E = record fl { coordinator = c } in
      elim (is_go d.action) [
        | true ↦ after_call id input d fl' (backend clock messages fl'.router w)
        | false ↦ (ok (d, none), fl', w)
      ]

  -- what the agent asks the coordinator for
  abbrev pub wish : Text → List Message → Fleet F W E → Request F
  wish id messages fl =
      let e = estimator_of id fl in
      let estimated = learner.estimate e (input_of count_tokens messages) in
      record { agent_id = id; estimated = estimated; sigma = learner.sigma e estimated }

  pub call :
      Text
      → List Message
      → Fleet F W E
      → W
      → Result F (Decision F × Option (Text × ℤ)) × Fleet F W E × W
  call id messages fl w =
      let fl' = known id fl in
      after_request id (input_of count_tokens messages) messages fl'
        (request (budget clock fl'.router) clock (wish id messages fl') fl'.coordinator w)
