-- ===== src/Coordinator.antt =====
-- src/agentpause/coordinator.py: one rate-limit window shared by several agents.
pub mod Holds
pub mod Overcommit
mod Tests
use agentpause.Prelude.{
  Option, ℕ, ltb, length, Bool, true, false, not, ◌&&◌, none, some, List, [], ◌∷◌, if◌then◌else◌,
  is_none,
}
use agentpause.Prelude.Int.{ℤ, pos, ◌+ℤ◌, ◌-ℤ◌, max_ℤ, ltb_ℤ}
use agentpause.Prelude.Dict.{Dict, lookup, insert, erase}
use agentpause.Number.{Float}
use agentpause.Errors.{Result, ok, raise}
use agentpause.Text.{Text, text_instance}
use agentpause.World.{Clock}
use agentpause.Risk.{Budget, Decision, Ask, Verb, continue, wait, checkpoint, decide}

-- The four dicts, and the settings that no method changes.
pub record Coordinator (F : Type 0) : Type 0 where
  pub k : F
  pub wait_threshold_s : F
  pub priority : Dict Text ℤ
  pub order : Dict Text ℕ
  pub reservations : Dict Text ℤ
  pub waiting_since : Dict Text F

-- `telemetry()`, which may raise
abbrev pub Telemetry : Type 0 → Type 0 → Type 0
Telemetry F W = W → Result F (Budget F) × W

-- `(agent_id, estimated, sigma)`
pub record Request (F : Type 0) : Type 0 where
  pub agent_id : Text
  pub estimated : ℤ
  pub sigma : F

abbrev pub default : {V : Type 0} → V → Option V → V
default v none = v
default v (some x) = x

-- `d.get(k, default)`
abbrev pub get_or : {V : Type 0} → V → Text → Dict Text V → V
get_or v k d = default v (lookup k d)

-- `k in d`
abbrev pub contains : {V : Type 0} → Text → Dict Text V → Bool
contains k d = not (is_none (lookup k d))

-- `d.setdefault(k, v)`
abbrev pub set_default : {V : Type 0} → Text → V → Dict Text V → Dict Text V
set_default k v d = if contains k d then d else insert k v d

-- `sum(d.values())`
abbrev pub sum_values : Dict Text ℤ → ℤ
sum_values [] = pos 0
sum_values ((k, v) ∷ d) = v +ℤ sum_values d

abbrev pub is_go : Verb → Bool
is_go continue = true
is_go wait = false
is_go checkpoint = false

module _ {F : Type 0} where
  unfoldable pub register : Text → ℤ → Coordinator F → Coordinator F
  register id priority c = record c {
    order = set_default id (length c.order) c.order;
    priority = insert id priority c.priority;
  }

  -- `_ensure`
  unfoldable pub ensure : Text → Coordinator F → Coordinator F
  ensure id c = if contains id c.order then c else register id (pos 0) c

  abbrev pub ensure_all : List (Request F) → Coordinator F → Coordinator F
  ensure_all [] c = c
  ensure_all (r ∷ rs) c = ensure_all rs (ensure r.agent_id c)

  abbrev pub reserved : Coordinator F → ℤ
  reserved c = sum_values c.reservations

  -- the budget in which `held` tokens are held: it has no deadline
  abbrev pub less : ℤ → Budget F → Budget F
  less held b = record b {
    remaining_tokens = max_ℤ (pos 0) (b.remaining_tokens -ℤ held);
    remaining_seconds = none;
  }

  unfoldable pub complete : Text → Coordinator F → Coordinator F
  complete id c = record c {
    reservations = erase id c.reservations;
    waiting_since = erase id c.waiting_since;
  }

module _ {F W : Type 0} ⦃f : Float F⦄ (telemetry : Telemetry F W) (clock : Clock F W) where
  open f use {mul, le, lt, ceil}

  -- `_margin`
  abbrev pub margin : Request F → Coordinator F → ℤ
  margin r c = r.estimated +ℤ ceil (mul c.k r.sigma)

  abbrev pub ask : Request F → Coordinator F → Ask F
  ask r c = record {
    estimated = r.estimated;
    sigma = r.sigma;
    k = c.k;
    wait_threshold_s = c.wait_threshold_s;
    estimated_input = none;
    estimated_output = none;
    estimated_latency = none;
    rpm_margin = pos 0;
  }

  -- what both methods do with a decision
  unfoldable pub settle : Request F → Bool → Coordinator F → W → Coordinator F × W
  settle r true c w = (
    record c {
      reservations = insert r.agent_id (margin r c) c.reservations;
      waiting_since = erase r.agent_id c.waiting_since;
    },
    w,
  )
  settle r false c w =
      let (now, w') = clock w in
      (record c { waiting_since = set_default r.agent_id now c.waiting_since }, w')

  -- the decision against the shared window, of which `held` tokens are held
  unfoldable pub judged :
      Request F
      → ℤ
      → Result F (Budget F)
      → Coordinator F
      → W
      → Result F (Decision F) × Coordinator F × W
  judged r held (raise e) c w = (raise e, c, w)
  judged r held (ok b) c w =
      let d = decide (less held b) (ask r c) in
      let (c', w') = settle r (is_go d.action) c w in (ok d, c', w')

  -- `decide(self._shadow(extra_reserved=extra), …)` and what follows
  unfoldable pub grant :
      Request F → ℤ → Coordinator F → W → Result F (Decision F) × Coordinator F × W
  grant r extra c w = let (reading, w') = telemetry w in judged r (reserved c +ℤ extra) reading c w'

  unfoldable pub request : Request F → Coordinator F → W → Result F (Decision F) × Coordinator F × W
  request r c w =
      let c' = ensure r.agent_id c in
      let own = get_or (pos 0) r.agent_id c'.reservations in grant r (pos 0 -ℤ own) c' w

  -- the sort key: priority, waiting time and registration order
  abbrev pub Key : Type 0
  Key = ℤ × F × ℕ

  -- `_priority[agent_id]`, for an agent that is registered
  abbrev pub key_of : Request F → Coordinator F → W → Key × W
  key_of r c w =
      let (now, w') = clock w in
      (
        (
          pos 0 -ℤ get_or (pos 0) r.agent_id c.priority,
          get_or now r.agent_id c.waiting_since,
          get_or 0 r.agent_id c.order,
        ),
        w',
      )

  -- tuples in lexicographic order
  abbrev pub before : Key → Key → Bool
  before (p, t, n) (q, u, m) =
      if ltb_ℤ p q
      then true
      else if ltb_ℤ q p
      then false
      else if le t u && le u t
      then ltb n m
      else lt t u

  -- `sorted`, which is stable: an entry goes behind those that are not greater
  abbrev pub place : Key × Request F → List (Key × Request F) → List (Key × Request F)
  place (k, r) [] = (k, r) ∷ []
  place (k, r) ((j, s) ∷ rest) =
      let after = place (k, r) rest in if before k j then (k, r) ∷ (j, s) ∷ rest else (j, s) ∷ after

  abbrev pub keyed :
      List (Request F) → List (Key × Request F) → Coordinator F → W → List (Key × Request F) × W
  keyed [] sorted c w = (sorted, w)
  keyed (r ∷ rs) sorted c w = let (k, w') = key_of r c w in keyed rs (place (k, r) sorted) c w'

  -- the loop over the sorted requests
  pub allocate :
      List (Key × Request F)
      → Dict Text (Decision F)
      → Coordinator F
      → W
      → Result F (Dict Text (Decision F)) × Coordinator F × W
  allocate [] results c w = (ok results, c, w)
  allocate ((k, r) ∷ rs) results c w =
      let (answer, c', w') = grant r (pos 0) c w in
      elim answer [
        | raise e ↦ (raise e, c', w')
        | ok d ↦ allocate rs (insert r.agent_id d results) c' w'
      ]

  pub arbitrate :
      List (Request F) → Coordinator F → W → Result F (Dict Text (Decision F)) × Coordinator F × W
  arbitrate requests c w =
      let c' = ensure_all requests c in
      let (sorted, w') = keyed requests [] c' w in allocate sorted [] c' w'
