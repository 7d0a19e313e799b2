-- ===== src/Router.antt =====
-- src/agentpause/router.py: the provider with the most headroom serves the next call. The names that
-- the constructor reads off its arguments are given.
pub mod Sorting
pub mod Ranking
mod Tests
use agentpause.Prelude.{
  ℕ, zero, suc, ◌+◌, Bool, true, false, Option, none, some, List, [], ◌∷◌, ◌++◌, if◌then◌else◌,
}
use agentpause.Prelude.Int.{ℤ}
use agentpause.Number.{Float, truthy}
use agentpause.Errors.{
  Error, Result, ok, raise, telemetry_error, foreign, transient, fatal, verdict, hint, is_blind,
}
use agentpause.Text.{Text}
use agentpause.World.{Message, Clock, Backend}
use agentpause.Risk.{Budget}

-- `_Route`, with the two callables of its provider
pub record Route (F W : Type 0) : Type 0 where
  pub name : Text
  pub backend : Backend F W
  pub budget : W → Result F (Budget F) × W
  pub cooldown_until : F

pub record Router (F W : Type 0) : Type 0 where
  pub routes : List (Route F W)
  pub key : Budget F → F
  pub default_cooldown_s : F
  pub last_route : Option Text
  -- whether there is a callback, and its calls in order
  pub on_route : Bool
  pub routed : List (Text × Budget F)

-- an entry of `_ranked`, with the place of its route
pub record Entry (F W : Type 0) : Type 0 where
  pub score : F
  pub place : ℕ
  pub route : Route F W
  pub budget : Budget F

-- `__init__`, which raises ValueError without a provider
pub init : {F W : Type 0} → List (Route F W) → (Budget F → F) → Bool → F → Result F (Router F W)
init [] key on_route default_cooldown_s = raise foreign
init (r ∷ rs) key on_route default_cooldown_s = ok (record {
  routes = r ∷ rs;
  key = key;
  default_cooldown_s = default_cooldown_s;
  last_route = none;
  on_route = on_route;
  routed = [];
})

module _ {F : Type 0} ⦃f : Float F⦄ where
  -- `wait or self.default_cooldown_s`
  abbrev pub wait_or : F → Option F → F
  wait_or d none = d
  wait_or d (some wait) = if truthy wait then wait else d

  -- a budget, where it can be read
  abbrev pub readable : Result F (Budget F) → Result F (Option (Budget F))
  readable (ok b) = ok (some b)
  readable (raise x) = if is_blind x then ok none else raise x

  -- the reset of a budget, where it can be read
  abbrev pub reset_of : Result F (Budget F) → Result F (Option F)
  reset_of (ok b) = ok b.reset_seconds
  reset_of (raise x) = if is_blind x then ok none else raise x

module _ {F W : Type 0} ⦃f : Float F⦄ where
  open f use {add, lt}

  -- `scored.sort(reverse=True)`, which keeps the order of equal scores
  abbrev pub insert_desc : Entry F W → List (Entry F W) → List (Entry F W)
  insert_desc e [] = e ∷ []
  insert_desc e (x ∷ xs) =
      let rest = insert_desc e xs in if lt x.score e.score then e ∷ x ∷ xs else x ∷ rest

  abbrev pub sort_onto : List (Entry F W) → List (Entry F W) → List (Entry F W)
  sort_onto sorted [] = sorted
  sort_onto sorted (e ∷ es) = sort_onto (insert_desc e sorted) es

  -- what `_ranked` learns of a route: nothing if it is parked or its telemetry is blind
  abbrev pub look : F → Route F W → W → Result F (Option (Budget F)) × W
  look now r w =
      if lt now r.cooldown_until
      then (ok none, w)
      else (let (answer, w') = r.budget w in (readable answer, w'))

  abbrev pub entry_of : (Budget F → F) → ℕ → Route F W → Option (Budget F) → List (Entry F W)
  entry_of key i r none = []
  entry_of key i r (some b) = record { score = key b; place = i; route = r; budget = b } ∷ []

  -- the loop of `_ranked` from the route at `i` on
  unfoldable pub score_routes :
      (Budget F → F)
      → F
      → ℕ
      → List (Route F W)
      → List (Entry F W)
      → W
      → Result F (List (Entry F W)) × W
  score_routes key now i [] scored w = (ok scored, w)
  score_routes key now i (r ∷ rs) scored w =
      let (seen, w') = look now r w in
      elim seen [
        | raise x ↦ (raise x, w')
        | ok b ↦ score_routes key now (suc i) rs (scored ++ entry_of key i r b) w'
      ]

  abbrev pub sort_result : Result F (List (Entry F W)) → Result F (List (Entry F W))
  sort_result (ok scored) = ok (sort_onto [] scored)
  sort_result (raise e) = raise e

  -- `_ranked`
  unfoldable pub ranked : Clock F W → Router F W → W → Result F (List (Entry F W)) × W
  ranked clock r w =
      let (now, w') = clock w in
      let (scored, w'') = score_routes r.key now 0 r.routes [] w' in (sort_result scored, w'')

  abbrev pub set_cooldown : ℕ → F → List (Route F W) → List (Route F W)
  set_cooldown i t [] = []
  set_cooldown zero t (r ∷ rs) = record r { cooldown_until = t } ∷ rs
  set_cooldown (suc i) t (r ∷ rs) = r ∷ set_cooldown i t rs

  -- the last statement of `_park`
  abbrev pub cool :
      Clock F W → ℕ → Result F (Option F) → Router F W → W → Result F (Option F) × Router F W × W
  cool clock i (raise x) r w = (raise x, r, w)
  cool clock i (ok wait) r w =
      let (now, w') = clock w in
      (
        ok wait,
        record r { routes = set_cooldown i (add now (wait_or r.default_cooldown_s wait)) r.routes },
        w',
      )

  -- `_park`
  pub park :
      Clock F W → Entry F W → Option F → Router F W → W → Result F (Option F) × Router F W × W
  park clock e (some retry_after) r w = cool clock e.place (ok (some retry_after)) r w
  park clock e none r w =
      let (answer, w') = e.route.budget w in cool clock e.place (reset_of answer) r w'

  abbrev pub first_budget : Result F (List (Entry F W)) → Result F (Budget F)
  first_budget (raise e) = raise e
  first_budget (ok []) = raise telemetry_error
  first_budget (ok (e ∷ es)) = ok e.budget

  unfoldable pub budget : Clock F W → Router F W → W → Result F (Budget F) × W
  budget clock r w = let (entries, w') = ranked clock r w in (first_budget entries, w')

  abbrev pub served : Entry F W → Router F W → Router F W
  served e r = record r {
    last_route = some e.route.name;
    routed = if r.on_route then r.routed ++ ((e.route.name, e.budget) ∷ []) else r.routed;
  }

  -- the loop of `backend` over the ranked entries
  unfoldable pub descend :
      Clock F W
      → List Message
      → List (Entry F W)
      → Option (Error F)
      → Router F W
      → W
      → Result F (Text × ℤ) × Router F W × W
  descend clock messages [] none r w = (raise telemetry_error, r, w)
  descend clock messages [] (some e) r w = (raise e, r, w)
  descend clock messages (e ∷ es) last_exc r w =
      let (answer, w') = e.route.backend messages w in
      elim answer [
        | ok reply ↦ (ok reply, served e r, w')
        | raise x ↦ elim (verdict x) [
          | fatal ↦ (raise x, r, w')
          | transient ↦
              let (parked, r', w'') = park clock e (hint x) r w' in
              elim parked [
                | raise y ↦ (raise y, r', w'')
                | ok _ ↦ descend clock messages es (some x) r' w''
              ]
        ]
      ]

  abbrev pub descend_from :
      Clock F W
      → List Message
      → Result F (List (Entry F W))
      → Router F W
      → W
      → Result F (Text × ℤ) × Router F W × W
  descend_from clock messages (raise e) r w = (raise e, r, w)
  descend_from clock messages (ok entries) r w = descend clock messages entries none r w

  unfoldable pub backend :
      Clock F W → List Message → Router F W → W → Result F (Text × ℤ) × Router F W × W
  backend clock messages r w =
      let (entries, w') = ranked clock r w in descend_from clock messages entries r w'
