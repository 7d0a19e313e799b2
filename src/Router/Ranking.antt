-- ===== src/Router/Ranking.antt =====
-- Which provider the router of src/agentpause/router.py shows and uses.
use agentpause.Prelude.{
  ℕ, suc, false, Option, none, some, List, [], ◌∷◌, ◌++◌, ◌≡◌, ◌≢◌, inl, inr, refl, sym, ap, ◌∙◌,
  subst, arith, All, All-append, All-split, All-Among, Among, ◌⊎◌, true, Bool-cases, List-cases,
}
use agentpause.Prelude.Int.{ℤ}
use agentpause.Number.{Float, ◌≼◌, IsOrdered}
use agentpause.Errors.{Result-cases, Error, Result, ok, raise, fatal, verdict, is_blind}
use agentpause.Text.{Text}
use agentpause.World.{Message, Clock}
use agentpause.Risk.{Budget}
use agentpause.Router.{
  Route, Router, Entry, look, entry_of, sort_onto, score_routes, sort_result, ranked, first_budget,
  budget, served, descend, descend_from, backend,
}
use agentpause.Router.Sorting.{sorted_first}

raise_ne_ok : {F A : Type 0} {e : Error F} {a : A} → raise e ≢ ok a
raise_ne_ok h = ground arith

ok_eq : {F A : Type 0} (a b : A) → Path (Result F A) (ok a) (ok b) → a ≡ b
ok_eq a b h = cc

module _ {F W : Type 0} ⦃f : Float F⦄ where
  -- An entry is of one of the routes, which is not parked and whose telemetry gave the entry's budget
  -- when it was asked; its score is that of the budget.
  abbrev pub Eligible : List (Route F W) → (Budget F → F) → F → Entry F W → Type 0
  Eligible routes key now e =
      Among e.route routes
      × (f.lt now e.route.cooldown_until ≡ false)
      × ((v : W) × ((e.route.budget v).0 ≡ ok e.budget))
      × (e.score ≡ key e.budget)

  -- A route that is not parked was asked, and it was blind or its budget scores no more than `best`.
  abbrev pub Outdone : (Budget F → F) → F → F → Route F W → Type 0
  Outdone key now best r =
      f.lt now r.cooldown_until ≡ false
      → (v : W) × (((b : Budget F) × ((r.budget v).0 ≡ ok b) × (key b ≼ best))
          ⊎ ((x : Error F) × ((r.budget v).0 ≡ raise x) × (is_blind x ≡ true)))

  abbrev Scored : List (Route F W) → (Budget F → F) → F → Result F (List (Entry F W)) → Type 0
  Scored routes key now (raise x) = Unit
  Scored routes key now (ok es) = All (Eligible routes key now) es

  -- what a look at a route found, if it is not parked
  look_found :
      (now : F) (r : Route F W) (w : W) (b : Budget F)
      → (look now r w).0 ≡ ok (some b)
      → (f.lt now r.cooldown_until ≡ false) × ((r.budget w).0 ≡ ok b)
  look_found now r w b h = elim (Bool-cases (f.lt now r.cooldown_until)) [
    | inl parked ↦ absurd (ground arith)
    | inr open_way ↦ elim (Result-cases (r.budget w).0) [
      | inl (b', e) ↦
          let told : Path (Result F (Option (Budget F))) (ok (some b')) (ok (some b)) =
            ground arith in
          (open_way, e ∙ ground (arith, told))
      | inr (x, e) ↦ absurd (ground arith)
    ]
  ]

  look-Outdone :
      (key : Budget F → F) (now best : F) (i : ℕ) (r : Route F W) (w : W)
      (found : Option (Budget F))
      → (look now r w).0 ≡ ok found
      → All (λ y. y.score ≼ best) (entry_of key i r found)
      → Outdone key now best r
  look-Outdone key now best i r w found h low open_way = elim (Result-cases (r.budget w).0) [
    | inl (b, e) ↦
        let this : Path (Result F (Option (Budget F))) (ok (some b)) (ok found) = ground arith in
        let mine : All (λ (y : Entry F W). y.score ≼ best) (entry_of key i r (some b)) =
          subst (λ o. All (λ (y : Entry F W). y.score ≼ best) (entry_of key i r o))
            (sym (ok_eq (some b) found this)) low in
        (w, inl (b, e, mine.0))
    | inr (x, e) ↦ (w, inr (x, e, ground arith))
  ]

  entry_of-Eligible :
      (routes : List (Route F W)) (key : Budget F → F) (now : F) (i : ℕ) (r : Route F W) (w : W)
      (found : Option (Budget F))
      → Among r routes
      → (look now r w).0 ≡ ok found
      → All (Eligible routes key now) (entry_of key i r found)
  entry_of-Eligible routes key now i r w none m h = tt
  entry_of-Eligible routes key now i r w (some b) m h =
      let (open_way, told) = look_found now r w b h in ((m, open_way, (w, told), refl), tt)

  score_routes-cons :
      (key : Budget F → F) (now : F) (i : ℕ) (r : Route F W) (rs : List (Route F W))
      (es : List (Entry F W)) (w : W) (seen : Result F (Option (Budget F)))
      → (look now r w).0 ≡ seen
      → score_routes key now i (r ∷ rs) es w ≡ elim seen as (λ _. Result F (List (Entry F W)) × W) [
        | raise x ↦ (raise x, (look now r w).1)
        | ok b ↦ score_routes key now (suc i) rs (es ++ entry_of key i r b) (look now r w).1
      ]
  unfolding score_routes
  score_routes-cons key now i r rs es w seen h =
      ap
        (λ v. elim v as (λ _. Result F (List (Entry F W)) × W) [
          | raise x ↦ (raise x, (look now r w).1)
          | ok b ↦ score_routes key now (suc i) rs (es ++ entry_of key i r b) (look now r w).1
        ])
        h

  score_routes-Scored :
      (routes : List (Route F W)) (key : Budget F → F) (now : F) (i : ℕ) (rs : List (Route F W))
      (es : List (Entry F W)) (w : W)
      → All (λ r. Among r routes) rs
      → All (Eligible routes key now) es
      → Scored routes key now (score_routes key now i rs es w).0
  unfolding score_routes
  score_routes-Scored routes key now i [] es w a h = h
  score_routes-Scored routes key now i (r ∷ rs) es w (m, a) h =
      elim (Result-cases (look now r w).0) [
        | inl (found, e) ↦
            let mine = entry_of-Eligible routes key now i r w found m e in
            subst (λ v. Scored routes key now v.0)
              (sym (score_routes-cons key now i r rs es w (ok found) e))
              (score_routes-Scored routes key now (suc i) rs (es ++ entry_of key i r found)
                (look now r w).1 a
                (All-append (Eligible routes key now) es (entry_of key i r found) h mine))
        | inr (x, e) ↦
            subst (λ v. Scored routes key now v.0)
              (sym (score_routes-cons key now i r rs es w (raise x) e)) tt
      ]

  -- No route is left out: if no entry scores more than `best`, no route does.
  abbrev Low : F → Result F (List (Entry F W)) → Type 0
  Low best (raise x) = Unit
  Low best (ok es) = All (λ y. y.score ≼ best) es

  score_routes-Outdone :
      (key : Budget F → F) (now best : F) (i : ℕ) (rs : List (Route F W))
      (es final : List (Entry F W)) (w : W)
      → (score_routes key now i rs es w).0 ≡ ok final
      → All (λ y. y.score ≼ best) final
      → All (Outdone key now best) rs × All (λ y. y.score ≼ best) es
  unfolding score_routes
  score_routes-Outdone key now best i [] es final w h low =
      (tt, subst (λ v. Low best v) (sym h) low)
  score_routes-Outdone key now best i (r ∷ rs) es final w h low =
      elim (Result-cases (look now r w).0) [
        | inl (found, e) ↦
            let entry = entry_of key i r found in
            let next = ap (λ v. v.0) (score_routes-cons key now i r rs es w (ok found) e) in
            let (rest, both) =
              score_routes-Outdone key now best (suc i) rs (es ++ entry) final (look now r w).1
                (sym next ∙ h) low in
            let (before, mine) = All-split (λ y. y.score ≼ best) es entry both in
            ((look-Outdone key now best i r w found e mine, rest), before)
        | inr (x, e) ↦
            let next = ap (λ v. v.0) (score_routes-cons key now i r rs es w (raise x) e) in
            absurd (raise_ne_ok (sym next ∙ h))
      ]

  -- the routes that can be used at a reading of the clock, with the budgets they report
  abbrev pub candidates : Clock F W → Router F W → W → Result F (List (Entry F W)) × W
  candidates clock r w = let (now, w') = clock w in score_routes r.key now 0 r.routes [] w'

  descend_answered :
      (clock : Clock F W) (messages : List Message) (e : Entry F W) (es : List (Entry F W))
      (last : Option (Error F)) (r : Router F W) (w : W) (reply : Text × ℤ)
      → (e.route.backend messages w).0 ≡ ok reply
      → descend clock messages (e ∷ es) last r w
        ≡ (ok reply, served e r, (e.route.backend messages w).1)
  unfolding descend
  descend_answered clock messages e es last r w reply h = rw h refl

  descend_fatal :
      (clock : Clock F W) (messages : List Message) (e : Entry F W) (es : List (Entry F W))
      (last : Option (Error F)) (r : Router F W) (w : W) (x : Error F)
      → (e.route.backend messages w).0 ≡ raise x
      → verdict x ≡ fatal
      → descend clock messages (e ∷ es) last r w ≡ (raise x, r, (e.route.backend messages w).1)
  unfolding descend
  descend_fatal clock messages e es last r w x h v = rw h (rw v refl)

  -- the call, once the entries are ranked
  backend_of :
      (clock : Clock F W) (messages : List Message) (r : Router F W) (w : W) (es : List (Entry F W))
      (e : Entry F W) (rest : List (Entry F W))
      → (candidates clock r w).0 ≡ ok es
      → sort_onto [] es ≡ e ∷ rest
      → backend clock messages r w
        ≡ descend clock messages (e ∷ rest) none r (candidates clock r w).1
  unfolding backend ranked
  backend_of clock messages r w es e rest c s =
      ap (λ v. descend_from clock messages (sort_result v) r (candidates clock r w).1) c
      ∙ ap (λ v. descend clock messages v none r (candidates clock r w).1) s

  first_cases :
      (c : Result F (List (Entry F W))) (b : Budget F)
      → first_budget (sort_result c) ≡ ok b
      → (es : List (Entry F W)) × (x : Entry F W) × (xs : List (Entry F W)) × (c ≡ ok es)
        × (sort_onto [] es ≡ x ∷ xs)
        × (x.budget ≡ b)
  first_cases (raise e) b h = absurd (ground arith)
  first_cases (ok es) b h = elim (List-cases (sort_onto [] es)) [
    | inl empty ↦ absurd (raise_ne_ok (sym (ap (λ v. first_budget (ok v)) empty) ∙ h))
    | inr (x, xs, e) ↦ (es, x, xs, refl, e, ok_eq _ _ (sym (ap (λ v. first_budget (ok v)) e) ∙ h))
  ]

  -- Prediction and call agree, for scores that are ordered. If `budget` gives `b`, then `b` is what
  -- the telemetry of one of the router's providers told when it was asked, a provider that is not
  -- parked; every other provider that is not parked was asked too, and was blind or told a budget
  -- that scores no higher. In the world that the ranking leaves, this is the provider that `backend`
  -- calls first: its reply is the result, and a fatal error of it is raised at once, without another
  -- provider being tried.
  pub budget_best :
      IsOrdered F
      → (clock : Clock F W) (r : Router F W) (w : W) (b : Budget F) → (budget clock r w).0 ≡ ok b
      → let w' = (candidates clock r w).1 in
        let now = (clock w).0 in
        (e : Entry F W) × (e.budget ≡ b)
        × Eligible r.routes r.key now e
        × All (Outdone r.key now (r.key b)) r.routes
        × ((messages : List Message) (reply : Text × ℤ)
            → (e.route.backend messages w').0 ≡ ok reply
            → backend clock messages r w ≡ (ok reply, served e r, (e.route.backend messages w').1))
        × ((messages : List Message) (x : Error F)
            → (e.route.backend messages w').0 ≡ raise x
            → verdict x ≡ fatal
            → backend clock messages r w ≡ (raise x, r, (e.route.backend messages w').1))
  unfolding budget ranked
  budget_best o clock r w b h =
      let (es, e, rest, c, s, same) = first_cases (candidates clock r w).0 b h in
      let now = (clock w).0 in
      let known = subst (Scored r.routes r.key now) c (
        score_routes-Scored r.routes r.key now 0 r.routes [] (clock w).1 (All-Among r.routes) tt) in
      let (eligible, best) = sorted_first o (Eligible r.routes r.key now) es e rest known s in
      let (outdone, _) =
        score_routes-Outdone r.key now e.score 0 r.routes [] es (clock w).1 c best in
      (
        e,
        same,
        eligible,
        subst (λ t. All (Outdone r.key now t) r.routes) (eligible.3 ∙ ap r.key same) outdone,
        λ messages reply a.
            backend_of clock messages r w es e rest c s
            ∙ descend_answered clock messages e rest none r _ reply a,
        λ messages x a v.
            backend_of clock messages r w es e rest c s
            ∙ descend_fatal clock messages e rest none r _ x a v,
      )
