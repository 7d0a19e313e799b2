-- ===== src/Coordinator/Overcommit.antt =====
-- No window is promised twice, in src/agentpause/coordinator.py.
use agentpause.Prelude.{
  List, [], ◌∷◌, ◌≡◌, ◌≢◌, ◌⊎◌, inl, inr, refl, sym, ap, ◌∙◌, subst, arith, All, All-Among, Among,
  some, Bool-cases, if◌then◌else◌,
}
use agentpause.Prelude.Int.{ℤ, pos, ◌+ℤ◌, ◌-ℤ◌, ◌≤ℤ◌, max_ℤ, +ℤ_parts, -ℤ_parts, pos_part, neg_part}
use agentpause.Prelude.Dict.{Dict, insert, lookup, lookup-insert}
use agentpause.Number.{Float, IsExact}
use agentpause.Errors.{Result, ok, raise}
use agentpause.Text.{Text, text_eq, text_eq_iff, text_instance}
use agentpause.World.{Clock}
use agentpause.Risk.{Budget, Decision, Verb, continue, wait, checkpoint}
use agentpause.Coordinator.{
  Coordinator, Telemetry, Request, get_or, sum_values, ensure, reserved, margin, grant, request,
  Key, key_of, before, place, keyed, ensure_all, allocate, arbitrate,
}
use agentpause.Coordinator.Holds.{
  Holds, sum_values-insert, get_or-Holds, insert-Holds, ensure-reservations, ensure_k, Booked,
  grant-Booked,
}

max_pos : (m y : ℤ) → pos 1 ≤ℤ m → m ≤ℤ max_ℤ (pos 0) y → m ≤ℤ y
unfolding max_ℤ
max_pos m y h p = ground arith

-- The sum after a hold of its own was left out of account.
sum_after_own :
    (total sum own m rem : ℤ)
    → sum +ℤ own ≡ total +ℤ m
    → pos 1 ≤ℤ m
    → m ≤ℤ max_ℤ (pos 0) (rem -ℤ (total +ℤ (pos 0 -ℤ own)))
    → sum ≤ℤ rem
sum_after_own total sum own m rem e h p = omega (
  arith,
  max_pos m _ h p,
  ap pos_part e,
  ap neg_part e,
  +ℤ_parts sum own,
  +ℤ_parts total m,
  -ℤ_parts rem (total +ℤ (pos 0 -ℤ own)),
  +ℤ_parts total (pos 0 -ℤ own),
  -ℤ_parts (pos 0) own,
)

max_zero : (m y : ℤ) → pos 0 ≤ℤ y → m ≤ℤ max_ℤ (pos 0) y → m ≤ℤ y
unfolding max_ℤ
max_zero m y h p = ground arith

-- The sum after a hold was added to all others.
sum_after :
    (total sum own m rem : ℤ)
    → sum +ℤ own ≡ total +ℤ m
    → pos 0 ≤ℤ own
    → total ≤ℤ rem
    → m ≤ℤ max_ℤ (pos 0) (rem -ℤ (total +ℤ pos 0))
    → sum ≤ℤ rem
sum_after total sum own m rem e o t p =
    let free = rem -ℤ (total +ℤ pos 0) in
    let room : pos 0 ≤ℤ free =
      omega (arith, -ℤ_parts rem (total +ℤ pos 0), +ℤ_parts total (pos 0)) in
    omega (
      arith,
      max_zero m free room p,
      ap pos_part e,
      ap neg_part e,
      +ℤ_parts sum own,
      +ℤ_parts total m,
      -ℤ_parts rem (total +ℤ pos 0),
      +ℤ_parts total (pos 0),
    )

continue-cases : (v : Verb) → (v ≡ continue) ⊎ (v ≢ continue)
continue-cases continue = inl refl
continue-cases wait = inr (λ e. cc)
continue-cases checkpoint = inr (λ e. cc)

module _ {F : Type 0} where
  ensure_all-frame :
      (rs : List (Request F)) (c : Coordinator F)
      → ((ensure_all rs c).reservations ≡ c.reservations) × ((ensure_all rs c).k ≡ c.k)
  ensure_all-frame [] c = (refl, refl)
  ensure_all-frame (r ∷ rs) c =
      let (p, q) = ensure_all-frame rs (ensure r.agent_id c) in
      (p ∙ ensure-reservations r.agent_id c, q ∙ ensure_k r.agent_id c)

module _ {F W : Type 0} ⦃f : Float F⦄ (telemetry : Telemetry F W) (clock : Clock F W)
    (x : IsExact F) where
  -- Without rounding, a request is granted only out of what is free: if telemetry reads `b` and the
  -- request has a margin of at least one token, then once it is granted the reservations of all
  -- agents together are at most the remaining tokens. A request that is not granted changes no
  -- reservation.
  pub request_fits :
      (r : Request F) (c : Coordinator F) (w : W) (b : Budget F)
      → (telemetry w).0 ≡ ok b
      → pos 1 ≤ℤ margin telemetry clock r c
      → let (answer, c', w') = request telemetry clock r c w in
        (d : Decision F) × (answer ≡ ok d)
        × (d.action ≡ continue → reserved c' ≤ℤ b.remaining_tokens)
        × (d.action ≢ continue → c'.reservations ≡ c.reservations)
  unfolding request
  request_fits r c w b h m =
      let c0 = ensure r.agent_id c in
      let own = get_or (pos 0) r.agent_id c0.reservations in
      let kept = ensure-reservations r.agent_id c in
      let cost = margin telemetry clock r c0 in
      let same : cost ≡ margin telemetry clock r c =
        ap (λ k. r.estimated +ℤ f.ceil (f.mul k r.sigma)) (ensure_k r.agent_id c) in
      let (d, e, (go, stop, _)) = grant-Booked telemetry clock x r (pos 0 -ℤ own) c0 w b h in
      (
        d,
        e,
        λ go_on.
            let (fits, booked) = go go_on in
            sum_after_own (reserved c0) _ own cost b.remaining_tokens
              (ap (λ v. sum_values v +ℤ own) booked
                ∙ sum_values-insert r.agent_id cost c0.reservations)
              (subst (λ v. pos 1 ≤ℤ v) (sym same) m) fits,
        λ halt. stop halt ∙ kept,
      )

  -- the cost of a request under the factor `k`
  abbrev pub cost_at : F → Request F → ℤ
  cost_at k r = r.estimated +ℤ f.ceil (f.mul k r.sigma)

  -- What an allocation keeps: no hold is negative, and together they are within the window.
  abbrev Within : Budget F → Coordinator F → Type 0
  Within b c = Holds c.reservations × (reserved c ≤ℤ b.remaining_tokens)

  Booked-Within :
      (r : Request F) (b : Budget F) (c c' : Coordinator F) (d : Decision F)
      → Within b c
      → pos 0 ≤ℤ cost_at c.k r
      → Booked telemetry clock r (reserved c +ℤ pos 0) b c d c'
      → Within b c'
  Booked-Within r b c c' d (h, t) m (go, stop, _) = elim (continue-cases d.action) [
    | inl go_on ↦
        let (fits, booked) = go go_on in
        let own = get_or (pos 0) r.agent_id c.reservations in
        (
          subst Holds (sym booked) (insert-Holds r.agent_id _ c.reservations h m),
          sum_after (reserved c) _ own (cost_at c.k r) b.remaining_tokens
              (ap (λ v. sum_values v +ℤ own) booked ∙ sum_values-insert r.agent_id _ c.reservations)
              (get_or-Holds r.agent_id c.reservations h) t fits,
        )
    | inr halt ↦
        subst (λ v. Holds v × (sum_values v ≤ℤ b.remaining_tokens)) (sym (stop halt)) (h, t)
  ]

  -- Each agent that the answers let go on holds what one of its requests costs.
  abbrev pub Held : List (Request F) → F → Dict Text (Decision F) → Dict Text ℤ → Type 0
  Held requests k answers holds =
      (id : Text) (d : Decision F)
      → lookup id answers ≡ some d
      → d.action ≡ continue
      → (r : Request F) × Among r requests
        × (r.agent_id ≡ id)
        × (lookup id holds ≡ some (cost_at k r))

  Booked-Held :
      (requests : List (Request F)) (results : Dict Text (Decision F)) (r : Request F)
      (b : Budget F) (c c' : Coordinator F) (d : Decision F)
      → Among r requests
      → Booked telemetry clock r (reserved c +ℤ pos 0) b c d c'
      → Held requests c.k results c.reservations
      → Held requests c.k (insert r.agent_id d results) c'.reservations
  Booked-Held requests results r b c c' d m (go, stop, _) h id e found goes =
      elim (Bool-cases (text_eq r.agent_id id)) [
        | inl same ↦
            let this : d ≡ e = ground (arith, found, lookup-insert r.agent_id id d results) in
            let (_, booked) = go (ap (λ (v : Decision F). v.action) this ∙ goes) in
            (
              r,
              m,
              (text_eq_iff r.agent_id id).0 same,
              ap (lookup id) booked
                  ∙ ground (arith, lookup-insert r.agent_id id (cost_at c.k r) c.reservations),
            )
        | inr other ↦
            let earlier : lookup id results ≡ some e =
              ground (arith, found, lookup-insert r.agent_id id d results) in
            let (r0, m0, i0, kept) = h id e earlier goes in
            let still : lookup id c'.reservations ≡ lookup id c.reservations =
              elim (continue-cases d.action) [
                | inl go_on ↦
                    ap (lookup id) (go go_on).1
                    ∙ ground (arith, lookup-insert r.agent_id id (cost_at c.k r) c.reservations)
                | inr halt ↦ ap (lookup id) (stop halt)
              ] in
            (r0, m0, i0, still ∙ kept)
      ]

  allocate-cons :
      (key : Key telemetry clock) (r : Request F) (rs : List (Key telemetry clock × Request F))
      (results : Dict Text (Decision F)) (c : Coordinator F) (w : W) (d : Decision F)
      → (grant telemetry clock r (pos 0) c w).0 ≡ ok d
      → let (_, c', w') = grant telemetry clock r (pos 0) c w in
        allocate telemetry clock ((key, r) ∷ rs) results c w
        ≡ allocate telemetry clock rs (insert r.agent_id d results) c' w'
  unfolding allocate
  allocate-cons key r rs results c w d e =
      let (_, c', w') = grant telemetry clock r (pos 0) c w in
      ap
        (λ answer. elim answer as (λ _. Result F (Dict Text (Decision F)) × Coordinator F × W) [
          | raise x ↦ (raise x, c', w')
          | ok v ↦ allocate telemetry clock rs (insert r.agent_id v results) c' w'
        ])
        e

  -- the outcome of an allocation that telemetry does not stop
  abbrev Allocated :
      List (Request F)
      → F
      → Budget F
      → Result F (Dict Text (Decision F)) × Coordinator F × W
      → Type 0
  Allocated requests k b (answer, c', w') =
      ((all : Dict Text (Decision F)) × (answer ≡ ok all) × Held requests k all c'.reservations)
      × Within b c'

  allocate-Within :
      (requests : List (Request F)) (b : Budget F) (k : F)
      (rs : List (Key telemetry clock × Request F)) (results : Dict Text (Decision F))
      (c : Coordinator F) (w : W)
      → ((w : W) → (telemetry w).0 ≡ ok b)
      → c.k ≡ k
      → All (λ e. pos 0 ≤ℤ cost_at k e.1) rs
      → All (λ e. Among e.1 requests) rs
      → Within b c
      → Held requests k results c.reservations
      → Allocated requests k b (allocate telemetry clock rs results c w)
  unfolding allocate
  allocate-Within requests b k [] results c w h q p m g y = ((results, refl, y), g)
  allocate-Within requests b k ((key, r) ∷ rs) results c w h q (m, p) (a, l) g y =
      let (answer, c', w') = grant telemetry clock r (pos 0) c w in
      let (d, e, booked) = grant-Booked telemetry clock x r (pos 0) c w b (h w) in
      let g' = Booked-Within r b c c' d g (subst (λ v. pos 0 ≤ℤ cost_at v r) (sym q) m) booked in
      let y' =
        subst (λ v. Held requests v (insert r.agent_id d results) c'.reservations) q
          (Booked-Held requests results r b c c' d a booked
            (subst (λ v. Held requests v results c.reservations) (sym q) y)) in
      subst (Allocated requests k b) (sym (allocate-cons key r rs results c w d e)) (
        allocate-Within requests b k rs (insert r.agent_id d results) c' w' h (booked.2 ∙ q) p l g'
          y')

  place-All :
      (P : Key telemetry clock × Request F → Type 0) (e : Key telemetry clock × Request F)
      (rs : List (Key telemetry clock × Request F))
      → P e
      → All P rs
      → All P (place telemetry clock e rs)
  place-All P (k, r) [] p q = (p, tt)
  place-All P (k, r) ((j, s) ∷ rs) p (h, q) = elim (Bool-cases (before telemetry clock k j)) [
    | inl first ↦
        subst
          (λ t.
            All P (if t then (k, r) ∷ (j, s) ∷ rs else (j, s) ∷ place telemetry clock (k, r) rs))
          (sym first) (p, (h, q))
    | inr later ↦
        subst
          (λ t.
            All P (if t then (k, r) ∷ (j, s) ∷ rs else (j, s) ∷ place telemetry clock (k, r) rs))
          (sym later) (h, place-All P (k, r) rs p q)
  ]

  keyed-All :
      (P : Request F → Type 0) (rs : List (Request F))
      (sorted : List (Key telemetry clock × Request F)) (c : Coordinator F) (w : W)
      → All P rs
      → All (λ e. P e.1) sorted
      → All (λ e. P e.1) (keyed telemetry clock rs sorted c w).0
  keyed-All P [] sorted c w p q = q
  keyed-All P (r ∷ rs) sorted c w (h, p) q =
      let (k, w') = key_of telemetry clock r c w in
      keyed-All P rs (place telemetry clock (k, r) sorted) c w' p
        (place-All (λ e. P e.1) (k, r) sorted h q)

  -- Without rounding, arbitration never overcommits the window: if telemetry keeps reading `b`, no
  -- hold and no cost is negative, and the holds are within the remaining tokens at first, then
  -- arbitration raises nothing, each agent that may go on holds what one of its requests costs, and
  -- the holds of all agents together are within the remaining tokens afterwards.
  pub arbitrate_fits :
      (requests : List (Request F)) (c : Coordinator F) (w : W) (b : Budget F)
      → ((w : W) → (telemetry w).0 ≡ ok b)
      → All (λ r. pos 0 ≤ℤ cost_at c.k r) requests
      → Holds c.reservations
      → reserved c ≤ℤ b.remaining_tokens
      → let (answer, c', w') = arbitrate telemetry clock requests c w in
        ((all : Dict Text (Decision F)) × (answer ≡ ok all) × Held requests c.k all c'.reservations)
        × Holds c'.reservations
        × (reserved c' ≤ℤ b.remaining_tokens)
  unfolding arbitrate
  arbitrate_fits requests c w b h m g t =
      let c0 = ensure_all requests c in
      let (kept, same) = ensure_all-frame requests c in
      let (sorted, w') = keyed telemetry clock requests [] c0 w in
      let costs = keyed-All (λ r. pos 0 ≤ℤ cost_at c.k r) requests [] c0 w m tt in
      let (all, (holds, within)) =
        allocate-Within requests b c.k sorted [] c0 w' h same costs
          (keyed-All (λ r. Among r requests) requests [] c0 w (All-Among requests) tt)
          (subst (λ v. Holds v × (sum_values v ≤ℤ b.remaining_tokens)) (sym kept) (g, t))
          (λ id d found goes. absurd (ground arith)) in
      (all, holds, within)
