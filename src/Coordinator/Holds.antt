-- ===== src/Coordinator/Holds.antt =====
-- What the reservations of src/agentpause/coordinator.py add up to.
use agentpause.Prelude.{
  Bool, true, false, some, [], ◌∷◌, ◌≡◌, ◌≢◌, refl, sym, ap, ◌∙◌, subst, arith, All, if◌then◌else◌,
}
use agentpause.Prelude.Int.{
  ℤ, pos, ◌+ℤ◌, ◌-ℤ◌, ◌≤ℤ◌, max_ℤ, leb_ℤ→le, +ℤ_parts, eq_of_parts, pos_part, neg_part,
}
use agentpause.Prelude.Dict.{Dict, lookup, insert, erase, lookup-insert}
use agentpause.Number.{Float, IsExact}
use agentpause.Number.Order.{le_of_not-lt}
use agentpause.Errors.{Result, ok, raise}
use agentpause.Text.{Text, text_eq, text_eq_iff, text_instance}
use agentpause.World.{Clock}
use agentpause.Risk.{Budget, Decision, continue, decide}
use agentpause.Risk.Decide.{decide-continue_iff}
use agentpause.Coordinator.{
  complete, request, is_go, Coordinator, Telemetry, Request, default, get_or, sum_values, register,
  ensure, reserved, less, margin, ask, settle, judged, grant,
}

-- Every hold is zero or more.
abbrev pub Holds : Dict Text ℤ → Type 0
Holds = All (λ entry. pos 0 ≤ℤ entry.1)

+ℤ-swap : (v w s : ℤ) → v +ℤ s +ℤ w ≡ w +ℤ s +ℤ v
+ℤ-swap v w s =
    eq_of_parts _ _
      (omega (arith, +ℤ_parts v s, +ℤ_parts w s, +ℤ_parts (v +ℤ s) w, +ℤ_parts (w +ℤ s) v))

+ℤ-cons : (w a g s v : ℤ) → a +ℤ g ≡ s +ℤ v → w +ℤ a +ℤ g ≡ w +ℤ s +ℤ v
+ℤ-cons w a g s v h = eq_of_parts _ _ (
    omega (
      arith,
      +ℤ_parts w a,
      +ℤ_parts w s,
      +ℤ_parts (w +ℤ a) g,
      +ℤ_parts (w +ℤ s) v,
      +ℤ_parts a g,
      +ℤ_parts s v,
      ap pos_part h,
      ap neg_part h,
    ))

-- Assigning a hold takes the old one, or zero, out of the sum.
pub sum_values-insert :
    (k : Text) (v : ℤ) (d : Dict Text ℤ)
    → sum_values (insert k v d) +ℤ get_or (pos 0) k d ≡ sum_values d +ℤ v
sum_values-insert k v [] =
    eq_of_parts _ _
      (omega (arith, +ℤ_parts v (pos 0), +ℤ_parts (v +ℤ pos 0) (pos 0), +ℤ_parts (pos 0) v))
sum_values-insert k v ((j, w) ∷ d) = here (sum_values-insert k v d) (text_eq j k)
  where
    here :
        sum_values (insert k v d) +ℤ get_or (pos 0) k d ≡ sum_values d +ℤ v
        → (t : Bool)
        → sum_values (if t then (j, v) ∷ d else (j, w) ∷ insert k v d)
            +ℤ default (pos 0) (if t then some w else lookup k d)
          ≡ w +ℤ sum_values d +ℤ v
    here h true = +ℤ-swap v w (sum_values d)
    here h false = +ℤ-cons w (sum_values (insert k v d)) (get_or (pos 0) k d) (sum_values d) v h

sum_values-erase :
    (k : Text) (d : Dict Text ℤ) → sum_values (erase k d) +ℤ get_or (pos 0) k d ≡ sum_values d
sum_values-erase k [] = eq_of_parts _ _ (omega (arith, +ℤ_parts (pos 0) (pos 0)))
sum_values-erase k ((j, w) ∷ d) = here (sum_values-erase k d) (text_eq j k)
  where
    here :
        sum_values (erase k d) +ℤ get_or (pos 0) k d ≡ sum_values d
        → (t : Bool)
        → sum_values (if t then d else (j, w) ∷ erase k d)
            +ℤ default (pos 0) (if t then some w else lookup k d)
          ≡ w +ℤ sum_values d
    here h true =
        eq_of_parts _ _ (omega (arith, +ℤ_parts (sum_values d) w, +ℤ_parts w (sum_values d)))
    here h false =
        let rest = sum_values (erase k d) in
        let own = get_or (pos 0) k d in
        eq_of_parts _ _ (
          omega (
            arith,
            +ℤ_parts w rest,
            +ℤ_parts (w +ℤ rest) own,
            +ℤ_parts w (sum_values d),
            +ℤ_parts rest own,
            ap pos_part h,
            ap neg_part h,
          ))

pub get_or-insert : (k : Text) (v : ℤ) (d : Dict Text ℤ) → get_or (pos 0) k (insert k v d) ≡ v
get_or-insert k v d =
    ap (default (pos 0)) (
      lookup-insert k k v d ∙ ap (λ t. if t then some v else lookup k d) ((text_eq_iff k k).1 refl))

-- A hold that is assigned and given back takes with it the one it replaced.
pub sum_values-erase-insert :
    (k : Text) (v : ℤ) (d : Dict Text ℤ)
    → sum_values (erase k (insert k v d)) +ℤ get_or (pos 0) k d ≡ sum_values d
sum_values-erase-insert k v d =
    let rest = sum_values (erase k (insert k v d)) in
    let all = sum_values (insert k v d) in
    let own = get_or (pos 0) k d in
    let back : rest +ℤ v ≡ all =
      ap (λ x. rest +ℤ x) (sym (get_or-insert k v d)) ∙ sum_values-erase k (insert k v d) in
    let there = sum_values-insert k v d in
    eq_of_parts _ _ (
      omega (
        arith,
        +ℤ_parts rest v,
        +ℤ_parts rest own,
        +ℤ_parts all own,
        +ℤ_parts (sum_values d) v,
        ap pos_part back,
        ap neg_part back,
        ap pos_part there,
        ap neg_part there,
      ))

pub get_or-Holds : (k : Text) (d : Dict Text ℤ) → Holds d → pos 0 ≤ℤ get_or (pos 0) k d
get_or-Holds k [] h = omega arith
get_or-Holds k ((j, w) ∷ d) (p, h) = ground (arith, get_or-Holds k d h)

pub insert-Holds :
    (k : Text) (v : ℤ) (d : Dict Text ℤ) → Holds d → pos 0 ≤ℤ v → Holds (insert k v d)
insert-Holds k v [] h p = (p, tt)
insert-Holds k v ((j, w) ∷ d) (q, h) p = ground (arith, insert-Holds k v d h p)

module _ {F : Type 0} where
  pub ensure-reservations :
      (id : Text) (c : Coordinator F) → (ensure id c).reservations ≡ c.reservations
  unfolding ensure register
  ensure-reservations id c = ground arith

pub ensure_k : {F : Type 0} (id : Text) (c : Coordinator F) → (ensure id c).k ≡ c.k
unfolding ensure register
ensure_k id c = ground arith

pub complete-reservations :
    {F : Type 0} (id : Text) (c : Coordinator F)
    → (complete id c).reservations ≡ erase id c.reservations
unfolding complete
complete-reservations id c = refl

module _ {F W : Type 0} ⦃f : Float F⦄ (telemetry : Telemetry F W) (clock : Clock F W) where
  -- A step that may go on has a margin that fits what is free of the window.
  margin_fits :
      IsExact F
      → (r : Request F) (held : ℤ) (b : Budget F) (c : Coordinator F)
      → (decide (less held b) (ask telemetry clock r c)).action ≡ continue
      → margin telemetry clock r c ≤ℤ max_ℤ (pos 0) (b.remaining_tokens -ℤ held)
  margin_fits x r held b c h =
      let free = max_ℤ (pos 0) (b.remaining_tokens -ℤ held) in
      let share = f.mul c.k r.sigma in
      let fits = (decide-continue_iff (less held b) (ask telemetry clock r c)).0 h in
      leb_ℤ→le (margin telemetry clock r c) free
        (sym (x.ceil-le share r.estimated free) ∙ le_of_not-lt x.ordered _ _ fits.tokens)

  -- What a decision does to the holds.
  abbrev pub Booked : Request F → ℤ → Budget F → Coordinator F → Decision F → Coordinator F → Type 0
  Booked r held b c d c' =
      (d.action ≡ continue
        → (margin telemetry clock r c ≤ℤ max_ℤ (pos 0) (b.remaining_tokens -ℤ held))
          × (c'.reservations ≡ insert r.agent_id (margin telemetry clock r c) c.reservations))
      × (d.action ≢ continue → c'.reservations ≡ c.reservations)
      × (c'.k ≡ c.k)

  pub grant-Booked :
      IsExact F
      → (r : Request F) (extra : ℤ) (c : Coordinator F) (w : W) (b : Budget F)
      → (telemetry w).0 ≡ ok b
      → let (answer, c', w') = grant telemetry clock r extra c w in
        (d : Decision F) × (answer ≡ ok d) × Booked r (reserved c +ℤ extra) b c d c'
  unfolding grant judged settle
  grant-Booked x r extra c w b h =
      let held = reserved c +ℤ extra in
      let d = decide (less held b) (ask telemetry clock r c) in
      subst
        (λ reading.
          let (answer, c', w') = judged telemetry clock r held reading c (telemetry w).1 in
          (d : Decision F) × (answer ≡ ok d) × Booked r held b c d c')
        (sym h)
        (
          d,
          refl,
          (λ go. (margin_fits x r held b c go, ground arith), λ stop. ground arith, ground arith),
        )

  settle-reservations :
      (r : Request F) (go : Bool) (c : Coordinator F) (w : W)
      → go ≡ true
      → (settle telemetry clock r go c w).0.reservations
        ≡ insert r.agent_id (margin telemetry clock r c) c.reservations
  unfolding settle
  settle-reservations r true c w h = refl
  settle-reservations r false c w h = absurd (ground arith)

  judged-reservations :
      (r : Request F) (held : ℤ) (reading : Result F (Budget F)) (c : Coordinator F) (w : W)
      (d : Decision F)
      → (judged telemetry clock r held reading c w).0 ≡ ok d
      → is_go d.action ≡ true
      → (judged telemetry clock r held reading c w).1.reservations
        ≡ insert r.agent_id (margin telemetry clock r c) c.reservations
  unfolding judged
  judged-reservations r held (raise e) c w d h g = absurd (ground arith)
  judged-reservations r held (ok b) c w d h g =
      let made = decide (less held b) (ask telemetry clock r c) in
      let same : Path (Decision F) made d = cc in
      settle-reservations r (is_go made.action) c w (ap (λ v. is_go v.action) same ∙ g)

  -- A granted request has replaced the agent's hold, whatever it was.
  pub request-reservations :
      (r : Request F) (c : Coordinator F) (w : W) (d : Decision F)
      → (request telemetry clock r c w).0 ≡ ok d
      → is_go d.action ≡ true
      → (request telemetry clock r c w).1.reservations
        ≡ insert r.agent_id (margin telemetry clock r c) c.reservations
  unfolding request grant
  request-reservations r c w d h g =
      let c0 = ensure r.agent_id c in
      let own = get_or (pos 0) r.agent_id c0.reservations in
      judged-reservations r (reserved c0 +ℤ (pos 0 -ℤ own)) (telemetry w).0 c0 (telemetry w).1 d h g
      ∙ (λ i.
          insert r.agent_id (r.estimated +ℤ f.ceil (f.mul (ensure_k r.agent_id c i) r.sigma))
            (ensure-reservations r.agent_id c i))
