-- ===== src/Attention/Presence.antt =====
-- What src/agentpause/attention.py promises: how presence and the window decide whether to ask.
use agentpause.Prelude.{
  ℕ, ◌-◌, ◌<◌, ◌≤◌, true, false, not, none, some, [], ◌∷◌, ◌≡◌, ◌↔◌, inl, inr, refl, ap, subst, sym,
  arith, Bool-cases, List-cases, ltb, length, length-append,
}
use agentpause.Prelude.Int.{pos, ◌≤ℤ◌, +ℤ_parts}
use agentpause.Number.{Float, nought}
use agentpause.Errors.{Result, ok}
use agentpause.World.{Clock}
use agentpause.Risk.{
  Budget, Ask, checkpoint, decide, requests_fit, at_least, wait_for, pause_or_suspend,
}
use agentpause.Quota.{until_first}
use agentpause.Quota.Window.{length-prune}
use agentpause.Attention.{
  Attention, available, prune_asks, sync_away_expiry, step_away, is_away, ready, until_return,
  wait_seconds, record_ask, remaining, attention_budget, present_budget, budget_from, as_budget,
  with_reset,
}

away_checkpoint :
    {F : Type 0} ⦃f : Float F⦄ (ask : Ask F)
    → pos 0 ≤ℤ ask.rpm_margin
    → (decide (attention_budget 0 none) ask).action ≡ checkpoint
unfolding decide pause_or_suspend wait_for requests_fit at_least
away_checkpoint ask h = ground (arith, +ℤ_parts (pos 1) ask.rpm_margin)

module _ {F W : Type 0} ⦃f : Float F⦄ (clock : Clock F W) where
  -- Someone who left with no return time is away until they say otherwise: nothing is asked, there
  -- is no wait to name, and the budget makes `decide` suspend every step whose margin of
  -- requests is not negative. After `available` none of this holds any more.
  pub away_suspends :
      (a : Attention F) (w : W) (ask : Ask F)
      → pos 0 ≤ℤ ask.rpm_margin
      → let (a', w') = step_away clock none a w in
        ((ready clock a' w').0 ≡ false)
        × ((wait_seconds clock a' w').0 ≡ ok none)
        × ((b : Budget F) × ((as_budget clock a' w').0 ≡ ok b)
            × ((decide b ask).action ≡ checkpoint))
        × ((is_away clock (available a') w').0 ≡ false)
  unfolding step_away ready wait_seconds as_budget budget_from is_away sync_away_expiry until_return
      available
  away_suspends a w ask h =
      (refl, refl, (attention_budget 0 none, refl, away_checkpoint ask h), refl)

  -- With a declared return time the person is away exactly until the clock reaches it.
  pub away_until_return :
      (a : Attention F) (w v : W) (d : F)
      → (is_away clock (step_away clock (some d) a w).0 v).0
        ≡ not (f.le (f.add (clock w).0 d) (clock v).0)
  unfolding step_away is_away sync_away_expiry
  away_until_return a w v d = ground arith

  -- For a person who is present, `remaining` counts what `ready` tests: one is positive exactly if
  -- the other is true.
  pub ready_iff_remaining :
      (a : Attention F) (w : W)
      → a.away ≡ false
      → ((ready clock a w).0 ≡ true) ↔ (0 < (remaining clock a w).0)
  unfolding ready is_away sync_away_expiry remaining
  ready_iff_remaining a w h = (λ r. ground arith, λ r. ground arith)

  is_away_present : (a : Attention F) (w : W) → a.away ≡ false → is_away clock a w ≡ (false, a, w)
  unfolding is_away sync_away_expiry
  is_away_present a w h = ground arith

  prune_asks_bounds :
      (a : Attention F) (w : W)
      → let a' = (prune_asks clock a w).0 in
        (length a'.asks ≤ length a.asks) × (a'.max_asks ≡ a.max_asks)
  unfolding prune_asks
  prune_asks_bounds a w = (length-prune _ _, refl)

  remaining_bounds :
      (a : Attention F) (w : W)
      → let (left, a', _) = remaining clock a w in
        (left ≡ a'.max_asks - length a'.asks) × (a'.max_asks ≡ a.max_asks)
  unfolding remaining prune_asks
  remaining_bounds a w = (refl, refl)

  ready_room :
      (a : Attention F) (w : W)
      → (ready clock a w).0 ≡ true
      → let a' = (ready clock a w).1 in (length a'.asks < a'.max_asks) × (a'.max_asks ≡ a.max_asks)
  unfolding ready is_away sync_away_expiry prune_asks
  ready_room a w h = ground arith

  record_ask_room :
      (a : Attention F) (w : W)
      → length a.asks < a.max_asks
      → let a' = (record_ask clock a w).0 in
        (a'.max_asks ≡ a.max_asks) × (0 < length a'.asks) × (length a'.asks ≤ a.max_asks)
  unfolding record_ask
  record_ask_room a w h =
      let (a', w') = prune_asks clock a w in
      omega (arith, prune_asks_bounds a w, length-append a'.asks ((clock w').0 ∷ []))

  -- What `as_budget` has to say of a person who is present.
  abbrev Offers : Attention F → Result F (Budget F) → Type 0
  Offers a r =
      (b : Budget F) × (left : ℕ) × (r ≡ ok b)
      × (b.remaining_requests ≡ some (pos left))
      × (left ≤ a.max_asks)
      × (0 < left → b.reset_requests_seconds ≡ some nought)

  present_budget-Offers :
      (a : Attention F) (w : W) → 0 < a.max_asks → Offers a (present_budget clock a w).0
  unfolding present_budget with_reset until_first
  present_budget-Offers a w p =
      let (a1, w1) = prune_asks clock a w in
      let (left, a2, w2) = remaining clock a1 w1 in
      let few = remaining_bounds a1 w1 in
      let most = prune_asks_bounds a w in
      elim (Bool-cases (ltb 0 left)) [
        | inl some_left ↦ (
          attention_budget left (some nought),
          left,
          rw some_left refl,
          refl,
          omega (arith, few, most),
          λ q. refl,
        )
        | inr none_left ↦ elim (List-cases a2.asks) [
          | inl e ↦ absurd (ground (arith, few, most))
          | inr (t, ts, e) ↦ (
            attention_budget left (some (f.sub (f.add t a2.window_s) (clock w2).0)),
            left,
            ground arith,
            refl,
            omega (arith, few, most),
            λ q. absurd (ground arith),
          )
        ]
      ]

  -- For a person who is present, and a window that has room for at least one question, `as_budget`
  -- never raises and offers at most `max_asks` requests; if it offers any it also says that they are
  -- to be had now.
  pub as_budget_present :
      (a : Attention F) (w : W)
      → a.away ≡ false
      → 0 < a.max_asks
      → (b : Budget F) × (left : ℕ) × ((as_budget clock a w).0 ≡ ok b)
        × (b.remaining_requests ≡ some (pos left))
        × (left ≤ a.max_asks)
        × (0 < left → b.reset_requests_seconds ≡ some nought)
  unfolding as_budget budget_from
  as_budget_present a w h p =
      let here = ap (λ r. (budget_from clock r).0) (is_away_present a w h) in
      subst (Offers a) (sym here) (present_budget-Offers a w p)

  -- A question asked when `ready` has just said yes is remembered, and at most `max_asks` questions
  -- are remembered afterwards.
  pub record_ask_bounded :
      (a : Attention F) (w : W)
      → let (yes_, a1, w1) = ready clock a w in
        yes_ ≡ true
        → let a2 = (record_ask clock a1 w1).0 in
          (a2.max_asks ≡ a.max_asks) × (0 < length a2.asks) × (length a2.asks ≤ a.max_asks)
  record_ask_bounded a w h =
      let (yes_, a1, w1) = ready clock a w in
      let room = ready_room a w h in omega (arith, room, record_ask_room a1 w1 room.0)
