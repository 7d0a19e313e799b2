-- ===== src/Compat/Freshness.antt =====
-- A reading that is fresh enough, in src/agentpause/adapters/openai_compat.py: it is served from the
-- cache, with its resets advanced by its age.
use agentpause.Prelude.{true, Option, none, some, ◌≡◌, refl, arith, Bool-cases, inl, inr}
use agentpause.Number.{Float, nought, max_f, truthy, ◌≼◌, IsExact}
use agentpause.Number.Order.{le-max_f, le-add}
use agentpause.Errors.{Result, ok}
use agentpause.Text.{Text}
use agentpause.World.{Clock}
use agentpause.Risk.{Budget}
use agentpause.Json.{Reading}
use agentpause.Refill.{Detector, regime}
use agentpause.Compat.{Post, Adapter, aged, sooner, with_regime, is_known}
use agentpause.Compat.Serving.{fresh_at, age_adjusted, served_from, budget_if, budget}

module _ {F : Type 0} ⦃f : Float F⦄ where
  -- A reset that is not negative, or none.
  abbrev pub IsAhead : Option F → Type 0
  IsAhead none = Unit
  IsAhead (some x) = nought ≼ x

  -- What an earlier reading of a reset becomes: no later than it was, and not negative.
  abbrev pub IsSooner : Option F → Option F → Type 0
  IsSooner none o = o ≡ none
  IsSooner (some x) o = (y : F) × (o ≡ some y) × (y ≼ x) × (nought ≼ y)

  module _ (exact : IsExact F) where
    open exact use {ordered, le-sub}
    open ordered use {le_refl}

    sub-le_self : (x age : F) → nought ≼ age → f.sub x age ≼ x
    sub-le_self x age h = rw (le-sub x age x) (le-add exact x age h)

    pub sooner-IsSooner :
        (age : F) (o : Option F) → nought ≼ age → IsAhead o → IsSooner o (sooner age o)
    unfolding sooner
    sooner-IsSooner age none h p = refl
    sooner-IsSooner age (some x) h p =
        let left = f.sub x age in
        let shrinks = sub-le_self x age h in
        (max_f nought left, refl, ground (arith, shrinks, p), (le-max_f ordered nought left).0)

    IsSooner-self : (o : Option F) → IsAhead o → IsSooner o o
    IsSooner-self none p = refl
    IsSooner-self (some x) p = (x, refl, le_refl x, p)

    -- a reading that is served later
    abbrev pub Served : Budget F → Budget F → Type 0
    Served b out =
        (out.remaining_tokens ≡ b.remaining_tokens)
        × (out.remaining_requests ≡ b.remaining_requests)
        × IsSooner b.reset_seconds out.reset_seconds
        × IsSooner b.reset_requests_seconds out.reset_requests_seconds

    aged-Served :
        (age : F) (b : Budget F)
        → nought ≼ age
        → IsAhead b.reset_seconds
        → IsAhead b.reset_requests_seconds
        → Served b (aged age b)
    unfolding aged
    aged-Served age b h p q = elim (Bool-cases (truthy age)) [
      | inl old ↦ rw old (
        refl,
        refl,
        sooner-IsSooner age b.reset_seconds h p,
        sooner-IsSooner age b.reset_requests_seconds h q,
      )
      | inr new ↦
          rw new
            (refl, refl, IsSooner-self b.reset_seconds p, IsSooner-self b.reset_requests_seconds q)
    ]

    Served-regime :
        (d : Detector F) (b out : Budget F) → Served (with_regime d b) out → Served b out
    unfolding with_regime
    Served-regime d b out h = elim (Bool-cases (is_known (regime d))) [
      | inl found ↦ rw found at h
      | inr unsure ↦ rw unsure at h
    ]

    IsAhead-regime :
        (d : Detector F) (b : Budget F)
        → IsAhead b.reset_seconds
        → IsAhead b.reset_requests_seconds
        → IsAhead (with_regime d b).reset_seconds × IsAhead (with_regime d b).reset_requests_seconds
    unfolding with_regime
    IsAhead-regime d b p q = elim (Bool-cases (is_known (regime d))) [
      | inl found ↦ rw found (p, q)
      | inr unsure ↦ rw unsure (p, q)
    ]

module _ {F W : Type 0} ⦃f : Float F⦄ (exact : IsExact F) (r : Reading F)
    (until : Text → Result F (Option F)) (post : Post F W) (clock : Clock F W) where
  -- Without rounding, a reading that is no older than the limit is served without a request, after
  -- two looks at the clock: the tokens and requests are those of the cache, and each reset, none of
  -- which is negative, has come no further away and is still not negative.
  pub budget_fresh :
      (a : Adapter F) (b : Budget F) (t : F) (w : W)
      → a.cached ≡ some b
      → a.read_at ≡ some t
      → f.le (f.sub (clock w).0 t) a.max_age_s ≡ true
      → IsAhead b.reset_seconds
      → IsAhead b.reset_requests_seconds
      → let run = budget r until post clock a w in
        (out : Budget F) × (run.result ≡ ok out)
        × Served exact b out
        × (run.world ≡ (clock (clock w).1).1)
  unfolding budget fresh_at budget_if served_from age_adjusted
  budget_fresh a b t w held read young p q =
      let w' = (clock w).1 in
      let age = max_f nought (f.sub (clock w').0 t) in
      let b' = with_regime a.detector b in
      let ahead = IsAhead-regime exact a.detector b p q in
      let served =
        aged-Served exact age b' (le-max_f exact.ordered nought (f.sub (clock w').0 t)).0 ahead.0
          ahead.1 in
      (
        aged age b',
        rw (read, fresh_at, young, budget_if, held, served_from, age_adjusted) refl,
        Served-regime exact a.detector b (aged age b') served,
        rw (read, fresh_at, young, budget_if, held, served_from, age_adjusted) refl,
      )
