-- ===== src/Local/Windows.antt =====
-- What the sources of src/agentpause/adapters/local_resources.py report: no clock refills a context
-- window or a GPU, and a failed read is a TelemetryError.
use agentpause.Prelude.{
  Option, none, some, ◌≡◌, ◌≢◌, refl, sym, ap, ◌∙◌, arith, inl, inr, Bool-cases,
}
use agentpause.Prelude.Int.{ℤ, pos, ◌-ℤ◌, max_ℤ}
use agentpause.Number.{Float}
use agentpause.Errors.{
  Error, Result, ok, raise, kv_error, telemetry_error, ok-ne-raise, Result-cases,
}
use agentpause.Risk.{Budget, Ask, wait, decide, wait_for, requests_fit, at_least, pause_or_suspend}
use agentpause.Json.{Json, Items, no_items, item}
use agentpause.Slots.{get_props, get_slot, pick, slot_in, bind, as_kv_error, unwrap, has_id}
use agentpause.Local.Sources.{
  windowed, ContextBudget, blind, required, context_left, after_slot, after_props, context_budget,
  Extractor,
}

module _ {F : Type 0} ⦃f : Float F⦄ where
  decide-windowed :
      (remaining limit : ℤ) (a : Ask F) → (decide (windowed remaining limit) a).action ≢ wait
  unfolding decide wait_for requests_fit at_least pause_or_suspend
  decide-windowed remaining limit a h = ground arith

module _ {F S : Type 0} ⦃f : Float F⦄ (c : ContextBudget F S) where
  required_ok : (r : Result F (Option ℤ)) (n : ℤ) → required c r ≡ ok n → r ≡ ok (some n)
  unfolding required
  required_ok (raise e) n h = absurd cc
  required_ok (ok none) n h = absurd cc
  required_ok (ok (some m)) n h = cc

  -- What a context budget that was read says: the context less what is used and the margin, if that
  -- is positive, out of the whole context.
  abbrev Window : Budget F → Type 0
  Window b =
      (props slot : Json F) × (size used : ℤ) × (c.context_field props ≡ ok (some size))
      × (c.used_field slot ≡ ok (some used))
      × (b ≡ windowed (max_ℤ (pos 0) (size -ℤ used -ℤ c.safety_margin_tokens)) size)

  context_left_ok :
      (props slot : Json F) (b : Budget F) → context_left c props slot ≡ ok b → Window b
  unfolding context_left bind
  context_left_ok props slot b =
      go (required c (c.context_field props)) (required c (c.used_field slot)) refl refl
    where
      go :
          (size used : Result F ℤ)
          → required c (c.context_field props) ≡ size
          → required c (c.used_field slot) ≡ used
          → (bind size λ n.
              bind used λ m. ok (windowed (max_ℤ (pos 0) (n -ℤ m -ℤ c.safety_margin_tokens)) n))
            ≡ ok b
          → Window b
      go (raise e) used p q h = absurd cc
      go (ok n) (raise e) p q h = absurd cc
      go (ok n) (ok m) p q h = (
        props,
        slot,
        n,
        m,
        required_ok (c.context_field props) n p,
        required_ok (c.used_field slot) m q,
        cc,
      )

  after_slot_ok :
      (props : Json F) (r : Result F (Json F)) (s : S) (b : Budget F)
      → (after_slot c props (r, s)).0 ≡ ok b
      → Window b
  unfolding after_slot blind
  after_slot_ok props (raise e) s b h = absurd (ground arith)
  after_slot_ok props (ok slot) s b h = context_left_ok props slot b h

  context_budget-Window :
      (r : Result F (Json F)) (s : S) (b : Budget F) → (after_props c (r, s)).0 ≡ ok b → Window b
  unfolding after_props blind
  context_budget-Window (raise e) s b h = absurd (ground arith)
  context_budget-Window (ok props) s b h =
      let (r, s') = get_slot c.reading c.slots c.base_url c.id_slot s in
      after_slot_ok props r s' b h

  -- A context budget never lets the agent wait: no clock refills a context window, so a step that
  -- does not fit suspends at once.
  pub context_budget_never_waits :
      (s : S) (b : Budget F) (a : Ask F)
      → (context_budget c s).0 ≡ ok b
      → (decide b a).action ≢ wait
  unfolding context_budget
  context_budget_never_waits s b a h w =
      let (r, s') = get_props c.reading c.slots c.base_url s in
      let (props, slot, size, used, p, q, same) = context_budget-Window r s' b h in
      decide-windowed (max_ℤ (pos 0) (size -ℤ used -ℤ c.safety_margin_tokens)) size a
        (ap (λ x. (decide x a).action) (sym same) ∙ w)

  as_kv_error_raise :
      {A : Type 0} (r : Result F A) (e : Error F) → as_kv_error r ≡ raise e → e ≡ kv_error
  unfolding as_kv_error
  as_kv_error_raise (ok a) e h = absurd (ok-ne-raise a e h)
  as_kv_error_raise (raise e') e h = cc

  -- a slot that is not there is a KVError
  slot_in_raise :
      (id : ℤ) (xs : Items F) (e : Error F)
      → slot_in c.reading c.slots id xs ≡ raise e
      → e ≡ kv_error
  unfolding slot_in
  slot_in_raise id no_items e = λ h. cc
  slot_in_raise id (item x xs) e = elim (Bool-cases (has_id c.reading c.slots id x)) [
    | inl mine ↦ rw mine λ h. absurd (ok-ne-raise x e h)
    | inr other ↦ rw other (slot_in_raise id xs e)
  ]

  pick_raise :
      (id : ℤ) (j : Json F) (e : Error F) → pick c.reading c.slots id j ≡ raise e → e ≡ kv_error
  unfolding pick
  pick_raise id (Json.array xs) e h = slot_in_raise id xs e h
  pick_raise id Json.null e h = cc
  pick_raise id (Json.truth b) e h = cc
  pick_raise id (Json.int n) e h = cc
  pick_raise id (Json.real x) e h = cc
  pick_raise id (Json.str s) e h = cc
  pick_raise id (Json.object d) e h = cc

  slot_raise :
      (r : Result F (Json F)) (id : ℤ) (e : Error F)
      → (bind (as_kv_error r) λ b. pick c.reading c.slots id (unwrap c.reading c.slots b)) ≡ raise e
      → e ≡ kv_error
  unfolding bind as_kv_error
  slot_raise (ok j) id e h = pick_raise id (unwrap c.reading c.slots j) e h
  slot_raise (raise e') id e h = cc

  -- an extractor that raises nothing but what is caught
  abbrev pub IsGentle : Extractor F → Type 0
  IsGentle g = (j : Json F) (e : Error F) → g j ≢ raise e

  required_raise :
      (r : Result F (Option ℤ)) (e : Error F)
      → ((e' : Error F) → r ≢ raise e')
      → required c r ≡ raise e
      → e ≡ telemetry_error
  unfolding required
  required_raise (raise e') e gentle h = absurd (gentle e' refl)
  required_raise (ok none) e gentle h = cc
  required_raise (ok (some n)) e gentle h = absurd (ok-ne-raise n e h)

  abbrev raise_of : Error F → Result F (Budget F)
  raise_of e = raise e

  raise_injective : {e e' : Error F} → raise_of e ≡ raise_of e' → e ≡ e'
  raise_injective h = cc

  module _ (context_gentle : IsGentle c.context_field) (used_gentle : IsGentle c.used_field) where
    context_left_raise :
        (props slot : Json F) (e : Error F)
        → context_left c props slot ≡ raise e
        → e ≡ telemetry_error
    unfolding context_left bind
    context_left_raise props slot e h = elim (Result-cases (required c (c.context_field props))) [
      | inr (e', failed) ↦
          let same : e' ≡ e = raise_injective (rw failed at h) in
          sym same ∙ required_raise (c.context_field props) e' (context_gentle props) failed
      | inl (n, sized) ↦ elim (Result-cases (required c (c.used_field slot))) [
        | inr (e', failed) ↦
            let same : e' ≡ e = raise_injective (rw (sized, failed) at h) in
            sym same ∙ required_raise (c.used_field slot) e' (used_gentle slot) failed
        | inl (m, used) ↦ absurd (ok-ne-raise _ e (rw (sized, used) at h))
      ]
    ]

    after_slot_raise :
        (props : Json F) (r : Result F (Json F)) (s : S) (e : Error F)
        → ((e' : Error F) → r ≡ raise e' → e' ≡ kv_error)
        → (after_slot c props (r, s)).0 ≡ raise e
        → e ≡ telemetry_error
    unfolding after_slot blind
    after_slot_raise props (raise e') s e kv h = let same = kv e' refl in cc (rw same at h)
    after_slot_raise props (ok slot) s e kv h = context_left_raise props slot e h

    after_props_raise :
        (r : Result F (Json F)) (s : S) (e : Error F)
        → ((e' : Error F) → r ≡ raise e' → e' ≡ kv_error)
        → (after_props c (r, s)).0 ≡ raise e
        → e ≡ telemetry_error
    unfolding after_props blind get_slot
    after_props_raise (raise e') s e kv h = let same = kv e' refl in cc (rw same at h)
    after_props_raise (ok props) s e kv h =
        let (r, s') = get_slot c.reading c.slots c.base_url c.id_slot s in
        after_slot_raise props r s' e (λ e'. slot_raise _ c.id_slot e') h

    -- A context budget that cannot be read raises a TelemetryError, whatever the server did: it is
    -- down, it has no such slot, or its bodies do not hold the counts. The two extractors raise
    -- nothing but KeyError, TypeError or ValueError.
    pub context_budget_blind :
        (s : S) (e : Error F) → (context_budget c s).0 ≡ raise e → e ≡ telemetry_error
    unfolding context_budget get_props
    context_budget_blind s e h =
        let (r, s') = get_props c.reading c.slots c.base_url s in
        after_props_raise r s' e (λ e'. as_kv_error_raise _ e') h
