-- ===== src/Risk/Decide.antt =====
-- What the decision rule of src/agentpause/risk.py guarantees.
use agentpause.Prelude.{Bool, true, false, Option, none, some, ◌≡◌, ◌↔◌, refl, arith}
use agentpause.Prelude.Int.{ℤ, pos, leb_ℤ, ◌+ℤ◌, ◌≤ℤ◌, leb_ℤ→le, le→leb_ℤ}
use agentpause.Number.{Float, ◌≼◌}
use agentpause.Risk.{
  Budget, Ask, continue, decide, demand, covers, at_least, tokens_fit, requests_fit, input_fit,
  output_fit, time_fit, should_checkpoint, pause_or_suspend,
}

-- A known budget meets a known demand.
abbrev pub Covered : {A : Type 0} → (A → A → Type 0) → Option A → Option A → Type 0
Covered {A} R r w = (x y : A) → r ≡ some x → w ≡ some y → R y x

pub covers-Covered :
    {A : Type 0} (le : A → A → Bool) (r w : Option A)
    → (covers le r w ≡ true) ↔ Covered (λ x y. le x y ≡ true) r w
unfolding covers
covers-Covered le none w = (λ h x y p q. cc, λ h. refl)
covers-Covered le (some r) none = (λ h x y p q. cc, λ h. refl)
covers-Covered le (some r) (some w) = (λ h x y p q. ground arith, λ h. h r w refl refl)

pub at_least_iff : (r : Option ℤ) (n : ℤ) → (at_least r n ≡ true) ↔ ((x : ℤ) → r ≡ some x → n ≤ℤ x)
unfolding at_least
at_least_iff none n = (λ h x p. cc, λ h. refl)
at_least_iff (some r) n = (λ h x p. ground arith, λ h. le→leb_ℤ n r (h r refl))

module _ {F : Type 0} ⦃f : Float F⦄ where
  -- The step fits every dimension that is known.
  pub record Fits (b : Budget F) (a : Ask F) : Type 0 where
    pub tokens : f.lt (f.of_int b.remaining_tokens) (demand a.estimated a.sigma a.k) ≡ false
    pub requests : (r : ℤ) → b.remaining_requests ≡ some r → pos 1 +ℤ a.rpm_margin ≤ℤ r
    pub input : Covered ◌≤ℤ◌ b.remaining_input_tokens a.estimated_input
    pub output : Covered ◌≤ℤ◌ b.remaining_output_tokens a.estimated_output
    pub time : Covered ◌≼◌ b.remaining_seconds a.estimated_latency

  -- `decide` continues exactly when the five tests pass.
  pub continue_iff_tests :
      (b : Budget F) (a : Ask F)
      → ((decide b a).action ≡ continue) ↔ (
          (tokens_fit b a ≡ true)
          × (requests_fit b a ≡ true)
          × (input_fit b a ≡ true)
          × (output_fit b a ≡ true)
          × (time_fit b a ≡ true))
  unfolding decide pause_or_suspend
  continue_iff_tests b a = (λ h. ground arith, λ h. ground arith)

  -- `decide` answers `continue` exactly when the step fits every dimension that the reading knows.
  pub decide-continue_iff : (b : Budget F) (a : Ask F) → ((decide b a).action ≡ continue) ↔ Fits b a
  unfolding tokens_fit requests_fit input_fit output_fit time_fit should_checkpoint
  decide-continue_iff b a = (
    λ h.
        let (t, r, i, o, s) = (continue_iff_tests b a).0 h in
        record {
          tokens = ground arith;
          requests = (at_least_iff _ _).0 r;
          input = λ x y p q. leb_ℤ→le y x ((covers-Covered leb_ℤ _ _).0 i x y p q);
          output = λ x y p q. leb_ℤ→le y x ((covers-Covered leb_ℤ _ _).0 o x y p q);
          time = (covers-Covered f.le _ _).0 s;
        },
    λ h. (continue_iff_tests b a).1 (
      rw (h.tokens) refl,
      (at_least_iff _ _).1 h.requests,
      (covers-Covered leb_ℤ _ _).1 (λ x y p q. le→leb_ℤ y x (h.input x y p q)),
      (covers-Covered leb_ℤ _ _).1 (λ x y p q. le→leb_ℤ y x (h.output x y p q)),
      (covers-Covered f.le _ _).1 h.time,
    ),
  )
