-- ===== src/Risk/Score.antt =====
-- `RiskModel` of src/agentpause/risk.py: the weighted risk score.
use agentpause.Prelude.{true, ◌≡◌}
use agentpause.Prelude.Int.{ℤ, pos, ◌≤ℤ◌, max_ℤ, max_ℤ_bounds}
use agentpause.Number.{Float, ◌≼◌, IsMonotone, nought, max_f}
use agentpause.Number.Order.{lt-lt_of_le, le-max_f}

pub record RiskModel (F : Type 0) : Type 0 where
  pub w1 : F
  pub w2 : F
  pub w3 : F

-- The arguments of `score`.
pub record Load (F : Type 0) : Type 0 where
  pub estimated : ℤ
  pub remaining : ℤ
  pub context_tokens : ℤ
  pub context_max : ℤ
  pub cost_estimate : F
  pub budget_remaining : F

module _ {F : Type 0} ⦃f : Float F⦄ where
  open f use {of_int, lit, add, mul, div}

  pub score : RiskModel F → Load F → F
  score m l =
      let rate = div (of_int l.estimated) (of_int (max_ℤ l.remaining (pos 1))) in
      let ctx = div (of_int l.context_tokens) (of_int (max_ℤ l.context_max (pos 1))) in
      let econ = div l.cost_estimate (max_f l.budget_remaining (lit 1 1_000_000_000)) in
      add (add (mul m.w1 rate) (mul m.w2 ctx)) (mul m.w3 econ)

  ratio_mono :
      (x : IsMonotone F) (w : F) (a a' d : ℤ)
      → nought ≼ w
      → a ≤ℤ a'
      → mul w (div (of_int a) (of_int (max_ℤ d (pos 1))))
        ≼ mul w (div (of_int a') (of_int (max_ℤ d (pos 1))))
  ratio_mono x w a a' d p h = x.mul_mono _ _ _ p (
      x.div_mono _ _ _ (x.of_int_mono a a' h)
        (x.of_int_pos (max_ℤ d (pos 1)) (max_ℤ_bounds d (pos 1)).1))

  -- Under monotone rounding, with weights of zero or more and money left, the score does not fall when the estimate, the
  -- context or the cost grows and all else stays.
  pub score_mono :
      (m : RiskModel F) (l : Load F) (estimated context_tokens : ℤ) (cost : F)
      → IsMonotone F
      → nought ≼ m.w1
      → nought ≼ m.w2
      → nought ≼ m.w3
      → f.lt nought l.budget_remaining ≡ true
      → l.estimated ≤ℤ estimated
      → l.context_tokens ≤ℤ context_tokens
      → l.cost_estimate ≼ cost
      → score m l
        ≼ score m (record l {
          estimated = estimated;
          context_tokens = context_tokens;
          cost_estimate = cost;
        })
  unfolding score
  score_mono m l e c cost x p1 p2 p3 left h1 h2 h3 =
      x.add_mono _ _ _ _
        (x.add_mono _ _ _ _ (ratio_mono x m.w1 l.estimated e l.remaining p1 h1)
          (ratio_mono x m.w2 l.context_tokens c l.context_max p2 h2))
        (x.mul_mono _ _ _ p3 (
          x.div_mono _ _ _ h3 (
            lt-lt_of_le x.ordered nought l.budget_remaining
              (max_f l.budget_remaining (lit 1 1_000_000_000)) left
              (le-max_f x.ordered l.budget_remaining (lit 1 1_000_000_000)).0)))
