-- ===== src/Refill.antt =====
-- src/agentpause/refill.py: the online detector of a provider's refill regime.
pub mod Votes
mod Tests
use agentpause.Prelude.{
  ℕ, suc, ◌+◌, ◌-◌, Bool, true, false, ◌||◌, List, [], ◌∷◌, if◌then◌else◌, ltb, length,
  push_bounded,
}
use agentpause.Number.{Float, nought}
use agentpause.Risk.{Regime, continuous, fixed, unknown}

-- `votes` is the deque of at most `window` votes; only `continuous` and `fixed` are cast.
pub record Detector (F : Type 0) : Type 0 where
  pub min_gap_s : F
  pub min_votes : ℕ
  pub window : ℕ
  pub votes : List Regime

-- `sum(1 for v in votes if v == "continuous")`
abbrev pub count_continuous : List Regime → ℕ
count_continuous [] = 0
count_continuous (continuous ∷ vs) = suc (count_continuous vs)
count_continuous (fixed ∷ vs) = count_continuous vs
count_continuous (unknown ∷ vs) = count_continuous vs

module _ {F : Type 0} ⦃f : Float F⦄ where
  abbrev continuous_ratio : F
  continuous_ratio = f.lit 5 10

  abbrev fixed_ratio : F
  fixed_ratio = f.lit 1 10

  unfoldable pub vote : Detector F → Regime → Detector F
  vote d v = record d { votes = push_bounded d.window d.votes v }

  -- the observed refill rate over the implied one
  abbrev pub ratio : F → F → F → F
  ratio dt dr implied_rate = f.div (f.div dr dt) implied_rate

  unfoldable pub feed : Detector F → F → F → F → Detector F
  feed d dt dr implied_rate =
      if f.lt dt d.min_gap_s || f.le implied_rate nought
      then d
      else let r = ratio dt dr implied_rate in
        if f.le continuous_ratio r
        then vote d continuous
        else if f.le r fixed_ratio
        then vote d fixed
        else d

unfoldable pub regime : {F : Type 0} → Detector F → Regime
regime d =
    let cont = count_continuous d.votes in
    let others = length d.votes - cont in
    if ltb (length d.votes) d.min_votes
    then unknown
    else if ltb others cont
    then continuous
    else if ltb cont others
    then fixed
    else unknown
