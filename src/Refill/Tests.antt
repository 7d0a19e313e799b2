-- ===== src/Refill/Tests.antt =====
-- Runs of the refill detector, and its theorems at concrete observations.
use agentpause.Prelude.{◌<◌, ◌≤◌, ◌↔◌, [], ◌∷◌, ◌≡◌, refl, arith, inl, inr, length}
use agentpause.Number.Fixed.{Milli, milli, milli_float}
use agentpause.Risk.{continuous, fixed, unknown}
use agentpause.Refill.{Detector, count_continuous, vote, feed, regime}
use agentpause.Refill.Votes.{IsValid, count_fixed, regime_iff, feed-IsValid, feeds, feeds-regime}

abbrev fresh : Detector Milli
fresh = record { min_gap_s = milli 2000; min_votes = 2; window = 3; votes = [] }

abbrev settled : Detector Milli
settled = record fresh { votes = fixed ∷ fixed ∷ continuous ∷ [] }

-- 300 tokens in three seconds, where 100 a second are implied; one token, which is flat
observed :
    (feed fresh (milli 3000) (milli 300_000) (milli 100_000)
      ≡ record fresh { votes = continuous ∷ [] })
    × (feed settled (milli 3000) (milli 1000) (milli 100_000)
        ≡ record fresh { votes = fixed ∷ continuous ∷ fixed ∷ [] })
    × (feed fresh (milli 1000) (milli 300_000) (milli 100_000) ≡ fresh)
    × (regime fresh ≡ unknown)
unfolding feed vote regime
observed = (refl, refl, refl, refl)

settled-IsValid : IsValid settled
settled-IsValid = record { bounded = omega arith; cast = (inr refl, (inr refl, (inl refl, tt))) }

regime_iff_example :
    ((regime settled ≡ continuous)
      ↔ ((2 ≤ length settled.votes) × (count_fixed settled.votes < count_continuous settled.votes)))
    × ((regime settled ≡ fixed) ↔ (
        (2 ≤ length settled.votes) × (count_continuous settled.votes < count_fixed settled.votes)))
regime_iff_example = regime_iff settled settled-IsValid

feed-IsValid_example : IsValid (feed settled (milli 3000) (milli 300_000) (milli 100_000))
feed-IsValid_example =
    feed-IsValid settled (milli 3000) (milli 300_000) (milli 100_000) settled-IsValid

feeds-regime_example :
    regime (feeds 3 settled (milli 3000) (milli 300_000) (milli 100_000)) ≡ continuous
feeds-regime_example =
    feeds-regime 3 settled continuous (milli 3000) (milli 300_000) (milli 100_000) settled-IsValid
      (record { spaced = refl; known = refl; shown = inl (refl, refl) }) (omega arith) (omega arith)
      (omega arith)
