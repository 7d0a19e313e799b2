-- ===== src/Estimator/Tests.antt =====
-- Runs of the estimator, and its theorems at a short history.
use agentpause.Prelude.{
  inl, ℕ, suc, ◌*◌, ◌≤◌, ◌<◌, none, some, [], ◌∷◌, ◌++◌, ◌≡◌, ◌≢◌, List, refl, arith, length,
}
use agentpause.Prelude.Int.{ℤ, pos, ◌+ℤ◌, ◌-ℤ◌, ◌≤ℤ◌, max_ℤ}
use agentpause.Number.Fixed.{Milli, milli, milli_float, Milli-Truncates}
use agentpause.Number.{◌≼◌}
use agentpause.Errors.{ok, raise, foreign}
use agentpause.Estimator.{
  Estimator, base_estimate, samples, to_dict, load, epsilon, estimate, sigma, has_shifted, forget,
  relearned, learn, quantile_index, upper_estimate,
}
use agentpause.Estimator.History.{Shift, load-to_dict, learn_remembers}
use agentpause.Estimator.Quantile.{count_covered, upper_estimate_covers}

abbrev fresh : Estimator Milli
fresh = record {
  max_tokens = pos 650;
  tool_overhead = pos 280;
  min_estimate = pos 200;
  phase_window = some 2;
  phase_threshold = milli 2000;
  error_window = 3;
  recent_errors = [];
  all_errors = [];
  realized = [];
}

abbrev seen : Estimator Milli
seen = record fresh {
  recent_errors = pos 20 ∷ pos 10 ∷ pos 40 ∷ [];
  all_errors = pos 30 ∷ pos 20 ∷ pos 10 ∷ pos 40 ∷ [];
  realized = pos 960 ∷ pos 950 ∷ pos 940 ∷ pos 970 ∷ [];
}

program : Unit {0}
unfolding base_estimate samples to_dict load epsilon estimate sigma has_shifted forget relearned
    learn quantile_index upper_estimate max_ℤ ◌+ℤ◌ ◌-ℤ◌
program = tt

corrected : estimate seen (pos 100) ≡ pos 1053
unfolding program
corrected = refl

-- the error jumps from about 30 to 1030: the two last errors are the new history
shifted :
    (learn
      (record seen { all_errors = pos 30 ∷ pos 30 ∷ pos 1030 ∷ [] })
      (pos 0)
      (pos 1960)).1.all_errors
    ≡ pos 1030 ∷ pos 1030 ∷ []
unfolding program
shifted = refl

upper : upper_estimate seen (pos 100) (milli 750) 4 30 ≡ some (pos 1060)
unfolding program
upper = refl

load-to_dict_example : load (to_dict seen) fresh ≡ record fresh {
  recent_errors = seen.recent_errors;
  all_errors = seen.all_errors;
  realized = seen.realized;
}
load-to_dict_example = load-to_dict seen fresh (omega arith) (omega arith) (omega arith)

learn_remembers_example :
    let (r, e') = learn seen (pos 0) (pos 960) in
    let errors = seen.all_errors ++ ((pos 960 -ℤ base_estimate seen (pos 0)) ∷ []) in
    (samples e' ≡ suc (samples seen))
    × (length e'.recent_errors ≤ 3)
    × (seen.phase_window ≡ some 0 → (r ≡ raise foreign) × (e'.all_errors ≡ errors))
    × (seen.phase_window ≢ some 0 → r ≡ ok tt)
    × (seen.phase_window ≡ none → e'.all_errors ≡ errors)
    × ((n : ℕ) → seen.phase_window ≡ some n → length errors < 2 * n → e'.all_errors ≡ errors)
    × ((old prev recent : List ℤ)
        → seen.phase_window ≡ some (length recent)
        → 0 < length recent
        → length prev ≡ length recent
        → errors ≡ old ++ (prev ++ recent)
        → (Shift (milli 2000) prev recent → e'.all_errors ≡ recent)
          × (¬ Shift (milli 2000) prev recent → e'.all_errors ≡ errors))
learn_remembers_example = learn_remembers seen (pos 0) (pos 960)

upper_estimate_covers_example :
    (4 ≤ 4
      → (u : ℤ) × (upper_estimate seen (pos 100) (milli 750) 4 3 ≡ some u)
        × (pos 200 ≤ℤ u)
        × ((k : ℕ)
            → k ≤ 3
            → milli_float.of_int (pos k)
              ≼ milli_float.add (milli_float.mul (milli 750) (milli 3000)) (milli 999)
            → k ≤ count_covered (base_estimate seen (pos 100)) u (pos 20 ∷ pos 10 ∷ pos 40 ∷ [])))
    × (4 < 4 → upper_estimate seen (pos 100) (milli 750) 4 3 ≡ none)
upper_estimate_covers_example =
    upper_estimate_covers Milli-Truncates seen (pos 100) (milli 750) 4 3
      (pos 20 ∷ pos 10 ∷ pos 40 ∷ []) (omega arith) (pos 30 ∷ [], refl, inl (omega arith, refl))
