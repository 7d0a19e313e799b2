-- ===== src/Estimator/History.antt =====
-- What the estimator of src/agentpause/estimator.py remembers.
use mathlib.Core.List.{append_assoc}
use agentpause.Prelude.{
  ℕ, suc, ◌*◌, ◌≤◌, leb, Bool, true, Option, none, some, List, [], ◌∷◌, ◌++◌, ◌≡◌, inl, inr, refl,
  ap, arith, if◌then◌else◌, length, take_last, length-append, length-push_bounded, push_bounded,
  take, take_last-append, take_last_whole, take-length-append, ◌∙◌, sym, ◌↔◌, ◌≢◌, ◌<◌, zero,
  Bool-cases,
}
use agentpause.Prelude.Int.{ℤ, pos, ◌-ℤ◌}
use agentpause.Number.{Float, max_f}
use agentpause.Errors.{Result, ok, raise, foreign}
use agentpause.Estimator.{
  Estimator, base_estimate, samples, to_dict, load, learn, relearned, forget, has_shifted, mean,
  deviation, abs_f,
}

-- Saved statistics come back: for a history of at most 200 steps and at most `error_window` recent
-- errors, loading what `to_dict` gives puts the history of that estimator into any estimator with
-- the same window.
pub load-to_dict :
    {F : Type 0} (e e0 : Estimator F)
    → length e.all_errors ≤ 200
    → length e.realized ≤ 200
    → length e.recent_errors ≤ e0.error_window
    → load (to_dict e) e0 ≡ record e0 {
      recent_errors = e.recent_errors;
      all_errors = e.all_errors;
      realized = e.realized;
    }
unfolding load to_dict
load-to_dict e e0 a r w = λ i. record e0 {
  recent_errors = take_last_whole e0.error_window e.recent_errors w i;
  all_errors = take_last_whole 200 e.all_errors a i;
  realized = take_last_whole 200 e.realized r i;
}

-- the two windows at the end of a history
windows :
    (old prev recent : List ℤ)
    → length prev ≡ length recent
    → let errors = old ++ (prev ++ recent) in
      let w = length recent in
      (take_last w errors ≡ recent)
      × (take w (take_last (2 * w) errors) ≡ prev)
      × (2 * w ≤ length errors)
windows old prev recent same =
    let errors = old ++ (prev ++ recent) in
    let w = length recent in
    let both : 2 * w ≡ length (prev ++ recent) = omega (arith, same, length-append prev recent) in
    let split : errors ≡ (old ++ prev) ++ recent = sym (append_assoc old prev recent) in
    (
      ap (take_last w) split ∙ take_last-append (old ++ prev) recent,
      ap (λ n. take w (take_last n errors)) both
          ∙ ap (take w) (take_last-append old (prev ++ recent))
          ∙ ap (λ n. take n (prev ++ recent)) (sym same)
          ∙ take-length-append prev recent,
      omega (arith, both, length-append old (prev ++ recent)),
    )

module _ {F : Type 0} ⦃f : Float F⦄ where
  -- A coherent shift from `prev` to `recent`, both of the same length: the means are far apart, for the
  -- spread of the earlier window, a tenth of its mean and 10, and the later window is tight for its
  -- own mean.
  pub record Shift (threshold : F) (prev recent : List ℤ) : Type 0 where
    pub jump :
        let p : F = mean prev (length recent) in
        let q : F = mean recent (length recent) in
        f.lt
          (f.mul threshold (
            max_f
              (max_f (deviation prev (length recent)) (f.mul (abs_f p) (f.lit 1 10)))
              (f.of_int (pos 10))))
          (abs_f (f.sub q p))
        ≡ true
    pub tight :
        f.le (deviation recent (length recent)) (
          f.mul
            (max_f (f.mul (abs_f (mean recent (length recent))) (f.lit 1 10)) (f.of_int (pos 10)))
            threshold)
        ≡ true

  has_shifted-Shift :
      (threshold : F) (old prev recent : List ℤ)
      → length prev ≡ length recent
      → (has_shifted threshold (length recent) (old ++ (prev ++ recent)) ≡ true)
        ↔ Shift threshold prev recent
  unfolding has_shifted
  has_shifted-Shift threshold old prev recent same =
      let (last, before, _) = windows old prev recent same in
      rw (last, before)
        (
          λ h. record { jump = ground (arith, h); tight = ground (arith, h) },
          λ s. ground (arith, s.jump, s.tight),
        )

  relearned_frame :
      (kept : Result F (List ℤ)) (e : Estimator F)
      → let e' = (relearned kept e).1 in
        (e'.realized ≡ e.realized) × (e'.recent_errors ≡ e.recent_errors)
  unfolding relearned
  relearned_frame (ok kept) e = (refl, refl)
  relearned_frame (raise x) e = (refl, refl)

  relearned_ok :
      (found : Result F (List ℤ)) (kept : List ℤ) (e : Estimator F)
      → found ≡ ok kept
      → let (r, e') = relearned found e in (r ≡ ok tt) × (e'.all_errors ≡ kept)
  unfolding relearned
  relearned_ok found kept e h = rw h (refl, refl)

  relearned_stuck :
      (found : Result F (List ℤ)) (e : Estimator F)
      → found ≡ raise foreign
      → let (r, e') = relearned found e in (r ≡ raise foreign) × (e'.all_errors ≡ e.all_errors)
  unfolding relearned
  relearned_stuck found e h = rw h (refl, refl)

  forget_zero : (threshold : F) (errors : List ℤ) → forget (some 0) threshold errors ≡ raise foreign
  unfolding forget
  forget_zero threshold errors = refl

  forget-none : (threshold : F) (errors : List ℤ) → forget none threshold errors ≡ ok errors
  unfolding forget
  forget-none threshold errors = refl

  -- a window of one step or more is compared with the one before it, if there is one
  forget_short :
      (w : ℕ) (threshold : F) (errors : List ℤ)
      → length errors < 2 * w
      → forget (some w) threshold errors ≡ ok errors
  unfolding forget
  forget_short zero threshold errors h = absurd (omega (arith, h))
  forget_short (suc v) threshold errors h = ground (arith, h)

  forget_long :
      (w : ℕ) (threshold : F) (errors : List ℤ)
      → 0 < w
      → 2 * w ≤ length errors
      → forget (some w) threshold errors
        ≡ ok (if has_shifted threshold w errors then take_last w errors else errors)
  unfolding forget
  forget_long zero threshold errors p h = absurd (omega (arith, p))
  forget_long (suc v) threshold errors p h =
      let long : leb (2 * suc v) (length errors) ≡ true = ground (arith, h) in rw long refl

  forget_ok :
      (w : Option ℕ) (threshold : F) (errors : List ℤ)
      → w ≢ some 0
      → (kept : List ℤ) × (forget w threshold errors ≡ ok kept)
  unfolding forget
  forget_ok none threshold errors h = (errors, refl)
  forget_ok (some zero) threshold errors h = absurd (h refl)
  forget_ok (some (suc v)) threshold errors h = (_, refl)

  -- what becomes of a history that ends in two windows
  forget-Shift :
      (threshold : F) (old prev recent errors : List ℤ)
      → 0 < length recent
      → length prev ≡ length recent
      → errors ≡ old ++ (prev ++ recent)
      → (Shift threshold prev recent → forget (some (length recent)) threshold errors ≡ ok recent)
        × (¬ Shift threshold prev recent
            → forget (some (length recent)) threshold errors ≡ ok errors)
  forget-Shift threshold old prev recent errors p same e =
      let (last, _, long) = windows old prev recent same in
      let w = length recent in
      let iff = has_shifted-Shift threshold old prev recent same in
      let there : 2 * w ≤ length errors = omega (arith, long, ap length e) in
      let kept = forget_long w threshold errors p there in
      (
        λ s.
            let shifts : has_shifted threshold w errors ≡ true =
              ap (has_shifted threshold w) e ∙ iff.1 s in
            kept
            ∙ ap (λ (t : Bool). ok (if t then take_last w errors else errors)) shifts
            ∙ ap ok (ap (take_last w) e ∙ last),
        λ none_found. elim (Bool-cases (has_shifted threshold w errors)) [
          | inl shifts ↦ absurd (none_found (iff.0 (sym (ap (has_shifted threshold w) e) ∙ shifts)))
          | inr stays ↦
              kept ∙ ap (λ (t : Bool). ok (if t then take_last w errors else errors)) stays
        ],
      )

  -- A step is remembered: it is counted, and at most `error_window` recent errors are kept. Without a
  -- phase window, or with fewer errors than two of them, the full history grows by the new error. If
  -- the history ends in two windows, it is cut to the later one exactly when the two are a coherent
  -- shift. With a window of no steps the step raises, with the error appended; otherwise it does not.
  pub learn_remembers :
      (e : Estimator F) (input used : ℤ)
      → let (r, e') = learn e input used in
        let errors = e.all_errors ++ ((used -ℤ base_estimate e input) ∷ []) in
        (samples e' ≡ suc (samples e))
        × (length e'.recent_errors ≤ e.error_window)
        × (e.phase_window ≡ some 0 → (r ≡ raise foreign) × (e'.all_errors ≡ errors))
        × (e.phase_window ≢ some 0 → r ≡ ok tt)
        × (e.phase_window ≡ none → e'.all_errors ≡ errors)
        × ((n : ℕ) → e.phase_window ≡ some n → length errors < 2 * n → e'.all_errors ≡ errors)
        × ((old prev recent : List ℤ)
            → e.phase_window ≡ some (length recent)
            → 0 < length recent
            → length prev ≡ length recent
            → errors ≡ old ++ (prev ++ recent)
            → (Shift e.phase_threshold prev recent → e'.all_errors ≡ recent)
              × (¬ Shift e.phase_threshold prev recent → e'.all_errors ≡ errors))
  unfolding learn samples
  learn_remembers e input used =
      let error = used -ℤ base_estimate e input in
      let errors = e.all_errors ++ (error ∷ []) in
      let e1 = record e {
        recent_errors = push_bounded e.error_window e.recent_errors error;
        realized = e.realized ++ (used ∷ []);
        all_errors = errors;
      } in
      let found = forget e.phase_window e.phase_threshold errors in
      let (steps, recents) = relearned_frame found e1 in
      let same =
        λ (o : Option ℕ) (h : e.phase_window ≡ o). ap (λ v. forget v e.phase_threshold errors) h in
      (
        omega (arith, ap length steps, length-append e.realized (used ∷ [])),
        omega (arith, ap length recents, length-push_bounded e.error_window e.recent_errors error),
        λ h. relearned_stuck found e1 (same (some 0) h ∙ forget_zero e.phase_threshold errors),
        λ h.
            let (kept, p) = forget_ok e.phase_window e.phase_threshold errors h in
            (relearned_ok found kept e1 p).0,
        λ h. (relearned_ok found errors e1 (same none h ∙ forget-none e.phase_threshold errors)).1,
        λ n h short.
            (relearned_ok found errors e1
              (same (some n) h ∙ forget_short n e.phase_threshold errors short)).1,
        λ old prev recent h p twins ends.
            let (cut, kept) = forget-Shift e.phase_threshold old prev recent errors p twins ends in
            (
              λ s. (relearned_ok found recent e1 (same (some (length recent)) h ∙ cut s)).1,
              λ s. (relearned_ok found errors e1 (same (some (length recent)) h ∙ kept s)).1,
            ),
      )
