-- ===== src/Estimator.antt =====
-- src/agentpause/estimator.py: what the next step will cost, learned from the steps so far.
pub mod Quantile
pub mod History
mod Tests
use agentpause.Prelude.{
  ℕ, zero, suc, ◌-◌, ◌*◌, leb, ltb, min, Bool, ◌&&◌, Option, none, some, List, [], ◌∷◌, ◌++◌,
  if◌then◌else◌, length, take, take_last, push_bounded,
}
use agentpause.Prelude.Int.{ℤ, pos, pos_part, ◌+ℤ◌, ◌-ℤ◌, leb_ℤ, max_ℤ}
use agentpause.Number.{Float, nought, max_f}
use agentpause.Errors.{Result, ok, raise, foreign}

pub record Estimator (F : Type 0) : Type 0 where
  pub max_tokens : ℤ
  pub tool_overhead : ℤ
  pub min_estimate : ℤ
  pub phase_window : Option ℕ
  pub phase_threshold : F
  pub error_window : ℕ
  -- `_errors`, `_all_errors` and `_realized`
  pub recent_errors : List ℤ
  pub all_errors : List ℤ
  pub realized : List ℤ

-- what `to_dict` stores
pub record Snapshot : Type 0 where
  pub errors : List ℤ
  pub recent_errors : List ℤ
  pub realized : List ℤ

abbrev pub sum_ints : List ℤ → ℤ
sum_ints [] = pos 0
sum_ints (x ∷ xs) = x +ℤ sum_ints xs

-- `sorted`, by insertion
abbrev pub insert_int : ℤ → List ℤ → List ℤ
insert_int a [] = a ∷ []
insert_int a (x ∷ xs) = let rest = insert_int a xs in if leb_ℤ a x then a ∷ x ∷ xs else x ∷ rest

abbrev pub sort_ints : List ℤ → List ℤ
sort_ints [] = []
sort_ints (x ∷ xs) = insert_int x (sort_ints xs)

-- `xs[-n:]`, which is the whole list for `n` = 0
abbrev pub last_slice : ℕ → List ℤ → List ℤ
last_slice zero xs = xs
last_slice (suc n) xs = take_last (suc n) xs

-- `xs[i]`, for an index in range
abbrev pub at : List ℤ → ℕ → ℤ
at [] i = pos 0
at (x ∷ xs) zero = x
at (x ∷ xs) (suc i) = at xs i

pub base_estimate : {F : Type 0} → Estimator F → ℤ → ℤ
base_estimate e input = input +ℤ e.max_tokens +ℤ e.tool_overhead

pub samples : {F : Type 0} → Estimator F → ℕ
samples e = length e.realized

pub to_dict : {F : Type 0} → Estimator F → Snapshot
to_dict e = record {
  errors = take_last 200 e.all_errors;
  recent_errors = e.recent_errors;
  realized = take_last 200 e.realized;
}

-- `load` of a snapshot that has all three entries; the deque keeps the last ones
pub load : {F : Type 0} → Snapshot → Estimator F → Estimator F
load s e = record e {
  all_errors = s.errors;
  recent_errors = take_last e.error_window s.recent_errors;
  realized = s.realized;
}

module _ {F : Type 0} ⦃f : Float F⦄ where
  open f use {of_int, lit, add, sub, mul, div, pow, sqrt, le, lt, trunc}

  -- `sum(xs) / n`
  abbrev pub mean : List ℤ → ℕ → F
  mean xs n = div (of_int (sum_ints xs)) (of_int (pos n))

  abbrev pub sum_squares : F → List ℤ → F
  sum_squares m [] = nought
  sum_squares m (x ∷ xs) = add (pow (sub (of_int x) m) 2) (sum_squares m xs)

  -- the standard deviation
  abbrev pub deviation : List ℤ → ℕ → F
  deviation xs n = sqrt (div (sum_squares (mean xs n) xs) (of_int (pos n)))

  abbrev pub abs_f : F → F
  abs_f x = if lt x nought then sub nought x else x

  pub epsilon : Estimator F → ℤ
  epsilon e = elim (e.recent_errors) [
    | [] ↦ pos 0
    | ◌∷◌ x xs ↦ trunc (mean (x ∷ xs) (length (x ∷ xs)))
  ]

  unfoldable pub estimate : Estimator F → ℤ → ℤ
  estimate e input = max_ℤ e.min_estimate (base_estimate e input +ℤ epsilon e)

  pub sigma : Estimator F → ℤ → F
  sigma e fallback =
      if leb 4 (length e.all_errors)
      then deviation e.all_errors (length e.all_errors)
      else mul (of_int fallback) (lit 27 100)

  -- whether the last `w` errors are a coherent shift from the `w` before them
  pub has_shifted : F → ℕ → List ℤ → Bool
  has_shifted threshold w errors =
      let recent = take_last w errors in
      let prev = take w (take_last (2 * w) errors) in
      let mean_p = mean prev w in
      let mean_r = mean recent w in
      let scale =
        max_f (max_f (deviation prev w) (mul (abs_f mean_p) (lit 1 10))) (of_int (pos 10)) in
      let bound = mul (max_f (mul (abs_f mean_r) (lit 1 10)) (of_int (pos 10))) threshold in
      lt (mul threshold scale) (abs_f (sub mean_r mean_p)) && le (deviation recent w) bound

  -- the history after phase-shift detection; with a window of no steps the means divide by zero
  pub forget : Option ℕ → F → List ℤ → Result F (List ℤ)
  forget none threshold errors = ok errors
  forget (some zero) threshold errors = raise foreign
  forget (some (suc v)) threshold errors =
      let w = suc v in
      ok (
        if leb (2 * w) (length errors) && has_shifted threshold w errors
        then take_last w errors
        else errors)

  -- the end of `record`: an exception leaves what has been appended
  pub relearned : Result F (List ℤ) → Estimator F → Result F (Unit {0}) × Estimator F
  relearned (ok kept) e = (ok tt, record e { all_errors = kept })
  relearned (raise x) e = (raise x, e)

  pub learn : Estimator F → ℤ → ℤ → Result F (Unit {0}) × Estimator F
  learn e input used =
      let error = used -ℤ base_estimate e input in
      let errors = e.all_errors ++ (error ∷ []) in
      relearned (forget e.phase_window e.phase_threshold errors) (record e {
        recent_errors = push_bounded e.error_window e.recent_errors error;
        realized = e.realized ++ (used ∷ []);
        all_errors = errors;
      })

  -- `min(n - 1, max(0, int(q * n + 0.999999) - 1))`
  pub quantile_index : F → ℕ → ℕ
  quantile_index q n =
      min (n - 1) (pos_part (trunc (add (mul q (of_int (pos n))) (lit 999999 1000000)) -ℤ pos 1))

  -- For `min_samples` of one or more, so that there is an error to look up.
  unfoldable pub upper_estimate : Estimator F → ℤ → F → ℕ → ℕ → Option ℤ
  upper_estimate e input q min_samples window =
      let recent = last_slice window e.all_errors in
      let worst = at (sort_ints recent) (quantile_index q (length recent)) in
      if ltb (length e.all_errors) min_samples
      then none
      else some (max_ℤ e.min_estimate (base_estimate e input +ℤ worst))
