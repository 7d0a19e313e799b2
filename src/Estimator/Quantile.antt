-- ===== src/Estimator/Quantile.antt =====
-- The quantile bound of src/agentpause/estimator.py.
use agentpause.Prelude.{
  ℕ, zero, suc, ◌+◌, ◌≤◌, ◌<◌, Bool, true, false, none, some, List, [], ◌∷◌, ◌≡◌, refl, arith, All,
  if◌then◌else◌, length, take_last, take_last-append, take_last_whole, ◌++◌, ap, sym, ◌∙◌, ◌⊎◌, inl,
  inr,
}
use agentpause.Prelude.Int.{ℤ, pos, ◌-ℤ◌, ◌+ℤ◌, ◌≤ℤ◌, leb_ℤ, max_ℤ, max_ℤ_bounds, +ℤ_parts}
use agentpause.Number.{Float, ◌≼◌, Truncates}
use agentpause.Estimator.{
  Estimator, base_estimate, insert_int, sort_ints, at, last_slice, quantile_index, upper_estimate,
}

-- how many of the entries are at most `v`
abbrev pub count_le : ℤ → List ℤ → ℕ
count_le v [] = 0
count_le v (x ∷ xs) = (if leb_ℤ x v then 1 else 0) + count_le v xs

count_le-insert_int :
    (v a : ℤ) (xs : List ℤ)
    → count_le v (insert_int a xs) ≡ (if leb_ℤ a v then 1 else 0) + count_le v xs
count_le-insert_int v a [] = refl
count_le-insert_int v a (x ∷ xs) = go (count_le-insert_int v a xs) (leb_ℤ a x)
  where
    go :
        count_le v (insert_int a xs) ≡ (if leb_ℤ a v then 1 else 0) + count_le v xs
        → (t : Bool)
        → count_le v (if t then a ∷ x ∷ xs else x ∷ insert_int a xs)
          ≡ (if leb_ℤ a v then 1 else 0) + ((if leb_ℤ x v then 1 else 0) + count_le v xs)
    go h true = refl
    go h false = omega (arith, h)

count_le-sort_ints : (v : ℤ) (xs : List ℤ) → count_le v (sort_ints xs) ≡ count_le v xs
count_le-sort_ints v [] = refl
count_le-sort_ints v (x ∷ xs) =
    omega (arith, count_le-insert_int v x (sort_ints xs), count_le-sort_ints v xs)

length-insert_int : (a : ℤ) (xs : List ℤ) → length (insert_int a xs) ≡ suc (length xs)
length-insert_int a [] = refl
length-insert_int a (x ∷ xs) = ground (arith, length-insert_int a xs)

length-sort_ints : (xs : List ℤ) → length (sort_ints xs) ≡ length xs
length-sort_ints [] = refl
length-sort_ints (x ∷ xs) = omega (arith, length-insert_int x (sort_ints xs), length-sort_ints xs)

abbrev Ascending : List ℤ → Type 0
Ascending [] = Unit
Ascending (x ∷ xs) = All (λ y. x ≤ℤ y) xs × Ascending xs

All-insert_int : (P : ℤ → Type 0) (a : ℤ) (xs : List ℤ) → P a → All P xs → All P (insert_int a xs)
All-insert_int P a [] p q = (p, tt)
All-insert_int P a (x ∷ xs) p (h, q) = go (All-insert_int P a xs p q) (leb_ℤ a x)
  where
    go :
        All P (insert_int a xs) → (t : Bool) → All P (if t then a ∷ x ∷ xs else x ∷ insert_int a xs)
    go r true = (p, (h, q))
    go r false = (h, r)

above_le : (a x : ℤ) (xs : List ℤ) → a ≤ℤ x → All (λ y. x ≤ℤ y) xs → All (λ y. a ≤ℤ y) xs
above_le a x [] p q = tt
above_le a x (y ∷ ys) p (h, q) = (omega arith, above_le a x ys p q)

insert_int-Ascending : (a : ℤ) (xs : List ℤ) → Ascending xs → Ascending (insert_int a xs)
insert_int-Ascending a [] d = (tt, tt)
insert_int-Ascending a (x ∷ xs) (h, d) = go (insert_int-Ascending a xs d) (leb_ℤ a x) refl
  where
    go :
        Ascending (insert_int a xs)
        → (t : Bool) → leb_ℤ a x ≡ t
        → Ascending (if t then a ∷ x ∷ xs else x ∷ insert_int a xs)
    go r true e = ((ground arith, above_le a x xs (ground arith) h), (h, d))
    go r false e = (All-insert_int (λ y. x ≤ℤ y) a xs (ground arith) h, r)

sort_ints-Ascending : (xs : List ℤ) → Ascending (sort_ints xs)
sort_ints-Ascending [] = tt
sort_ints-Ascending (x ∷ xs) = insert_int-Ascending x (sort_ints xs) (sort_ints-Ascending xs)

first_le-at : (x : ℤ) (xs : List ℤ) (i : ℕ) → i < length xs → All (λ y. x ≤ℤ y) xs → x ≤ℤ at xs i
first_le-at x [] i h p = absurd (omega arith)
first_le-at x (y ∷ ys) zero h (p, q) = p
first_le-at x (y ∷ ys) (suc i) h (p, q) = first_le-at x ys i (omega arith) q

-- In ascending order, the entry at `i` is at least `i + 1` of the entries.
count_le-at : (xs : List ℤ) (i : ℕ) → Ascending xs → i < length xs → suc i ≤ count_le (at xs i) xs
count_le-at [] i d h = absurd (omega arith)
count_le-at (x ∷ xs) zero (p, d) h = ground arith
count_le-at (x ∷ xs) (suc i) (p, d) h =
    ground (arith, first_le-at x xs i (omega arith) p, count_le-at xs i d (omega arith))

count_le_mono : (v w : ℤ) (xs : List ℤ) → v ≤ℤ w → count_le v xs ≤ count_le w xs
count_le_mono v w [] h = omega arith
count_le_mono v w (x ∷ xs) h = ground (arith, count_le_mono v w xs h)

-- the costs that the errors of `xs` would have given on top of `base`
abbrev pub count_covered : ℤ → ℤ → List ℤ → ℕ
count_covered base u [] = 0
count_covered base u (x ∷ xs) = (if leb_ℤ (base +ℤ x) u then 1 else 0) + count_covered base u xs

covered_le : (base v u : ℤ) (xs : List ℤ) → base +ℤ v ≤ℤ u → count_le v xs ≤ count_covered base u xs
covered_le base v u [] h = omega arith
covered_le base v u (x ∷ xs) h =
    ground (arith, covered_le base v u xs h, +ℤ_parts base v, +ℤ_parts base x)

-- `recent` is the window of the last `n` of `xs`: exactly `n` at its end, or the whole list if it has no
-- more than `n` or `n` is 0, as in Python's `xs[-n:]`
abbrev pub Window : ℕ → List ℤ → List ℤ → Type 0
Window n xs recent =
    (old : List ℤ) × (xs ≡ old ++ recent)
    × (((0 < n) × (length recent ≡ n)) ⊎ ((old ≡ []) × ((n ≡ 0) ⊎ (length recent ≤ n))))

last_slice-suc :
    (m : ℕ) (xs old recent : List ℤ)
    → xs ≡ old ++ recent
    → length recent ≡ suc m
    → last_slice (suc m) xs ≡ recent
last_slice-suc m xs old recent e size =
    ap (λ k. take_last k xs) (sym size)
    ∙ ap (take_last (length recent)) e
    ∙ take_last-append old recent

last_slice-Window : (n : ℕ) (xs recent : List ℤ) → Window n xs recent → last_slice n xs ≡ recent
last_slice-Window zero xs recent (old, e, inl (p, size)) = absurd (omega (arith, p))
last_slice-Window zero xs recent (old, e, inr (whole, _)) = e ∙ ap (λ v. v ++ recent) whole
last_slice-Window (suc m) xs recent (old, e, inl (p, size)) = last_slice-suc m xs old recent e size
last_slice-Window (suc m) xs recent (old, e, inr (whole, inl none_left)) =
    absurd (omega (arith, none_left))
last_slice-Window (suc m) xs recent (old, e, inr (whole, inr few)) =
    ap (last_slice (suc m)) (e ∙ ap (λ v. v ++ recent) whole) ∙ take_last_whole (suc m) recent few

-- A window of a list that is not empty is not empty.
Window-pos : (n : ℕ) (xs recent : List ℤ) → 0 < length xs → Window n xs recent → 0 < length recent
Window-pos n xs recent h (old, e, inl (p, size)) = omega (arith, p, size)
Window-pos n xs recent h (old, e, inr (whole, _)) =
    omega (arith, h, ap length (e ∙ ap (λ v. v ++ recent) whole))

module _ {F : Type 0} ⦃f : Float F⦄ where
  quantile_index_lt : (q : F) (n : ℕ) → 0 < n → quantile_index q n < n
  unfolding quantile_index
  quantile_index_lt q n h = omega arith

  -- A whole number that `q` of the errors comes to is at most one more than the index.
  quantile_index_covers :
      Truncates F
      → (q : F) (n k : ℕ) → k ≤ n
      → f.of_int (pos k) ≼ f.add (f.mul q (f.of_int (pos n))) (f.lit 999999 1000000)
      → k ≤ suc (quantile_index q n)
  unfolding quantile_index ◌-ℤ◌
  quantile_index_covers t q n k small share =
      let x = f.add (f.mul q (f.of_int (pos n))) (f.lit 999999 1000000) in
      ground (arith, t x k share)

  -- The quantile bound covers what it promises, if `int` truncates. With `min_samples` at least one,
  -- there is a bound exactly when at least so many errors are remembered, that is, have been recorded
  -- since the last phase shift. The bound is at least `min_estimate`, and as many of the last `window`
  -- errors (all of them for a `window` of 0, or if there are no more) would have stayed within it as a
  -- share `q` of them is: any whole number `k` of at most `q * n + 0.999999`, where `n` counts them.
  pub upper_estimate_covers :
      Truncates F
      → (e : Estimator F) (input : ℤ) (q : F) (min_samples window : ℕ) (recent : List ℤ)
      → 1 ≤ min_samples
      → Window window e.all_errors recent
      → let n = length recent in
        (min_samples ≤ length e.all_errors
          → (u : ℤ) × (upper_estimate e input q min_samples window ≡ some u)
            × (e.min_estimate ≤ℤ u)
            × ((k : ℕ)
                → k ≤ n
                → f.of_int (pos k) ≼ f.add (f.mul q (f.of_int (pos n))) (f.lit 999999 1000000)
                → k ≤ count_covered (base_estimate e input) u recent))
        × (length e.all_errors < min_samples → upper_estimate e input q min_samples window ≡ none)
  unfolding upper_estimate
  upper_estimate_covers t e input q min_samples window recent m latest =
      let same = last_slice-Window window e.all_errors recent latest in
      let bound = λ (xs : List ℤ).
        max_ℤ e.min_estimate
          (base_estimate e input +ℤ at (sort_ints xs) (quantile_index q (length xs))) in
      let i = quantile_index q (length recent) in
      let worst = at (sort_ints recent) i in
      let base = base_estimate e input in
      let u = bound recent in
      let (low, high) = max_ℤ_bounds e.min_estimate (base +ℤ worst) in
      (
        λ enough.
            let some_recent : 0 < length recent =
              Window-pos window e.all_errors recent (omega (arith, m, enough)) latest in
            let inside = quantile_index_lt q (length recent) some_recent in
            let found : upper_estimate e input q min_samples window
                ≡ some (bound (last_slice window e.all_errors)) =
              ground (arith, enough) in
            (
              u,
              found ∙ ap (λ xs. some (bound xs)) same,
              low,
              λ k small share. omega (
                arith,
                quantile_index_covers t q (length recent) k small share,
                covered_le base worst u recent high,
                count_le-sort_ints worst recent,
                count_le-at (sort_ints recent) i (sort_ints-Ascending recent)
                    (omega (arith, length-sort_ints recent)),
              ),
            ),
        λ few. ground (arith, few),
      )
