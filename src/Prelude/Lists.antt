-- ===== src/Prelude/Lists.antt =====
-- Lists measured and indexed by native numbers, under the library's names.
use Prim.Native.Nat.{ℕ, zero, suc, ◌+◌, ◌-◌, ◌≤◌, min}
use mathlib.Core.Path.{◌≡◌, refl, ap, subst, ◌∙◌}
use mathlib.Core.List.{List, [], ◌∷◌, ◌++◌}
use mathlib.Core.Logic.{◌⊎◌, inl, inr}
use mathlib.Core.Option.{Option, none, some}
use native.Mathlib.Omega.{arith}
use native.Mathlib.Nat.{add-zero, add-suc}

module _ {ℓ} {A : Type ℓ} where
  abbrev pub length : List A → ℕ
  length [] = 0
  length (x ∷ xs) = suc (length xs)

  abbrev pub take : ℕ → List A → List A
  take zero xs = []
  take (suc n) [] = []
  take (suc n) (x ∷ xs) = x ∷ take n xs

  abbrev pub drop : ℕ → List A → List A
  drop zero xs = xs
  drop (suc n) [] = []
  drop (suc n) (x ∷ xs) = drop n xs

  abbrev pub get_elem? : List A → ℕ → Option A
  get_elem? [] i = none
  get_elem? (x ∷ xs) zero = some x
  get_elem? (x ∷ xs) (suc i) = get_elem? xs i

  -- A property of every element, by recursion.
  abbrev pub All {κ} : (A → Type κ) → List A → Type κ
  All P [] = Unit
  All P (x ∷ xs) = P x × All P xs

  pub List-cases : (xs : List A) → (xs ≡ []) ⊎ ((y : A) × (ys : List A) × (xs ≡ y ∷ ys))
  List-cases [] = inl refl
  List-cases (y ∷ ys) = inr (y, ys, refl)

  pub length-append : (xs ys : List A) → length (xs ++ ys) ≡ length xs + length ys
  length-append [] ys = omega arith
  length-append (x ∷ xs) ys = omega (arith, length-append xs ys)

  pub take-append-drop : (n : ℕ) (xs : List A) → take n xs ++ drop n xs ≡ xs
  take-append-drop zero xs = refl
  take-append-drop (suc n) [] = refl
  take-append-drop (suc n) (x ∷ xs) = ap (◌∷◌ x) (take-append-drop n xs)

  pub length-take : (n : ℕ) (xs : List A) → length (take n xs) ≡ min n (length xs)
  length-take zero xs = omega arith
  length-take (suc n) [] = omega arith
  length-take (suc n) (x ∷ xs) = omega (arith, length-take n xs)

  pub length-drop : (n : ℕ) (xs : List A) → length (drop n xs) ≡ length xs - n
  length-drop zero xs = omega arith
  length-drop (suc n) [] = omega arith
  length-drop (suc n) (x ∷ xs) = omega (arith, length-drop n xs)

  pub take-length-append : (xs ys : List A) → take (length xs) (xs ++ ys) ≡ xs
  take-length-append [] ys = refl
  take-length-append (x ∷ xs) ys = ap (◌∷◌ x) (take-length-append xs ys)

  pub drop-length-append : (xs ys : List A) → drop (length xs) (xs ++ ys) ≡ ys
  drop-length-append [] ys = refl
  drop-length-append (x ∷ xs) ys = drop-length-append xs ys

  pub All-map {κ} : (P Q : A → Type κ) (xs : List A) → ((x : A) → P x → Q x) → All P xs → All Q xs
  All-map P Q [] g p = tt
  All-map P Q (x ∷ xs) g (p, ps) = (g x p, All-map P Q xs g ps)

  pub All-append {κ} : (P : A → Type κ) (xs ys : List A) → All P xs → All P ys → All P (xs ++ ys)
  All-append P [] ys p q = q
  All-append P (x ∷ xs) ys (p, ps) q = (p, All-append P xs ys ps q)

  pub All-split {κ} : (P : A → Type κ) (xs ys : List A) → All P (xs ++ ys) → All P xs × All P ys
  All-split P [] ys p = (tt, p)
  All-split P (x ∷ xs) ys (p, ps) = let (q, r) = All-split P xs ys ps in ((p, q), r)

  pub All-drop {κ} : (P : A → Type κ) (n : ℕ) (xs : List A) → All P xs → All P (drop n xs)
  All-drop P zero xs p = p
  All-drop P (suc n) [] p = tt
  All-drop P (suc n) (x ∷ xs) (p, ps) = All-drop P n xs ps

-- A `deque(maxlen=window)`: appending on the right drops from the left.
module _ {ℓ} {A : Type ℓ} where
  -- the last `n` elements
  abbrev pub take_last : ℕ → List A → List A
  take_last n xs = drop (length xs - n) xs

  abbrev pub push_bounded : ℕ → List A → A → List A
  push_bounded window xs x = take_last window (xs ++ (x ∷ []))

  pub length-take_last : (n : ℕ) (xs : List A) → length (take_last n xs) ≡ min n (length xs)
  length-take_last n xs = omega (arith, length-drop (length xs - n) xs)

  -- a list of at most `n` is its own last `n`
  pub take_last_whole : (n : ℕ) (xs : List A) → length xs ≤ n → take_last n xs ≡ xs
  take_last_whole n xs h =
      let none_cut : length xs - n ≡ 0 = omega arith in ap (λ k. drop k xs) none_cut

  pub take_last-append : (xs ys : List A) → take_last (length ys) (xs ++ ys) ≡ ys
  take_last-append xs ys =
      let front : length (xs ++ ys) - length ys ≡ length xs = omega (arith, length-append xs ys) in
      ap (λ k. drop k (xs ++ ys)) front ∙ drop-length-append xs ys

  pub length-push_bounded :
      (window : ℕ) (xs : List A) (x : A)
      → length (push_bounded window xs x) ≡ min window (suc (length xs))
  length-push_bounded window xs x =
      omega (arith, length-take_last window (xs ++ (x ∷ [])), length-append xs (x ∷ []))

-- The last `k` of a list all satisfy `P`; one more good element at the right keeps that.
module _ {ℓ κ} {A : Type ℓ} (P : A → Type κ) where
  drop-append : (n : ℕ) (xs ys : List A) → All P (drop n xs) → All P ys → All P (drop n (xs ++ ys))
  drop-append zero xs ys p q = All-append P xs ys p q
  drop-append (suc n) [] ys p q = All-drop P (suc n) ys q
  drop-append (suc n) (x ∷ xs) ys p q = drop-append n xs ys p q

  drop-drop : (n m : ℕ) (xs : List A) → All P (drop (n + m) xs) → All P (drop n (drop m xs))
  drop-drop n zero xs p = All_eq (add-zero n) p
    where
      All_eq : {k : ℕ} → n + 0 ≡ k → All P (drop (n + 0) xs) → All P (drop k xs)
      All_eq e q = subst (λ j. All P (drop j xs)) e q
  drop-drop n (suc m) [] p = All-drop P n [] tt
  drop-drop n (suc m) (x ∷ xs) p =
      drop-drop n m xs (subst (λ j. All P (drop j (x ∷ xs))) (add-suc n m) p)

  drop_more : (n m : ℕ) (xs : List A) → n ≤ m → All P (drop n xs) → All P (drop m xs)
  drop_more zero m xs h p = All-drop P m xs p
  drop_more (suc n) zero xs h p = absurd (omega arith)
  drop_more (suc n) (suc m) [] h p = tt
  drop_more (suc n) (suc m) (x ∷ xs) h p = drop_more n m xs (omega arith) p

  pub All-take_last-push :
      (k window : ℕ) (xs : List A) (x : A)
      → All P (take_last k xs)
      → P x
      → All P (take_last (suc k) (push_bounded window xs x))
  All-take_last-push k window xs x p q =
      let ys = xs ++ (x ∷ []) in
      let len = length-append xs (x ∷ []) in
      let m = length ys - window in
      let n = length (drop m ys) - suc k in
      drop-drop n m ys (
        drop_more (length xs - k) (n + m) ys (omega (arith, length-drop m ys))
          (drop-append (length xs - k) xs (x ∷ []) p (q, tt)))

module _ {A : Type 0} where
  abbrev pub Among : A → List A → Type 0
  Among a [] = ⊥
  Among a (x ∷ xs) = (a ≡ x) ⊎ Among a xs

  -- Every entry of a list is among its entries.
  pub All-Among : (xs : List A) → All (λ x. Among x xs) xs
  All-Among [] = tt
  All-Among (x ∷ xs) =
      (inl refl, All-map (λ y. Among y xs) (λ y. Among y (x ∷ xs)) xs (λ y h. inr h) (All-Among xs))
