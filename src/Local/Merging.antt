-- ===== src/Local/Merging.antt =====
-- The most restrictive budget of src/agentpause/adapters/local_resources.py against the decision rule:
-- the composite continues exactly when each of its parts would.
use agentpause.Prelude.{
  Bool, true, false, ◌&&◌, Option, none, some, List, [], ◌∷◌, ◌≡◌, ◌↔◌, refl, sym, ap, ◌∙◌, arith,
  All, if◌then◌else◌,
}
use agentpause.Prelude.Int.{ℤ, pos, leb_ℤ, ltb_ℤ, ◌+ℤ◌, ◌≤ℤ◌}
use agentpause.Number.{Float, IsMonotone}
use agentpause.Risk.{
  Budget, Ask, continue, decide, demand, covers, at_least, tokens_fit, requests_fit, input_fit,
  output_fit, time_fit, should_checkpoint,
}
use agentpause.Risk.Decide.{continue_iff_tests}
use agentpause.Local.{minimum, cons_present, present, least, min_across, merged, fewer}

-- `all(g(x) for x in xs)`
abbrev every : {A : Type 0} → (A → Bool) → List A → Bool
every g [] = true
every g (x ∷ xs) = g x && every g xs

-- A test that more of the key passes more easily holds of the least value if and only if it holds of
-- every value.
module _ {A : Type 0} (lt : A → A → Bool) (g : A → Bool)
    (up : (x y : A) → lt x y ≡ true → g x ≡ true → g y ≡ true)
    (down : (x y : A) → lt x y ≡ false → g y ≡ true → g x ≡ true) where
  pub minimum-every : (x : A) (xs : List A) → g (minimum lt x xs) ≡ (g x && every g xs)
  unfolding minimum
  minimum-every x [] = ground arith
  minimum-every x (y ∷ ys) =
      minimum-every (if lt y x then y else x) ys ∙ ground (arith, up y x, down y x)

-- An axis that not every source reports: the least value covers a demand exactly when each one does.
module _ {A B : Type 0} (lt le : B → B → Bool) (get : A → Option B)
    (up : (w x y : B) → lt x y ≡ true → le w x ≡ true → le w y ≡ true)
    (down : (w x y : B) → lt x y ≡ false → le w y ≡ true → le w x ≡ true) where
  covers-least :
      (w : Option B) (vs : List B)
      → covers le (least lt vs) w ≡ every (λ v. covers le (some v) w) vs
  unfolding covers least
  covers-least none [] = refl
  covers-least (some w) [] = refl
  covers-least none (v ∷ vs) = sym (every_true vs)
    where
      every_true : (vs : List B) → every (λ v. true) vs ≡ true
      every_true [] = refl
      every_true (v ∷ vs) = every_true vs
  covers-least (some w) (v ∷ vs) = minimum-every lt (le w) (up w) (down w) v vs

  every-cons_present :
      (w : Option B) (o : Option B) (vs : List B)
      → every (λ v. covers le (some v) w) (cons_present o vs)
        ≡ (covers le o w && every (λ v. covers le (some v) w) vs)
  unfolding cons_present covers
  every-cons_present w none vs = refl
  every-cons_present w (some v) vs = refl

  every-present :
      (w : Option B) (bs : List A)
      → every (λ v. covers le (some v) w) (present get bs) ≡ every (λ b. covers le (get b) w) bs
  unfolding present
  every-present w [] = refl
  every-present w (b ∷ bs) =
      every-cons_present w (get b) (present get bs)
      ∙ ap (◌&&◌ (covers le (get b) w)) (every-present w bs)

  covers-min_across :
      (w : Option B) (bs : List A)
      → covers le (min_across lt get bs) w ≡ every (λ b. covers le (get b) w) bs
  unfolding min_across
  covers-min_across w bs = covers-least w (present get bs) ∙ every-present w bs

int_up : (w x y : ℤ) → ltb_ℤ x y ≡ true → leb_ℤ w x ≡ true → leb_ℤ w y ≡ true
int_up w x y p q = ground arith

int_down : (w x y : ℤ) → ltb_ℤ x y ≡ false → leb_ℤ w y ≡ true → leb_ℤ w x ≡ true
int_down w x y p q = ground arith

covers-at_least : (o : Option ℤ) (n : ℤ) → at_least o n ≡ covers leb_ℤ o (some n)
unfolding at_least covers
covers-at_least none n = refl
covers-at_least (some r) n = refl

every_eq :
    {A : Type 0} (g h : A → Bool) (xs : List A) → ((x : A) → g x ≡ h x) → every g xs ≡ every h xs
every_eq g h [] e = refl
every_eq g h (x ∷ xs) e = ap (λ t. t && every g xs) (e x) ∙ ap (◌&&◌ (h x)) (every_eq g h xs e)

every_and :
    {A : Type 0} (g h : A → Bool) (xs : List A)
    → (every g xs && every h xs) ≡ every (λ x. g x && h x) xs
every_and g h [] = refl
every_and g h (x ∷ xs) = ground (arith, every_and g h xs)

every-All :
    {A : Type 0} (g : A → Bool) (P : A → Type 0) (xs : List A)
    → ((x : A) → (g x ≡ true) ↔ P x)
    → (every g xs ≡ true) ↔ All P xs
every-All g P [] e = (λ h. tt, λ h. refl)
every-All g P (x ∷ xs) e = (
  λ h. ((e x).0 (ground arith), (every-All g P xs e).0 (ground arith)),
  λ h. let here = (e x).1 h.0 in let rest = (every-All g P xs e).1 h.1 in ground arith,
)

module _ {F : Type 0} ⦃f : Float F⦄ (mono : IsMonotone F) (a : Ask F) where
  open mono use {ordered, of_int_mono}
  open ordered use {le_trans, le_total, lt-eq-not-le}

  float_up : (w x y : F) → f.lt x y ≡ true → f.le w x ≡ true → f.le w y ≡ true
  float_up w x y p q = ground (arith, lt-eq-not-le x y, le_total x y, le_trans w x y)

  float_down : (w x y : F) → f.lt x y ≡ false → f.le w y ≡ true → f.le w x ≡ true
  float_down w x y p q = ground (arith, lt-eq-not-le x y, le_trans w y x)

  -- more tokens fit more easily
  tokens_up :
      (b c : Budget F)
      → b.remaining_tokens ≤ℤ c.remaining_tokens
      → tokens_fit b a ≡ true
      → tokens_fit c a ≡ true
  unfolding tokens_fit should_checkpoint
  tokens_up b c h p =
      let need = demand a.estimated a.sigma a.k in
      let x = f.of_int b.remaining_tokens in
      let y = f.of_int c.remaining_tokens in
      ground (
        arith,
        lt-eq-not-le x need,
        lt-eq-not-le y need,
        le_trans need x y,
        of_int_mono b.remaining_tokens c.remaining_tokens h,
      )

  abbrev fits_all : Budget F → Bool
  fits_all b =
      tokens_fit b a && (requests_fit b a && (input_fit b a && (output_fit b a && time_fit b a)))

  continue_iff_fits : (b : Budget F) → (fits_all b ≡ true) ↔ ((decide b a).action ≡ continue)
  continue_iff_fits b =
      let tests = continue_iff_tests b a in
      (λ h. tests.1 (ground arith), λ h. let (t, r, i, o, s) = tests.0 h in ground arith)

  module _ (b : Budget F) (bs : List (Budget F)) where
    tokens_fit-merged : tokens_fit (merged b bs) a ≡ every (λ x. tokens_fit x a) (b ∷ bs)
    unfolding merged tokens_fit
    tokens_fit-merged =
        minimum-every fewer (λ x. tokens_fit x a) (λ x y h p. tokens_up x y (ground arith) p)
          (λ x y h p. tokens_up y x (ground arith) p) b bs

    requests_fit-merged : requests_fit (merged b bs) a ≡ every (λ x. requests_fit x a) (b ∷ bs)
    unfolding merged requests_fit
    requests_fit-merged =
        let n = pos 1 +ℤ a.rpm_margin in
        let get : Budget F → Option ℤ = λ x. x.remaining_requests in
        covers-at_least (min_across ltb_ℤ get (b ∷ bs)) n
        ∙ covers-min_across ltb_ℤ leb_ℤ get int_up int_down (some n) (b ∷ bs)
        ∙ every_eq _ _ (b ∷ bs) (λ x. sym (covers-at_least x.remaining_requests n))

    input_fit-merged : input_fit (merged b bs) a ≡ every (λ x. input_fit x a) (b ∷ bs)
    unfolding merged input_fit
    input_fit-merged =
        covers-min_across ltb_ℤ leb_ℤ (λ (x : Budget F). x.remaining_input_tokens) int_up int_down
          a.estimated_input (b ∷ bs)

    output_fit-merged : output_fit (merged b bs) a ≡ every (λ x. output_fit x a) (b ∷ bs)
    unfolding merged output_fit
    output_fit-merged =
        covers-min_across ltb_ℤ leb_ℤ (λ (x : Budget F). x.remaining_output_tokens) int_up int_down
          a.estimated_output (b ∷ bs)

    time_fit-merged : time_fit (merged b bs) a ≡ every (λ x. time_fit x a) (b ∷ bs)
    unfolding merged time_fit
    time_fit-merged =
        covers-min_across f.lt f.le (λ (x : Budget F). x.remaining_seconds) float_up float_down
          a.estimated_latency (b ∷ bs)

    fits_all-merged : fits_all (merged b bs) ≡ every fits_all (b ∷ bs)
    fits_all-merged =
        let all = b ∷ bs in
        let os = every_and (λ x. output_fit x a) (λ x. time_fit x a) all in
        let is = every_and (λ x. input_fit x a) (λ x. output_fit x a && time_fit x a) all in
        let rs =
          every_and (λ x. requests_fit x a) (λ x. input_fit x a && (output_fit x a && time_fit x a))
            all in
        let ts =
          every_and (λ x. tokens_fit x a)
            (λ x. requests_fit x a && (input_fit x a && (output_fit x a && time_fit x a))) all in
        cc (
          tokens_fit-merged, requests_fit-merged, input_fit-merged, output_fit-merged,
          time_fit-merged, os, is, rs, ts,
        )

  -- The composite of several readings lets the agent go on exactly when each reading on its own would:
  -- with the most restrictive value on every axis, no resource is overlooked and none is counted
  -- twice.
  pub decide-merged :
      (b : Budget F) (bs : List (Budget F))
      → ((decide (merged b bs) a).action ≡ continue)
        ↔ All (λ x. (decide x a).action ≡ continue) (b ∷ bs)
  decide-merged b bs =
      let both =
        every-All fits_all (λ x. (decide x a).action ≡ continue) (b ∷ bs) continue_iff_fits in
      let whole = continue_iff_fits (merged b bs) in
      (
        λ h. both.0 (sym (fits_all-merged b bs) ∙ whole.1 h),
        λ h. whole.0 (fits_all-merged b bs ∙ both.1 h),
      )
