-- ===== src/Refill/Votes.antt =====
-- What the refill detector of src/agentpause/refill.py concludes from its votes.
use agentpause.Prelude.{
  ℕ, zero, suc, ◌+◌, ◌-◌, ◌<◌, ◌≤◌, min, false, List, [], ◌∷◌, ◌++◌, ◌≡◌, ◌↔◌, ◌⊎◌, inl, inr, refl,
  subst, arith, length, All, All-drop, All-append, drop, take_last, length-push_bounded,
  All-take_last-push,
}
use agentpause.Number.{Float, ◌≼◌, nought}
use agentpause.Risk.{Regime, continuous, fixed, unknown}
use agentpause.Refill.{Detector, count_continuous, vote, ratio, feed, regime}

-- Only the two regimes are ever voted for.
abbrev pub IsCast : Regime → Type 0
IsCast v = (v ≡ continuous) ⊎ (v ≡ fixed)

pub record IsValid {F : Type 0} (d : Detector F) : Type 0 where
  pub bounded : length d.votes ≤ d.window
  pub cast : All IsCast d.votes

-- the votes for `fixed`, counted apart
abbrev pub count_fixed : List Regime → ℕ
count_fixed [] = 0
count_fixed (fixed ∷ vs) = suc (count_fixed vs)
count_fixed (continuous ∷ vs) = count_fixed vs
count_fixed (unknown ∷ vs) = count_fixed vs

count_lem : (vs : List Regime) → All IsCast vs → length vs ≡ count_continuous vs + count_fixed vs
count_lem [] c = refl
count_lem (continuous ∷ vs) (c, cs) = omega (arith, count_lem vs cs)
count_lem (fixed ∷ vs) (c, cs) = omega (arith, count_lem vs cs)
count_lem (unknown ∷ vs) (c, cs) = absurd (ground arith)

-- On the votes of a valid detector the regime is `continuous` or `fixed` exactly when there are enough
-- votes and that side has strictly more of them than the other.
pub regime_iff :
    {F : Type 0} (d : Detector F)
    → IsValid d
    → ((regime d ≡ continuous)
        ↔ ((d.min_votes ≤ length d.votes) × (count_fixed d.votes < count_continuous d.votes)))
      × ((regime d ≡ fixed)
          ↔ ((d.min_votes ≤ length d.votes) × (count_continuous d.votes < count_fixed d.votes)))
unfolding regime
regime_iff d v =
    let total = count_lem d.votes v.cast in
    ((λ h. ground arith, λ h. ground arith), (λ h. ground arith, λ h. ground arith))

count_of_All :
    (v : Regime) (vs : List Regime)
    → All (λ u. u ≡ v) vs
    → (v ≡ continuous → count_continuous vs ≡ length vs) × (v ≡ fixed → count_continuous vs ≡ 0)
count_of_All v [] h = (λ e. refl, λ e. refl)
count_of_All v (continuous ∷ vs) (h, hs) = ground (arith, count_of_All v vs hs)
count_of_All v (fixed ∷ vs) (h, hs) = ground (arith, count_of_All v vs hs)
count_of_All v (unknown ∷ vs) (h, hs) = ground (arith, count_of_All v vs hs)

regime_of_All :
    {F : Type 0} (v : Regime) (d : Detector F)
    → IsCast v
    → All (λ u. u ≡ v) d.votes
    → d.min_votes ≤ length d.votes
    → 0 < length d.votes
    → regime d ≡ v
unfolding regime
regime_of_All v d c h p q = ground (arith, count_of_All v d.votes h)

All-dropped : (v : Regime) (vs : List Regime) → All (λ u. u ≡ v) (drop (length vs) vs)
All-dropped v [] = tt
All-dropped v (u ∷ vs) = All-dropped v vs

none_of_All : (v : Regime) (vs : List Regime) → All (λ u. u ≡ v) (take_last 0 vs)
none_of_All v vs =
    let whole : length vs ≡ length vs - 0 = omega arith in
    subst (λ j. All (λ u. u ≡ v) (drop j vs)) whole (All-dropped v vs)

module _ {F : Type 0} ⦃f : Float F⦄ where
  vote-IsValid : (d : Detector F) (v : Regime) → IsValid d → IsCast v → IsValid (vote d v)
  unfolding vote
  vote-IsValid d v h c = record {
    bounded = omega (arith, length-push_bounded d.window d.votes v);
    cast =
        All-drop IsCast (length (d.votes ++ (v ∷ [])) - d.window) (d.votes ++ (v ∷ []))
          (All-append IsCast d.votes (v ∷ []) h.cast (c, tt));
  }

  -- An observation keeps the detector valid: at most `window` votes, each for a known regime.
  pub feed-IsValid :
      (d : Detector F) (dt dr implied_rate : F) → IsValid d → IsValid (feed d dt dr implied_rate)
  unfolding feed
  feed-IsValid d dt dr r h =
      ground (arith, vote-IsValid d continuous h (inl refl), vote-IsValid d fixed h (inr refl))

  -- an observation that votes for `continuous`, respectively `fixed`
  pub record Shows (d : Detector F) (v : Regime) (dt dr implied_rate : F) : Type 0 where
    pub spaced : f.lt dt d.min_gap_s ≡ false
    pub known : f.le implied_rate nought ≡ false
    pub shown :
        ((v ≡ continuous) × (f.lit 5 10 ≼ ratio dt dr implied_rate))
        ⊎ ((v ≡ fixed)
            × (f.le (f.lit 5 10) (ratio dt dr implied_rate) ≡ false)
            × (ratio dt dr implied_rate ≼ f.lit 1 10))

  feed-vote :
      (d : Detector F) (v : Regime) (dt dr implied_rate : F)
      → Shows d v dt dr implied_rate
      → feed d dt dr implied_rate ≡ vote d v
  unfolding feed
  feed-vote d v dt dr r s = ground arith

  -- the same observation, `n` times
  pub feeds : ℕ → Detector F → F → F → F → Detector F
  feeds zero d dt dr r = d
  feeds (suc n) d dt dr r = feeds n (feed d dt dr r) dt dr r

  -- What `n` observations for `v` have made of a detector whose last `k` votes were for `v`.
  record After (n k : ℕ) (v : Regime) (d d' : Detector F) : Type 0 where
    recent : All (λ u. u ≡ v) (take_last (k + n) d'.votes)
    size : length d'.votes ≡ min d.window (length d.votes + n)
    window : d'.window ≡ d.window
    min_votes : d'.min_votes ≡ d.min_votes

  feeds-After :
      (n k : ℕ) (d : Detector F) (v : Regime) (dt dr r : F)
      → Shows d v dt dr r
      → length d.votes ≤ d.window
      → All (λ u. u ≡ v) (take_last k d.votes)
      → After n k v d (feeds n d dt dr r)
  unfolding feeds vote
  feeds-After zero k d v dt dr r s b h = record {
    recent = subst (λ j. All (λ u. u ≡ v) (take_last j d.votes)) (omega arith) h;
    size = omega arith;
    window = refl;
    min_votes = refl;
  }
  feeds-After (suc n) k d v dt dr r s b h =
      let len = length-push_bounded d.window d.votes v in
      let rest =
        feeds-After n (suc k) (vote d v) v dt dr r
          (record { spaced = s.spaced; known = s.known; shown = s.shown }) (omega arith)
          (All-take_last-push (λ u. u ≡ v) k d.window d.votes v h refl) in
      rw (feed-vote d v dt dr r s) (record {
        recent =
            subst (λ j. All (λ u. u ≡ v) (take_last j (feeds n (vote d v) dt dr r).votes))
              (omega arith) rest.recent;
        size = omega (arith, rest.size);
        window = rest.window;
        min_votes = rest.min_votes;
      })

  -- The detector forgets: once `window` observations in a row vote for one regime, that regime is
  -- reported, whatever the votes before them were.
  pub feeds-regime :
      (n : ℕ) (d : Detector F) (v : Regime) (dt dr r : F)
      → IsValid d
      → Shows d v dt dr r
      → 0 < d.window
      → d.min_votes ≤ d.window
      → d.window ≤ n
      → regime (feeds n d dt dr r) ≡ v
  feeds-regime n d v dt dr r valid s p q h =
      let d' = feeds n d dt dr r in
      let after = feeds-After n 0 d v dt dr r s valid.bounded (none_of_All v d.votes) in
      let whole : length d'.votes - (0 + n) ≡ 0 = omega (arith, after.size) in
      regime_of_All v d' (ground (arith, s.shown))
        (subst (λ j. All (λ u. u ≡ v) (drop j d'.votes)) whole after.recent)
        (omega (arith, after.size, after.min_votes)) (omega (arith, after.size))
