-- ===== src/Quota/Window.antt =====
-- The `_prune` loop that src/agentpause/tools.py and src/agentpause/attention.py share.
use agentpause.Prelude.{
  ◌≤◌, false, List, [], ◌∷◌, ◌++◌, ◌≡◌, refl, ap, arith, inl, inr, Bool-cases, if◌then◌else◌, All,
  length,
}
use agentpause.Number.{Float, ◌≼◌, IsOrdered}

module _ {F : Type 0} ⦃f : Float F⦄ where
  -- `while ts and ts[0] <= cutoff: ts.popleft()`
  unfoldable pub prune : F → List F → List F
  prune cutoff [] = []
  prune cutoff (t ∷ ts) = if f.le t cutoff then prune cutoff ts else t ∷ ts

  pub length-prune : (cutoff : F) (ts : List F) → length (prune cutoff ts) ≤ length ts
  unfolding prune
  length-prune cutoff [] = omega arith
  length-prune cutoff (t ∷ ts) = ground (arith, length-prune cutoff ts)

  -- The loop removes a first part, whose entries are all at or before the cutoff.
  pub prune_drops :
      (cutoff : F) (ts : List F)
      → (old : List F) × (ts ≡ old ++ prune cutoff ts) × All (λ u. u ≼ cutoff) old
  unfolding prune
  prune_drops cutoff [] = ([], refl, tt)
  prune_drops cutoff (t ∷ ts) = elim (Bool-cases (f.le t cutoff)) [
    | inl old ↦ let (pre, e, p) = prune_drops cutoff ts in rw old (t ∷ pre, ap (◌∷◌ t) e, (old, p))
    | inr new ↦ rw new ([], refl, tt)
  ]

  -- the oldest first
  abbrev pub IsSorted : List F → Type 0
  IsSorted [] = Unit {0}
  IsSorted (t ∷ ts) = All (λ u. t ≼ u) ts × IsSorted ts

  newer_All :
      (o : IsOrdered F) (cutoff t : F) (ts : List F)
      → f.le t cutoff ≡ false
      → All (λ u. t ≼ u) ts
      → All (λ u. f.le u cutoff ≡ false) ts
  newer_All o cutoff t [] h a = tt
  newer_All o cutoff t (u ∷ us) h (a, rest) =
      (ground (arith, o.le_trans t u cutoff), newer_All o cutoff t us h rest)

  -- On a sorted list the loop removes every entry at or before the cutoff, keeps every later one, and
  -- keeps their order.
  pub prune_splits :
      (o : IsOrdered F) (cutoff : F) (ts : List F)
      → IsSorted ts
      → (old : List F) × (ts ≡ old ++ prune cutoff ts)
        × All (λ u. u ≼ cutoff) old
        × All (λ u. f.le u cutoff ≡ false) (prune cutoff ts)
  unfolding prune
  prune_splits o cutoff [] s = ([], refl, tt, tt)
  prune_splits o cutoff (t ∷ ts) (a, s) = elim (Bool-cases (f.le t cutoff)) [
    | inl old ↦
        let (pre, e, p, q) = prune_splits o cutoff ts s in
        rw old (t ∷ pre, ap (◌∷◌ t) e, (old, p), q)
    | inr new ↦ rw new ([], refl, tt, (new, newer_All o cutoff t ts new a))
  ]
