-- ===== src/Router/Sorting.antt =====
-- The sort by score of src/agentpause/router.py.
use agentpause.Prelude.{Bool, true, false, List, [], ◌∷◌, ◌≡◌, refl, sym, subst, All, if◌then◌else◌}
use agentpause.Number.{Float, ◌≼◌, IsOrdered}
use agentpause.Number.Order.{le_of_lt, le_of_not-lt}
use agentpause.Router.{Entry, insert_desc, sort_onto}

module _ {F W : Type 0} ⦃f : Float F⦄ where
  All-insert_desc :
      (P : Entry F W → Type 0) (e : Entry F W) (xs : List (Entry F W))
      → P e
      → All P xs
      → All P (insert_desc e xs)
  All-insert_desc P e [] p q = (p, tt)
  All-insert_desc P e (x ∷ xs) p (h, q) = go (All-insert_desc P e xs p q) (f.lt x.score e.score)
    where
      go :
          All P (insert_desc e xs)
          → (t : Bool) → All P (if t then e ∷ x ∷ xs else x ∷ insert_desc e xs)
      go r true = (p, (h, q))
      go r false = (h, r)

  All-sort_onto :
      (P : Entry F W → Type 0) (sorted es : List (Entry F W))
      → All P sorted
      → All P es
      → All P (sort_onto sorted es)
  All-sort_onto P sorted [] p q = p
  All-sort_onto P sorted (e ∷ es) p (h, q) =
      All-sort_onto P (insert_desc e sorted) es (All-insert_desc P e sorted h p) q

  -- No entry is better than one before it.
  abbrev pub Descending : List (Entry F W) → Type 0
  Descending [] = Unit
  Descending (x ∷ xs) = All (λ y. y.score ≼ x.score) xs × Descending xs

  All-map :
      (P Q : Entry F W → Type 0) (xs : List (Entry F W))
      → ((x : Entry F W) → P x → Q x)
      → All P xs
      → All Q xs
  All-map P Q [] g p = tt
  All-map P Q (x ∷ xs) g (h, p) = (g x h, All-map P Q xs g p)

  insert_desc-Descending :
      IsOrdered F
      → (e : Entry F W) (xs : List (Entry F W)) → Descending xs
      → Descending (insert_desc e xs)
  insert_desc-Descending o e [] d = (tt, tt)
  insert_desc-Descending o e (x ∷ xs) (h, d) =
      go (insert_desc-Descending o e xs d) (f.lt x.score e.score) refl
    where
      go :
          Descending (insert_desc e xs)
          → (t : Bool) → f.lt x.score e.score ≡ t
          → Descending (if t then e ∷ x ∷ xs else x ∷ insert_desc e xs)
      go r true l =
          let below = le_of_lt o x.score e.score l in
          (
            (
              below,
              All-map (λ y. y.score ≼ x.score) (λ y. y.score ≼ e.score) xs
                  (λ y p. o.le_trans y.score x.score e.score p below) h,
            ),
            (h, d),
          )
      go r false l =
          (All-insert_desc (λ y. y.score ≼ x.score) e xs (le_of_not-lt o x.score e.score l) h, r)

  sort_onto-Descending :
      IsOrdered F
      → (sorted es : List (Entry F W)) → Descending sorted
      → Descending (sort_onto sorted es)
  sort_onto-Descending o sorted [] d = d
  sort_onto-Descending o sorted (e ∷ es) d =
      sort_onto-Descending o (insert_desc e sorted) es (insert_desc-Descending o e sorted d)

  -- What holds of each sorted entry holds of each entry.
  insert_desc-All :
      (P : Entry F W → Type 0) (e : Entry F W) (xs : List (Entry F W))
      → All P (insert_desc e xs)
      → P e × All P xs
  insert_desc-All P e [] p = p
  insert_desc-All P e (x ∷ xs) p = go (insert_desc-All P e xs) (f.lt x.score e.score) p
    where
      go :
          (All P (insert_desc e xs) → P e × All P xs)
          → (t : Bool) → All P (if t then e ∷ x ∷ xs else x ∷ insert_desc e xs)
          → P e × (P x × All P xs)
      go r true (h, q) = (h, q)
      go r false (h, q) = let (a, b) = r q in (a, (h, b))

  sort_onto-All :
      (P : Entry F W → Type 0) (sorted es : List (Entry F W))
      → All P (sort_onto sorted es)
      → All P sorted × All P es
  sort_onto-All P sorted [] p = (p, tt)
  sort_onto-All P sorted (e ∷ es) p =
      let (q, rest) = sort_onto-All P (insert_desc e sorted) es p in
      let (h, mine) = insert_desc-All P e sorted q in (mine, (h, rest))

  -- The sorted list begins with an entry that none of the entries is better than.
  pub sorted_first :
      IsOrdered F
      → (P : Entry F W → Type 0) (es : List (Entry F W)) (x : Entry F W) (xs : List (Entry F W))
      → All P es
      → sort_onto [] es ≡ x ∷ xs
      → P x × All (λ y. y.score ≼ x.score) es
  sorted_first o P es x xs p h =
      let ps = subst (All P) h (All-sort_onto P [] es tt p) in
      let d = subst Descending h (sort_onto-Descending o [] es tt) in
      let best : All (λ y. y.score ≼ x.score) (x ∷ xs) = (o.le_refl x.score, d.0) in
      (
        ps.0,
        (sort_onto-All (λ y. y.score ≼ x.score) [] es
            (subst (All (λ y. y.score ≼ x.score)) (sym h) best)).1,
      )
