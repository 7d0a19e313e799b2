-- ===== src/Number/Order.antt =====
-- Facts on the order of floats that the components share.
use agentpause.Prelude.{sym, ◌∙◌, true, false, ◌≡◌, arith}
use agentpause.Number.{Float, ◌≼◌, IsOrdered, IsExact, nought, min_f, max_f}

module _ {F : Type 0} ⦃f : Float F⦄ (o : IsOrdered F) where
  open o use {le_refl, le_trans, le_total, lt-eq-not-le}

  -- `not (x < y)` gives `y <= x`, and `x < y` gives `x <= y`.
  pub le_of_not-lt : (x y : F) → f.lt x y ≡ false → y ≼ x
  le_of_not-lt x y h = ground (arith, lt-eq-not-le x y)

  pub le_of_lt : (x y : F) → f.lt x y ≡ true → x ≼ y
  le_of_lt x y h = ground (arith, lt-eq-not-le x y, le_total x y)

  pub min_f-le : (x y : F) → (min_f x y ≼ x) × (min_f x y ≼ y)
  min_f-le x y = ground (arith, lt-eq-not-le y x, le_total x y, le_refl x, le_refl y)

  pub le-max_f : (x y : F) → (x ≼ max_f x y) × (y ≼ max_f x y)
  le-max_f x y = ground (arith, lt-eq-not-le x y, le_total x y, le_refl x, le_refl y)

  pub lt-lt_of_le : (x y z : F) → f.lt x y ≡ true → y ≼ z → f.lt x z ≡ true
  lt-lt_of_le x y z p q = ground (arith, lt-eq-not-le x y, lt-eq-not-le x z, le_trans y z x)

module _ {F : Type 0} ⦃f : Float F⦄ (x : IsExact F) where
  -- `(a - b) + b` is `a`, in both orders of the sum.
  pub add-sub_le : (a b : F) → (f.add b (f.sub a b) ≼ a) × (a ≼ f.add b (f.sub a b))
  add-sub_le a b =
      let d = f.sub a b in
      let same = x.ordered.le_refl d in
      (
        rw (x.add_comm b d) (sym (x.sub-le d a b) ∙ same),
        rw (x.add_comm b d) (sym (x.le-sub a b d) ∙ same),
      )

  -- A difference of zero or less.
  pub le_of_sub-le-zero : (a b : F) → f.sub a b ≼ nought → a ≼ b
  le_of_sub-le-zero a b h = rw (← x.add_zero b, x.add_comm b nought, ← x.le-sub a b nought) h

  -- Adding zero or more on the right, and on the left.
  pub le-add : (a b : F) → nought ≼ b → a ≼ f.add a b
  le-add a b h =
      let none_left : f.sub a a ≼ nought =
        rw (x.le-sub a a nought, x.add_comm nought a, x.add_zero a) (x.ordered.le_refl a) in
      rw (x.add_comm a b, ← x.le-sub a a b) (x.ordered.le_trans _ nought b none_left h)
