-- ===== src/Number.antt =====
-- Python's float: the operations that the library's arithmetic uses, as an interface. Durations,
-- clock readings, prices, sigma and k are floats; token, request and step counts are ints.
pub mod Fixed
pub mod Order
use agentpause.Prelude.{
  ℕ, Bool, true, false, not, ◌&&◌, ◌≡◌, ◌⊎◌, Option, none, some, if◌then◌else◌,
}
use agentpause.Prelude.Int.{ℤ, pos, leb_ℤ, ◌+ℤ◌, ◌≤ℤ◌}

pub record Float (F : Type 0) : Type 0 where
  -- an int where a float is wanted
  pub of_int : ℤ → F
  -- the decimal literal m / n
  pub lit : ℕ → ℕ → F
  pub add : F → F → F
  pub sub : F → F → F
  pub mul : F → F → F
  pub div : F → F → F
  -- `x ** n`
  pub pow : F → ℕ → F
  -- `x ** 0.5`
  pub sqrt : F → F
  pub le : F → F → Bool
  pub lt : F → F → Bool
  -- `math.ceil`, `int` and `int(round(·))`
  pub ceil : F → ℤ
  pub trunc : F → ℤ
  pub round : F → ℤ

module _ {F : Type 0} ⦃f : Float F⦄ where
  open f use {le, lt, of_int}

  abbrev pub nought : F
  nought = of_int (pos 0)

  infix 4 ◌≼◌
  abbrev pub ◌≼◌ : F → F → Type 0
  x ≼ y = le x y ≡ true

  -- `min(a, b)` and `max(a, b)`: the first of two equal values is returned.
  abbrev pub min_f : F → F → F
  min_f a b = if lt b a then b else a

  abbrev pub max_f : F → F → F
  max_f a b = if lt a b then b else a

  -- `bool(x)`, which is false at zero
  abbrev pub truthy : F → Bool
  truthy x = not (le x nought && le nought x)

  -- `a or b`, where each may be None
  abbrev pub or_else : Option F → Option F → Option F
  or_else none b = b
  or_else (some a) b = if truthy a then some a else b

-- The order of the floats other than NaN.
pub record IsOrdered (F : Type 0) ⦃f : Float F⦄ : Type 0 where
  pub le_refl : (x : F) → x ≼ x
  pub le_trans : (x y z : F) → x ≼ y → y ≼ z → x ≼ z
  pub le_total : (x y : F) → (x ≼ y) ⊎ (y ≼ x)
  pub lt-eq-not-le : (x y : F) → f.lt x y ≡ not (f.le y x)

-- Arithmetic without rounding: sums and differences are exact, and ints embed in the floats.
pub record IsExact (F : Type 0) ⦃f : Float F⦄ : Type 0 where
  pub ordered : IsOrdered F
  pub add_comm : (x y : F) → f.add x y ≡ f.add y x
  pub add_assoc : (x y z : F) → f.add (f.add x y) z ≡ f.add x (f.add y z)
  pub add_zero : (x : F) → f.add x nought ≡ x
  pub le-sub : (x y z : F) → f.le (f.sub x y) z ≡ f.le x (f.add z y)
  pub sub-le : (x y z : F) → f.le x (f.sub y z) ≡ f.le (f.add x z) y
  pub of_int-le : (a b : ℤ) → f.le (f.of_int a) (f.of_int b) ≡ leb_ℤ a b
  -- an int plus a float against an int: the float may be rounded up first
  pub ceil-le :
      (x : F) (a b : ℤ) → f.le (f.add (f.of_int a) x) (f.of_int b) ≡ leb_ℤ (a +ℤ f.ceil x) b

-- Rounding keeps the order: what IEEE arithmetic guarantees away from NaN.
pub record IsMonotone (F : Type 0) ⦃f : Float F⦄ : Type 0 where
  pub ordered : IsOrdered F
  pub add_mono : (w x y z : F) → w ≼ x → y ≼ z → f.add w y ≼ f.add x z
  pub mul_mono : (x y z : F) → nought ≼ x → y ≼ z → f.mul x y ≼ f.mul x z
  pub div_mono : (x y z : F) → x ≼ y → f.lt nought z ≡ true → f.div x z ≼ f.div y z
  pub of_int_mono : (a b : ℤ) → a ≤ℤ b → f.of_int a ≼ f.of_int b
  pub of_int_pos : (a : ℤ) → pos 1 ≤ℤ a → f.lt nought (f.of_int a) ≡ true

-- `int` of a float that is no less than a count is no less than it either.
abbrev pub Truncates : (F : Type 0) → ⦃f : Float F⦄ → Type 0
Truncates F ⦃f⦄ = (x : F) (k : ℕ) → f.of_int (pos k) ≼ x → pos k ≤ℤ f.trunc x
