-- ===== src/Number/Fixed.antt =====
-- Fixed-point numbers with three decimals: a type that meets the interface, for the tests.
use native.Mathlib.Nat.{mul-le-mul_left, le-div_iff_mul-le, div-mul-le_self, le_trans}
use agentpause.Prelude.{
  ℕ, zero, true, suc, ◌+◌, ◌*◌, ◌/◌, ◌≤◌, ◌<◌, ◌≡◌, arith, if◌then◌else◌, leb→le, leb,
}
use agentpause.Prelude.Int.{
  ℤ, pos, negsuc, pos_part, neg_part, sub_ℕ, leb_ℤ, ltb_ℤ, ◌≤ℤ◌, ◌+ℤ◌, ◌-ℤ◌,
}
use agentpause.Number.{Float, IsOrdered, IsExact, IsMonotone, Truncates}

-- `thousandths x` is x / 1000.
pub record Milli : Type 0 where
  pub thousandths : ℤ

abbrev pub milli : ℕ → Milli
milli n = record { thousandths = pos n }

abbrev scaled : (ℕ → ℕ) → ℤ → ℤ
scaled g a = sub_ℕ (g (pos_part a)) (g (neg_part a))

abbrev times : ℤ → ℤ → ℤ
times a b =
    sub_ℕ ((pos_part a * pos_part b + neg_part a * neg_part b) / 1000)
      ((pos_part a * neg_part b + neg_part a * pos_part b) / 1000)

abbrev over : ℤ → ℤ → ℤ
over a (pos n) = scaled (λ m. m * 1000 / n) a
over a (negsuc n) = scaled (λ m. m * 1000 / suc n) (pos 0 -ℤ a)

abbrev power : ℤ → ℕ → ℤ
power a zero = pos 1000
power a (suc n) = times a (power a n)

-- the least root from `r` on whose square reaches `n`, looked for in `fuel` steps
abbrev root : ℕ → ℕ → ℕ → ℕ
root zero n r = r
root (suc fuel) n r = let next = root fuel n (r + 1) in if leb n (r * r) then r else next

abbrev ceiling : ℤ → ℤ
ceiling (pos n) = pos ((n + 999) / 1000)
ceiling (negsuc n) = pos 0 -ℤ pos (suc n / 1000)

instance abbrev pub milli_float : Float Milli
milli_float = record {
  of_int = λ a. record { thousandths = scaled (λ m. m * 1000) a };
  lit = λ m n. record { thousandths = pos (m * 1000 / n) };
  add = λ x y. record { thousandths = x.thousandths +ℤ y.thousandths };
  sub = λ x y. record { thousandths = x.thousandths -ℤ y.thousandths };
  mul = λ x y. record { thousandths = times x.thousandths y.thousandths };
  div = λ x y. record { thousandths = over x.thousandths y.thousandths };
  pow = λ x n. record { thousandths = power x.thousandths n };
  sqrt = λ x. record { thousandths = pos (root 1000 (pos_part x.thousandths * 1000) 0) };
  le = λ x y. leb_ℤ x.thousandths y.thousandths;
  lt = λ x y. ltb_ℤ x.thousandths y.thousandths;
  ceil = λ x. ceiling x.thousandths;
  trunc = λ x. scaled (λ m. m / 1000) x.thousandths;
  round = λ x. scaled (λ m. (m + 500) / 1000) x.thousandths;
}

pub Milli-IsOrdered : IsOrdered Milli
Milli-IsOrdered = record {
  le_refl = λ x. ground arith;
  le_trans = λ x y z p q. ground arith;
  le_total = λ x y. ground arith;
  lt-eq-not-le = λ x y. ground arith;
}

le_ceiling :
    (x a b : ℤ)
    → leb_ℤ (scaled (λ m. m * 1000) a +ℤ x) (scaled (λ m. m * 1000) b) ≡ leb_ℤ (a +ℤ ceiling x) b
unfolding ◌+ℤ◌ ◌-ℤ◌
le_ceiling x a b = ground arith

pub Milli-IsExact : IsExact Milli
unfolding ◌+ℤ◌ ◌-ℤ◌
Milli-IsExact = record {
  ordered = Milli-IsOrdered;
  add_comm = λ x y. ground arith;
  add_assoc = λ x y z. ground arith;
  add_zero = λ x. ground arith;
  le-sub = λ x y z. ground arith;
  sub-le = λ x y z. ground arith;
  of_int-le = λ a b. ground arith;
  ceil-le = λ x a b. le_ceiling x.thousandths a b;
}

Milli-mul_mono :
    (x y z : ℤ) → leb_ℤ (pos 0) x ≡ true → leb_ℤ y z ≡ true → leb_ℤ (times x y) (times x z) ≡ true
Milli-mul_mono (pos x) (pos y) (pos z) p q =
    ground (arith, mul-le-mul_left x (leb→le y z (ground arith)))
Milli-mul_mono (pos x) (pos y) (negsuc z) p q = ground arith
Milli-mul_mono (pos x) (negsuc y) (pos z) p q = ground arith
Milli-mul_mono (pos x) (negsuc y) (negsuc z) p q =
    ground (arith, mul-le-mul_left x (leb→le z y (ground arith)))
Milli-mul_mono (negsuc x) y z p q = ground arith

div_mono : (a b n : ℕ) → a ≤ b → 0 < n → a / n ≤ b / n
div_mono a b n h p = (le-div_iff_mul-le p).1 (le_trans (div-mul-le_self a n) h)

Milli-div_mono :
    (x y z : ℤ) → leb_ℤ x y ≡ true → ltb_ℤ (pos 0) z ≡ true → leb_ℤ (over x z) (over y z) ≡ true
unfolding ◌-ℤ◌
Milli-div_mono x y (negsuc n) p q = ground arith
Milli-div_mono (pos x) (pos y) (pos n) p q = ground (arith, div_mono (x * 1000) (y * 1000) n)
Milli-div_mono (pos x) (negsuc y) (pos n) p q = ground arith
Milli-div_mono (negsuc x) (pos y) (pos n) p q = ground arith
Milli-div_mono (negsuc x) (negsuc y) (pos n) p q =
    ground (arith, div_mono (suc y * 1000) (suc x * 1000) n)

pub Milli-IsMonotone : IsMonotone Milli
unfolding ◌+ℤ◌
Milli-IsMonotone = record {
  ordered = Milli-IsOrdered;
  add_mono = λ w x y z p q. ground arith;
  mul_mono = λ x y z p q. Milli-mul_mono x.thousandths y.thousandths z.thousandths p q;
  div_mono = λ x y z p q. Milli-div_mono x.thousandths y.thousandths z.thousandths p q;
  of_int_mono = λ a b h. ground arith;
  of_int_pos = λ a h. ground arith;
}

pub Milli-Truncates : Truncates Milli
Milli-Truncates x k h = le_trunc x.thousandths k h
  where
    le_trunc :
        (a : ℤ) (k : ℕ)
        → leb_ℤ (scaled (λ m. m * 1000) (pos k)) a ≡ true
        → pos k ≤ℤ scaled (λ m. m / 1000) a
    le_trunc (pos a) k h = ground arith
    le_trunc (negsuc a) k h = ground arith
