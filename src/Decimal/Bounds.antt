-- ===== src/Decimal/Bounds.antt =====
-- Rounding keeps bounds; the order of fractions under sums, products and `min`.
use native.Mathlib.Nat.{
  mul-le-mul, le_of_mul-le-mul_right, mul-pos, mul-le-mul_right, div-le_of_le-mul, div-add-mod',
  lt_of_mul-lt-mul_right, le_trans, mul_comm, div-lt_iff_lt-mul, le-div_iff_mul-le,
}
use moaje_work.Prelude.{ℕ, ◌+◌, ◌*◌, ◌/◌, ◌%◌, ◌≤◌, ◌<◌, arith}
use moaje_work.Decimal.{
  Ratio, IsValid, frac, ◌+r◌, ◌*r◌, ◌≤r◌, min_r, round_half_even, round_half_up, quantize4,
}

-- n / d at most k rounds to at most k.
quotient-le : (n d k : ℕ) → 0 < d → n ≤ k * d → n / d ≤ k
quotient-le n d k p h = div-le_of_le-mul d (rw mul_comm h)

quotient-lt : (n d k : ℕ) → 0 < d → n ≤ k * d → 0 < n % d → n / d < k
quotient-lt n d k p h r =
    lt_of_mul-lt-mul_right d (le_trans {m = n} (omega (arith, div-add-mod' n d)) h)

pub round_half_even-le : (n d k : ℕ) → 0 < d → n ≤ k * d → round_half_even n d ≤ k
unfolding round_half_even
round_half_even-le n d k p h = ground (arith, quotient-le n d k p h, quotient-lt n d k p h)

pub round_half_up-le : (n d k : ℕ) → 0 < d → n ≤ k * d → round_half_up n d ≤ k
unfolding round_half_up
round_half_up-le n d k p h =
    let lt : (2 * n + d) / (2 * d) < k + 1 =
      (div-lt_iff_lt-mul {k = 2 * d} (omega arith)).1 (omega (arith, h)) in
    omega arith

-- A fraction of at most k ten-thousandths quantizes to at most k.
pub quantize4-le : (r : Ratio) (k : ℕ) → IsValid r → r ≤r frac k 10000 → quantize4 r ≤ k
unfolding quantize4
quantize4-le r k v h = round_half_even-le (r.num * 10000) r.den k v h

pub ≤r_trans : (a b c : Ratio) → IsValid b → a ≤r b → b ≤r c → a ≤r c
≤r_trans a b c v h k =
    le_of_mul-le-mul_right {k = b.den}
      (omega (arith, mul-le-mul_right c.den h, mul-le-mul_right a.den k)) v

pub +r_mono : (a b c d : Ratio) → a ≤r c → b ≤r d → a +r b ≤r c +r d
unfolding ◌+r◌
+r_mono a b c d h k =
    omega (arith, mul-le-mul_right (b.den * d.den) h, mul-le-mul_right (a.den * c.den) k)

pub *r_mono : (a b c d : Ratio) → a ≤r c → b ≤r d → a *r b ≤r c *r d
unfolding ◌*r◌
*r_mono a b c d h k = omega (arith, mul-le-mul h k)

pub min_r-le_left : (a b : Ratio) → min_r a b ≤r a
unfolding min_r
min_r-le_left a b = ground arith

pub min_r-le_right : (a b : Ratio) → min_r a b ≤r b
unfolding min_r
min_r-le_right a b = ground arith

pub +r-IsValid : (a b : Ratio) → IsValid a → IsValid b → IsValid (a +r b)
unfolding ◌+r◌
+r-IsValid a b h k = mul-pos h k

pub *r-IsValid : (a b : Ratio) → IsValid a → IsValid b → IsValid (a *r b)
unfolding ◌*r◌
*r-IsValid a b h k = mul-pos h k

pub min_r-IsValid : (a b : Ratio) → IsValid a → IsValid b → IsValid (min_r a b)
unfolding min_r
min_r-IsValid a b h k = ground arith

-- n / d at least k rounds to at least k.
quotient-ge : (n d k : ℕ) → 0 < d → k * d ≤ n → k ≤ n / d
quotient-ge n d k p h = (le-div_iff_mul-le {k = d} p).1 h

pub round_half_even-ge : (n d k : ℕ) → 0 < d → k * d ≤ n → k ≤ round_half_even n d
unfolding round_half_even
round_half_even-ge n d k p h = ground (arith, quotient-ge n d k p h)

pub quantize4-ge : (r : Ratio) (k : ℕ) → IsValid r → frac k 10000 ≤r r → k ≤ quantize4 r
unfolding quantize4
quantize4-ge r k v h = round_half_even-ge (r.num * 10000) r.den k v h

pub le-min_r : (a b c : Ratio) → c ≤r a → c ≤r b → c ≤r min_r a b
unfolding min_r
le-min_r a b c h k = ground arith
