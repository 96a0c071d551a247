-- ===== src/Spending/Average.antt =====
-- The running mean stays between the old mean and the amount, and the sum of squares under the
-- square root is never negative.
use native.Mathlib.Nat.{mul-le-mul_right}
use moaje_work.Prelude.{
  ℕ, suc, ◌+◌, ◌-◌, ◌*◌, ◌≤◌, ◌≡◌, arith, min, max, ℤ, pos, pos_part, neg_part, ◌+ℤ◌, ◌-ℤ◌, ◌*ℤ◌,
  zero, ◌⊎◌, inl, inr, Bool-cases, leb, leb→le, not-leb→lt,
}
use moaje_work.Decimal.Bounds.{round_half_even-le, round_half_even-ge}
use moaje_work.Spending.Welford.{avg_num, m2_num, new_avg}

-- The numerator of the mean is old (n - 1) + amount.
avg_num-plain : (n old amount : ℕ) → 1 ≤ n → avg_num n old amount ≡ pos (old * (n - 1) + amount)
unfolding avg_num ◌+ℤ◌ ◌-ℤ◌ ◌*ℤ◌
avg_num-plain zero old amount h = absurd (omega (arith, h))
avg_num-plain (suc n) old amount h = ground arith

mean_between :
    (n lo hi old amount : ℕ)
    → 1 ≤ n
    → lo ≤ old
    → lo ≤ amount
    → old ≤ hi
    → amount ≤ hi
    → (lo * n ≤ old * (n - 1) + amount) × (old * (n - 1) + amount ≤ hi * n)
mean_between zero lo hi old amount h a b c d = absurd (omega (arith, h))
mean_between (suc n) lo hi old amount h a b c d =
    (ground (arith, mul-le-mul_right n a, b), ground (arith, mul-le-mul_right n c, d))

-- From the n-th transaction on, the new mean lies between the old mean and the amount: no rounding
-- takes it beyond them.
average_between :
    (n old amount : ℕ)
    → 1 ≤ n
    → (min old amount ≤ new_avg n old amount) × (new_avg n old amount ≤ max old amount)
unfolding new_avg
average_between n old amount h =
    let (above, below) =
      mean_between n (min old amount) (max old amount) old amount h (omega arith) (omega arith)
        (omega arith) (omega arith) in
    rw (avg_num-plain n old amount h) (
      round_half_even-ge (old * (n - 1) + amount) n (min old amount) h above,
      round_half_even-le (old * (n - 1) + amount) n (max old amount) h below,
    )

-- amount - old and amount - mean have the same sign.
abbrev SameSign : ℤ → ℤ → Type 0
SameSign x y = ((neg_part x ≡ 0) × (neg_part y ≡ 0)) ⊎ ((pos_part x ≡ 0) × (pos_part y ≡ 0))

same_sign :
    (n old amount : ℕ)
    → SameSign (pos amount -ℤ pos old) (pos amount *ℤ pos (suc n) -ℤ pos (old * n + amount))
unfolding ◌-ℤ◌ ◌*ℤ◌
same_sign n old amount = elim (Bool-cases (leb old amount)) [
  | inl h ↦
      let le = leb→le old amount h in
      inl (ground (arith, le), ground (arith, mul-le-mul_right n le))
  | inr h ↦
      let lt = not-leb→lt old amount h in
      inr (
        ground (arith, lt),
        ground (arith, mul-le-mul_right {m = amount} {n = old} n (omega (arith, lt))),
      )
]

product_nonneg : (m : ℕ) (x y : ℤ) → SameSign x y → neg_part (pos m +ℤ x *ℤ y) ≡ 0
unfolding ◌+ℤ◌ ◌*ℤ◌
product_nonneg m x y (inl (a, b)) = rw (a, b) (ground arith)
product_nonneg m x y (inr (a, b)) = rw (a, b) (ground arith)

-- For a positive number of transactions the sum of squares is not negative: the limit at 0 under
-- the root never acts.
pub squares_nonneg : (n old std amount : ℕ) → 1 ≤ n → neg_part (m2_num n old std amount) ≡ 0
unfolding m2_num
squares_nonneg zero old std amount h = absurd (omega (arith, h))
squares_nonneg (suc n) old std amount h =
    let less : suc n - 1 ≡ n = omega arith in
    rw (avg_num-plain (suc n) old amount h, less)
      (product_nonneg (std * std * n * suc n) (pos amount -ℤ pos old)
        (pos amount *ℤ pos (suc n) -ℤ pos (old * n + amount)) (same_sign n old amount))
