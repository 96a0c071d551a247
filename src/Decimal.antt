-- ===== src/Decimal.antt =====
-- Python's `Decimal` as the services use it (app/services/**, `quantize`, `min`, comparison).
-- Amounts of money are whole numbers of ten-thousandths of a won, the scale of the columns
-- `Numeric(18, 4)`. A quotient is an exact fraction: the rounding of the 28-digit context is not
-- modelled, only the `quantize` that the code writes.
pub mod Bounds
use Prim.Native.Nat.{ℕ, suc, ◌+◌, ◌-◌, ◌*◌, ◌/◌, ◌%◌, ◌≤◌, ◌<◌}
use mathlib.Core.Bool.{Bool}
use moaje_work.Prelude.{ltb, leb, ◌==◌, if◌then◌else◌, ℤ, pos, negsuc, sub_ℕ}

-- A fraction that is not negative.
pub record Ratio : Type 0 where
  pub num : ℕ
  pub den : ℕ

abbrev pub IsValid : Ratio → Type 0
IsValid r = 0 < r.den

abbrev pub frac : ℕ → ℕ → Ratio
frac n d = record { num = n; den = d }

infixl 65 ◌+r◌ ◌-r◌
infixl 70 ◌*r◌ ◌/r◌
infix 50 ◌≤r◌
unfoldable pub ◌+r◌ : Ratio → Ratio → Ratio
a +r b = frac (a.num * b.den + b.num * a.den) (a.den * b.den)

-- For a minuend that is at least the subtrahend.
unfoldable pub ◌-r◌ : Ratio → Ratio → Ratio
a -r b = frac (a.num * b.den - b.num * a.den) (a.den * b.den)

unfoldable pub ◌*r◌ : Ratio → Ratio → Ratio
a *r b = frac (a.num * b.num) (a.den * b.den)

unfoldable pub ◌/r◌ : Ratio → Ratio → Ratio
a /r b = frac (a.num * b.den) (a.den * b.num)

abbrev pub ◌≤r◌ : Ratio → Ratio → Type 0
a ≤r b = a.num * b.den ≤ b.num * a.den

-- |a - b| of two amounts.
abbrev pub distance : ℕ → ℕ → ℕ
distance a b = (a - b) + (b - a)

abbrev pub leb_r : Ratio → Ratio → Bool
leb_r a b = leb (a.num * b.den) (b.num * a.den)

-- `min(a, b)`: the first, unless the second is smaller.
unfoldable pub min_r : Ratio → Ratio → Ratio
min_r a b = if ltb (b.num * a.den) (a.num * b.den) then b else a

-- `quantize(Decimal("1"))` of n / d: half to even, the default rounding.
unfoldable pub round_half_even : ℕ → ℕ → ℕ
round_half_even n d =
    let q = n / d in
    let r = n % d in
    if ltb (2 * r) d then q else if ltb d (2 * r) then q + 1 else if q % 2 == 0 then q else q + 1

-- `quantize(Decimal("1"), rounding=ROUND_HALF_UP)` of n / d.
unfoldable pub round_half_up : ℕ → ℕ → ℕ
round_half_up n d = (2 * n + d) / (2 * d)

-- `quantize(Decimal("1"), rounding=ROUND_DOWN)` and `int(...)` of n / d.
unfoldable pub round_down : ℕ → ℕ → ℕ
round_down n d = n / d

-- Rounding treats the two signs alike.
abbrev pub signed : (ℕ → ℕ → ℕ) → ℤ → ℕ → ℤ
signed round (pos n) d = pos (round n d)
signed round (negsuc n) d = sub_ℕ 0 (round (suc n) d)

-- `quantize(Decimal("0.0001"))`, as a number of ten-thousandths.
unfoldable pub quantize4 : Ratio → ℕ
unfolding round_half_even
quantize4 r = round_half_even (r.num * 10000) r.den
