-- ===== src/Simulator/Goal.antt =====
-- The months to the goal and the rate of progress.
use native.Mathlib.Decide.{dec_lt}
use native.Mathlib.Nat.{
  lt-div-mul-add, div-lt_iff_lt-mul, le_trans, mul-le-mul_left, div-add-mod', mod-lt,
  mul-le-mul_right,
}
use moaje_work.Prelude.{
  ℕ, zero, suc, ◌+◌, ◌-◌, ◌*◌, ◌/◌, ◌≤◌, ◌<◌, ◌≡◌, refl, ap, ◌↔◌, inl, inr, false, none, some,
  arith, leb, Bool-cases, ℤ, pos, negsuc, pos_part, ◌-ℤ◌, ◌≤ℤ◌,
}
use moaje_work.Decimal.{round_half_even}
use moaje_work.Simulator.{SimulationInput}
use moaje_work.Simulator.Service.{months_to_goal, progress_rate, build_result}

ceil_reaches : (gap s : ℕ) → 0 < s → gap ≤ (gap + s - 1) / s * s
ceil_reaches gap s p = omega (arith, lt-div-mul-add {a = gap + s - 1} {b = s} p)

ceil_least : (gap s k : ℕ) → 0 < s → gap ≤ k * s → (gap + s - 1) / s ≤ k
ceil_least gap s k p h =
    let below : (gap + s - 1) / s < k + 1 = (div-lt_iff_lt-mul {k = s} p).1 (omega arith) in
    omega arith

-- With a positive saving the months are the least number after which the gap is covered.
months_to_goal_least :
    (gap s : ℕ)
    → 0 < s
    → (m : ℕ) × (months_to_goal gap (pos s) ≡ some m)
      × (gap ≤ m * s)
      × ((k : ℕ) → gap ≤ k * s → m ≤ k)
unfolding months_to_goal
months_to_goal_least zero s p = (0, refl, omega arith, λ k h. omega arith)
months_to_goal_least (suc g) s p =
    ((suc g + s - 1) / s, ground arith, ceil_reaches (suc g) s p, λ k h. ceil_least (suc g) s k p h)

-- There is no answer exactly when something is missing and nothing can be saved.
pub months_to_goal_none :
    (gap : ℕ) (savable : ℤ) → (months_to_goal gap savable ≡ none) ↔ ((0 < gap) × (savable ≤ℤ pos 0))
unfolding months_to_goal
months_to_goal_none gap savable = (λ h. ground arith, λ h. ground arith)

positive :
    (gap : ℕ) (s : ℤ) (m : ℕ) → leb gap 0 ≡ false → months_to_goal gap s ≡ some m → 0 < pos_part s
unfolding months_to_goal
positive gap (pos n) m h e = ground arith
positive gap (negsuc n) m h e = ground arith

some_month :
    (gap : ℕ) (s t : ℤ) (m : ℕ)
    → leb gap 0 ≡ false
    → s ≤ℤ t
    → months_to_goal gap s ≡ some m
    → (n : ℕ) × (months_to_goal gap t ≡ some n) × (n ≤ m)
some_month gap (negsuc a) t m h le e = absurd (omega (arith, positive gap (negsuc a) m h e))
some_month gap (pos a) (negsuc b) m h le e = absurd (omega (arith, le))
some_month gap (pos a) (pos b) m h le e =
    let p : 0 < a = positive gap (pos a) m h e in
    let (k, found, reaches, least) = months_to_goal_least gap a p in
    let (n, found', reaches', least') = months_to_goal_least gap b (omega arith) in
    let same : k ≡ m = ground arith in
    (
      n,
      found',
      least' m (le_trans {m = m * a} (rw (← same) reaches) (mul-le-mul_left m (omega arith))),
    )

-- Saving more each month never takes longer.
pub months_to_goal_mono :
    (gap : ℕ) (s t : ℤ) (m : ℕ)
    → s ≤ℤ t
    → months_to_goal gap s ≡ some m
    → (n : ℕ) × (months_to_goal gap t ≡ some n) × (n ≤ m)
months_to_goal_mono gap s t m h e = elim (Bool-cases (leb gap 0)) [
  | inl done ↦ (0, unfold months_to_goal in rw done, omega arith)
  | inr open_gap ↦ some_month gap s t m open_gap h e
]

gap_zero : (target : ℕ) (asset : ℤ) → pos_part (pos target -ℤ asset) ≡ 0 ↔ pos target ≤ℤ asset
unfolding ◌-ℤ◌
gap_zero target (pos a) = (λ h. ground arith, λ h. ground arith)
gap_zero target (negsuc a) = (λ h. ground arith, λ h. ground arith)

-- The gap is closed exactly when the asset covers the target, and then no months are left.
pub gap_closed :
    (inp : SimulationInput)
    → let r = build_result inp in
      (r.gap ≡ 0 ↔ pos r.target_amount ≤ℤ inp.current_asset)
      × (r.gap ≡ 0 → r.months_to_goal ≡ some 0)
unfolding build_result months_to_goal
gap_closed inp = (gap_zero _ inp.current_asset, λ h. rw h)

rounds_up_to_full : (n t : ℕ) → 0 < t → 10000 ≤ round_half_even n t ↔ 19999 * t ≤ 2 * n
unfolding round_half_even
rounds_up_to_full n t p =
    let whole = div-add-mod' n t in
    let rest = mod-lt n p in
    elim (dec_lt 9998 (n / t)) [
      | no low ↦
          let below : n / t * t ≤ 9998 * t = mul-le-mul_right t (omega (arith, low)) in
          (λ h. absurd (ground (arith, low)), λ h. absurd (omega (arith, whole, rest, below)))
      | yes high ↦ elim (dec_lt 9999 (n / t)) [
        | yes full ↦
            let above : 10000 * t ≤ n / t * t = mul-le-mul_right t full in
            (λ h. omega (arith, whole, above), λ h. ground (arith, full))
        | no near ↦
            let e : n / t ≡ 9999 = omega (arith, high, near) in
            let exact : n / t * t ≡ 9999 * t = ap (λ (q : ℕ). q * t) e in
            (λ h. ground (arith, e, exact, whole, rest), λ h. ground (arith, e, exact, whole, rest))
      ]
    ]

-- A positive target t and an asset a: the rounded rate shows the goal as reached from
-- a / t = 0.99995 on, so also for an asset that is still short of the target.
progress_full : (a t : ℕ) → 0 < t → progress_rate (pos a) t ≡ pos 10000 ↔ 19999 * t ≤ 20000 * a
unfolding progress_rate
progress_full a t p =
    let full = rounds_up_to_full (a * 10000) t p in
    (λ h. omega (arith, full.0 (ground arith)), λ h. ground (arith, full.1 (omega (arith, h))))
