-- ===== src/Spending/Peak.antt =====
-- The hour that `_peak_spend_hour` picks.
use mathlib.Core.Path.{subst}
use moaje_work.Prelude.{
  ℕ, zero, suc, ◌≤◌, ◌<◌, ◌≡◌, inl, inr, Option, none, some, List, arith, Bool-cases, ltb, ltb→lt,
}
use moaje_work.Fds.{InferenceLog}
use moaje_work.Spending.Patterns.{hour_count, best_hour, peak_spend_hour, later}

-- Below the bound, the hour has the highest count and no earlier one has the same.
abbrev pub IsPeak : (ℕ → ℕ) → ℕ → Option ℕ → Type 0
IsPeak counts bound none = (h : ℕ) → h < bound → counts h ≡ 0
IsPeak counts bound (some p) =
    (p < bound)
    × (0 < counts p)
    × ((h : ℕ) → h < bound → (counts h ≤ counts p) × (counts h ≡ counts p → p ≤ h))

-- Below n + 1 is n, or below n.
below_suc : {P : ℕ → Type 0} (n : ℕ) → P n → ((h : ℕ) → h < n → P h) → (h : ℕ) → h < suc n → P h
below_suc {P} n at_n below h k = elim (Bool-cases (ltb h n)) [
  | inl less ↦ below h (ltb→lt h n less)
  | inr not_less ↦ let same : n ≡ h = ground (arith, not_less, k) in subst P same at_n
]

IsPeak-keep :
    (counts : ℕ → ℕ) (n b : ℕ)
    → counts n ≤ counts b
    → IsPeak counts n (some b)
    → IsPeak counts (suc n) (some b)
IsPeak-keep counts n b le (below, used, best) = (
  omega (arith, below),
  used,
  below_suc {P = λ h. (counts h ≤ counts b) × (counts h ≡ counts b → b ≤ h)} n
      (le, λ _. omega (arith, below)) best,
)

IsPeak-new :
    (counts : ℕ → ℕ) (n : ℕ)
    → 0 < counts n
    → ((h : ℕ) → h < n → counts h < counts n)
    → IsPeak counts (suc n) (some n)
IsPeak-new counts n used less = (
  omega arith,
  used,
  below_suc {P = λ h. (counts h ≤ counts n) × (counts h ≡ counts n → n ≤ h)} n
      (omega arith, λ _. omega arith)
      (λ h k. let l = less h k in (omega (arith, l), λ e. absurd (omega (arith, l, e)))),
)

step-IsPeak :
    (counts : ℕ → ℕ) (n : ℕ) (best : Option ℕ)
    → IsPeak counts n best
    → IsPeak counts (suc n) (later counts n best)
step-IsPeak counts n none empty = elim (Bool-cases (ltb 0 (counts n))) [
  | inl some_here ↦
      let here = ltb→lt 0 (counts n) some_here in
      rw some_here (IsPeak-new counts n here (λ h k. let e = empty h k in omega (arith, e, here)))
  | inr none_here ↦
      rw none_here (below_suc {P = λ h. counts h ≡ 0} n (ground (arith, none_here)) empty)
]
step-IsPeak counts n (some b) peak = elim (Bool-cases (ltb (counts b) (counts n))) [
  | inl more ↦
      let over = ltb→lt (counts b) (counts n) more in
      rw more (
        IsPeak-new counts n (omega (arith, over))
          (λ h k. let (le, _) = peak.2 h k in omega (arith, le, over)))
  | inr enough ↦ rw enough (IsPeak-keep counts n b (ground (arith, enough)) peak)
]

best_hour-IsPeak : (counts : ℕ → ℕ) (bound : ℕ) → IsPeak counts bound (best_hour counts bound)
best_hour-IsPeak counts zero = λ h k. absurd (omega (arith, k))
best_hour-IsPeak counts (suc n) =
    step-IsPeak counts n (best_hour counts n) (best_hour-IsPeak counts n)

-- The peak hour has the most transactions of the user among the 24 hours, and is the earliest of
-- those; there is none only if no transaction of the user has a time.
peak_spend_hour-IsPeak :
    (user_id : ℕ) (logs : List InferenceLog)
    → IsPeak (hour_count user_id logs) 24 (peak_spend_hour user_id logs)
unfolding peak_spend_hour
peak_spend_hour-IsPeak user_id logs = best_hour-IsPeak (hour_count user_id logs) 24
