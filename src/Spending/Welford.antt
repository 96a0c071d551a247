-- ===== src/Spending/Welford.antt =====
-- `update_profile_from_transaction` of app/services/ai/spending_service.py: the running mean and
-- deviation of a user's transactions. The square root is computed by Python's floats: `root n d`
-- stands for `math.sqrt(max(float(n / d), 0.0))` as a decimal, quantized to the four digits of an
-- amount, where n / d is in squares of the amount's unit.
use moaje_work.Prelude.{
  ℕ, ◌+◌, ◌-◌, ◌*◌, Bool, Option, none, some, String, ltb, max, if◌then◌else◌, find, update_where,
  ℤ, pos, pos_part, ◌+ℤ◌, ◌-ℤ◌, ◌*ℤ◌,
}
use moaje_work.Decimal.{round_half_even, signed}
use moaje_work.Spending.{Profile, profile_cache_payload}
use moaje_work.Spending.ProfileStore.{is_profile, get_or_create_profile}
use moaje_work.Spending.Patterns.{peak_spend_hour, top_category}
use moaje_work.Database.{World, Environment}
use moaje_work.Database.Cache.{set_spending_profile_cache}

-- `new_avg` is `avg_num / n`: old + (amount - old) / n over the denominator n.
unfoldable pub avg_num : ℕ → ℕ → ℕ → ℤ
avg_num n old amount = pos old *ℤ pos n +ℤ (pos amount -ℤ pos old)

-- `new_m2` over the denominator n: old_std² (n - 1) + (amount - old) (amount - new_avg).
unfoldable pub m2_num : ℕ → ℕ → ℕ → ℕ → ℤ
unfolding avg_num
m2_num n old std amount =
    pos (std * std * (n - 1) * n)
    +ℤ (pos amount -ℤ pos old) *ℤ (pos amount *ℤ pos n -ℤ avg_num n old amount)

unfoldable pub new_avg : ℕ → ℕ → ℕ → ℕ
new_avg n old amount = pos_part (signed round_half_even (avg_num n old amount) n)

unfoldable pub new_std : (ℤ → ℕ → ℕ) → ℕ → ℕ → ℕ → ℕ → ℕ
new_std root n old std amount = if ltb 1 n then root (m2_num n old std amount) (n * n) else 0

unfoldable pub counted : Bool → ℕ → ℕ
counted already_counted current = if already_counted then max current 1 else current + 1

abbrev or_old {ℓ} : {A : Type ℓ} → A → Option A → A
or_old x none = x
or_old x (some y) = y

-- The fields after the transaction.
unfoldable pub updated_profile :
    (ℤ → ℕ → ℕ) → ℕ → Bool → Option ℕ → Option String → Profile → Profile
unfolding new_avg new_std counted
updated_profile root amount already_counted peak top p =
    let n = counted already_counted p.tx_count in
    record p {
      avg_daily_amount = new_avg n p.avg_daily_amount amount;
      std_daily_amount = new_std root n p.avg_daily_amount p.std_daily_amount amount;
      tx_count = n;
      peak_spend_hour = or_old p.peak_spend_hour peak;
      top_category = or_old p.top_category top;
    }

unfoldable pub write_profile : (ℤ → ℕ → ℕ) → ℕ → ℕ → Bool → Profile → World → World
unfolding updated_profile
write_profile root user_id amount already_counted p w =
    let peak = peak_spend_hour user_id w.db.inference_logs in
    let top = top_category user_id w.db.categories in
    let changed = updated_profile root amount already_counted peak top p in
    record w {
      db = record w.db {
        profiles = update_where (is_profile user_id) (λ _. changed) w.db.profiles;
      };
      redis = set_spending_profile_cache user_id (profile_cache_payload changed) w.redis;
    }

-- The look-up after `get_or_create_profile`; without a row there is nothing to update.
unfoldable pub update_found : (ℤ → ℕ → ℕ) → ℕ → ℕ → Bool → World → World
update_found root user_id amount already_counted w =
    elim (find (is_profile user_id) w.db.profiles) [
      | none ↦ w
      | some p ↦ write_profile root user_id amount already_counted p w
    ]

unfoldable pub update_profile_from_transaction :
    (ℤ → ℕ → ℕ) → Environment → ℕ → ℕ → Bool → World → World
update_profile_from_transaction root env user_id amount already_counted w =
    if env.database_available
    then elim (find (is_profile user_id) w.db.profiles) [
      | some p ↦ write_profile root user_id amount already_counted p w
      | none ↦
          update_found root user_id amount already_counted (get_or_create_profile env user_id w).1
    ]
    else w
