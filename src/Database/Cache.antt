-- ===== src/Database/Cache.antt =====
-- app/redis/client.py: the caches, open on failure.
use moaje_work.Prelude.{ℕ, ◌≡◌, Option, none, some, List, [], ◌∷◌, arith, ◌==◌, if◌then◌else◌}
use moaje_work.Spending.{ProfilePayload}
use moaje_work.Database.{Redis}

module _ {ℓ} {V : Type ℓ} where
  abbrev pub get : ℕ → List (ℕ × V) → Option V
  get k [] = none
  get k ((j, v) ∷ m) = if k == j then some v else get k m

  abbrev pub delete : ℕ → List (ℕ × V) → List (ℕ × V)
  delete k [] = []
  delete k ((j, v) ∷ m) = let rest = delete k m in if k == j then rest else (j, v) ∷ rest

  pub get-delete :
      (k j : ℕ) (m : List (ℕ × V)) → get j (delete k m) ≡ (if k == j then none else get j m)
  get-delete k j [] = ground arith
  get-delete k j ((i, v) ∷ m) = ground (arith, get-delete k j m)

unfoldable pub get_event_buffer_cache : ℕ → Redis → Option ℕ
get_event_buffer_cache user r = if r.available then get user r.event_buffers else none

unfoldable pub set_event_buffer_cache : ℕ → ℕ → Redis → Redis
set_event_buffer_cache user buffer r =
    if r.available
    then record r { event_buffers = (user, buffer) ∷ delete user r.event_buffers }
    else r

-- The two deletions of `delete_event_buffer_cache`.
unfoldable pub delete_event_buffer_cache : ℕ → Redis → Redis
delete_event_buffer_cache user r =
    if r.available
    then record r {
      event_buffers = delete user r.event_buffers;
      daily_limits = delete user r.daily_limits;
    }
    else r

unfoldable pub get_daily_limit_cache : ℕ → Redis → Option ℕ
get_daily_limit_cache user r = if r.available then get user r.daily_limits else none

unfoldable pub set_daily_limit_cache : ℕ → ℕ → Redis → Redis
set_daily_limit_cache user limit r =
    if r.available
    then record r { daily_limits = (user, limit) ∷ delete user r.daily_limits }
    else r

unfoldable pub delete_daily_limit_cache : ℕ → Redis → Redis
delete_daily_limit_cache user r =
    if r.available then record r { daily_limits = delete user r.daily_limits } else r

unfoldable pub get_spending_profile_cache : ℕ → Redis → Option ProfilePayload
get_spending_profile_cache user r = if r.available then get user r.spending_profiles else none

unfoldable pub set_spending_profile_cache : ℕ → ProfilePayload → Redis → Redis
set_spending_profile_cache user payload r =
    if r.available
    then record r { spending_profiles = (user, payload) ∷ delete user r.spending_profiles }
    else r

unfoldable pub delete_spending_profile_cache : ℕ → Redis → Redis
delete_spending_profile_cache user r =
    if r.available then record r { spending_profiles = delete user r.spending_profiles } else r
