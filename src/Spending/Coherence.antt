-- ===== src/Spending/Coherence.antt =====
-- The profile that the cache serves is the one that the table holds.
use mathlib.Core.Path.{subst}
use moaje_work.Prelude.{
  ℕ, ◌≡◌, refl, ◌∙◌, ap, Bool, true, Option, none, some, String, ℤ, arith, ==_iff, find,
  find_passes, find-update_where, if◌then◌else◌,
}
use moaje_work.Spending.{Profile, profile_cache_payload, ProfilePayload}
use moaje_work.Spending.ProfileStore.{
  is_profile, profile_of_cache, cached_profile, get_or_create_profile,
}
use moaje_work.Spending.Welford.{
  updated_profile, write_profile, update_profile_from_transaction, update_found,
}
use moaje_work.Spending.Patterns.{peak_spend_hour, top_category}
use moaje_work.Database.{World, Environment, Redis}
use moaje_work.Database.Cache.{get_spending_profile_cache, set_spending_profile_cache}

-- A payload that is written and read back gives the profile, but for the university, which the
-- payload does not carry. A profile without a time is not given.
pub payload_read_back :
    (p : Profile) (t : ℕ)
    → p.last_analyzed_at ≡ some t
    → profile_of_cache p.user_id (profile_cache_payload p)
      ≡ some (record p { university_id = none })
unfolding profile_of_cache profile_cache_payload
payload_read_back p t h = ground (arith, h)

cache_holds :
    (user : ℕ) (p : Profile) (r : Redis)
    → r.available ≡ true
    → get_spending_profile_cache user (set_spending_profile_cache user (profile_cache_payload p) r)
      ≡ some (profile_cache_payload p)
unfolding get_spending_profile_cache set_spending_profile_cache
cache_holds user p r h = ground (arith, h)

cached_of :
    (user : ℕ) (w : World) (payload : ProfilePayload)
    → get_spending_profile_cache user w.redis ≡ some payload
    → cached_profile user w ≡ profile_of_cache user payload
unfolding cached_profile
cached_of user w payload h = rw (h, cached_profile) refl

served :
    (env : Environment) (user : ℕ) (w : World) (p : Profile)
    → cached_profile user w ≡ some p
    → (get_or_create_profile env user w).0 ≡ p
unfolding get_or_create_profile
served env user w p h = ground (arith, h)

-- The update keeps the owner and the time.
updated-user :
    (root : ℤ → ℕ → ℕ) (amount : ℕ) (c : Bool) (peak : Option ℕ) (top : Option String) (p : Profile)
    → ((updated_profile root amount c peak top p).user_id ≡ p.user_id)
      × ((updated_profile root amount c peak top p).last_analyzed_at ≡ p.last_analyzed_at)
unfolding updated_profile
updated-user root amount c peak top p = (refl, refl)

module _ (root : ℤ → ℕ → ℕ) (user amount : ℕ) (c : Bool) (p : Profile) (w : World)
    (found : find (is_profile user) w.db.profiles ≡ some p) where
  abbrev changed : Profile
  changed =
      updated_profile root amount c (peak_spend_hour user w.db.inference_logs)
        (top_category user w.db.categories) p

  owner : changed.user_id ≡ user
  owner =
      (updated-user root amount c (peak_spend_hour user w.db.inference_logs)
        (top_category user w.db.categories) p).0
      ∙ (==_iff p.user_id user).0 (find_passes (is_profile user) w.db.profiles p found)

  stored : find (is_profile user) (write_profile root user amount c p w).db.profiles ≡ some changed
  unfolding write_profile
  stored =
      find-update_where (is_profile user) (λ _. changed)
        (λ r _. (==_iff changed.user_id user).1 owner) w.db.profiles p found

  cached :
      (t : ℕ)
      → p.last_analyzed_at ≡ some t
      → w.redis.available ≡ true
      → cached_profile user (write_profile root user amount c p w)
        ≡ some (record changed { university_id = none })
  unfolding write_profile
  cached t timed up =
      cached_of user (write_profile root user amount c p w) (profile_cache_payload changed)
        (cache_holds user changed w.redis up)
      ∙ subst
          (λ u.
            profile_of_cache u (profile_cache_payload changed)
            ≡ some (record changed { university_id = none }))
          owner
          (payload_read_back changed t (
            (updated-user root amount c (peak_spend_hour user w.db.inference_logs)
              (top_category user w.db.categories) p).1
            ∙ timed))

-- A user who has a row.
update_row :
    (root : ℤ → ℕ → ℕ) (env : Environment) (user amount : ℕ) (c : Bool) (p : Profile) (w : World)
    → env.database_available ≡ true
    → find (is_profile user) w.db.profiles ≡ some p
    → update_profile_from_transaction root env user amount c w
      ≡ write_profile root user amount c p w
unfolding update_profile_from_transaction
update_row root env user amount c p w db found =
    let branch : Option Profile → World = λ o. elim o [
      | some q ↦ write_profile root user amount c q w
      | none ↦ update_found root user amount c (get_or_create_profile env user w).1
    ] in
    ap (λ b. if b then branch (find (is_profile user) w.db.profiles) else w) db ∙ ap branch found

-- After an update with the database and Redis answering, a user with a profile is served what the
-- table holds, but for the university: the cache never shows the numbers from before.
pub served_after_update :
    (root : ℤ → ℕ → ℕ) (env env' : Environment) (user amount t : ℕ) (c : Bool) (p : Profile)
    (w : World)
    → env.database_available ≡ true
    → w.redis.available ≡ true
    → find (is_profile user) w.db.profiles ≡ some p
    → p.last_analyzed_at ≡ some t
    → let w' = update_profile_from_transaction root env user amount c w in
      (q : Profile) × (find (is_profile user) w'.db.profiles ≡ some q)
      × ((get_or_create_profile env' user w').0 ≡ record q { university_id = none })
served_after_update root env env' user amount t c p w db up found timed =
    rw (update_row root env user amount c p w db found) (
      changed root user amount c p w found,
      stored root user amount c p w found,
      served env' user (write_profile root user amount c p w) _
          (cached root user amount c p w found t timed up),
    )
