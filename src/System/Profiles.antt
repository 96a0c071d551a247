-- ===== src/System/Profiles.antt =====
-- What the calls do to the profiles, the verdicts and the alerts, and that each table keeps its
-- keys apart.
use moaje_work.Prelude.{
  ℕ, ◌+◌, ◌≡◌, refl, ◌∙◌, ◌⊎◌, inl, inr, Bool, true, List, [], ◌∷◌, ◌++◌, any, find, find_passes,
  update_where, arith, Bool-cases, Option-cases, ℤ,
}
use moaje_work.Spending.{Profile}
use moaje_work.Spending.ProfileStore.{is_profile, get_or_create_profile}
use moaje_work.Spending.Registration.{OneEach, get_or_create-OneEach}
use moaje_work.Spending.Welford.{write_profile, update_found, update_profile_from_transaction}
use moaje_work.Fds.{DetectRequest, MlModel}
use moaje_work.Fds.Score.{Assessment}
use moaje_work.Fds.Detector.{
  detect, store_verdict, after_insert, publish_fds_alert, increment_tx_count, find_verdict,
  assess_request,
}
use moaje_work.Fds.Verdicts.{clashes, find_clash, store_clash, store_fresh, inserted}
use moaje_work.Database.{World, Environment}

module _ (same : Profile → Bool) (write : Profile → Profile)
    (keeps : (p : Profile) → same p ≡ true → (write p).user_id ≡ p.user_id) where
  any-update :
      (user : ℕ) (ps : List Profile)
      → any (is_profile user) (update_where same write ps) ≡ any (is_profile user) ps
  any-update user [] = refl
  any-update user (p ∷ ps) = ground (arith, keeps p, any-update user ps)

  pub update-OneEach : (ps : List Profile) → OneEach ps → OneEach (update_where same write ps)
  update-OneEach [] u = tt
  update-OneEach (p ∷ ps) (alone, rest) = elim (Bool-cases (same p)) [
    | inl hit ↦ rw hit (rw (keeps p hit) (any-update p.user_id ps ∙ alone), update-OneEach ps rest)
    | inr miss ↦ rw miss (any-update p.user_id ps ∙ alone, update-OneEach ps rest)
  ]

-- A detection counts a transaction of its user, or leaves the profiles as they were.
module _ (env : Environment) (req : DetectRequest) where
  after_insert-profiles :
      (a : Assessment) (w : World)
      → (after_insert env req a w).1.db.profiles ≡ increment_tx_count req.user_id w.db.profiles
  unfolding after_insert publish_fds_alert
  after_insert-profiles a w = ground arith

  store-profiles :
      (a : Assessment) (w : World)
      → ((store_verdict env req a w).1.db.profiles ≡ w.db.profiles)
        ⊎ ((store_verdict env req a w).1.db.profiles ≡ increment_tx_count req.user_id w.db.profiles)
  store-profiles a w = elim (Bool-cases (clashes env req a w)) [
    | inl clash ↦
        let (l, e) = find_clash env req a w clash in
        inl (rw (store_clash env req a w l clash e) refl)
    | inr fresh ↦
        inr (rw (store_fresh env req a w fresh) (after_insert-profiles a (inserted env req a w)))
  ]

  pub detect-profiles :
      (model : MlModel) (w : World)
      → ((detect model env req w).1.db.profiles ≡ w.db.profiles)
        ⊎ ((detect model env req w).1.db.profiles ≡ increment_tx_count req.user_id w.db.profiles)
  unfolding detect
  detect-profiles model w =
      elim (Option-cases (find_verdict req.user_id req.transaction_id w.db.inference_logs)) [
        | inl new ↦ rw (new, detect) (store-profiles (assess_request model env req w.db) w)
        | inr (l, old) ↦ rw (old, detect) (inl refl)
      ]

  pub detect-OneEach :
      (model : MlModel) (w : World)
      → OneEach w.db.profiles
      → OneEach (detect model env req w).1.db.profiles
  unfolding increment_tx_count
  detect-OneEach model w u = elim (detect-profiles model w) [
    | inl same ↦ rw same u
    | inr more ↦ rw more (
        update-OneEach (is_profile req.user_id) (λ p. record p { tx_count = p.tx_count + 1 })
          (λ p e. refl) w.db.profiles u)
  ]

module _ (root : ℤ → ℕ → ℕ) (user amount : ℕ) (c : Bool) where
  write-OneEach :
      (p : Profile) (w : World)
      → p.user_id ≡ user
      → OneEach w.db.profiles
      → OneEach (write_profile root user amount c p w).db.profiles
  unfolding write_profile
  write-OneEach p w h u =
      update-OneEach (is_profile user) _ (λ r e. ground (arith, h, e)) w.db.profiles u

  found-OneEach :
      (w : World) → OneEach w.db.profiles → OneEach (update_found root user amount c w).db.profiles
  unfolding update_found
  found-OneEach w u = elim (Option-cases (find (is_profile user) w.db.profiles)) [
    | inl gone ↦ rw (gone, update_found) u
    | inr (p, there) ↦
        rw (there, update_found)
          (write-OneEach p w (ground (arith, find_passes (is_profile user) w.db.profiles p there))
            u)
  ]

  pub update_profile-OneEach :
      (env : Environment) (w : World)
      → OneEach w.db.profiles
      → OneEach (w.db.profiles ++ env.concurrent_profiles)
      → OneEach (update_profile_from_transaction root env user amount c w).db.profiles
  unfolding update_profile_from_transaction
  update_profile-OneEach env w u v = elim (Bool-cases env.database_available) [
    | inl up ↦ elim (Option-cases (find (is_profile user) w.db.profiles)) [
      | inl gone ↦
          rw (up, gone, update_profile_from_transaction)
            (found-OneEach (get_or_create_profile env user w).1
              (get_or_create-OneEach env user w u v))
      | inr (p, there) ↦
          rw (up, there, update_profile_from_transaction)
            (write-OneEach p w (ground (arith, find_passes (is_profile user) w.db.profiles p there))
              u)
    ]
    | inr down ↦ rw (down, update_profile_from_transaction) u
  ]
