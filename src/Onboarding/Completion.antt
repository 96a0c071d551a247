-- ===== src/Onboarding/Completion.antt =====
-- The moment of completion: recorded once, and never lost.
use moaje_work.Prelude.{
  ℕ, ◌≤◌, ◌≡◌, refl, sym, ◌∙◌, ap, inl, inr, true, Option, none, some, List, [], ◌∷◌, ◌++◌, String,
  arith, leb, ◌==◌, find, update_where, length, Bool-cases, Option-cases, find-append_none,
  find-update_where,
}
use moaje_work.Onboarding.{Answer, FutureProfile}
use moaje_work.Onboarding.Catalog.{total_questions}
use moaje_work.Onboarding.Service.{
  saved, is_answer, new_answer, store_answer, save_answer, get_answers, get_profile, fresh_profile,
  refresh, rebuild_profile,
}
use moaje_work.Onboarding.Progress.{save_accepted}

refresh_again :
    (now now' : ℕ) (answers : List Answer) (p : FutureProfile)
    → refresh now' answers (refresh now answers p) ≡ refresh now answers p
unfolding refresh
refresh_again now now' answers p = elim (Bool-cases (leb total_questions (length answers))) [
  | inl done ↦ rw done
  | inr more ↦ rw more
]

refresh_user :
    (now : ℕ) (answers : List Answer) (p : FutureProfile)
    → (refresh now answers p).user_id ≡ p.user_id
unfolding refresh
refresh_user now answers p = refl

get-updated :
    (now user : ℕ) (answers : List Answer) (profiles : List FutureProfile) (p : FutureProfile)
    → get_profile user profiles ≡ some p
    → get_profile user (update_where (λ q. q.user_id == user) (refresh now answers) profiles)
      ≡ some (refresh now answers p)
unfolding get_profile
get-updated now user answers profiles p h =
    find-update_where (λ q. q.user_id == user) (refresh now answers)
      (λ r e. rw (refresh_user now answers r) e) profiles p h

get-added :
    (now user : ℕ) (answers : List Answer) (profiles : List FutureProfile)
    → get_profile user profiles ≡ none
    → get_profile user (profiles ++ refresh now answers (fresh_profile user) ∷ [])
      ≡ some (refresh now answers (fresh_profile user))
unfolding get_profile
get-added now user answers profiles h =
    find-append_none (λ q. q.user_id == user) profiles _ h
    ∙ rw (refresh_user now answers (fresh_profile user)) (ground arith)

pub rebuilt :
    (now user : ℕ) (answers : List Answer) (profiles : List FutureProfile)
    → get_profile user (rebuild_profile now user answers profiles).1
      ≡ some (rebuild_profile now user answers profiles).0
unfolding rebuild_profile
rebuilt now user answers profiles = elim (Option-cases (get_profile user profiles)) [
  | inl new ↦ rw (new, rebuild_profile) (get-added now user (get_answers user answers) profiles new)
  | inr (p, old) ↦
      rw (old, rebuild_profile) (get-updated now user (get_answers user answers) profiles p old)
]

rebuild_existing :
    (now user : ℕ) (answers : List Answer) (profiles : List FutureProfile) (p : FutureProfile)
    → get_profile user profiles ≡ some p
    → (rebuild_profile now user answers profiles).0 ≡ refresh now (get_answers user answers) p
unfolding rebuild_profile
rebuild_existing now user answers profiles p h = rw (h, rebuild_profile)

pub is_refreshed :
    (now user : ℕ) (answers : List Answer) (profiles : List FutureProfile)
    → (p : FutureProfile) × ((rebuild_profile now user answers profiles).0
        ≡ refresh now (get_answers user answers) p)
unfolding rebuild_profile
is_refreshed now user answers profiles = elim (Option-cases (get_profile user profiles)) [
  | inl new ↦ (fresh_profile user, rw (new, rebuild_profile))
  | inr (p, old) ↦ (p, rw (old, rebuild_profile))
]

-- The profile is derived from the answers: building it again, at any later time, gives the same
-- profile, with the moment of completion that was recorded first.
pub rebuild_again :
    (now now' user : ℕ) (answers : List Answer) (profiles : List FutureProfile)
    → (rebuild_profile now' user answers (rebuild_profile now user answers profiles).1).0
      ≡ (rebuild_profile now user answers profiles).0
rebuild_again now now' user answers profiles =
    let (p, e) = is_refreshed now user answers profiles in
    rebuild_existing now' user answers _ _ (rebuilt now user answers profiles)
    ∙ (ap (refresh now' (get_answers user answers)) e
        ∙ (refresh_again now now' (get_answers user answers) p ∙ sym e))

length-mine-append :
    (user : ℕ) (a : Answer) (answers : List Answer)
    → length (get_answers user answers) ≤ length (get_answers user (answers ++ a ∷ []))
unfolding get_answers
length-mine-append user a [] = omega arith
length-mine-append user a (b ∷ answers) = ground (arith, length-mine-append user a answers)

length-mine-update :
    (user other n : ℕ) (c : String) (text : Option String) (answers : List Answer)
    → length (get_answers user answers)
      ≡ length (
          get_answers user (
            update_where
              (is_answer other n)
              (λ a. record a { answer_code = c; answer_text = text })
              answers))
unfolding get_answers
length-mine-update user other n c text [] = refl
length-mine-update user other n c text (b ∷ answers) =
    ground (arith, length-mine-update user other n c text answers)

length-store :
    (user other n : ℕ) (c : String) (text : Option String) (answers : List Answer)
    → length (get_answers user answers)
      ≤ length (get_answers user (store_answer other n c text answers))
unfolding store_answer
length-store user other n c text answers = elim (Option-cases (find (is_answer other n) answers)) [
  | inl new ↦ rw (new, store_answer) (length-mine-append user (new_answer other n c text) answers)
  | inr (old, found) ↦
      rw (found, store_answer) (omega (arith, length-mine-update user other n c text answers))
]

-- An accepted answer, of this user or another, never takes a completed profile back: a profile
-- that is complete on the answers before is complete on the answers after, with the moment of
-- completion that it had.
completion_stays :
    (now now' user other n : ℕ) (c : String) (text : Option String)
    → (answers answers' : List Answer) (p : FutureProfile)
    → save_answer other n c text answers ≡ saved answers'
    → (refresh now (get_answers user answers) p).is_completed ≡ true
    → let before = refresh now (get_answers user answers) p in
      let after = refresh now' (get_answers user answers') before in
      (after.is_completed ≡ true) × (after.completed_at ≡ before.completed_at)
unfolding refresh
completion_stays now now' user other n c text answers answers' p h done =
    let (_, e) = save_accepted other n c text answers answers' h in
    let grows = rw e at (length-store user other n c text answers) in
    (ground (arith, grows, done), ground (arith, done))
