-- ===== src/Onboarding/Progress.antt =====
-- The table of answers keeps one valid answer to a question for each user, so ten answers are
-- answers to all ten questions.
use moaje_work.Prelude.{
  ℕ, ◌+◌, ◌≡◌, ◌↔◌, refl, ◌∙◌, ap, inl, inr, Bool, true, false, Option, none, some, List, [], ◌∷◌,
  ◌++◌, String, arith, ◌==◌, ==_iff, any, filter, find, update_where, length, Bool-cases,
  Option-cases, any_of_find,
}
use moaje_work.Onboarding.{Answer}
use moaje_work.Onboarding.Catalog.{
  Question, questions, numbers_of, question_numbers, find_question, get_question, validate_answer,
}
use moaje_work.Onboarding.Service.{
  saved, is_answer, new_answer, store_answer, save_answer, get_answers, has_no, get_progress,
}
use moaje_work.Onboarding.Cover.{has, AreDistinct, AreUnique, AllIn, cover}

-- No user has two answers to a question, and every answer is to a question of the catalog.
abbrev pub IsValid : List Answer → Type 0
IsValid [] = Unit
IsValid (a ∷ answers) =
    (any (is_answer a.user_id a.question_no) answers ≡ false)
    × (has a.question_no question_numbers ≡ true)
    × IsValid answers

found_in_catalog :
    (n : ℕ) (q : Question) (qs : List Question)
    → find_question n qs ≡ some q
    → has n (numbers_of qs) ≡ true
found_in_catalog n q [] h = cc
found_in_catalog n q (x ∷ qs) h = ground (arith, found_in_catalog n q qs)

accepted_in_catalog :
    (n : ℕ) (c : String) (text : Option String)
    → validate_answer n c text ≡ none
    → has n question_numbers ≡ true
unfolding validate_answer
accepted_in_catalog n c text h = elim (Option-cases (get_question n)) [
  | inl absent ↦ cc (rw (absent, validate_answer) at h)
  | inr (q, e) ↦ unfold get_question in found_in_catalog n q questions e
]

is_answer_comm :
    (a b : Answer) → is_answer a.user_id a.question_no b ≡ is_answer b.user_id b.question_no a
is_answer_comm a b = ground arith

append-IsValid :
    (a : Answer) (answers : List Answer)
    → any (is_answer a.user_id a.question_no) answers ≡ false
    → has a.question_no question_numbers ≡ true
    → IsValid answers
    → IsValid (answers ++ a ∷ [])
append-IsValid a [] f h v = (refl, h, tt)
append-IsValid a (b ∷ answers) f h v = (
  absent_after a b answers (ground arith) v.0,
  v.1,
  append-IsValid a answers (ground arith) h v.2,
)
  where
    absent_after :
        (a b : Answer) (answers : List Answer)
        → is_answer a.user_id a.question_no b ≡ false
        → any (is_answer b.user_id b.question_no) answers ≡ false
        → any (is_answer b.user_id b.question_no) (answers ++ a ∷ []) ≡ false
    absent_after a b [] f g = ground arith
    absent_after a b (x ∷ answers) f g = ground (arith, absent_after a b answers f)

update-absent :
    (p : Answer → Bool) (write : Answer → Answer) (answers : List Answer)
    → ((a : Answer) → p (write a) ≡ p a)
    → any p (update_where p write answers) ≡ any p answers
update-absent p write [] keeps = refl
update-absent p write (a ∷ answers) keeps =
    ground (arith, keeps a, update-absent p write answers keeps)

module _ (user n : ℕ) (c : String) (text : Option String) where
  abbrev write : Answer → Answer
  write a = record a { answer_code = c; answer_text = text }

  absent-update :
      (u k : ℕ) (answers : List Answer)
      → any (is_answer u k) (update_where (is_answer user n) write answers)
        ≡ any (is_answer u k) answers
  absent-update u k [] = refl
  absent-update u k (a ∷ answers) = ground (arith, absent-update u k answers)

  update-IsValid :
      (answers : List Answer)
      → IsValid answers
      → IsValid (update_where (is_answer user n) write answers)
  update-IsValid [] v = tt
  update-IsValid (a ∷ answers) v =
      let rest = update-IsValid answers v.2 in
      let absent = absent-update a.user_id a.question_no answers ∙ v.0 in
      elim (Bool-cases (is_answer user n a)) [
        | inl mine ↦ rw mine (absent, v.1, rest)
        | inr other ↦ rw other (absent, v.1, rest)
      ]

  store_answer-IsValid :
      (answers : List Answer)
      → has n question_numbers ≡ true
      → IsValid answers
      → IsValid (store_answer user n c text answers)
  unfolding store_answer
  store_answer-IsValid answers asked v = elim (Option-cases (find (is_answer user n) answers)) [
    | inl new ↦
        rw (new, store_answer)
          (append-IsValid (new_answer user n c text) answers
            (any_of_find (is_answer user n) answers new) asked v)
    | inr (old, found) ↦ rw (found, store_answer) (update-IsValid answers v)
  ]

  pub save_accepted :
      (answers answers' : List Answer)
      → save_answer user n c text answers ≡ saved answers'
      → (validate_answer n c text ≡ none) × (store_answer user n c text answers ≡ answers')
  unfolding save_answer
  save_accepted answers answers' h = ground arith

  -- An accepted answer keeps the table valid: one answer to a question for each user, and only to
  -- questions of the catalog.
  pub save_answer-IsValid :
      (answers answers' : List Answer)
      → IsValid answers
      → save_answer user n c text answers ≡ saved answers'
      → IsValid answers'
  save_answer-IsValid answers answers' v h =
      let (good, e) = save_accepted answers answers' h in
      rw (← e) (store_answer-IsValid answers (accepted_in_catalog n c text good) v)

mine-absent :
    (user k : ℕ) (answers : List Answer)
    → any (is_answer user k) answers ≡ false
    → has_no k (filter (λ a. a.user_id == user) answers) ≡ false
mine-absent user k [] h = refl
mine-absent user k (a ∷ answers) h = ground (arith, mine-absent user k answers)

mine-AreUnique :
    (user : ℕ) (answers : List Answer)
    → IsValid answers
    → AreUnique (filter (λ a. a.user_id == user) answers)
mine-AreUnique user [] v = tt
mine-AreUnique user (a ∷ answers) v = elim (Bool-cases (a.user_id == user)) [
  | inr other ↦ rw other (mine-AreUnique user answers v.2)
  | inl mine ↦
      let p : a.user_id ≡ user = (==_iff a.user_id user).0 mine in
      rw mine
        (mine-absent user a.question_no answers (rw p at v.0), mine-AreUnique user answers v.2)
]

mine-AllIn :
    (user : ℕ) (answers : List Answer)
    → IsValid answers
    → AllIn question_numbers (filter (λ a. a.user_id == user) answers)
mine-AllIn user [] v = tt
mine-AllIn user (a ∷ answers) v = elim (Bool-cases (a.user_id == user)) [
  | inr other ↦ rw other (mine-AllIn user answers v.2)
  | inl mine ↦ rw mine (v.1, mine-AllIn user answers v.2)
]

length-zero : (ks : List ℕ) → length ks ≡ 0 → ks ≡ []
length-zero [] h = refl
length-zero (k ∷ ks) h = absurd (omega (arith, h))

numbers_distinct : AreDistinct question_numbers
numbers_distinct = ground arith

-- In a valid table the onboarding counts as complete exactly when no question remains, and the
-- answered and the remaining questions are always ten together.
pub progress_complete :
    (user : ℕ) (answers : List Answer)
    → IsValid answers
    → let p = get_progress user answers in
      ((p.is_completed ≡ true) ↔ (p.remaining ≡ [])) × (p.answered_count + length p.remaining ≡ 10)
unfolding get_progress get_answers
progress_complete user answers v =
    let c =
      cover question_numbers (filter (λ a. a.user_id == user) answers) numbers_distinct
        (mine-AreUnique user answers v) (mine-AllIn user answers v) in
    ((λ h. length-zero _ (ground (arith, c)), λ h. ground (arith, c, ap length h)), c)
