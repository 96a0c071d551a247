-- ===== src/Onboarding/Cover.antt =====
-- Answers to different questions of a list, counted against the questions that have none.
use moaje_work.Prelude.{
  ℕ, suc, ◌+◌, ◌≡◌, refl, inl, inr, Bool, true, false, not, List, [], ◌∷◌, arith, ◌==◌, any, filter,
  length, Bool-cases, ==_iff,
}
use moaje_work.Onboarding.{Answer}
use moaje_work.Onboarding.Service.{has_no}

abbrev pub has : ℕ → List ℕ → Bool
has k ks = any (λ j. j == k) ks

abbrev pub AreDistinct : List ℕ → Type 0
AreDistinct [] = Unit
AreDistinct (k ∷ ks) = (has k ks ≡ false) × AreDistinct ks

-- No two answers are to the same question.
abbrev pub AreUnique : List Answer → Type 0
AreUnique [] = Unit
AreUnique (a ∷ answers) = (has_no a.question_no answers ≡ false) × AreUnique answers

abbrev pub AllIn : List ℕ → List Answer → Type 0
AllIn ks [] = Unit
AllIn ks (a ∷ answers) = (has a.question_no ks ≡ true) × AllIn ks answers

abbrev pub open_questions : List Answer → List ℕ → List ℕ
open_questions answers ks = filter (λ k. not (has_no k answers)) ks

open_all : (ks : List ℕ) → length (open_questions [] ks) ≡ length ks
open_all [] = refl
open_all (k ∷ ks) = omega (arith, open_all ks)

open_absent :
    (a : Answer) (answers : List Answer) (ks : List ℕ)
    → has a.question_no ks ≡ false
    → length (open_questions (a ∷ answers) ks) ≡ length (open_questions answers ks)
open_absent a answers [] h = refl
open_absent a answers (k ∷ ks) h = ground (arith, open_absent a answers ks)

-- A new answer to an open question closes exactly that one.
open_present :
    (a : Answer) (answers : List Answer) (ks : List ℕ)
    → AreDistinct ks
    → has a.question_no ks ≡ true
    → has_no a.question_no answers ≡ false
    → length (open_questions answers ks) ≡ suc (length (open_questions (a ∷ answers) ks))
open_present a answers [] d h f = cc
open_present a answers (k ∷ ks) d h f = elim (Bool-cases (k == a.question_no)) [
  | inl same ↦
      let p : k ≡ a.question_no = (==_iff k a.question_no).0 same in
      let n : has_no k answers ≡ false = rw p f in
      let m : has a.question_no ks ≡ false = rw (← p) d.0 in
      ground (arith, n, p, open_absent a answers ks m)
  | inr differ ↦ ground (arith, open_present a answers ks d.1)
]

pub cover :
    (ks : List ℕ) (answers : List Answer)
    → AreDistinct ks
    → AreUnique answers
    → AllIn ks answers
    → length answers + length (open_questions answers ks) ≡ length ks
cover ks [] d u h = omega (arith, open_all ks)
cover ks (a ∷ answers) d u h =
    omega (arith, cover ks answers d u.1 h.1, open_present a answers ks d h.0 u.0)
