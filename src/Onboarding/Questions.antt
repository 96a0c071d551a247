-- ===== src/Onboarding/Questions.antt =====
-- The list of questions that app/api/v1/endpoints/onboarding.py shows, `list_questions`, against
-- the answers that are accepted. The texts of questions and options are left out.
use moaje_work.Prelude.{
  ℕ, ◌≡◌, ◌↔◌, ◌⊎◌, refl, inl, inr, true, false, Bool, none, some, Option, List, [], ◌∷◌, ◌++◌,
  String, str_eq, eq_iff, arith, any, any-append, find, map, ◌==◌, if◌then◌else◌, Option-cases,
  Bool-cases, sym, ◌∙◌,
}
use mathlib.Core.Path.{subst}
use mathlib.Core.Option.{some-injective}
use moaje_work.Onboarding.{code_not_allowed}
use moaje_work.Onboarding.Catalog.{
  Question, questions, unknown, find_question, get_question, validate_answer, valid_code,
  check_free_text, is_blank,
}

pub record QuestionResponse : Type 0 where
  pub question_no : ℕ
  pub free_text : Bool
  pub options : List String

abbrev show_question : Question → QuestionResponse
show_question q = record {
  question_no = q.question_no;
  free_text = q.free_text;
  options = if q.free_text then q.options else q.options ++ unknown ∷ [];
}

-- In the order of the catalog, which is that of the numbers.
unfoldable pub list_questions : List QuestionResponse
list_questions = map show_question questions

abbrev pub is_number : ℕ → QuestionResponse → Bool
is_number n r = r.question_no == n

-- What the shown question lets a user answer: one of its options, or for a free text the unknown
-- answer or a text that is not blank.
abbrev pub IsAllowed : QuestionResponse → String → Option String → Type 0
IsAllowed r c text =
    ((r.free_text ≡ false) × (any (λ o. str_eq o c) r.options ≡ true))
    ⊎ ((r.free_text ≡ true)
        × ((c ≡ unknown) ⊎ ((t : String) × (text ≡ some t) × (is_blank t ≡ false))))

shown-find :
    (n : ℕ) (q : Question) (qs : List Question)
    → find_question n qs ≡ some q
    → find (is_number n) (map show_question qs) ≡ some (show_question q)
shown-find n q [] h = cc
shown-find n q (x ∷ qs) h = ground (arith, shown-find n q qs)

shown-absent :
    (n : ℕ) (qs : List Question)
    → find_question n qs ≡ none
    → find (is_number n) (map show_question qs) ≡ none
shown-absent n [] h = refl
shown-absent n (x ∷ qs) h = ground (arith, shown-absent n qs)

str_eq_comm : (a b : String) → str_eq a b ≡ str_eq b a
str_eq_comm a b = elim (Bool-cases (str_eq a b)) [
  | inl same ↦ let p = (eq_iff a b).0 same in rw p refl
  | inr differ ↦ elim (Bool-cases (str_eq b a)) [
    | inl same ↦ let e = (eq_iff a b).1 (sym ((eq_iff b a).0 same)) in cc
    | inr differ' ↦ differ ∙ sym differ'
  ]
]

choice_offered :
    (q : Question) (c : String)
    → q.free_text ≡ false
    → any (λ o. str_eq o c) (show_question q).options ≡ valid_code q c
unfolding valid_code
choice_offered q c h =
    let split = any-append (λ o. str_eq o c) q.options (unknown ∷ []) in
    let other = str_eq_comm unknown c in ground (arith, h, split, other)

text_offered :
    (n : ℕ) (c : String) (text : Option String)
    → (check_free_text n c text ≡ none)
      ↔ ((c ≡ unknown) ⊎ ((t : String) × (text ≡ some t) × (is_blank t ≡ false)))
unfolding check_free_text
text_offered n c none = elim (Bool-cases (str_eq c unknown)) [
  | inl same ↦ ((λ _. inl ((eq_iff c unknown).0 same)), λ _. ground (arith, same))
  | inr differ ↦ rw differ (
    (λ e. cc),
    λ o. elim o [ inl p ↦ let e = (eq_iff c unknown).1 p in cc | inr (t, e, written) ↦ cc ],
  )
]
text_offered n c (some t) = elim (Bool-cases (str_eq c unknown)) [
  | inl same ↦ ((λ _. inl ((eq_iff c unknown).0 same)), λ _. ground (arith, same))
  | inr differ ↦ elim (Bool-cases (is_blank t)) [
    | inl empty ↦
        rw (differ, empty)
          (
            (λ e. cc),
            λ o. elim o [
              | inl p ↦ let e = (eq_iff c unknown).1 p in cc
              | inr (u, e, written) ↦ let p : t ≡ u = some-injective t u e in cc
            ],
          )
    | inr written ↦ rw (differ, written) ((λ e. inr (t, refl, written)), λ o. refl)
  ]
]

get-offered :
    (n : ℕ) (q : Question)
    → get_question n ≡ some q
    → find (is_number n) list_questions ≡ some (show_question q)
unfolding get_question list_questions
get-offered n q h = shown-find n q questions h

get-absent : (n : ℕ) → get_question n ≡ none → find (is_number n) list_questions ≡ none
unfolding get_question list_questions
get-absent n h = shown-absent n questions h

question-offered :
    (n : ℕ) (q : Question) (c : String) (text : Option String)
    → get_question n ≡ some q
    → (validate_answer n c text ≡ none) ↔ IsAllowed (show_question q) c text
unfolding validate_answer
question-offered n q c text found = elim (Bool-cases q.free_text) [
  | inl free ↦
      let same = text_offered n c text in
      let judged : validate_answer n c text ≡ check_free_text n c text =
        rw (found, validate_answer, free) refl in
      (
        (λ e. inr (free, same.0 (sym judged ∙ e))),
        λ o. elim o [ inl (closed, _) ↦ cc | inr (_, given) ↦ judged ∙ same.1 given ],
      )
  | inr closed ↦
      let same = choice_offered q c closed in
      let judged : validate_answer n c text
          ≡ (if valid_code q c then none else some (code_not_allowed n)) =
        rw (found, validate_answer, closed) refl in
      elim (Bool-cases (valid_code q c)) [
        | inl there ↦ ((λ e. inl (closed, same ∙ there)), λ o. judged ∙ rw there refl)
        | inr missing ↦ (
          (λ e. let refused = rw missing at (sym judged ∙ e) in cc),
          λ o. elim o [ inl (_, given) ↦ cc | inr (free, _) ↦ cc ],
        )
      ]
]

-- An answer is accepted exactly where the list shows a question of its number that offers it.
pub offered_accepted :
    (n : ℕ) (c : String) (text : Option String)
    → (validate_answer n c text ≡ none)
      ↔ ((r : QuestionResponse) × (find (is_number n) list_questions ≡ some r) × IsAllowed r c text)
unfolding validate_answer
offered_accepted n c text = elim (Option-cases (get_question n)) [
  | inl absent ↦
      let hidden = get-absent n absent in
      ((λ e. cc (rw (absent, validate_answer) at e)), λ (r, shown, _). cc)
  | inr (q, found) ↦
      let shown = get-offered n q found in
      let same = question-offered n q c text found in
      (
        (λ e. (show_question q, shown, same.0 e)),
        λ (r, there, offered).
            let p : show_question q ≡ r = some-injective (show_question q) r (sym shown ∙ there) in
            same.1 (subst (λ x. IsAllowed x c text) (sym p) offered),
      )
]
