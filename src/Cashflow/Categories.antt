-- ===== src/Cashflow/Categories.antt =====
-- The revision rule of the category totals: one message carries the categories of a month, and the
-- rule is applied to each of its codes.
use mathlib.Core.Path.{subst}
use text.Mathlib.TextPositions.{eq_refl}
use moaje_work.Prelude.{
  ℕ, ◌≤◌, ◌≡◌, refl, ◌∙◌, ◌⊎◌, inl, inr, true, false, Option, none, some, List, [], ◌∷◌, String,
  str_eq, eq_iff, arith, leb, Option-cases, Bool-cases, find, any, ℤ,
}
use moaje_work.Cashflow.{CategoryCashflow}
use moaje_work.Cashflow.Upsert.{newest, find-upsert, find-upsert_other, upsert_kept}
use moaje_work.Cashflow.Handlers.{
  CategoryEvent, same_category, write_category, new_category, store_category, store_categories,
  handle_category_cashflow,
}

abbrev pub Table : Type 0
Table = List CategoryCashflow

module _ (user : ℕ) (ym : String) where
  abbrev pub look_category : String → Table → Option CategoryCashflow
  look_category code rows = find (same_category user ym code) rows

  same_category_self :
      (revision : ℕ) (code : String) (amount : ℤ)
      → same_category user ym code (new_category user ym revision code amount) ≡ true
  same_category_self revision code amount = ground (arith, eq_refl ym, eq_refl code)

  -- What one round shows for its own code.
  look_stored :
      (revision : ℕ) (code : String) (amount : ℤ) (rows : Table)
      → str_eq code "" ≡ false
      → look_category code (store_category user ym revision (code, amount) rows)
        ≡ newest
            (λ row. row.revision)
            (write_category revision amount)
            (new_category user ym revision code amount)
            (look_category code rows)
  unfolding store_category
  look_stored revision code amount rows named = rw named (
      find-upsert (λ row. row.revision) (same_category user ym code)
        (write_category revision amount) (new_category user ym revision code amount) (λ r h. h)
        (same_category_self revision code amount) rows)

  look_stored_other :
      (revision : ℕ) (code other : String) (amount : ℤ) (rows : Table)
      → str_eq code other ≡ false
      → look_category other (store_category user ym revision (code, amount) rows)
        ≡ look_category other rows
  unfolding store_category
  look_stored_other revision code other amount rows apart = elim (Bool-cases (str_eq code "")) [
    | inl empty ↦ rw empty
    | inr named ↦ rw named (
        find-upsert_other (λ row. row.revision) (same_category user ym code)
          (write_category revision amount) (new_category user ym revision code amount)
          (same_category user ym other)
          (λ r e.
            let fact : same_category user ym other r ≡ false = ground (
              arith,
              eq_iff r.category_code code,
              eq_iff r.category_code other,
              eq_iff code other,
            ) in
            (fact, fact))
          (same_category_self revision code amount) rows)
  ]

  -- A code that the message does not name keeps its row, of whatever older revision.
  pub store_categories_absent :
      (revision : ℕ) (code : String) (cs : List (String × ℤ)) (rows : Table)
      → any (λ c. str_eq c.0 code) cs ≡ false
      → look_category code (store_categories user ym revision cs rows) ≡ look_category code rows
  unfolding store_categories
  store_categories_absent revision code [] rows h = refl
  store_categories_absent revision code ((c, amount) ∷ cs) rows h =
      store_categories_absent revision code cs (store_category user ym revision (c, amount) rows)
        (ground arith)
      ∙ look_stored_other revision c code amount rows (ground arith)

  -- The code is empty, or shows a row that is at least as new as the revision.
  abbrev Settled : ℕ → String → Table → Type 0
  Settled revision code rows =
      (str_eq code "" ≡ true)
      ⊎ ((row : CategoryCashflow) × (look_category code rows ≡ some row)
          × (revision ≤ row.revision))

  newest_settled :
      (revision : ℕ) (code : String) (amount : ℤ) (o : Option CategoryCashflow)
      → (row : CategoryCashflow) × (newest
            (λ row. row.revision)
            (write_category revision amount)
            (new_category user ym revision code amount)
            o
          ≡ some row)
        × (revision ≤ row.revision)
  unfolding newest
  newest_settled revision code amount none =
      (new_category user ym revision code amount, refl, omega arith)
  newest_settled revision code amount (some row) = elim (Bool-cases (leb revision row.revision)) [
    | inl old ↦ (row, rw old, ground arith)
    | inr newer ↦ (write_category revision amount row, rw newer, omega arith)
  ]

  store-Settled :
      (revision : ℕ) (code : String) (amount : ℤ) (rows : Table)
      → Settled revision code (store_category user ym revision (code, amount) rows)
  store-Settled revision code amount rows = elim (Bool-cases (str_eq code "")) [
    | inl empty ↦ inl empty
    | inr named ↦
        let (row, e, h) = newest_settled revision code amount (look_category code rows) in
        inr (row, look_stored revision code amount rows named ∙ e, h)
  ]

  store_keeps_Settled :
      (revision : ℕ) (code other : String) (amount : ℤ) (rows : Table)
      → Settled revision other rows
      → Settled revision other (store_category user ym revision (code, amount) rows)
  store_keeps_Settled revision code other amount rows (inl empty) = inl empty
  store_keeps_Settled revision code other amount rows (inr (row, e, h)) =
      elim (Bool-cases (str_eq code other)) [
        | inl same ↦
            subst (λ c. Settled revision c (store_category user ym revision (code, amount) rows))
              ((eq_iff code other).0 same) (store-Settled revision code amount rows)
        | inr apart ↦ inr (row, look_stored_other revision code other amount rows apart ∙ e, h)
      ]

  abbrev AllSettled : ℕ → List (String × ℤ) → Table → Type 0
  AllSettled revision [] rows = Unit
  AllSettled revision (c ∷ cs) rows = Settled revision c.0 rows × AllSettled revision cs rows

  store_keeps_all :
      (revision : ℕ) (c : String × ℤ) (cs : List (String × ℤ)) (rows : Table)
      → AllSettled revision cs rows
      → AllSettled revision cs (store_category user ym revision c rows)
  store_keeps_all revision c [] rows h = tt
  store_keeps_all revision (code, amount) (d ∷ cs) rows h = (
    store_keeps_Settled revision code d.0 amount rows h.0,
    store_keeps_all revision (code, amount) cs rows h.1,
  )

  -- Settled codes stay settled through the rest of the message.
  stays-Settled :
      (revision : ℕ) (other : String) (cs : List (String × ℤ)) (rows : Table)
      → Settled revision other rows
      → Settled revision other (store_categories user ym revision cs rows)
  unfolding store_categories
  stays-Settled revision other [] rows h = h
  stays-Settled revision other ((code, amount) ∷ cs) rows h =
      stays-Settled revision other cs _ (store_keeps_Settled revision code other amount rows h)

  all_settled :
      (revision : ℕ) (cs : List (String × ℤ)) (rows : Table)
      → AllSettled revision cs (store_categories user ym revision cs rows)
  unfolding store_categories
  all_settled revision [] rows = tt
  all_settled revision ((code, amount) ∷ cs) rows = (
    stays-Settled revision code cs _ (store-Settled revision code amount rows),
    all_settled revision cs _,
  )

  store-Settled' :
      (revision : ℕ) (code : String) (amount : ℤ) (rows : Table)
      → Settled revision code rows
      → store_category user ym revision (code, amount) rows ≡ rows
  unfolding store_category
  store-Settled' revision code amount rows (inl empty) = rw empty
  store-Settled' revision code amount rows (inr (row, e, h)) = elim (Bool-cases (str_eq code "")) [
    | inl empty ↦ rw empty
    | inr named ↦ rw named (
        upsert_kept (λ r. r.revision) (same_category user ym code) (write_category revision amount)
          (new_category user ym revision code amount) rows row e h)
  ]

  store-AllSettled :
      (revision : ℕ) (cs : List (String × ℤ)) (rows : Table)
      → AllSettled revision cs rows
      → store_categories user ym revision cs rows ≡ rows
  unfolding store_categories
  store-AllSettled revision [] rows h = refl
  store-AllSettled revision ((code, amount) ∷ cs) rows h =
      rw (store-Settled' revision code amount rows h.0) (store-AllSettled revision cs rows h.1)

module _ (event : CategoryEvent) (rows : Table) where
  handle_anonymous : event.user_id ≡ none → handle_category_cashflow true (some event) rows ≡ rows
  unfolding handle_category_cashflow
  handle_anonymous e = rw (e, handle_category_cashflow)

  handle_nameless :
      str_eq event.year_month "" ≡ true → handle_category_cashflow true (some event) rows ≡ rows
  unfolding handle_category_cashflow
  handle_nameless nameless = elim (Option-cases event.user_id) [
    | inl anonymous ↦ handle_anonymous anonymous
    | inr (u, e) ↦ rw (e, handle_category_cashflow) (rw nameless)
  ]

  handle_named :
      (u : ℕ)
      → event.user_id ≡ some u
      → str_eq event.year_month "" ≡ false
      → handle_category_cashflow true (some event) rows
        ≡ store_categories u event.year_month event.revision event.categories rows
  unfolding handle_category_cashflow
  handle_named u e named = rw (e, handle_category_cashflow) (rw named)

-- A category message that Kafka delivers again changes nothing.
pub deliver_categories_twice :
    (event : CategoryEvent) (rows : Table)
    → handle_category_cashflow true (some event) (handle_category_cashflow true (some event) rows)
      ≡ handle_category_cashflow true (some event) rows
deliver_categories_twice event rows = elim (Option-cases event.user_id) [
  | inl anonymous ↦ handle_anonymous event _ anonymous
  | inr (u, e) ↦ elim (Bool-cases (str_eq event.year_month "")) [
    | inl nameless ↦ handle_nameless event _ nameless
    | inr named ↦ rw (handle_named event rows u e named) (
        handle_named event _ u e named
        ∙ store-AllSettled u event.year_month event.revision event.categories _
            (all_settled u event.year_month event.revision event.categories rows))
  ]
]

-- A newer message that no longer names a category leaves that category's row as it was, with its
-- older revision and its amount.
dropped_category_stays :
    (event : CategoryEvent) (user : ℕ) (code : String) (rows : Table)
    → event.user_id ≡ some user
    → any (λ c. str_eq c.0 code) event.categories ≡ false
    → look_category user event.year_month code (handle_category_cashflow true (some event) rows)
      ≡ look_category user event.year_month code rows
dropped_category_stays event user code rows e h = elim (Bool-cases (str_eq event.year_month "")) [
  | inl nameless ↦ rw (handle_nameless event rows nameless)
  | inr named ↦
      rw (handle_named event rows user e named)
        (store_categories_absent user event.year_month event.revision code event.categories rows h)
]
