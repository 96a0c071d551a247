-- ===== src/Cashflow/Upsert.antt =====
-- The step that both aggregate handlers of app/kafka/consumer.py make for a row: look it up, leave
-- it if its revision is at least the event's, overwrite it if it is smaller, add it if it is absent.
use moaje_work.Prelude.{
  ℕ, ◌≤◌, ◌≡◌, ◌∙◌, inl, inr, Bool, true, false, Option, none, some, List, [], ◌∷◌, ◌++◌, arith,
  leb, if◌then◌else◌, Option-cases, Bool-cases, find, update_where, find-append_none,
  find-update_where, find-update_other, find-append_other,
}

module _ {R : Type 0} (revision : R → ℕ) where
  unfoldable pub upsert : (R → Bool) → (R → R) → R → List R → List R
  upsert same write new rows = elim (find same rows) [
    | none ↦ rows ++ new ∷ []
    | some row ↦ if leb (revision new) (revision row) then rows else update_where same write rows
  ]

-- What the look-up of the key gives afterwards, from what it gave before.
unfoldable pub newest :
    {R : Type 0} (revision : R → ℕ) (write : R → R) (new : R) → Option R → Option R
newest revision write new none = some new
newest revision write new (some row) =
    if leb (revision new) (revision row) then some row else some (write row)

module _ {R : Type 0} (revision : R → ℕ) (same : R → Bool) (write : R → R) (new : R) where
  pub find-upsert :
      (keeps : (r : R) → same r ≡ true → same (write r) ≡ true)
      → (mine : same new ≡ true) → (rows : List R)
      → find same (upsert revision same write new rows) ≡ newest revision write new (find same rows)
  unfolding upsert newest
  find-upsert keeps mine rows = elim (Option-cases (find same rows)) [
    | inl absent ↦ rw (absent, upsert) (find-append_none same rows (new ∷ []) absent ∙ rw mine)
    | inr (row, e) ↦ elim (Bool-cases (leb (revision new) (revision row))) [
      | inl old ↦ rw (e, upsert) (rw old e)
      | inr newer ↦ rw (e, upsert) (rw newer (find-update_where same write keeps rows row e))
    ]
  ]

  pub find-upsert_other :
      (other : R → Bool)
      → (apart : (r : R) → same r ≡ true → (other r ≡ false) × (other (write r) ≡ false))
      → (mine : same new ≡ true) → (rows : List R)
      → find other (upsert revision same write new rows) ≡ find other rows
  unfolding upsert
  find-upsert_other other apart mine rows = elim (Option-cases (find same rows)) [
    | inl absent ↦ rw (absent, upsert) (find-append_other other rows new (apart new mine).0)
    | inr (row, e) ↦ elim (Bool-cases (leb (revision new) (revision row))) [
      | inl old ↦ rw (e, upsert) (rw old)
      | inr newer ↦ rw (e, upsert) (rw newer (find-update_other same other write apart rows))
    ]
  ]

  -- A row that is at least as new stops the step.
  pub upsert_kept :
      (rows : List R) (row : R)
      → find same rows ≡ some row
      → revision new ≤ revision row
      → upsert revision same write new rows ≡ rows
  unfolding upsert
  upsert_kept rows row e h = rw (e, upsert) (ground arith)
