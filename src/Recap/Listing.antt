-- ===== src/Recap/Listing.antt =====
-- The months that the list of the recap shows.
use moaje_work.Prelude.{
  ℕ, zero, suc, ◌≡◌, ◌≢◌, refl, Bool, true, ◌&&◌, ◌||◌, Option, none, List, [], ◌∷◌, map, String,
  str_eq, ◌==◌, arith, filter, find, any, take_rows, ℤ, Option-cases, inl, inr, sym, ◌∙◌,
}
use moaje_work.Cashflow.{MonthlyCashflow}
use moaje_work.Database.{Database}
use moaje_work.Recap.Service.{get_monthly, get_recap}
use moaje_work.Recap.Requests.{insert_month, order_months, list_months}

abbrev pub month_name : MonthlyCashflow → String
month_name m = m.year_month

abbrev pub is_listed : String → List String → Bool
is_listed ym names = any (λ n. str_eq n ym) names

listed-take :
    (ym : String) (n : ℕ) (names : List String)
    → is_listed ym (take_rows n names) ≡ true
    → is_listed ym names ≡ true
listed-take ym n [] h = h
listed-take ym zero (name ∷ names) h = cc
listed-take ym (suc n) (name ∷ names) h = ground (arith, listed-take ym n names)

module _ (not_after : String → String → Bool) (ym : String) where
  listed-insert :
      (m : MonthlyCashflow) (rows : List MonthlyCashflow)
      → is_listed ym (map month_name (insert_month not_after m rows))
        ≡ (str_eq m.year_month ym || is_listed ym (map month_name rows))
  unfolding insert_month
  listed-insert m [] = refl
  listed-insert m (n ∷ rows) = ground (arith, listed-insert m rows)

  listed-order :
      (rows : List MonthlyCashflow)
      → is_listed ym (map month_name (order_months not_after rows))
        ≡ is_listed ym (map month_name rows)
  unfolding order_months
  listed-order [] = refl
  listed-order (m ∷ rows) =
      ground (arith, listed-insert m (order_months not_after rows), listed-order rows)

listed-find :
    (user : ℕ) (ym : String) (rows : List MonthlyCashflow)
    → is_listed ym (map month_name (filter (λ m. m.user_id == user) rows)) ≡ true
    → find (λ m. m.user_id == user && str_eq m.year_month ym) rows ≢ none
listed-find user ym [] h = cc
listed-find user ym (m ∷ rows) h = ground (arith, listed-find user ym rows)

-- Each month that the list shows to a user has a recap for that user.
listed_month_found :
    (not_after : String → String → Bool) (estimate : ℕ → ℤ → ℤ → ℤ) (user limit : ℕ) (db : Database)
    (ym : String) (bounds : Option (ℕ × ℕ)) (keep : Option String)
    → is_listed ym (list_months not_after user limit db) ≡ true
    → get_recap estimate user ym bounds keep db ≢ none
unfolding list_months get_recap get_monthly
listed_month_found not_after estimate user limit db ym bounds keep h =
    let mine = filter (λ (m : MonthlyCashflow). m.user_id == user) db.monthly in
    let ordered = map month_name (order_months not_after mine) in
    let shown = listed-take ym limit ordered h in
    let found = listed-find user ym db.monthly (sym (listed-order not_after ym mine) ∙ shown) in
    elim (Option-cases (get_monthly user ym db)) [
      | inl missing ↦ absurd (found missing)
      | inr (m, row) ↦ λ none_shown. let e = rw (row, get_recap) at none_shown in cc
    ]
