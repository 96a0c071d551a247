-- ===== src/Recap/Naming.antt =====
-- When a recap gives a nickname, and which category it stands for.
use native.Mathlib.Nat.{div-lt_iff_lt-mul, div-add-mod'}
use moaje_work.Decimal.{round_half_even}
use moaje_work.Prelude.{
  ℕ, ◌*◌, ◌≤◌, ◌<◌, ◌≡◌, refl, true, Option, none, some, List, [], ◌∷◌, String, arith, ℤ, pos,
  negsuc, ◌≤ℤ◌, filter, Option-cases, inl, inr, pos_part, sym, ap, ◌∙◌,
}
use moaje_work.Cashflow.{MonthlyCashflow, CategoryCashflow}
use moaje_work.Database.{Database}
use moaje_work.Recap.{Nickname, CategoryShare, RecapCoverage, RecapResult}
use moaje_work.Recap.Service.{
  insert_by_amount, order_by_amount, in_month, get_categories, quotient_of, build_share,
  build_shares, unclassified_amount, build_coverage, build_nickname, head, build_recap, get_recap,
  count_transactions, get_monthly,
}

-- No row of the list has more than the amount.
abbrev pub AtMost : ℤ → List CategoryCashflow → Type 0
AtMost a [] = Unit
AtMost a (c ∷ rows) = (c.amount ≤ℤ a) × AtMost a rows

-- What a sorted list starts with is the largest of the list it sorts.
abbrev IsLargest : Option CategoryShare → List CategoryCashflow → Type 0
IsLargest none rows = rows ≡ []
IsLargest (some s) rows = AtMost s.amount rows

abbrev first : List CategoryCashflow → Option ℤ
first [] = none
first (c ∷ rows) = some c.amount

AtMost-mono : (a b : ℤ) (rows : List CategoryCashflow) → a ≤ℤ b → AtMost a rows → AtMost b rows
AtMost-mono a b [] h k = tt
AtMost-mono a b (c ∷ rows) h (k, ks) = (omega (arith, h, k), AtMost-mono a b rows h ks)

-- The amount that an ordered list starts with bounds every row it was ordered from.
abbrev FirstBounds : List CategoryCashflow → List CategoryCashflow → Type 0
FirstBounds [] rows = rows ≡ []
FirstBounds (c ∷ ordered) rows = AtMost c.amount rows

insert-FirstBounds :
    (c : CategoryCashflow) (ordered rows : List CategoryCashflow)
    → FirstBounds ordered rows
    → FirstBounds (insert_by_amount c ordered) (c ∷ rows)
insert-FirstBounds c [] rows h = rw h (omega arith, tt)
insert-FirstBounds c (d ∷ ordered) rows h = ground (arith, h, AtMost-mono d.amount c.amount rows)

order-FirstBounds : (rows : List CategoryCashflow) → FirstBounds (order_by_amount rows) rows
order-FirstBounds [] = refl
order-FirstBounds (c ∷ rows) =
    insert-FirstBounds c (order_by_amount rows) rows (order-FirstBounds rows)

share-FirstBounds :
    (total : ℤ) (ordered rows : List CategoryCashflow)
    → FirstBounds ordered rows
    → IsLargest (head (build_shares ordered total)) rows
unfolding build_shares build_share
share-FirstBounds total [] rows h = h
share-FirstBounds total (c ∷ ordered) rows h = h

-- A recap that is given is built from the month's row.
recap_of :
    (estimate : ℕ → ℤ → ℤ → ℤ) (user_id : ℕ) (year_month : String) (bounds : Option (ℕ × ℕ))
    (must_keep : Option String) (db : Database) (r : RecapResult)
    → get_recap estimate user_id year_month bounds must_keep db ≡ some r
    → (monthly : MonthlyCashflow) × (build_recap estimate monthly
          (get_categories user_id year_month db)
          (count_transactions user_id bounds db)
          must_keep
        ≡ r)
unfolding get_recap
recap_of estimate user_id year_month bounds must_keep db r h =
    elim (Option-cases (get_monthly user_id year_month db)) [
      | inl missing ↦ absurd (cc (h, missing))
      | inr (monthly, e) ↦ (monthly, cc (h, e))
    ]

-- The top category of a recap is the largest of the month: no row of the user and the month has
-- a larger amount, and there is none only where there is no such row.
top_category-IsLargest :
    (estimate : ℕ → ℤ → ℤ → ℤ) (user_id : ℕ) (year_month : String) (bounds : Option (ℕ × ℕ))
    (must_keep : Option String) (db : Database) (r : RecapResult)
    → get_recap estimate user_id year_month bounds must_keep db ≡ some r
    → IsLargest r.top_category (filter (in_month user_id year_month) db.categories)
unfolding build_recap get_categories
top_category-IsLargest estimate user_id year_month bounds must_keep db r h =
    let rows = filter (in_month user_id year_month) db.categories in
    let (monthly, e) = recap_of estimate user_id year_month bounds must_keep db r h in
    rw (sym e)
      (share-FirstBounds monthly.total_expense (order_by_amount rows) rows (order-FirstBounds rows))

rounded_to_30 : (n d : ℕ) → 0 < d → round_half_even n d ≤ 30 → 2 * n ≤ 61 * d
unfolding round_half_even
rounded_to_30 n d p h =
    let (low, _) = div-lt_iff_lt-mul {k = d} {x = n} {y = 30} p in
    let (mid, _) = div-lt_iff_lt-mul {k = d} {x = n} {y = 31} p in
    ground (arith, div-add-mod' n d, low, mid)

share_to_30 :
    (u t : ℤ) → pos 1 ≤ℤ t → quotient_of 100 u t ≤ℤ pos 30 → pos_part u * 200 ≤ 61 * pos_part t
unfolding quotient_of
share_to_30 (pos u) (pos t) p h =
    omega (arith, rounded_to_30 (u * 100) t (omega (arith, p)) (ground (arith, p, h)))
share_to_30 (negsuc u) t p h = omega arith
share_to_30 u (negsuc t) p h = absurd (omega (arith, p))

reliable_coverage :
    (estimate : ℕ → ℤ → ℤ → ℤ) (cats : List CategoryCashflow) (t : ℤ) (tx : ℕ)
    → (build_coverage estimate cats t tx).is_reliable ≡ true
    → (10 ≤ tx) × (pos 1 ≤ℤ t) × (quotient_of 100 (unclassified_amount cats) t ≤ℤ pos 30)
unfolding build_coverage
reliable_coverage estimate cats t tx h = ground (arith, h)

named_by_reliable :
    (top : Option CategoryShare) (coverage : RecapCoverage) (n : Nickname)
    → build_nickname top coverage ≡ some n
    → coverage.is_reliable ≡ true
unfolding build_nickname
named_by_reliable none coverage n h = absurd (cc h)
named_by_reliable (some top) coverage n h = ground (arith, h)

earned :
    (estimate : ℕ → ℤ → ℤ → ℤ) (monthly : MonthlyCashflow) (cats : List CategoryCashflow) (tx : ℕ)
    (must_keep : Option String) (n : Nickname)
    → let r = build_recap estimate monthly cats tx must_keep in
      r.nickname ≡ some n
      → (10 ≤ tx)
        × (pos 1 ≤ℤ r.total_expense)
        × (pos_part (unclassified_amount cats) * 200 ≤ 61 * pos_part r.total_expense)
unfolding build_recap
earned estimate monthly cats tx must_keep n h =
    let total = monthly.total_expense in
    let (enough, positive, few) = reliable_coverage estimate cats total tx (
      named_by_reliable (head (build_shares cats total)) (build_coverage estimate cats total tx) n
        h) in
    (enough, positive, share_to_30 (unclassified_amount cats) total positive few)

-- A nickname is given only on enough classified spending: at least 10 transactions of the month,
-- a positive expense, and unclassified amounts that sum to at most 30.5% of it, the most that
-- rounds to 30%.
nickname_earned :
    (estimate : ℕ → ℤ → ℤ → ℤ) (user_id : ℕ) (year_month : String) (bounds : Option (ℕ × ℕ))
    (must_keep : Option String) (db : Database) (r : RecapResult) (n : Nickname)
    → get_recap estimate user_id year_month bounds must_keep db ≡ some r
    → r.nickname ≡ some n
    → (10 ≤ count_transactions user_id bounds db)
      × (pos 1 ≤ℤ r.total_expense)
      × (pos_part (unclassified_amount (get_categories user_id year_month db)) * 200
          ≤ 61 * pos_part r.total_expense)
nickname_earned estimate user_id year_month bounds must_keep db r n h k =
    let (monthly, e) = recap_of estimate user_id year_month bounds must_keep db r h in
    rw (sym e) (
      earned estimate monthly (get_categories user_id year_month db)
        (count_transactions user_id bounds db) must_keep n
        (ap (λ (x : RecapResult). x.nickname) e ∙ k))
