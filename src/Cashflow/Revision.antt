-- ===== src/Cashflow/Revision.antt =====
-- The revision rule of the monthly totals: for each user and month the table shows the event with
-- the largest revision, whatever the order and the repetitions of the deliveries.
use text.Mathlib.TextPositions.{eq_refl}
use moaje_work.Prelude.{
  ℕ, ◌≡◌, inl, inr, Bool, true, false, not, ◌&&◌, Option, none, some, List, String, str_eq, eq_iff,
  arith, ◌==◌, if◌then◌else◌, Option-cases, Bool-cases, find,
}
use moaje_work.Cashflow.{MonthlyCashflow}
use moaje_work.Cashflow.Upsert.{upsert, newest, find-upsert, find-upsert_other}
use moaje_work.Cashflow.Handlers.{
  MonthlyEvent, same_month, write_monthly, new_monthly, handle_monthly_cashflow,
}

abbrev pub Table : Type 0
Table = List MonthlyCashflow

-- `scalar_one_or_none()` of the row of a user and a month.
abbrev pub look : ℕ → String → Table → Option MonthlyCashflow
look user ym rows = find (same_month user ym) rows

-- The event is complete, and it is about this user and month.
abbrev pub concerns : MonthlyEvent → ℕ → String → Bool
concerns event user ym = elim event.user_id [
  | none ↦ false
  | some u ↦ not (str_eq event.year_month "") && (u == user && str_eq event.year_month ym)
]

abbrev pub deliver : MonthlyEvent → Table → Table
deliver event rows = handle_monthly_cashflow true (some event) rows

module _ (event : MonthlyEvent) (u : ℕ) (rows : Table) where
  abbrev pub stored : Table
  stored =
      upsert (λ row. row.revision) (same_month u event.year_month) (write_monthly event)
        (new_monthly u event) rows

  same_month_self : same_month u event.year_month (new_monthly u event) ≡ true
  same_month_self = ground (arith, eq_refl event.year_month)

  pub look-stored :
      look u event.year_month stored
      ≡ newest
          (λ row. row.revision)
          (write_monthly event)
          (new_monthly u event)
          (look u event.year_month rows)
  look-stored =
      find-upsert (λ row. row.revision) (same_month u event.year_month) (write_monthly event)
        (new_monthly u event) (λ r h. h) same_month_self rows

  look-stored_other :
      (user : ℕ) (ym : String)
      → (u == user && str_eq event.year_month ym) ≡ false
      → look user ym stored ≡ look user ym rows
  look-stored_other user ym h =
      find-upsert_other (λ row. row.revision) (same_month u event.year_month) (write_monthly event)
        (new_monthly u event) (same_month user ym)
        (λ r e.
          let fact : same_month user ym r ≡ false = ground (
            arith,
            eq_iff r.year_month event.year_month,
            eq_iff r.year_month ym,
            eq_iff event.year_month ym,
          ) in
          (fact, fact))
        same_month_self rows

  pub deliver-stored :
      event.user_id ≡ some u → str_eq event.year_month "" ≡ false → deliver event rows ≡ stored
  unfolding handle_monthly_cashflow
  deliver-stored e f = rw (e, handle_monthly_cashflow) (rw f)

  pub deliver_nameless :
      event.user_id ≡ some u → str_eq event.year_month "" ≡ true → deliver event rows ≡ rows
  unfolding handle_monthly_cashflow
  deliver_nameless e f = rw (e, handle_monthly_cashflow) (rw f)

pub deliver_anonymous :
    (event : MonthlyEvent) (rows : Table) → event.user_id ≡ none → deliver event rows ≡ rows
unfolding handle_monthly_cashflow
deliver_anonymous event rows e = rw (e, handle_monthly_cashflow)

-- What a delivery shows for every user and month.
pub look-deliver :
    (event : MonthlyEvent) (user : ℕ) (ym : String) (rows : Table)
    → look user ym (deliver event rows) ≡ (
        if concerns event user ym
        then newest
            (λ row. row.revision)
            (write_monthly event)
            (new_monthly user event)
            (look user ym rows)
        else look user ym rows)
look-deliver event user ym rows = elim (Option-cases event.user_id) [
  | inl anonymous ↦ rw (deliver_anonymous event rows anonymous) (rw (anonymous, concerns))
  | inr (u, e) ↦ elim (Bool-cases (str_eq event.year_month "")) [
    | inl nameless ↦ rw (deliver_nameless event u rows e nameless) (rw (e, concerns) (rw nameless))
    | inr named ↦ elim (Bool-cases (u == user && str_eq event.year_month ym)) [
      | inl mine ↦
          let p : u ≡ user = ground arith in
          let q : event.year_month ≡ ym = ground (arith, eq_iff event.year_month ym) in
          rw (deliver-stored event u rows e named)
            (rw (e, concerns) (rw (named, mine) (rw (← p, ← q) (look-stored event u rows))))
      | inr other ↦
          rw (deliver-stored event u rows e named)
            (rw (e, concerns) (rw (named, other) (look-stored_other event u rows user ym other)))
    ]
  ]
]
