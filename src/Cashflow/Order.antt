-- ===== src/Cashflow/Order.antt =====
-- Deliveries of monthly totals: repeated, reordered, and many.
use moaje_work.Prelude.{
  ℕ, ◌≤◌, ◌≡◌, ◌≢◌, refl, sym, ◌∙◌, inl, inr, true, Option, none, some, List, [], ◌∷◌, ◌++◌, String,
  str_eq, eq_iff, arith, leb, if◌then◌else◌, Option-cases, Bool-cases, max, ap,
}
use moaje_work.Cashflow.{MonthlyCashflow}
use moaje_work.Cashflow.Upsert.{newest, upsert_kept}
use moaje_work.Cashflow.Handlers.{MonthlyEvent, write_monthly, new_monthly, same_month}
use moaje_work.Cashflow.Revision.{
  Table, look, concerns, deliver, look-deliver, look-stored, deliver-stored, deliver_anonymous,
  deliver_nameless,
}

-- `newest` for the monthly rows.
abbrev pub merge : MonthlyEvent → ℕ → Option MonthlyCashflow → Option MonthlyCashflow
merge event user = newest (λ row. row.revision) (write_monthly event) (new_monthly user event)

merge-some :
    (event : MonthlyEvent) (user : ℕ) (o : Option MonthlyCashflow)
    → (row : MonthlyCashflow) × (merge event user o ≡ some row) × (event.revision ≤ row.revision)
unfolding newest
merge-some event user none = (new_monthly user event, refl, omega arith)
merge-some event user (some row) = elim (Bool-cases (leb event.revision row.revision)) [
  | inl old ↦ (row, rw old, ground arith)
  | inr newer ↦ (write_monthly event row, rw newer, omega arith)
]

-- A message that Kafka delivers again changes nothing.
pub deliver_twice :
    (event : MonthlyEvent) (rows : Table) → deliver event (deliver event rows) ≡ deliver event rows
deliver_twice event rows = elim (Option-cases event.user_id) [
  | inl anonymous ↦ deliver_anonymous event (deliver event rows) anonymous
  | inr (u, e) ↦ elim (Bool-cases (str_eq event.year_month "")) [
    | inl nameless ↦ deliver_nameless event u (deliver event rows) e nameless
    | inr named ↦
        let (row, shown, new) = merge-some event u (look u event.year_month rows) in
        rw (deliver-stored event u rows e named) (
          rw (deliver-stored event u _ e named) (
            upsert_kept (λ r. r.revision) (same_month u event.year_month) (write_monthly event)
              (new_monthly u event) _ row (look-stored event u rows ∙ shown) new))
  ]
]

pub concerns_month :
    (event : MonthlyEvent) (user : ℕ) (ym : String)
    → concerns event user ym ≡ true
    → event.year_month ≡ ym
concerns_month event user ym h = ground (arith, eq_iff event.year_month ym)

merge_comm :
    (a b : MonthlyEvent) (user : ℕ) (o : Option MonthlyCashflow)
    → a.year_month ≡ b.year_month
    → a.revision ≢ b.revision
    → merge a user (merge b user o) ≡ merge b user (merge a user o)
unfolding newest
merge_comm a b user none same differ = ground arith
merge_comm a b user (some row) same differ = ground arith

-- What one delivery makes of the row that a user and month show.
abbrev shown : MonthlyEvent → ℕ → String → Option MonthlyCashflow → Option MonthlyCashflow
shown event user ym o = if concerns event user ym then merge event user o else o

shown_comm :
    (a b : MonthlyEvent) (user : ℕ) (ym : String) (o : Option MonthlyCashflow)
    → a.revision ≢ b.revision
    → shown a user ym (shown b user ym o) ≡ shown b user ym (shown a user ym o)
shown_comm a b user ym o differ = elim (Bool-cases (concerns a user ym)) [
  | inr other ↦ rw other
  | inl mine ↦ elim (Bool-cases (concerns b user ym)) [
    | inr other ↦ rw other
    | inl too ↦
        rw (mine, too)
          (merge_comm a b user o
            (concerns_month a user ym mine ∙ sym (concerns_month b user ym too)) differ)
  ]
]

-- The consumer's loop over a run of messages.
unfoldable pub deliver_all : List MonthlyEvent → Table → Table
deliver_all [] rows = rows
deliver_all (event ∷ events) rows = deliver_all events (deliver event rows)

deliver_all-append :
    (xs ys : List MonthlyEvent) (rows : Table)
    → deliver_all (xs ++ ys) rows ≡ deliver_all ys (deliver_all xs rows)
unfolding deliver_all
deliver_all-append [] ys rows = refl
deliver_all-append (x ∷ xs) ys rows = deliver_all-append xs ys (deliver x rows)

-- Tables that show the same before a run show the same after it.
deliver_all_cong :
    (events : List MonthlyEvent) (user : ℕ) (ym : String) (rows rows' : Table)
    → look user ym rows ≡ look user ym rows'
    → look user ym (deliver_all events rows) ≡ look user ym (deliver_all events rows')
unfolding deliver_all
deliver_all_cong [] user ym rows rows' h = h
deliver_all_cong (event ∷ events) user ym rows rows' h =
    deliver_all_cong events user ym (deliver event rows) (deliver event rows') (
      look-deliver event user ym rows
      ∙ (ap (shown event user ym) h ∙ sym (look-deliver event user ym rows')))

-- In a run of messages two neighbours with different revisions may change places: every user and
-- month shows the same totals at the end.
pub deliver_reordered :
    (before after : List MonthlyEvent) (a b : MonthlyEvent) (user : ℕ) (ym : String) (rows : Table)
    → a.revision ≢ b.revision
    → look user ym (deliver_all (before ++ a ∷ b ∷ after) rows)
      ≡ look user ym (deliver_all (before ++ b ∷ a ∷ after) rows)
unfolding deliver_all
deliver_reordered before after a b user ym rows differ =
    rw
      (
        deliver_all-append before (a ∷ b ∷ after) rows,
        deliver_all-append before (b ∷ a ∷ after) rows,
      )
      (deliver_all_cong after user ym _ _ (
        look-deliver b user ym _
        ∙ (ap (shown b user ym) (look-deliver a user ym _)
            ∙ (shown_comm b a user ym _ (λ e. differ (sym e))
                ∙ (ap (shown a user ym) (sym (look-deliver b user ym _))
                    ∙ sym (look-deliver a user ym _))))))

-- The largest revision among the events about a user and month, from r up.
unfoldable pub largest_revision : ℕ → String → ℕ → List MonthlyEvent → ℕ
largest_revision user ym r [] = r
largest_revision user ym r (event ∷ events) =
    largest_revision user ym (if concerns event user ym then max r event.revision else r) events

shown-some :
    (event : MonthlyEvent) (user : ℕ) (ym : String) (row : MonthlyCashflow)
    → (row' : MonthlyCashflow) × (shown event user ym (some row) ≡ some row')
      × (row'.revision
          ≡ (if concerns event user ym then max row.revision event.revision else row.revision))
unfolding newest
shown-some event user ym row = elim (Bool-cases (concerns event user ym)) [
  | inr other ↦ (row, rw other, rw other)
  | inl mine ↦ elim (Bool-cases (leb event.revision row.revision)) [
    | inl old ↦ (row, rw (mine, old), rw mine (ground arith))
    | inr newer ↦ (write_monthly event row, rw (mine, newer), rw mine (ground arith))
  ]
]

-- From a stored row on, the row that is shown after any run of messages carries the largest of its
-- revision and those of the events about its user and month: no delivery loses a later result.
pub shown_revision :
    (events : List MonthlyEvent) (user : ℕ) (ym : String) (rows : Table) (row : MonthlyCashflow)
    → look user ym rows ≡ some row
    → (row' : MonthlyCashflow) × (look user ym (deliver_all events rows) ≡ some row')
      × (row'.revision ≡ largest_revision user ym row.revision events)
unfolding deliver_all largest_revision
shown_revision [] user ym rows row h = (row, h, refl)
shown_revision (event ∷ events) user ym rows row h =
    let (row1, s, r) = shown-some event user ym row in
    let (row2, t, q) =
      shown_revision events user ym (deliver event rows) row1
        (look-deliver event user ym rows ∙ (ap (shown event user ym) h ∙ s)) in
    (row2, t, q ∙ ap (λ k. largest_revision user ym k events) r)
