-- ===== src/Cashflow/Refinement.antt =====
-- The abstract view of the monthly totals: a user and a month show the event that came first among
-- those with the largest revision. The table refines it.
use moaje_work.Prelude.{
  Bool, true, false, arith, ℕ, ◌≡◌, refl, ap, ◌∙◌, sym, inl, inr, Option, none, some, List, [], ◌∷◌,
  String, leb, if◌then◌else◌, Bool-cases, Bool, false, arith,
}
use moaje_work.Cashflow.{MonthlyCashflow}
use moaje_work.Cashflow.Upsert.{newest}
use moaje_work.Cashflow.Handlers.{MonthlyEvent, write_monthly, new_monthly, handle_monthly_cashflow}
use moaje_work.Cashflow.Revision.{Table, look, concerns, deliver, look-deliver}
use moaje_work.Cashflow.Order.{deliver_all, concerns_month}

abbrev later : Option MonthlyEvent → MonthlyEvent → Option MonthlyEvent
later none event = some event
later (some best) event = if leb event.revision best.revision then some best else some event

-- The event that counts for a user and a month after a run of messages, from the one before.
unfoldable pub latest : ℕ → String → Option MonthlyEvent → List MonthlyEvent → Option MonthlyEvent
latest user ym best [] = best
latest user ym best (event ∷ events) =
    latest user ym (if concerns event user ym then later best event else best) events

-- The row that stands for an event.
abbrev pub row_of : ℕ → Option MonthlyEvent → Option MonthlyCashflow
row_of user none = none
row_of user (some event) = some (new_monthly user event)

abbrev IsOfMonth : String → Option MonthlyEvent → Type 0
IsOfMonth ym none = Unit
IsOfMonth ym (some event) = event.year_month ≡ ym

rewritten :
    (user : ℕ) (a b : MonthlyEvent)
    → b.year_month ≡ a.year_month
    → write_monthly a (new_monthly user b) ≡ new_monthly user a
rewritten user a b h = rw h refl

later-row :
    (user : ℕ) (ym : String) (best : Option MonthlyEvent) (event : MonthlyEvent)
    → event.year_month ≡ ym
    → IsOfMonth ym best
    → newest (λ row. row.revision) (write_monthly event) (new_monthly user event) (row_of user best)
      ≡ row_of user (later best event)
unfolding newest
later-row user ym none event h m = refl
later-row user ym (some b) event h m = elim (Bool-cases (leb event.revision b.revision)) [
  | inl old ↦ rw old refl
  | inr newer ↦ rw newer (ap some (rewritten user event b (m ∙ sym h)))
]

later-IsOfMonth :
    (ym : String) (best : Option MonthlyEvent) (event : MonthlyEvent)
    → event.year_month ≡ ym
    → IsOfMonth ym best
    → IsOfMonth ym (later best event)
later-IsOfMonth ym none event h m = h
later-IsOfMonth ym (some b) event h m = elim (Bool-cases (leb event.revision b.revision)) [
  | inl old ↦ rw old m
  | inr newer ↦ rw newer h
]

run-row :
    (events : List MonthlyEvent) (user : ℕ) (ym : String) (rows : Table)
    (best : Option MonthlyEvent)
    → look user ym rows ≡ row_of user best
    → IsOfMonth ym best
    → look user ym (deliver_all events rows) ≡ row_of user (latest user ym best events)
unfolding deliver_all latest
run-row [] user ym rows best h m = h
run-row (event ∷ events) user ym rows best h m = elim (Bool-cases (concerns event user ym)) [
  | inl mine ↦
      let month = concerns_month event user ym mine in
      rw mine (
        run-row events user ym (deliver event rows) (later best event)
          (look-deliver event user ym rows ∙ rw mine (rw h (later-row user ym best event month m)))
          (later-IsOfMonth ym best event month m))
  | inr other ↦ rw other (
      run-row events user ym (deliver event rows) best
        (look-deliver event user ym rows ∙ rw other h) m)
]

-- The consumer's loop over messages, each with whether the database answers it and takes its row.
unfoldable pub deliver_each : List (Bool × MonthlyEvent) → Table → Table
deliver_each [] rows = rows
deliver_each ((up, event) ∷ deliveries) rows =
    deliver_each deliveries (handle_monthly_cashflow up (some event) rows)

-- The messages that the database answers.
abbrev pub answered : List (Bool × MonthlyEvent) → List MonthlyEvent
answered [] = []
answered ((true, event) ∷ deliveries) = event ∷ answered deliveries
answered ((false, event) ∷ deliveries) = answered deliveries

unanswered :
    (event : MonthlyEvent) (rows : Table) → handle_monthly_cashflow false (some event) rows ≡ rows
unfolding handle_monthly_cashflow
unanswered event rows = ground arith

deliver_each-answered :
    (deliveries : List (Bool × MonthlyEvent)) (rows : Table)
    → deliver_each deliveries rows ≡ deliver_all (answered deliveries) rows
unfolding deliver_each deliver_all
deliver_each-answered [] rows = refl
deliver_each-answered ((true, event) ∷ deliveries) rows =
    deliver_each-answered deliveries (deliver event rows)
deliver_each-answered ((false, event) ∷ deliveries) rows =
    ap (deliver_each deliveries) (unanswered event rows) ∙ deliver_each-answered deliveries rows

-- After any run of messages from an empty table, a user and a month show the totals of one of the
-- messages about them that the database answered, the first of those with the largest revision,
-- and nothing if there is none. A message that comes while the database does not answer counts for
-- nothing.
pub monthly_refines :
    (deliveries : List (Bool × MonthlyEvent)) (user : ℕ) (ym : String)
    → look user ym (deliver_each deliveries [])
      ≡ row_of user (latest user ym none (answered deliveries))
monthly_refines deliveries user ym =
    ap (look user ym) (deliver_each-answered deliveries [])
    ∙ run-row (answered deliveries) user ym [] none refl tt
