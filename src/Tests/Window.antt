-- ===== src/Tests/Window.antt =====
-- The theorems on the window's rows, applied to three orders.
use xhubv.Prelude.{ℕ, ◌≡◌, refl, arith, [], ◌∷◌, true, false, map}
use xhubv.Session.{DescrState}
use xhubv.Ui.{
  Row, with_state, copied, descr_state_code, on_timer, on_transaction_received,
  on_transaction_state_changed, mark_cancelled,
}
use xhubv.Ui.Timer.{is_overdue, aged, on_timer_first}
use xhubv.Ui.Rows.{Distinct, received_refreshes}
use xhubv.Ui.Window.{rows_stay-Distinct}
use xhubv.Tests.Client.{descr}

-- A row with an id, a state and a time.
abbrev row : ℕ → DescrState → ℕ → Row
row id s t = with_state s (record { descr = descr id []; txtime = t })

-- An order that is due, an expired one and another expired one, all of the time 100.
abbrev waiting : Row
waiting = row 1 DescrState.tr_pending 100

abbrev old : Row
old = row 2 DescrState.tr_expired 100

abbrev older : Row
older = row 3 DescrState.tr_expired 90

not_overdue : is_overdue 1000 waiting ≡ false
unfolding descr_state_code
not_overdue = refl

overdue : is_overdue 1000 old ≡ true
unfolding descr_state_code
overdue = refl

-- Both expired orders are overdue, and one of them goes.
on_timer_first_example :
    on_timer 1000 false (waiting ∷ old ∷ older ∷ []) ≡ aged 1000 waiting ∷ copied 1000 older ∷ []
on_timer_first_example =
    on_timer_first 1000 (waiting ∷ []) old (older ∷ []) (not_overdue, tt) overdue

received_refreshes_example :
    on_timer 1060 false
      (on_transaction_received 1000 (row 7 DescrState.tr_pending 1000) (waiting ∷ old ∷ []))
    ≡ map (copied 1000) (row 7 DescrState.tr_pending 1000 ∷ waiting ∷ old ∷ [])
received_refreshes_example =
    received_refreshes (row 7 DescrState.tr_pending 1000) (waiting ∷ old ∷ []) 1000 1060
      (omega arith, (omega arith, tt)) (omega arith)

rows_stay-Distinct_example :
    Distinct (on_transaction_received 1000 older (waiting ∷ old ∷ []))
    × Distinct (on_timer 1000 false (waiting ∷ old ∷ []))
    × Distinct (on_transaction_state_changed 2 DescrState.tr_finished (waiting ∷ old ∷ []))
    × Distinct (mark_cancelled 2 (waiting ∷ old ∷ []))
rows_stay-Distinct_example =
    rows_stay-Distinct 1000 older 2 DescrState.tr_finished (waiting ∷ old ∷ [])
      ((omega arith, tt), (tt, tt))
