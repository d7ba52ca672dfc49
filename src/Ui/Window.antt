-- ===== src/Ui/Window.antt =====
-- The window's rows have different ids, whatever comes in.
use xhubv.Prelude.{
  ℕ, ◌+◌, ◌≡◌, ◌≢◌, refl, sym, subst, List, [], ◌∷◌, Bool, true, false, All, ltb, ◌==◌,
  if◌then◌else◌, ◌&&◌,
}
use xhubv.Session.{DescrState}
use xhubv.Session.Updates.{either}
use xhubv.Ui.{
  Row, row_id, row_state, with_state, descr_state_code, copied, on_transaction_received, on_timer,
  time_row, on_transaction_state_changed, mark_cancelled,
}
use xhubv.Ui.Rows.{Distinct, SameIds, SameIds-Distinct, same_ids, on_transaction_received-Distinct}

state_changed_ids :
    (id : ℕ) (s : DescrState) (rows : List Row)
    → SameIds rows (on_transaction_state_changed id s rows)
unfolding on_transaction_state_changed
state_changed_ids id s [] = tt
state_changed_ids id s (r ∷ rows) =
    either (SameIds (r ∷ rows)) (row_id r == id) _ _ (refl, same_ids rows)
      (refl, state_changed_ids id s rows)

cancelled_ids : (id : ℕ) (rows : List Row) → SameIds rows (mark_cancelled id rows)
unfolding mark_cancelled
cancelled_ids id [] = tt
cancelled_ids id (r ∷ rows) =
    either (SameIds (r ∷ rows)) (row_id r == id) _ _ (refl, cancelled_ids id rows)
      (refl, cancelled_ids id rows)

-- The row that the timer looks at has the id of the row that stood there.
row_id-moved :
    (now : ℕ) (moved : Bool) (r : Row) → row_id (if moved then copied now r else r) ≡ row_id r
unfolding copied
row_id-moved now true r = refl
row_id-moved now false r = refl

by_time :
    (P : List Row → Type 0) (now : ℕ) (r : Row) (rest erased : List Row)
    → P (with_state DescrState.tr_expired r ∷ rest)
    → P erased
    → P (r ∷ rest)
    → P (time_row now r rest erased)
unfolding time_row
by_time P now r rest erased e x k =
    either P ((descr_state_code (row_state r) == 1) && ltb (r.txtime + 60) now) _ _ e
      (either P ((descr_state_code (row_state r) == 12) && ltb (r.txtime + 300) now) _ _ x k)

abbrev Apart : ℕ → List Row → Type 0
Apart id = All (λ x. row_id x ≢ id)

module _ (now : ℕ) where
  on_timer-Apart :
      (id : ℕ) (moved : Bool) (rows : List Row) → Apart id rows → Apart id (on_timer now moved rows)
  unfolding on_timer
  on_timer-Apart id moved [] h = tt
  on_timer-Apart id moved (r ∷ rows) h =
      let other : row_id (if moved then copied now r else r) ≢ id =
        λ e. h.0 (cc (row_id-moved now moved r, e)) in
      let rest = on_timer-Apart id moved rows h.1 in
      by_time (Apart id) now (if moved then copied now r else r) (on_timer now moved rows)
        (on_timer now true rows) (other, rest) (on_timer-Apart id true rows h.1) (other, rest)

  on_timer-Distinct :
      (moved : Bool) (rows : List Row) → Distinct rows → Distinct (on_timer now moved rows)
  unfolding on_timer
  on_timer-Distinct moved [] d = tt
  on_timer-Distinct moved (r ∷ rows) d =
      let r' : Row = if moved then copied now r else r in
      let front : Apart (row_id r') (on_timer now moved rows) =
        subst (λ id. Apart id (on_timer now moved rows)) (sym (row_id-moved now moved r))
          (on_timer-Apart (row_id r) moved rows d.0) in
      let rest = on_timer-Distinct moved rows d.1 in
      by_time Distinct now r' (on_timer now moved rows) (on_timer now true rows) (front, rest)
        (on_timer-Distinct true rows d.1) (front, rest)

  -- If no two rows of the window have the same id, this is so after an order has come in, after
  -- a turn of the timer, after a change of state and after a cancellation.
  pub rows_stay-Distinct :
      (tx : Row) (id : ℕ) (s : DescrState) (rows : List Row)
      → Distinct rows
      → Distinct (on_transaction_received now tx rows)
        × Distinct (on_timer now false rows)
        × Distinct (on_transaction_state_changed id s rows)
        × Distinct (mark_cancelled id rows)
  rows_stay-Distinct tx id s rows d = (
    on_transaction_received-Distinct now tx rows d,
    on_timer-Distinct false rows d,
    SameIds-Distinct rows (on_transaction_state_changed id s rows) (state_changed_ids id s rows) d,
    SameIds-Distinct rows (mark_cancelled id rows) (cancelled_ids id rows) d,
  )
