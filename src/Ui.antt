-- ===== src/Ui.antt =====
-- XBridgeTransactionsModel (src/ui/xbridgetransactionsmodel.cpp): the table of orders that the window shows, with
-- its timer and the calls by which the user places, accepts and cancels an order. The rows' time of creation
-- is left out, and so are Qt's notices of changes.
pub mod Timer
pub mod Rows
pub mod Window
use xhubv.Prelude.{
  ℕ, ◌+◌, List, [], ◌∷◌, Bool, true, false, ◌&&◌, Option, none, some, Bytes, length, ltb, ◌==◌,
  if◌then◌else◌, ◌>>=◌, map, map_option, ◌-◌,
}
use xhubv.Session.{Node, Descr, DescrState}
use xhubv.Session.Payment.{Doubles, descr_coin}
use xhubv.App.{send_xbridge_transaction, cancel_xbridge_transaction}

-- The numbers of XBridgeTransactionDescr::State.
unfoldable pub descr_state_code : DescrState → ℕ
descr_state_code DescrState.tr_new = 0
descr_state_code DescrState.tr_pending = 1
descr_state_code DescrState.tr_accepting = 2
descr_state_code DescrState.tr_hold = 3
descr_state_code DescrState.tr_created = 4
descr_state_code DescrState.tr_signed = 5
descr_state_code DescrState.tr_commited = 6
descr_state_code DescrState.tr_finished = 7
descr_state_code DescrState.tr_rollback = 8
descr_state_code DescrState.tr_dropped = 9
descr_state_code DescrState.tr_cancelled = 10
descr_state_code DescrState.tr_invalid = 11
descr_state_code DescrState.tr_expired = 12

-- A row: a descriptor, and its `txtime` in seconds.
pub record Row : Type 0 where
  pub descr : Descr
  pub txtime : ℕ

abbrev pub row_id : Row → ℕ
row_id r = r.descr.id

abbrev pub row_state : Row → DescrState
row_state r = r.descr.state

abbrev pub with_state : DescrState → Row → Row
with_state s r = record r { descr = record r.descr { state = s } }

-- copyFrom of a descriptor, by which a vector moves its elements, sets `txtime` to the time of the copy.
unfoldable pub copied : ℕ → Row → Row
copied now r = record r { txtime = now }

unfoldable pub is_my_transaction : ℕ → List Row → Bool
is_my_transaction i [] = false
is_my_transaction i (r ∷ rs) =
    if i == 0 then ltb 0 (length r.descr.from) else is_my_transaction (i - 1) rs

-- The row of onTransactionReceived that is found for `tx`.
unfoldable pub meet_row : Row → Row → Row
unfolding descr_state_code
meet_row tx r =
    let kept =
      if length r.descr.from == 0
      then tx
      else if ltb (descr_state_code (row_state r)) (descr_state_code (row_state tx))
      then with_state (row_state tx) r
      else r in
    record kept { txtime = tx.txtime }

-- The loop over the rows; `none` if no row has the id.
unfoldable pub meet_first : Row → List Row → Option (List Row)
unfolding meet_row
meet_first tx [] = none
meet_first tx (r ∷ rs) =
    let rest = meet_first tx rs in
    if row_id r == row_id tx then some (meet_row tx r ∷ rs) else do rs' ← rest; some (r ∷ rs')

-- A new row goes to the front; all rows of the vector are copied for it.
unfoldable pub on_transaction_received : ℕ → Row → List Row → List Row
unfolding meet_first copied
on_transaction_received now tx rows = elim (meet_first tx rows) [
  | some rows' ↦ rows'
  | none ↦ map (copied now) (tx ∷ rows)
]

-- The row `r` in the loop of onTimer: `rest` is what the loop makes of the rows behind it, and `erased` what it
-- makes of them when they have been copied one place forward.
unfoldable pub time_row : ℕ → Row → List Row → List Row → List Row
unfolding descr_state_code
time_row now r rest erased =
    if (descr_state_code (row_state r) == 1) && ltb (r.txtime + 60) now
    then with_state DescrState.tr_expired r ∷ rest
    else if (descr_state_code (row_state r) == 12) && ltb (r.txtime + 300) now
    then erased
    else r ∷ rest

-- onTimer; `moved`: a row has been erased, so that the rows behind it have been copied.
unfoldable pub on_timer : ℕ → Bool → List Row → List Row
unfolding copied time_row
on_timer now moved [] = []
on_timer now moved (r ∷ rs) =
    time_row now (if moved then copied now r else r) (on_timer now moved rs) (on_timer now true rs)

unfoldable pub on_transaction_id_changed : ℕ → ℕ → List Row → List Row
on_transaction_id_changed id newid [] = []
on_transaction_id_changed id newid (r ∷ rs) =
    if row_id r == id
    then record r { descr = record r.descr { id = newid } } ∷ rs
    else r ∷ on_transaction_id_changed id newid rs

unfoldable pub on_transaction_state_changed : ℕ → DescrState → List Row → List Row
on_transaction_state_changed id s [] = []
on_transaction_state_changed id s (r ∷ rs) =
    if row_id r == id then with_state s r ∷ rs else r ∷ on_transaction_state_changed id s rs

-- The loop of cancelTransaction, which goes through all rows.
unfoldable pub mark_cancelled : ℕ → List Row → List Row
mark_cancelled id [] = []
mark_cancelled id (r ∷ rs) =
    let rest = mark_cancelled id rs in
    if row_id r == id then with_state DescrState.tr_cancelled r ∷ rest else r ∷ rest

module _ (now : ℕ) where
  unfoldable pub cancel_transaction : ℕ → Node → List Row → Node × List Row
  unfolding mark_cancelled
  cancel_transaction id n rows =
      let (n', done) = cancel_xbridge_transaction now id n in
      (n', (if done then mark_cancelled id rows else rows))

  module _ (sha256 : Bytes → Bytes) where
    -- An order of the user's own; amounts are given as `double`.
    unfoldable pub new_transaction :
        (f : Doubles)
        → Bytes
        → Bytes
        → Bytes
        → Bytes
        → f.Double
        → f.Double
        → Node
        → List Row
        → Option (Node × List Row)
    unfolding on_transaction_received
    new_transaction f from to from_currency to_currency from_amount to_amount n rows =
        let units = λ (x : f.Double). f.to_uint64 (f.times x (f.of_uint64 descr_coin)) in
        do
          (n', id) ←
              send_xbridge_transaction now sha256 from from_currency (units from_amount) to
                to_currency (units to_amount) n
          let d : Descr = record {
            id = id;
            hub_address = [];
            my_address = [];
            from = from;
            from_currency = from_currency;
            from_amount = units from_amount;
            to = to;
            to_currency = to_currency;
            to_amount = units to_amount;
            state = DescrState.tr_new;
            pay_tx_id = 0;
            pay_tx = [];
            rev_tx = [];
          }
          let tx : Row = record { descr = d; txtime = now }
          some (n', (if id == 0 then rows else on_transaction_received now tx rows))

    -- The row of an order that the user accepts: the other half of it, under its own new id.
    unfoldable pub accepted : Bytes → Bytes → Row → Row
    accepted from to r = record r {
      descr = record r.descr {
        from = from;
        to = to;
        state = DescrState.tr_accepting;
        from_currency = r.descr.to_currency;
        to_currency = r.descr.from_currency;
        from_amount = r.descr.to_amount;
        to_amount = r.descr.from_amount;
      };
    }

    send_accepted : Row → Node → Option (Node × Row)
    send_accepted r n = do
      (n', id) ←
          send_xbridge_transaction now sha256 r.descr.from r.descr.from_currency r.descr.from_amount
            r.descr.to r.descr.to_currency r.descr.to_amount n
      some (n', record { descr = record r.descr { id = id }; txtime = now })

    unfoldable pub new_transaction_from_pending :
        ℕ → Bytes → Bytes → Node → List Row → Option (Node × List Row)
    unfolding accepted send_accepted
    new_transaction_from_pending id from to n [] = some (n, [])
    new_transaction_from_pending id from to n (r ∷ rs) =
        let rest =
          map_option (λ x. (x.0, r ∷ x.1)) (new_transaction_from_pending id from to n rs) in
        let here = map_option (λ x. (x.0, x.1 ∷ rs)) (send_accepted (accepted from to r) n) in
        if row_id r == id then here else rest
