-- ===== src/App.antt =====
-- XBridgeApp (src/xbridgeapp.cpp): how a client places and cancels an order. The queue of onSend and the tables of
-- the client's trades are those of a node.
pub mod RoundTrip
pub mod Sound
pub mod Sessions
pub mod Dispatch
pub mod Loop
pub mod History
use xhubv.Prelude.{
  ℕ, suc, List, [], ◌∷◌, erase, ◌++◌, Bool, true, false, ◌||◌, Option, none, some, Bytes, le_bytes,
  length, ltb, lookup, insert, ℕ-key, if◌then◌else◌, ◌>>=◌,
}
use xhubv.Hash.{hash}
use xhubv.Packet.{Packet, XBridgeCommand, new_packet, append_bytes, append_uint64, append_uint256}
use xhubv.Session.{Node, Descr, DescrState, send_packet, currency_field}
use xhubv.Session.Upkeep.{set_descr_state, send_exchange_orders, id_packet}

module _ (now : ℕ) where
  -- The packet of sendPendingTransaction; `none` where a currency is longer than its field.
  unfoldable pub order_packet : Descr → Option Packet
  order_packet d = do
    fc ← currency_field d.from_currency
    tc ← currency_field d.to_currency
    some (
        append_uint64 d.to_amount (
          append_bytes tc (
            append_bytes d.to (
              append_uint64 d.from_amount (
                append_bytes fc (
                  append_bytes d.from
                    (append_uint256 d.id (new_packet XBridgeCommand.xbc_transaction now))))))))

  -- sendPendingTransaction of the object behind the pointer `ptr`.
  unfoldable pub send_pending_transaction : ℕ → Node → Option Node
  unfolding order_packet
  send_pending_transaction ptr n = elim (lookup ptr n.heap) [
    | none ↦ none
    | some d ↦ do
      p ← order_packet d
      some (set_descr_state ptr DescrState.tr_pending (send_packet [] p n))
  ]

  -- sendXBridgeTransaction: the id of the new order, 0 if a currency is too long.
  unfoldable pub send_xbridge_transaction :
      (Bytes → Bytes) → Bytes → Bytes → ℕ → Bytes → Bytes → ℕ → Node → Option (Node × ℕ)
  unfolding send_pending_transaction
  send_xbridge_transaction sha256 from from_currency from_amount to to_currency to_amount n =
      let id = hash sha256 (
        from
        ++ (from_currency
            ++ (le_bytes 8 from_amount
                ++ (to ++ (to_currency ++ (le_bytes 8 to_amount ++ le_bytes 4 now)))))) in
      let d : Descr = record {
        id = id;
        hub_address = [];
        my_address = [];
        from = from;
        from_currency = from_currency;
        from_amount = from_amount;
        to = to;
        to_currency = to_currency;
        to_amount = to_amount;
        state = DescrState.tr_new;
        pay_tx_id = 0;
        pay_tx = [];
        rev_tx = [];
      } in
      let n' = record n {
        heap = insert n.next d n.heap;
        next = suc n.next;
        my_pending = insert id n.next n.my_pending;
      } in
      if ltb 8 (length from_currency) || ltb 8 (length to_currency)
      then some (n, 0)
      else do m ← send_pending_transaction n.next n'; some (m, id)

  -- The loop of sendListOfTransactions over the client's own orders.
  unfoldable pub send_mine : List (ℕ × ℕ) → Node → Option Node
  unfolding send_pending_transaction
  send_mine [] n = some n
  send_mine ((id, ptr) ∷ m) n = do n' ← send_pending_transaction ptr n; send_mine m n'

  -- XBridgeSession::sendListOfTransactions
  unfoldable pub send_list_of_transactions : Node → Option Node
  unfolding send_mine
  send_list_of_transactions n = do n' ← send_mine n.my_pending n; send_exchange_orders now n'

  -- cancelXBridgeTransaction, with XBridgeApp::sendCancelTransaction
  unfoldable pub cancel_xbridge_transaction : ℕ → Node → Node × Bool
  unfolding set_descr_state
  cancel_xbridge_transaction id n =
      let erased = record n { my_pending = erase id n.my_pending } in
      let marked : Node = elim (lookup id n.my_transactions) [
        | none ↦ erased
        | some ptr ↦ set_descr_state ptr DescrState.tr_cancelled erased
      ] in
      (send_packet [] (id_packet now XBridgeCommand.xbc_transaction_cancel id) marked, true)
