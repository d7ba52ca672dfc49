-- ===== src/Session/Upkeep.antt =====
-- What XBridgeSession does to the exchange on a timer and on a cancellation: finishTransaction,
-- sendCancelTransaction, rollbackTransaction, processTransactionCancel, sendListOfTransactions (the
-- exchange's half), eraseExpiredPendingTransactions and checkFinishedTransactions.
pub mod Sound
pub mod Cancel
use xhubv.Prelude.{
  ℕ, List, [], ◌∷◌, Bool, true, false, not, Option, none, some, Bytes, lookup, assign, ℕ-key, leb,
  ◌==◌, if◌then◌else◌, ◌>>=◌,
}
use xhubv.Packet.{
  Packet, XBridgeCommand, size, new_packet, append_bytes, append_uint64, append_uint256,
}
use xhubv.Transaction.{
  State, Transaction, ◌=s◌, state_code, drop, finish, is_expired, is_valid, hash1,
}
use xhubv.Exchange.{
  Exchange, is_enabled, delete_pending_transactions, delete_transaction, finished_transactions,
  pending_transactions,
}
use xhubv.Session.{
  Node, DescrState, send_packet, send_packet_broadcast, uint256_at, currency_field, write_back,
}

-- `xtx->state = s` through the pointer `ptr`.
unfoldable pub set_descr_state : ℕ → DescrState → Node → Node
set_descr_state ptr s n = elim (lookup ptr n.heap) [
  | none ↦ n
  | some d ↦ record n { heap = assign ptr (record d { state = s }) n.heap }
]

-- The client's half: `mine` is the pointer to the trade, if it is one of its own.
unfoldable pub cancel_mine : Packet → Option ℕ → Node → Node × Bool
unfolding set_descr_state
cancel_mine p none n = (n, false)
cancel_mine p (some ptr) n =
    (send_packet_broadcast p (set_descr_state ptr DescrState.tr_cancelled n), true)

unfoldable pub process_transaction_cancel : Packet → Node → Option (Node × Bool)
unfolding cancel_mine
process_transaction_cancel p n = if not (size p == 32) then some (n, false) else do
  id ← uint256_at 0 p
  let n' =
      if is_enabled n.exchange
      then record n { exchange = delete_pending_transactions id n.exchange }
      else n
  some (cancel_mine p (lookup id n'.my_transactions) n')

module _ (now : ℕ) where
  -- A broadcast of a trade's id alone.
  unfoldable pub id_packet : XBridgeCommand → ℕ → Packet
  id_packet c id = append_uint256 id (new_packet c now)

  -- The trade under the key `k`; the result of the source's call is not used.
  unfoldable pub finish_transaction : ℕ → Transaction → Node → Node
  unfolding id_packet
  finish_transaction k t n =
      if not (t.state =s State.tr_confirmed)
      then n
      else write_back k (finish t)
          (send_packet_broadcast (id_packet XBridgeCommand.xbc_transaction_finished t.id) n)

  unfoldable pub send_cancel_transaction : ℕ → Node → Node
  unfolding id_packet
  send_cancel_transaction id n =
      send_packet_broadcast (id_packet XBridgeCommand.xbc_transaction_cancel id) n

  rollback_packet : Bytes → ℕ → Packet
  rollback_packet to id =
      append_uint256 id (append_bytes to (new_packet XBridgeCommand.xbc_transaction_rollback now))

  -- The recipients of the rollback: both clients, once the revert transactions are signed.
  unfoldable pub send_rollbacks : Transaction → Node → Node
  unfolding rollback_packet
  send_rollbacks t n =
      if leb (state_code State.tr_signed) (state_code t.state)
      then send_packet t.second.source (rollback_packet t.second.source t.id)
          (send_packet t.first.source (rollback_packet t.first.source t.id) n)
      else n

  unfoldable pub rollback_transaction : ℕ → Transaction → Node → Node
  unfolding send_rollbacks send_cancel_transaction
  rollback_transaction k t n =
      write_back k (finish t) (send_cancel_transaction t.id (send_rollbacks t n))

  -- The body of checkFinishedTransactions' loop, for the trade `t` under the key `k`.
  unfoldable pub check_finished : ℕ → Transaction → Node → Node
  unfolding finish_transaction rollback_transaction
  check_finished k t n =
      let deleted = record n { exchange = delete_transaction t.id n.exchange } in
      if t.state =s State.tr_confirmed
      then finish_transaction k t n
      else if t.state =s State.tr_cancelled
      then write_back k (drop t) n
      else if t.state =s State.tr_finished
      then deleted
      else if t.state =s State.tr_dropped
      then deleted
      else if not (is_valid t)
      then deleted
      else rollback_transaction k t n

  unfoldable pub check_each : List (ℕ × Transaction) → Node → Node
  unfolding check_finished
  check_each [] n = n
  check_each ((k, t) ∷ l) n = check_each l (check_finished k t n)

  unfoldable pub check_finished_transactions : Node → Node
  unfolding check_each
  check_finished_transactions n =
      if not (is_enabled n.exchange) then n else check_each (finished_transactions now n.exchange) n

  unfoldable pub pending_packet : Transaction → Option Packet
  pending_packet t = do
    fc ← currency_field t.source_currency
    tc ← currency_field t.dest_currency
    some (
        append_uint64 t.dest_amount (
          append_bytes tc (
            append_uint64 t.source_amount (
              append_bytes fc
                (append_uint256 t.id (new_packet XBridgeCommand.xbc_pending_transaction now))))))

  send_each : List (ℕ × Transaction) → Node → Option Node
  unfolding pending_packet
  send_each [] n = some n
  send_each ((k, t) ∷ l) n = do p ← pending_packet t; send_each l (send_packet [] p n)

  -- The second half of sendListOfTransactions: the exchange's orders, each in a broadcast.
  unfoldable pub send_exchange_orders : Node → Option Node
  unfolding send_each
  send_exchange_orders n =
      if not (is_enabled n.exchange) then some n else send_each (pending_transactions n.exchange) n

module _ (sha256 : Bytes → Bytes) (now : ℕ) where
  unfoldable pub erase_expired : List (ℕ × Transaction) → Exchange → Exchange
  erase_expired [] e = e
  erase_expired ((k, t) ∷ l) e =
      erase_expired l
        (if is_expired now t then delete_pending_transactions (hash1 sha256 t) e else e)

  unfoldable pub erase_expired_pending_transactions : Node → Node
  unfolding erase_expired
  erase_expired_pending_transactions n =
      if not (is_enabled n.exchange)
      then n
      else record n { exchange = erase_expired (pending_transactions n.exchange) n.exchange }
