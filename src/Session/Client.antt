-- ===== src/Session/Client.antt =====
-- The handlers of XBridgeSession that a client runs without its wallet: processTransactionHold, Init,
-- Confirm, Finished, Dropped and PendingTransaction. What a wallet is needed for is in Wallet.
pub mod Answers
pub mod Heard
pub mod Hold
pub mod Bounds
pub mod Payments
pub mod Carried
pub mod Round
pub mod Sound
pub mod Protocol
pub mod Finish
use xhubv.Prelude.{
  ℕ, suc, [], Bool, true, false, not, Option, none, some, Bytes, lookup, erase, insert, assign,
  ℕ-key, ltb, ◌==◌, if◌then◌else◌, ◌>>=◌,
}
use xhubv.Packet.{
  Packet, XBridgeCommand, size, data_at, text_at, new_packet, append_bytes, append_uint256,
}
use xhubv.Session.{Node, Descr, DescrState, send_packet_broadcast, uint256_at, uint64_at}
use xhubv.Session.Upkeep.{set_descr_state}

-- A client's answer: the hub, the client, the trade.
unfoldable pub answer : ℕ → XBridgeCommand → Bytes → Bytes → ℕ → Packet
answer now c hub me id = append_uint256 id (append_bytes me (append_bytes hub (new_packet c now)))

-- The descriptor of processTransactionInit, which has no id of a client.
abbrev foreign_descr : Bytes → Bytes → ℕ → Bytes → Bytes → ℕ → Descr
foreign_descr from from_currency from_amount to to_currency to_amount = record {
  id = 0;
  hub_address = [];
  my_address = [];
  from = from;
  from_currency = from_currency;
  from_amount = from_amount;
  to = to;
  to_currency = to_currency;
  to_amount = to_amount;
  state = DescrState.tr_new;
  pay_tx_id = 0;
  pay_tx = [];
  rev_tx = [];
}

module _ (now : ℕ) where
  -- The order under `id` becomes the trade `newid`.
  unfoldable pub hold_mine : Bytes → Bytes → ℕ → ℕ → ℕ → Node → Node
  unfolding answer set_descr_state
  hold_mine hub me id newid ptr n =
      let moved = record n {
        my_pending = erase id n.my_pending;
        my_transactions = insert newid ptr n.my_transactions;
      } in
      send_packet_broadcast (answer now XBridgeCommand.xbc_transaction_hold_apply hub me newid)
        (set_descr_state ptr DescrState.tr_hold moved)

  unfoldable pub process_transaction_hold : Packet → Node → Option (Node × Bool)
  unfolding hold_mine
  process_transaction_hold p n = if not (size p == 104) then some (n, false) else do
    me ← data_at 0 20 p
    hub ← data_at 20 20 p
    id ← uint256_at 40 p
    newid ← uint256_at 72 p
    some (elim (lookup id n.my_pending) [
      | none ↦ (n, false)
      | some ptr ↦ (hold_mine hub me id newid ptr n, true)
    ])

  unfoldable pub process_transaction_init : Packet → Node → Option (Node × Bool)
  unfolding answer
  process_transaction_init p n = if not (size p == 144) then some (n, false) else do
    me ← data_at 0 20 p
    hub ← data_at 20 20 p
    id ← uint256_at 40 p
    from ← data_at 72 20 p
    from_currency ← text_at 92 p
    from_amount ← uint64_at 100 p
    to ← data_at 108 20 p
    to_currency ← text_at 128 p
    to_amount ← uint64_at 136 p
    let d = foreign_descr from from_currency from_amount to to_currency to_amount
    let n' = record n {
      heap = insert n.next d n.heap;
      next = suc n.next;
      my_transactions = insert id n.next n.my_transactions;
    }
    some (
      send_packet_broadcast (answer now XBridgeCommand.xbc_transaction_initialized hub me id) n',
      true,
    )

-- The payment to wait for, of the trade behind the pointer.
unfoldable pub confirm_mine : ℕ → Bytes → Bytes → ℕ → ℕ → Node → Option (Node × Bool)
confirm_mine id hub me h ptr n = do
  d ← lookup ptr n.heap
  let d' = record d { pay_tx_id = h; hub_address = hub; my_address = me }
  some (
    record n { heap = assign ptr d' n.heap; my_unconfirmed = insert id ptr n.my_unconfirmed },
    true,
  )

-- The size is checked for what stands before the hash.
unfoldable pub process_transaction_confirm : Packet → Node → Option (Node × Bool)
unfolding confirm_mine
process_transaction_confirm p n = if ltb (size p) 72 then some (n, false) else do
  me ← data_at 0 20 p
  hub ← data_at 20 20 p
  id ← uint256_at 40 p
  h ← uint256_at 72 p
  elim (lookup id n.my_transactions) [
    | none ↦ some (n, false)
    | some ptr ↦ confirm_mine id hub me h ptr n
  ]

-- A trade of the client's own goes to the state `s`.
unfoldable pub mark_mine : DescrState → Packet → Node → Option (Node × Bool)
unfolding set_descr_state
mark_mine s p n = if not (size p == 32) then some (n, false) else do
  id ← uint256_at 0 p
  some (elim (lookup id n.my_transactions) [
    | none ↦ (n, false)
    | some ptr ↦ (set_descr_state ptr s n, true)
  ])

unfoldable pub process_transaction_finished : Packet → Node → Option (Node × Bool)
unfolding mark_mine
process_transaction_finished p n = mark_mine DescrState.tr_finished p n

unfoldable pub process_transaction_dropped : Packet → Node → Option (Node × Bool)
unfolding mark_mine
process_transaction_dropped p n = mark_mine DescrState.tr_dropped p n

-- What is read is shown, and kept nowhere.
unfoldable pub process_pending_transaction : Packet → Node → Option (Node × Bool)
process_pending_transaction p n = if not (size p == 64) then some (n, false) else do
  id ← uint256_at 0 p
  from_currency ← text_at 32 p
  from_amount ← uint64_at 40 p
  to_currency ← text_at 48 p
  to_amount ← uint64_at 56 p
  some (n, true)
