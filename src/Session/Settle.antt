-- ===== src/Session/Settle.antt =====
-- The handlers of XBridgeSession by which the hub takes a trade to its end: processTransactionCreated,
-- processTransactionSigned, processTransactionCommited, processTransactionConfirmed and
-- processBitcoinTransactionHash.
pub mod Sound
pub mod Crossing
use xhubv.Prelude.{
  ℕ, ◌+◌, Bool, true, false, not, ◌&&◌, Option, some, Bytes, length, ltb, ◌==◌, if◌then◌else◌,
  ◌>>=◌,
}
use xhubv.Packet.{
  Packet, XBridgeCommand, size, data_at, text_at, new_packet, append_uint256, append_string,
}
use xhubv.Transaction.{State, Transaction, ◌=s◌, update_timestamp}
use xhubv.Exchange.{
  is_enabled, transaction, update_when_created_received, update_when_signed_received,
  update_when_commited_received, update_when_confirmed_received, update_transaction,
}
use xhubv.Session.{
  to_client, for_exchange, write_back, Node, send_packet, send_packet_broadcast, uint256_at,
  relay_packet,
}

module _ (my_id : Bytes) (now : ℕ) where
  unfoldable pub sign_packet : Bytes → ℕ → Bytes → Bytes → Packet
  unfolding to_client
  sign_packet addr id pay rev =
      append_string rev
        (append_string pay (to_client my_id now XBridgeCommand.xbc_transaction_sign addr id))

  unfoldable pub send_signs : Transaction → ℕ → Node → Node
  unfolding sign_packet
  send_signs t id n =
      send_packet t.second.dest (sign_packet t.second.dest id t.raw_pay_tx1 t.raw_rev_tx1)
        (send_packet t.first.dest (sign_packet t.first.dest id t.raw_pay_tx2 t.raw_rev_tx2) n)

  unfoldable pub created : Packet → Node → Option (Node × Bool)
  unfolding send_signs write_back
  created p n = do
    from ← data_at 20 20 p
    id ← uint256_at 40 p
    pay ← text_at 72 p
    rev ← text_at (72 + length pay + 1) p
    let t = update_timestamp now (transaction id n.exchange)
    let (u, done) = update_when_created_received from pay rev t
    let n' = write_back id u n
    some (if done && (u.state =s State.tr_created) then send_signs u id n' else n', true)

  unfoldable pub process_transaction_created : Packet → Node → Option (Node × Bool)
  unfolding for_exchange created
  process_transaction_created p n =
      if ltb (size p) 72 then some (n, false) else for_exchange my_id p n (created p)

  commit_packet : Bytes → ℕ → Bytes → Packet
  unfolding to_client
  commit_packet addr id rev =
      append_string rev (to_client my_id now XBridgeCommand.xbc_transaction_commit addr id)

  unfoldable pub send_commits : Transaction → ℕ → Node → Node
  unfolding commit_packet
  send_commits t id n =
      send_packet t.second.source (commit_packet t.second.source id t.raw_rev_tx2)
        (send_packet t.first.source (commit_packet t.first.source id t.raw_rev_tx1) n)

  unfoldable pub signed : Packet → Node → Option (Node × Bool)
  unfolding send_commits write_back
  signed p n = do
    from ← data_at 20 20 p
    id ← uint256_at 40 p
    rev ← text_at 72 p
    let t = update_timestamp now (transaction id n.exchange)
    let (u, done) = update_when_signed_received from rev t
    let n' = write_back id u n
    some (if done && (u.state =s State.tr_signed) then send_commits u id n' else n', true)

  unfoldable pub process_transaction_signed : Packet → Node → Option (Node × Bool)
  unfolding for_exchange signed
  process_transaction_signed p n =
      if ltb (size p) 72 then some (n, false) else for_exchange my_id p n (signed p)

  unfoldable pub confirm_packet : Bytes → ℕ → ℕ → Packet
  unfolding to_client
  confirm_packet addr id h =
      append_uint256 h (to_client my_id now XBridgeCommand.xbc_transaction_confirm addr id)

  unfoldable pub send_confirms : Transaction → ℕ → Node → Node
  unfolding confirm_packet
  send_confirms t id n =
      send_packet t.second.dest (confirm_packet t.second.dest id t.tx_hash1)
        (send_packet t.first.dest (confirm_packet t.first.dest id t.tx_hash2) n)

  unfoldable pub commited : Packet → Node → Option (Node × Bool)
  unfolding send_confirms write_back
  commited p n = do
    from ← data_at 20 20 p
    id ← uint256_at 40 p
    h ← uint256_at 72 p
    let t = update_timestamp now (transaction id n.exchange)
    let (e, u, done) = update_when_commited_received from h t n.exchange
    let n' = write_back id u (record n { exchange = e })
    some (if done && (u.state =s State.tr_commited) then send_confirms u id n' else n', true)

  unfoldable pub process_transaction_commited : Packet → Node → Option (Node × Bool)
  unfolding for_exchange commited
  process_transaction_commited p n =
      if not (size p == 104) then some (n, false) else for_exchange my_id p n (commited p)

  unfoldable pub finished_packet : ℕ → Packet
  finished_packet id = append_uint256 id (new_packet XBridgeCommand.xbc_transaction_finished now)

  unfoldable pub confirmed : Packet → Node → Option (Node × Bool)
  unfolding finished_packet write_back
  confirmed p n = do
    from ← data_at 20 20 p
    id ← uint256_at 40 p
    let t = update_timestamp now (transaction id n.exchange)
    let (u, done) = update_when_confirmed_received from t
    let n' = write_back id u n
    let last = send_packet_broadcast (finished_packet id) n'
    some (if done && (u.state =s State.tr_finished) then last else n', true)

  -- The one handler of this list that does not ask whether the node is an exchange.
  unfoldable pub process_transaction_confirmed : Packet → Node → Option (Node × Bool)
  unfolding confirmed
  process_transaction_confirmed p n = if not (size p == 72) then some (n, false) else do
    (n', relayed) ← relay_packet my_id p n
    if relayed then some (n', true) else confirmed p n'

-- A wallet reports the hash of a transaction that it has received.
unfoldable pub process_bitcoin_transaction_hash : Packet → Node → Option (Node × Bool)
process_bitcoin_transaction_hash p n =
    if not (size p == 32)
    then some (n, false)
    else if not (is_enabled n.exchange)
    then some (n, true)
    else do h ← uint256_at 0 p; some (record n { exchange = update_transaction h n.exchange }, true)
