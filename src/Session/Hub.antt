-- ===== src/Session/Hub.antt =====
-- The handlers of XBridgeSession by which the hub joins two orders and starts the trade:
-- processTransaction, processTransactionHoldApply, processTransactionInitialized.
pub mod Sound
use xhubv.Prelude.{
  ℕ, ◌*◌, Bool, true, false, not, ◌&&◌, Option, some, Bytes, ◌==◌, if◌then◌else◌, ◌>>=◌,
}
use xhubv.Packet.{
  Packet, XBridgeCommand, size, data_at, text_at, new_packet, append_bytes, append_uint32,
  append_uint64, append_uint256,
}
use xhubv.Transaction.{State, Transaction, ◌=s◌, ttl, update_timestamp}
use xhubv.Exchange.{
  Order, is_enabled, have_connected_wallet, create_transaction, transaction,
  update_when_hold_apply_received, update_when_initialized_received,
}
use xhubv.Session.{
  to_client, for_exchange, write_back, Node, send_packet, send_packet_broadcast, uint256_at,
  uint64_at, currency_field,
}

-- The order that an xbcTransaction packet carries.
unfoldable pub read_order : Packet → Option Order
unfolding uint256_at uint64_at
read_order p = do
  saddr ← data_at 32 20 p
  scurrency ← text_at 52 p
  samount ← uint64_at 60 p
  daddr ← data_at 68 20 p
  dcurrency ← text_at 88 p
  damount ← uint64_at 96 p
  id ← uint256_at 0 p
  some (record {
    id = id;
    source_addr = saddr;
    source_currency = scurrency;
    source_amount = samount;
    dest_addr = daddr;
    dest_currency = dcurrency;
    dest_amount = damount;
  })

module _ (my_id : Bytes) (now : ℕ) where
  unfoldable pub hold_packet : Bytes → ℕ → ℕ → Packet
  hold_packet addr client_id id = append_uint256 id (
      append_uint256 client_id (
        append_bytes my_id
          (append_bytes addr (new_packet XBridgeCommand.xbc_transaction_hold now))))

  send_holds : Transaction → ℕ → Node → Node
  unfolding hold_packet
  send_holds t id n =
      send_packet t.second.source (hold_packet t.second.source t.second.id id)
        (send_packet t.first.source (hold_packet t.first.source t.first.id id) n)

  -- What the exchange does with an order that has a wallet for each currency.
  place_order : (Bytes → Bytes) → Order → Node → Node
  unfolding send_holds
  place_order sha256 o n =
      let (e, id, done) = create_transaction sha256 now o n.exchange in
      let n' = record n { exchange = e } in
      let t = transaction id e in
      if done && (t.state =s State.tr_joined) then send_holds t id n' else n'

  unfoldable pub process_transaction : (Bytes → Bytes) → Packet → Node → Option (Node × Bool)
  unfolding read_order place_order
  process_transaction sha256 p n = if not (size p == 104) then some (n, false) else do
    o ← read_order p
    let e = n.exchange
    let n' =
        if is_enabled e
          && (have_connected_wallet o.source_currency e && have_connected_wallet o.dest_currency e)
        then place_order sha256 o n
        else n
    some (send_packet_broadcast p n', true)

  init_packet : ℕ → Bytes → Bytes → ℕ → Bytes → Bytes → ℕ → Packet
  unfolding to_client
  init_packet id from from_currency from_amount to to_currency to_amount = append_uint64 to_amount (
      append_bytes to_currency (
        append_bytes to (
          append_uint64 from_amount (
            append_bytes from_currency (
              append_bytes from (to_client my_id now XBridgeCommand.xbc_transaction_init to id))))))

  unfoldable pub send_inits : Transaction → ℕ → Node → Option Node
  unfolding init_packet
  send_inits t id n = do
    fc ← currency_field t.source_currency
    sc ← currency_field t.dest_currency
    some (
        send_packet t.second.dest
          (init_packet id t.second.source sc t.dest_amount t.second.dest fc t.source_amount)
          (send_packet t.first.dest
            (init_packet id t.first.source fc t.source_amount t.first.dest sc t.dest_amount) n))

  unfoldable pub hold_applied : Packet → Node → Option (Node × Bool)
  unfolding send_inits write_back
  hold_applied p n = do
    from ← data_at 20 20 p
    id ← uint256_at 40 p
    let t = update_timestamp now (transaction id n.exchange)
    let (u, done) = update_when_hold_apply_received from t
    let n' = write_back id u n
    m ← if done && (u.state =s State.tr_hold) then send_inits u id n' else some n'
    some (m, true)

  unfoldable pub process_transaction_hold_apply : Packet → Node → Option (Node × Bool)
  unfolding for_exchange hold_applied
  process_transaction_hold_apply p n =
      if not (size p == 72) then some (n, false) else for_exchange my_id p n (hold_applied p)

  unfoldable pub create_packet : Bytes → ℕ → Bytes → ℕ → ℕ → Packet
  unfolding to_client
  create_packet addr id dest lock1 lock2 = append_uint32 lock2 (
      append_uint32 lock1
        (append_bytes dest (to_client my_id now XBridgeCommand.xbc_transaction_create addr id)))

  unfoldable pub send_creates : Transaction → ℕ → Node → Node
  unfolding create_packet
  send_creates t id n =
      send_packet t.second.source
        (create_packet t.second.source id t.first.dest (ttl * 4) (48 * 60 * 60))
        (send_packet t.first.source
          (create_packet t.first.source id t.second.dest (ttl * 2) (24 * 60 * 60)) n)

  unfoldable pub initialized : Packet → Node → Option (Node × Bool)
  unfolding send_creates write_back
  initialized p n = do
    from ← data_at 20 20 p
    id ← uint256_at 40 p
    let t = update_timestamp now (transaction id n.exchange)
    let (u, done) = update_when_initialized_received from t
    let n' = write_back id u n
    some (if done && (u.state =s State.tr_initialized) then send_creates u id n' else n', true)

  unfoldable pub process_transaction_initialized : Packet → Node → Option (Node × Bool)
  unfolding for_exchange initialized
  process_transaction_initialized p n =
      if not (size p == 72) then some (n, false) else for_exchange my_id p n (initialized p)
