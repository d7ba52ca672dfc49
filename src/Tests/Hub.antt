-- ===== src/Tests/Hub.antt =====
-- The theorems on the hub's handlers and timer, applied to the node of the tests.
use xhubv.Prelude.{
  ℕ, ◌≡◌, ◌≢◌, refl, arith, List, [], ◌∷◌, true, false, none, some, lookup, ℕ-key, Bytes-key,
  bytes_eq, le_bytes, le_value, slice, insert, place, erase, bytes_lt, if◌then◌else◌,
}
use xhubv.Hash.{hash}
use xhubv.Packet.{
  Packet, XBridgeCommand, new_packet, append_bytes, append_uint256, field32, set_field32,
}
use xhubv.Packet.Append.{IsFramed}
use xhubv.Transaction.{set_tx_hash, new_transaction, hash1, is_expired}
use xhubv.Exchange.{
  create_transaction, is_enabled, is_over, order_transaction, new_exchange, init, read_wallets,
}
use xhubv.Exchange.Invariant.{IsSound}
use xhubv.Session.{uint256_at}
use xhubv.Session.Hub.{process_transaction_initialized}
use xhubv.Session.Settle.{
  process_transaction_commited, process_transaction_confirmed, process_bitcoin_transaction_hash,
  send_confirms, confirm_packet,
}
use xhubv.Session.Upkeep.{
  process_transaction_cancel, check_finished_transactions, erase_expired_pending_transactions,
}
use xhubv.Session.Updates.{Yields}
use xhubv.Session.History.{Event}
use xhubv.Session.Sweep.{then_swept, lookup-check_finished_transactions}
use xhubv.Session.Expiry.{lookup-erase_expired_pending}
use xhubv.Session.Total.{Returns, fixed_size-Returns}
use xhubv.Session.Settle.Crossing.{send_confirms_own_hash}
use xhubv.Session.Upkeep.Cancel.{IsCancel, cancel_needs_hash}
use xhubv.Tests.Orders.{nobody}
use xhubv.Tests.{
  test_sha, my_id, alice_pays, alice_order, bob_order, order_body, answer, open_exchange, one_order,
  one_trade, alice_key, trade, trade_id, node, sources_differ, bob_pays, alice_gets, bob_gets,
}

-- Two orders, an answer, a packet for a client of this node, and a turn of the timer.
abbrev events : List (ℕ × Event)
events =
    (100, Event.transaction (order_body alice_order))
    ∷ (120, Event.transaction (order_body bob_order))
    ∷ (121, Event.hold_apply (answer XBridgeCommand.xbc_transaction_hold_apply alice_pays trade_id))
    ∷ (122, Event.hold (answer XBridgeCommand.xbc_transaction_hold alice_pays trade_id))
    ∷ (500, Event.check_finished)
    ∷ []

is_on : is_enabled open_exchange ≡ true
unfolding is_enabled init new_exchange read_wallets insert lookup bytes_eq place erase bytes_lt
is_on = refl

is_on_trade : is_enabled one_trade ≡ true
unfolding init new_exchange is_enabled
is_on_trade = is_on

is_on_order : is_enabled one_order ≡ true
unfolding init new_exchange is_enabled
is_on_order = is_on

one_trade-IsSound : IsSound test_sha one_trade
unfolding new_transaction init new_exchange lookup
one_trade-IsSound = record {
  orders = tt;
  trades = (record { keyed = refl; started = refl; apart = refl }, tt);
  orders_map = tt;
  trades_map = (refl, tt);
}

one_order-IsSound : IsSound test_sha one_order
unfolding new_transaction init new_exchange lookup
one_order-IsSound = record {
  orders = (record { hashed = refl; waiting = refl; first_flag = refl; second_flag = refl }, tt);
  trades = tt;
  orders_map = (refl, tt);
  trades_map = tt;
}

lookup-check_finished_transactions_example :
    lookup trade_id (check_finished_transactions 500 (node one_trade)).exchange.transactions
    ≡ then_swept 500 (lookup trade_id one_trade.transactions)
lookup-check_finished_transactions_example =
    lookup-check_finished_transactions test_sha 500 trade_id (node one_trade) is_on_trade
      one_trade-IsSound

stands : lookup trade_id one_trade.transactions ≡ some trade
unfolding lookup
stands = refl

late : is_over 500 trade ≡ true
unfolding is_over is_expired new_transaction
late = refl

lookup-erase_expired_pending_example :
    lookup alice_key
      (erase_expired_pending_transactions test_sha 500 (node one_order)).exchange.pending
    ≡ elim (lookup alice_key one_order.pending) [
      | none ↦ none
      | some t ↦ if is_expired 500 t then none else some t
    ]
lookup-erase_expired_pending_example =
    lookup-erase_expired_pending test_sha 500 alice_key (node one_order) is_on_order
      one_order-IsSound

abbrev commited_by_alice : Packet
commited_by_alice =
    append_uint256 9 (answer XBridgeCommand.xbc_transaction_commited alice_pays trade_id)

commited-IsFramed : IsFramed commited_by_alice
unfolding new_packet append_bytes append_uint256 le_bytes field32 set_field32 le_value
commited-IsFramed = record { headed = omega arith; sized = refl }

fixed_size-Returns_example :
    Returns (process_transaction_initialized my_id 130 commited_by_alice (node one_trade))
    × Returns (process_transaction_commited my_id 130 commited_by_alice (node one_trade))
    × Returns (process_transaction_confirmed my_id 130 commited_by_alice (node one_trade))
    × Returns (process_bitcoin_transaction_hash commited_by_alice (node one_trade))
    × Returns (process_transaction_cancel commited_by_alice (node one_trade))
fixed_size-Returns_example =
    fixed_size-Returns commited_by_alice commited-IsFramed my_id 130 (node one_trade)

send_confirms_own_hash_example :
    (send_confirms my_id 130
      (set_tx_hash bob_pays 22 (set_tx_hash alice_pays 21 trade).0).0
      trade_id
      (node one_trade)).messages
    ≡ record {
      to = alice_gets;
      body = (confirm_packet my_id 130 alice_gets trade_id 21).body;
      searched = false;
    }
      ∷ record {
        to = bob_gets;
        body = (confirm_packet my_id 130 bob_gets trade_id 22).body;
        searched = false;
      }
      ∷ []
unfolding new_transaction
send_confirms_own_hash_example =
    send_confirms_own_hash my_id 130 trade trade_id (node one_trade) 21 22 sources_differ

-- Alice cancels her order by the id that she gave it.
-- Two cancellations of Alice's order, by her id and by its hash.
abbrev cancel_by_id : Packet
cancel_by_id = append_uint256 11 (new_packet XBridgeCommand.xbc_transaction_cancel 130)

abbrev cancel_by_hash : Packet
cancel_by_hash = append_uint256 alice_key (new_packet XBridgeCommand.xbc_transaction_cancel 130)

reads_id : IsCancel 11 cancel_by_id
unfolding uint256_at new_packet append_bytes append_uint256 le_bytes set_field32 slice le_value
    field32
reads_id = record { sized = refl; read = refl }

reads_hash : IsCancel alice_key cancel_by_hash
unfolding uint256_at new_packet append_bytes append_uint256 le_bytes set_field32 slice le_value
    hash1 hash new_transaction field32
reads_hash = record { sized = refl; read = refl }

other_key : 11 ≢ alice_key
unfolding hash1 hash le_bytes le_value new_transaction
other_key = omega arith

cancel_needs_hash_example :
    let placed = record (node open_exchange) {
      exchange = (create_transaction test_sha 100 alice_order open_exchange).0;
    } in
    Yields
      (λ r. lookup alice_key r.0.exchange.pending ≡ some (order_transaction 100 alice_order))
      (process_transaction_cancel cancel_by_id placed)
    × Yields
        (λ r. lookup alice_key r.0.exchange.pending ≡ none)
        (process_transaction_cancel cancel_by_hash placed)
cancel_needs_hash_example =
    cancel_needs_hash test_sha 100 alice_order (node open_exchange) cancel_by_id cancel_by_hash
      is_on nobody reads_id reads_hash other_key
