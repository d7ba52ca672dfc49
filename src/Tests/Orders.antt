-- ===== src/Tests/Orders.antt =====
-- The theorems on orders and on their packets, applied to Alice's and Bob's.
use xhubv.Prelude.{
  ℕ, ◌≡◌, refl, arith, [], true, some, lookup, insert, erase, ℕ-key, le_bytes, le_value,
}
use xhubv.Hash.{hash}
use xhubv.Packet.{Packet}
use xhubv.Transaction.{Transaction, new_transaction, hash1, is_expired}
use xhubv.Transaction.Join.{Matches, joined}
use xhubv.Exchange.{order_transaction, create_transaction, new_exchange, init}
use xhubv.Exchange.Invariant.{IsSound}
use xhubv.Exchange.Matching.{IsPartner, create_transaction-joins, create_transaction-waits}
use xhubv.Session.{Descr, DescrState}
use xhubv.Tests.{
  test_sha, alice_order, bob_order, open_exchange, one_order, alice_key, alice_pays, alice_gets,
  btc, ltc,
}

abbrev alice : Transaction
alice = order_transaction 100 alice_order

abbrev bob : Transaction
bob = order_transaction 120 bob_order

alice-Matches : Matches alice bob
unfolding new_transaction
alice-Matches = record {
  open_first = refl;
  open_second = refl;
  offered = refl;
  wanted = refl;
  offered_amount = refl;
  wanted_amount = refl;
}

one_order-IsSound : IsSound test_sha one_order
unfolding new_transaction init new_exchange lookup
one_order-IsSound = record {
  orders = (record { hashed = refl; waiting = refl; first_flag = refl; second_flag = refl }, tt);
  trades = tt;
  orders_map = (refl, tt);
  trades_map = tt;
}

alice-IsPartner : IsPartner 120 bob_order alice_key alice one_order
unfolding lookup is_expired new_transaction hash1 hash le_value le_bytes
alice-IsPartner = record { stands = refl; in_time = refl; fits = alice-Matches }

pub nobody : (h : ℕ) (old : Transaction) → ¬ IsPartner 100 alice_order h old open_exchange
unfolding lookup init new_exchange
nobody h old p = ground (arith, p.stands)

-- Alice's order comes first.
create_transaction-waits_example :
    let r = create_transaction test_sha 100 alice_order open_exchange in
    (r.1 ≡ 0)
    × (r.2 ≡ true)
    × (r.0.transactions ≡ open_exchange.transactions)
    × (lookup (hash1 test_sha (order_transaction 100 alice_order)) r.0.pending
        ≡ some (order_transaction 100 alice_order))
create_transaction-waits_example =
    create_transaction-waits test_sha 100 alice_order open_exchange nobody

-- Bob's order meets Alice's, which was the only one.
create_transaction-joins_example : create_transaction test_sha 120 bob_order one_order ≡ (
  record one_order {
    transactions =
        insert (joined test_sha alice bob).id (joined test_sha alice bob) one_order.transactions;
    pending = erase alice_key one_order.pending;
  },
  (joined test_sha alice bob).id,
  true,
)
create_transaction-joins_example =
    create_transaction-joins test_sha 120 bob_order alice_key alice one_order one_order-IsSound
      alice-IsPartner

-- The description from which Alice's client makes her order.
abbrev alice_descr : Descr
alice_descr = record {
  id = 11;
  hub_address = [];
  my_address = [];
  from = alice_pays;
  from_currency = btc;
  from_amount = 5;
  to = alice_gets;
  to_currency = ltc;
  to_amount = 700;
  state = DescrState.tr_new;
  pay_tx_id = 0;
  pay_tx = [];
  rev_tx = [];
}
