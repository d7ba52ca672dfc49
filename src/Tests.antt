-- ===== src/Tests.antt =====
-- Two clients, their orders and a hub, on which the tests run and to which the theorems are applied.
mod Orders
mod Trades
mod Hub
mod Packets
mod Client
mod Reports
mod Answers
mod Payment
mod Program
mod Window
mod Finish
mod Calls
mod Sockets
use xhubv.Prelude.{
  ℕ, ◌+◌, ◌/◌, ◌%◌, ◌*◌, ◌^◌, ◌≡◌, refl, arith, List, [], ◌∷◌, ◌++◌, Bool, true, false, Option,
  none, some, Bytes, le_bytes, le_value, replicate, bytes_eq, bytes_eq_iff, ◌≢◌, insert, lookup,
  ℕ-key,
}
use xhubv.Hash.{hash}
use xhubv.Packet.{Packet, XBridgeCommand, new_packet, append_bytes, append_uint64, append_uint256}
use xhubv.Transaction.{State, Transaction, hash1, hash2, new_transaction, invalid_transaction}
use xhubv.Exchange.{
  Exchange, Order, WalletParam, new_exchange, init, read_wallets, order_transaction,
}
use xhubv.Session.{Node}
use xhubv.Session.Wallet.{Rpc}
use xhubv.Session.Payment.{Doubles, Codec, Bitcoin, Unspent, Wallet}
use xhubv.Session.Client.Answers.{IsAnswer}

-- In place of SHA256: the first 32 bytes.
abbrev pub test_sha : Bytes → Bytes
test_sha d = le_bytes 32 (le_value d)

abbrev pub my_id : Bytes
my_id = replicate 20 1

abbrev pub alice_pays : Bytes
alice_pays = replicate 20 2

abbrev pub alice_gets : Bytes
alice_gets = replicate 20 3

abbrev pub bob_pays : Bytes
bob_pays = replicate 20 4

abbrev pub bob_gets : Bytes
bob_gets = replicate 20 5

abbrev pub btc : Bytes
btc = 66 ∷ 84 ∷ 67 ∷ []

abbrev pub ltc : Bytes
ltc = 76 ∷ 84 ∷ 67 ∷ []

abbrev pub alice_order : Order
alice_order = record {
  id = 11;
  source_addr = alice_pays;
  source_currency = btc;
  source_amount = 5;
  dest_addr = alice_gets;
  dest_currency = ltc;
  dest_amount = 700;
}

abbrev pub bob_order : Order
bob_order = record {
  id = 12;
  source_addr = bob_pays;
  source_currency = ltc;
  source_amount = 700;
  dest_addr = bob_gets;
  dest_currency = btc;
  dest_amount = 5;
}

abbrev pub wallet : WalletParam
wallet = record {
  title = [];
  address = my_id;
  ip = 49 ∷ [];
  port = 8332;
  user = 117 ∷ [];
  passwd = 112 ∷ [];
}

abbrev pub settings : List (Bytes × WalletParam)
settings = (btc, wallet) ∷ (ltc, wallet) ∷ []

-- The hub with its two wallets and nothing else.
abbrev pub open_exchange : Exchange
open_exchange = init true settings new_exchange

-- The hub after Alice's order, at the time 100.
abbrev pub alice_key : ℕ
alice_key = hash1 test_sha (order_transaction 100 alice_order)

abbrev pub one_order : Exchange
one_order = record open_exchange { pending = (alice_key, order_transaction 100 alice_order) ∷ [] }

-- A trade between the two, as tryJoin leaves it.
abbrev pub trade_id : ℕ
trade_id = 77

abbrev pub trade : Transaction
trade = record (new_transaction 100 11 alice_pays btc 5 alice_gets ltc 700) {
  id = trade_id;
  state = State.tr_joined;
  second = record { id = 12; source = bob_pays; dest = bob_gets };
}

abbrev pub one_trade : Exchange
one_trade = record open_exchange { transactions = (trade_id, trade) ∷ [] }

abbrev pub node : Exchange → Node
node e = record {
  exchange = e;
  messages = [];
  heap = [];
  next = 0;
  my_pending = [];
  my_transactions = [];
  my_unconfirmed = [];
  raw_sent = [];
  signal_send = false;
}

abbrev pub padded : Bytes → Bytes
padded c = c ++ replicate 5 0

-- The packet of an order.
abbrev pub order_body : Order → Packet
order_body o = append_uint64 o.dest_amount (
    append_bytes (padded o.dest_currency) (
      append_bytes o.dest_addr (
        append_uint64 o.source_amount (
          append_bytes (padded o.source_currency) (
            append_bytes o.source_addr
              (append_uint256 o.id (new_packet XBridgeCommand.xbc_transaction 100)))))))

-- A client's answer.
abbrev pub answer : XBridgeCommand → Bytes → ℕ → Packet
answer c from id = append_uint256 id (append_bytes from (append_bytes my_id (new_packet c 100)))

pub differ : (a b : Bytes) → bytes_eq a b ≡ false → a ≢ b
differ a b h = ground (arith, bytes_eq_iff a b)

pub sources_differ : alice_pays ≢ bob_pays
unfolding bytes_eq
sources_differ = differ alice_pays bob_pays refl

pub dests_differ : alice_gets ≢ bob_gets
unfolding bytes_eq
dests_differ = differ alice_gets bob_gets refl

pub alice-IsAnswer : IsAnswer my_id alice_pays trade_id
alice-IsAnswer = record { hub_address = refl; my_address = refl; trade = omega arith }

-- A wallet that sends, signs and knows nothing yet.
abbrev pub rpc : Rpc
rpc = record {
  send_raw = λ raw. true;
  sign_raw = λ raw. some raw;
  is_known = λ h. false;
  lock_time = λ raw. 500000000;
}

-- In place of `double`: numbers of millionths.
abbrev pub millionths : Doubles
millionths = record {
  Double = ℕ;
  of_uint64 = λ n. n * 1000000;
  to_uint64 = λ x. x / 1000000;
  plus = λ x y. x + y;
  times = λ x y. x * y / 1000000;
  over = λ x y. x * 1000000 / y;
}

-- In place of the Bitcoin client's code: a transaction's text is a digit.
abbrev pub codec : Codec Bytes
codec = record { to_text = λ t. (48 + t.lock_time % 10) ∷ []; hash_of = λ now s. 99 }

abbrev pub bitcoin : Bitcoin
bitcoin = record {
  Script = Bytes;
  of_key = λ address prefix. prefix ∷ address;
  of_address = λ s. s;
  hex_value = λ s. le_value s;
  plain = codec;
  btc = codec;
}

-- A wallet with coins of 60, 80 and 10 units.
abbrev pub coins : List (Unspent ℕ)
coins =
    record { tx_id = 1 ∷ []; vout = 0; amount = 60 }
    ∷ record { tx_id = 2 ∷ []; vout = 1; amount = 80 }
    ∷ record { tx_id = 3 ∷ []; vout = 0; amount = 10 }
    ∷ []

abbrev pub purse : Wallet ℕ
purse = record {
  coin = 1000000;
  prefix = 0;
  unspent = some coins;
  change_address = some (97 ∷ []);
  refund_address = some (98 ∷ []);
}
