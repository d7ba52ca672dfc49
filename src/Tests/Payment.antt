-- ===== src/Tests/Payment.antt =====
-- The theorems on the payment of a trade, applied to a client with three coins.
use xhubv.Prelude.{
  ℕ, ℤ, ◌+ℤ◌, to_int64, suc, ◌-◌, ◌*◌, ◌≡◌, refl, arith, List, [], ◌∷◌, true, false, some, Bytes,
  lookup, ℕ-key,
}
use xhubv.Packet.{Packet}
use xhubv.Transaction.{update_timestamp}
use xhubv.Exchange.{update_when_created_received}
use xhubv.Session.{Node}
use xhubv.Session.Hub.{create_packet}
use xhubv.Session.Settle.{process_transaction_created}
use xhubv.Session.Updates.{Yields}
use xhubv.Session.Client.Payments.{Stored}
use xhubv.Session.Payment.{
  Request, TxOut, Unspent, fee, out_amount, choose, change, payment, refund, create_with,
}
use xhubv.Session.Payment.Coins.{worth, IsShortest, choose-IsShortest}
use xhubv.Session.Payment.Amounts.{paid, cost, taken, payment_balances, refund_negative}
use xhubv.Session.Payment.RoundTrip.{
  CanPay, pay_text, refund_text, paid_descr, create_answer, create_answer-heard,
}
use xhubv.Tests.{
  my_id, alice_pays, bob_gets, open_exchange, one_trade, trade, trade_id, node, alice-IsAnswer, rpc,
  millionths, bitcoin, codec, coins, purse,
}
use xhubv.Tests.Client.{descr}
use xhubv.Tests.Answers.{trade_stands, trade_on}

choose-IsShortest_example :
    IsShortest millionths 1000000 105 0 coins
      (choose millionths 1000000 105 0 coins).0
      (choose millionths 1000000 105 0 coins).1
choose-IsShortest_example = choose-IsShortest millionths 1000000 105 0 coins

-- The first two coins do.
two_coins : (choose millionths 1000000 105 0 coins).1 ≡ 140
unfolding choose
two_coins = refl

abbrev request : Request
request = record {
  me = alice_pays;
  hub = my_id;
  id = trade_id;
  dest = bob_gets;
  lock_time1 = 1200;
  lock_time2 = 86400;
}

-- Coins of 160, 80 and 10 units, of which the first two pay for 105 units and the fee.
abbrev rich : List (Unspent ℕ)
rich =
    record { tx_id = 1 ∷ []; vout = 0; amount = 160 }
    ∷ record { tx_id = 2 ∷ []; vout = 1; amount = 80 }
    ∷ record { tx_id = 3 ∷ []; vout = 0; amount = 10 }
    ∷ []

abbrev rest : List (TxOut Bytes)
rest = record { value = ℤ.pos 35; script = 97 ∷ [] } ∷ []

rest_changed :
    change millionths bitcoin purse
      (taken millionths bitcoin 500 purse request 105 rich).1
      (cost millionths bitcoin 500 purse request 105)
    ≡ some rest
unfolding change choose out_amount fee to_int64
rest_changed = refl

rich_cost : cost millionths bitcoin 500 purse request 105 ≡ 205
unfolding out_amount fee
rich_cost = refl

rich_taken : (taken millionths bitcoin 500 purse request 105 rich).1 ≡ 240
unfolding choose out_amount fee
rich_taken = refl

standard_fee : fee 1000000 ≡ 100
unfolding fee
standard_fee = refl

payment_balances_example :
    (paid
          (payment millionths bitcoin 500 purse request
            (taken millionths bitcoin 500 purse request 105 rich).0
            (cost millionths bitcoin 500 purse request 105)
            rest).vout
        +ℤ ℤ.pos (fee 1000000)
      ≡ ℤ.pos (
          worth millionths 1000000
            (cost millionths bitcoin 500 purse request 105)
            0
            (taken millionths bitcoin 500 purse request 105 rich).0))
    × (paid
            (refund millionths bitcoin 500 purse request 99
              (cost millionths bitcoin 500 purse request 105)
              (98 ∷ [])).vout
          +ℤ ℤ.pos (2 * fee 1000000)
        ≡ ℤ.pos (cost millionths bitcoin 500 purse request 105))
payment_balances_example =
    payment_balances millionths bitcoin 500 purse request 105 rich rest 99 (98 ∷ [])
      (omega (arith, rich_cost, rich_taken)) (omega (arith, rich_taken)) rest_changed
      (omega (arith, rich_cost, standard_fee))

-- Five units and a fee of a hundred.
refund_negative_example :
    ((payment millionths bitcoin 500 purse request coins 105 rest).vout
      ≡ record { value = ℤ.pos (105 - fee 1000000); script = bitcoin.of_key bob_gets 0 } ∷ rest)
    × ((refund millionths bitcoin 500 purse request 99 105 (98 ∷ [])).vout
        ≡ record { value = ℤ.negsuc (2 * fee 1000000 - suc 105); script = 98 ∷ [] } ∷ [])
refund_negative_example =
    refund_negative millionths bitcoin 500 purse request coins rest 105 99 (98 ∷ [])
      (omega (arith, standard_fee)) (omega (arith, standard_fee))

-- Alice's client with her trade.
abbrev trading : Node
trading = record (node open_exchange) {
  heap = (0, descr 11 []) ∷ [];
  next = 1;
  my_transactions = (trade_id, 0) ∷ [];
}

abbrev little_rest : List (TxOut Bytes)
little_rest = record { value = ℤ.pos 35; script = 97 ∷ [] } ∷ []

can_pay : CanPay millionths bitcoin codec purse rpc 500 request (out_amount millionths 1000000 5)
unfolding choose out_amount change payment to_int64
can_pay = record {
  entries = coins;
  rest = little_rest;
  signed = 48 ∷ [];
  refund_to = 98 ∷ [];
  listed = refl;
  enough = omega arith;
  changed = refl;
  signs = refl;
  given = refl;
}

trading_finds : lookup trade_id trading.my_transactions ≡ some 0
unfolding lookup
trading_finds = refl

trading_owns : lookup 0 trading.heap ≡ some (descr 11 [])
unfolding lookup
trading_owns = refl

abbrev pays_with : Bytes
pays_with = pay_text millionths bitcoin codec purse rpc 500 request (descr 11 []) can_pay

abbrev refunds_with : Bytes
refunds_with = refund_text millionths bitcoin codec purse rpc 500 request (descr 11 []) can_pay

abbrev answers_with : Packet
answers_with = create_answer millionths bitcoin codec purse rpc 500 request (descr 11 []) can_pay

create_answer-heard_example :
    (m : Node) × (create_with millionths bitcoin codec purse rpc 500
        (create_packet my_id 490 alice_pays trade_id bob_gets 1200 86400)
        trading
      ≡ some (m, true))
    × (lookup 0 m.heap
        ≡ some (paid_descr millionths bitcoin codec purse rpc 500 request (descr 11 []) can_pay))
    × (m.messages ≡ record { to = []; body = answers_with.body; searched = false } ∷ [])
    × Yields
        (Stored trade_id
          (update_when_created_received alice_pays pays_with refunds_with
            (update_timestamp 510 trade)).0
          (node one_trade))
        (process_transaction_created my_id 510 answers_with (node one_trade))
create_answer-heard_example =
    create_answer-heard millionths bitcoin codec purse rpc 500 request (descr 11 []) can_pay 490
      alice-IsAnswer refl (omega arith) (omega arith) 0 trading (node one_trade) trade 510
      trading_finds trading_owns trade_stands trade_on (omega arith, tt) (omega arith, tt)
      (omega arith)
