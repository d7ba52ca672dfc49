-- ===== src/Tests/Answers.antt =====
-- The theorems on the clients' answers at the hub, applied to Alice's and Bob's.
use xhubv.Prelude.{
  ◌≡◌, refl, arith, [], ◌∷◌, true, some, lookup, ℕ-key, Bytes-key, insert, place, erase, bytes_lt,
  bytes_eq,
}
use xhubv.Transaction.{State, new_transaction, update_timestamp}
use xhubv.Transaction.Currencies.{FitsFields}
use xhubv.Exchange.{
  update_when_created_received, update_when_signed_received, update_when_commited_received,
  is_enabled, new_exchange, init, read_wallets,
}
use xhubv.Session.Updates.{Yields}
use xhubv.Session.Settle.{
  process_transaction_created, process_transaction_signed, process_transaction_commited,
}
use xhubv.Session.Client.Carried.{created_answer, signed_answer, commited_answer}
use xhubv.Session.Client.Payments.{Stored, payments_heard}
use xhubv.Transaction.Protocol.{IsFresh}
use xhubv.Tests.{alice-IsAnswer, my_id, alice_pays, one_trade, trade, trade_id, node}

pub trade-FitsFields : FitsFields trade
unfolding new_transaction
trade-FitsFields = record { source = omega arith; dest = omega arith }

pub trade_on : is_enabled one_trade ≡ true
unfolding is_enabled init new_exchange read_wallets insert lookup bytes_eq place erase bytes_lt
trade_on = refl

pub trade_stands : lookup trade_id one_trade.transactions ≡ some trade
unfolding lookup
trade_stands = refl

-- Alice's payment, refund and hash.
payments_heard_example :
    Yields
      (Stored trade_id
        (update_when_created_received alice_pays (49 ∷ []) (50 ∷ []) (update_timestamp 130 trade)).0
        (node one_trade))
      (process_transaction_created my_id 130
        (created_answer 110 my_id alice_pays trade_id (49 ∷ []) (50 ∷ []))
        (node one_trade))
    × Yields
        (Stored trade_id
          (update_when_signed_received alice_pays (50 ∷ []) (update_timestamp 130 trade)).0
          (node one_trade))
        (process_transaction_signed my_id 130
          (signed_answer 110 my_id alice_pays trade_id (50 ∷ []))
          (node one_trade))
    × Yields
        (Stored trade_id
          (update_when_commited_received alice_pays 21 (update_timestamp 130 trade) one_trade).1
          (node one_trade))
        (process_transaction_commited my_id 130
          (commited_answer 110 my_id alice_pays trade_id 21)
          (node one_trade))
payments_heard_example =
    payments_heard my_id alice_pays 110 130 trade_id trade (node one_trade) alice-IsAnswer
      trade_stands trade_on (49 ∷ []) (50 ∷ []) 21 (omega arith, tt) (omega arith, tt) (omega arith)
      (omega arith)

pub trade-IsFresh : IsFresh State.tr_joined trade
unfolding new_transaction
trade-IsFresh = (refl, refl, refl)
