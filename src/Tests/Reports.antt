-- ===== src/Tests/Reports.antt =====
-- The theorems on the wallets' reports, applied to a trade whose two payments are on their way.
use xhubv.Prelude.{◌≡◌, refl, arith, [], ◌∷◌, some, lookup, ℕ-key, IsMap, Each}
use xhubv.Transaction.{State, Transaction, new_transaction}
use xhubv.Exchange.{Exchange, update_transaction, member, new_exchange, init}
use xhubv.Exchange.Confirm.{IsUnseen, both_reports_confirm}
use xhubv.Tests.{one_trade, trade, trade_id}

abbrev paid : Transaction
paid = record trade { state = State.tr_commited; tx_hash1 = 21; tx_hash2 = 22 }

abbrev on_their_way : Exchange
on_their_way = record one_trade {
  transactions = (trade_id, paid) ∷ [];
  unconfirmed = (21, trade_id) ∷ (22, trade_id) ∷ [];
}

unseen : Each (IsUnseen on_their_way.wallet_transactions) on_their_way.unconfirmed
unfolding member init new_exchange
unseen = (refl, (refl, tt))

once_each : IsMap on_their_way.unconfirmed
unfolding lookup
once_each = (refl, (refl, tt))

waits_first : lookup 21 on_their_way.unconfirmed ≡ some trade_id
unfolding lookup
waits_first = refl

waits_second : lookup 22 on_their_way.unconfirmed ≡ some trade_id
unfolding lookup
waits_second = refl

paid_stands : lookup trade_id on_their_way.transactions ≡ some paid
unfolding lookup
paid_stands = refl

both_reports_confirm_example :
    lookup trade_id (update_transaction 22 (update_transaction 21 on_their_way)).transactions
    ≡ some (record paid { confirmations = 2; state = State.tr_confirmed })
unfolding new_transaction
both_reports_confirm_example =
    both_reports_confirm 21 22 trade_id on_their_way paid (omega arith) unseen once_each waits_first
      waits_second paid_stands refl refl refl
