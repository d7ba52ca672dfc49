-- ===== src/Tests/Client.antt =====
-- The theorems on the client's handlers, applied to Alice's client.
use xhubv.Prelude.{
  ℕ, ◌≡◌, refl, sym, ap, arith, [], ◌∷◌, true, none, some, Bytes, lookup, ℕ-key, Bytes-key, Each,
  le_bytes, le_value, slice,
}
use xhubv.Packet.{
  Packet, XBridgeCommand, size, new_packet, append_bytes, append_uint256, field32, set_field32,
}
use xhubv.Packet.Append.{IsFramed}
use xhubv.Session.{Node, Descr, DescrState, uint256_at}
use xhubv.Session.Hub.{hold_packet}
use xhubv.Session.Client.{answer, process_transaction_hold, process_transaction_confirm}
use xhubv.Session.Client.Hold.{IsHeld, process_transaction_hold-answers}
use xhubv.Session.Client.Bounds.{confirm_reads_past}
use xhubv.Session.Wallet.{process_transaction_rollback}
use xhubv.Session.Wallet.Rollback.{
  some_injective, IsOnly, IsRollback, RollsBack, rollback_own, rollback_first,
}
use xhubv.Tests.{
  rpc, alice-IsAnswer, my_id, alice_pays, alice_gets, btc, ltc, open_exchange, trade_id, node,
}

abbrev pub descr : ℕ → Bytes → Descr
descr id rev = record {
  id = id;
  hub_address = [];
  my_address = [];
  from = alice_pays;
  from_currency = btc;
  from_amount = 5;
  to = alice_gets;
  to_currency = ltc;
  to_amount = 700;
  state = DescrState.tr_pending;
  pay_tx_id = 0;
  pay_tx = [];
  rev_tx = rev;
}

-- Alice's client with the order 11, which waits.
abbrev waiting : Node
waiting = record (node open_exchange) {
  heap = (0, descr 11 []) ∷ [];
  next = 1;
  my_pending = (11, 0) ∷ [];
}

waiting_finds : lookup 11 waiting.my_pending ≡ some 0
unfolding lookup
waiting_finds = refl

waiting_owns : lookup 0 waiting.heap ≡ some (descr 11 [])
unfolding lookup
waiting_owns = refl

process_transaction_hold-answers_example :
    (m : Node) × (process_transaction_hold 110
        (hold_packet my_id 105 alice_pays 11 trade_id)
        waiting
      ≡ some (m, true))
    × IsHeld my_id alice_pays 11 trade_id 110 0 (descr 11 []) waiting m
process_transaction_hold-answers_example =
    process_transaction_hold-answers my_id alice_pays 105 11 trade_id alice-IsAnswer (omega arith)
      110 0 (descr 11 []) waiting waiting_finds waiting_owns

-- A confirm packet that ends before the hash.
abbrev short_confirm : Packet
short_confirm = answer 110 XBridgeCommand.xbc_transaction_confirm alice_gets my_id trade_id

short-IsFramed : IsFramed short_confirm
unfolding answer new_packet append_bytes append_uint256 le_bytes field32 set_field32 le_value
short-IsFramed = record { headed = omega arith; sized = refl }

short_size : size short_confirm ≡ 72
unfolding answer new_packet append_bytes append_uint256 le_bytes field32 set_field32 le_value
short_size = refl

confirm_reads_past_example : process_transaction_confirm short_confirm waiting ≡ none
confirm_reads_past_example =
    confirm_reads_past short_confirm waiting short-IsFramed (omega (arith, short_size))
      (omega (arith, short_size))

abbrev rollback_of : ℕ → Packet
rollback_of id =
    append_uint256 id
      (append_bytes alice_pays (new_packet XBridgeCommand.xbc_transaction_rollback 110))

-- Two trades of Alice's, with the ids 11 and 12 of her own.
abbrev two_trades : Node
two_trades = record (node open_exchange) {
  heap = (0, descr 11 (1 ∷ [])) ∷ (1, descr 12 (2 ∷ [])) ∷ [];
  next = 2;
  my_transactions = (70, 0) ∷ (77, 1) ∷ [];
}

two_trades-IsRollback : IsRollback (rollback_of 77) 77 1 (descr 12 (2 ∷ [])) two_trades
unfolding lookup uint256_at slice new_packet append_bytes append_uint256 le_bytes field32
    set_field32 le_value
two_trades-IsRollback = record { sized = refl; read = refl; mine = refl; stands = refl }

two_trades-IsOnly : Each (IsOnly (descr 12 (2 ∷ [])) two_trades.heap) two_trades.my_transactions
unfolding lookup
two_trades-IsOnly = (
  λ e h i. absurd (omega (arith, ap (λ d. d.id) (some_injective h), i)),
  (λ e h i. sym (some_injective h), tt),
)

rollback_own_example :
    (m : Node) × (process_transaction_rollback rpc (rollback_of 77) two_trades ≡ some (m, true))
    × RollsBack 1 (descr 12 (2 ∷ [])) two_trades (2 ∷ []) m
rollback_own_example =
    rollback_own rpc (rollback_of 77) 77 1 (descr 12 (2 ∷ [])) two_trades two_trades-IsRollback
      two_trades-IsOnly

-- The same two trades as processTransactionInit makes them, without ids.
abbrev two_foreign : Node
two_foreign = record two_trades { heap = (0, descr 0 (1 ∷ [])) ∷ (1, descr 0 (2 ∷ [])) ∷ [] }

two_foreign-IsRollback : IsRollback (rollback_of 77) 77 1 (descr 0 (2 ∷ [])) two_foreign
unfolding lookup uint256_at slice new_packet append_bytes append_uint256 le_bytes field32
    set_field32 le_value
two_foreign-IsRollback = record { sized = refl; read = refl; mine = refl; stands = refl }

foreign_stands : lookup 0 two_foreign.heap ≡ some (descr 0 (1 ∷ []))
unfolding lookup
foreign_stands = refl

rollback_first_example :
    (m : Node) × (process_transaction_rollback rpc (rollback_of 77) two_foreign ≡ some (m, true))
    × RollsBack 1 (descr 0 (2 ∷ [])) two_foreign (1 ∷ []) m
rollback_first_example =
    rollback_first rpc (rollback_of 77) 77 1 (descr 0 (2 ∷ [])) two_foreign 70 0 ((77, 1) ∷ [])
      (descr 0 (1 ∷ [])) two_foreign-IsRollback refl foreign_stands refl
