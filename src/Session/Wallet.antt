-- ===== src/Session/Wallet.antt =====
-- The handlers of XBridgeSession that a client runs with its wallet: processTransactionSign, Commit,
-- Rollback with revertXBridgeTransaction, and requestUnconfirmedTx. The wallet answers over JSON-RPC: its
-- answers at the time of the call are a parameter.
pub mod Rollback
pub mod Sound
use xhubv.Prelude.{
  ℕ, ◌+◌, List, [], ◌∷◌, ◌++◌, Bool, true, false, not, ◌||◌, Option, none, some, Bytes, length,
  lookup, erase, assign, ℕ-key, ltb, ◌==◌, if◌then◌else◌, ◌>>=◌,
}
use xhubv.Packet.{Packet, XBridgeCommand, size, data_at, text_at, append_uint256, append_string}
use xhubv.Session.{Node, Descr, DescrState, send_packet, send_packet_broadcast, uint256_at}
use xhubv.Session.Upkeep.{set_descr_state, send_cancel_transaction}
use xhubv.Session.Client.{answer}

pub record Rpc : Type 0 where
  pub send_raw : Bytes → Bool  -- sendRawTransaction
  pub sign_raw : Bytes → Option Bytes  -- signRawTransaction: the signed text, or none
  pub is_known : ℕ → Bool  -- getTransaction
  pub lock_time : Bytes → ℕ  -- nLockTime of the decoded transaction

-- LOCKTIME_THRESHOLD
abbrev pub locktime_threshold : ℕ
locktime_threshold = 500000000

-- rpc::sendRawTransaction, with what it hands to the wallet.
unfoldable pub hand_over : Bytes → Node → Node
hand_over raw n = record n { raw_sent = n.raw_sent ++ raw ∷ [] }

-- The first of the client's trades, in the order of their keys, whose descriptor has the id.
unfoldable pub find_mine : ℕ → List (ℕ × ℕ) → List (ℕ × Descr) → Option Descr
find_mine id [] heap = none
find_mine id ((k, ptr) ∷ m) heap =
    let rest = find_mine id m heap in
    elim (lookup ptr heap) [ none ↦ rest | some d ↦ if d.id == id then some d else rest ]

module _ (rpc : Rpc) where
  unfoldable pub revert_found : Option Descr → Node → Node × Bool
  unfolding hand_over
  revert_found none n = (n, false)
  revert_found (some d) n = (hand_over d.rev_tx n, rpc.send_raw d.rev_tx)

  unfoldable pub revert_xbridge_transaction : ℕ → Node → Node × Bool
  unfolding find_mine revert_found
  revert_xbridge_transaction id n = revert_found (find_mine id n.my_transactions n.heap) n

  -- The trade behind the pointer, if the client has it; the result of the revert is not used.
  unfoldable pub rollback_mine : Option ℕ → Node → Option (Node × Bool)
  unfolding revert_xbridge_transaction
  rollback_mine none n = some (n, false)
  rollback_mine (some ptr) n = do
    d ← lookup ptr n.heap
    let (n', reverted) = revert_xbridge_transaction d.id n
    some (set_descr_state ptr DescrState.tr_rollback n', true)

  unfoldable pub process_transaction_rollback : Packet → Node → Option (Node × Bool)
  unfolding rollback_mine
  process_transaction_rollback p n =
      if not (size p == 52)
      then some (n, false)
      else do id ← uint256_at 20 p; rollback_mine (lookup id n.my_transactions) n

  module _ (now : ℕ) where
    -- The payments are to be signed, and the refund is.
    unfoldable pub sign_mine : Bytes → Bytes → ℕ → Bytes → Bytes → ℕ → Node → Node × Bool
    sign_mine hub me id pay rev ptr n =
        let cancelled = send_cancel_transaction now id n in
        if ltb (rpc.lock_time pay) locktime_threshold || ltb (rpc.lock_time rev) locktime_threshold
        then (cancelled, false)
        else elim (rpc.sign_raw rev) [
          | none ↦ (cancelled, false)
          | some signed ↦ (
            send_packet_broadcast
                (append_string signed (answer now XBridgeCommand.xbc_transaction_signed hub me id))
                (set_descr_state ptr DescrState.tr_signed n),
            true,
          )
        ]

    unfoldable pub process_transaction_sign : Packet → Node → Option (Node × Bool)
    unfolding sign_mine
    process_transaction_sign p n = if ltb (size p) 72 then some (n, false) else do
      me ← data_at 0 20 p
      hub ← data_at 20 20 p
      id ← uint256_at 40 p
      pay ← text_at 72 p
      rev ← text_at (72 + length pay + 1) p
      some (elim (lookup id n.my_transactions) [
        | none ↦ (n, false)
        | some ptr ↦ sign_mine hub me id pay rev ptr n
      ])

    -- The signed refund is kept and the payment goes to the network.
    unfoldable pub commit_mine : Bytes → Bytes → ℕ → Bytes → ℕ → Descr → Node → Node × Bool
    unfolding hand_over
    commit_mine hub me id rev ptr d n =
        let kept = record n { heap = assign ptr (record d { rev_tx = rev }) n.heap } in
        let handed = hand_over d.pay_tx kept in
        if not (rpc.send_raw d.pay_tx) then (handed, false) else (
          send_packet_broadcast
              (append_uint256 d.pay_tx_id
                (answer now XBridgeCommand.xbc_transaction_commited hub me id))
              (set_descr_state ptr DescrState.tr_commited handed),
          true,
        )

    unfoldable pub process_transaction_commit : Packet → Node → Option (Node × Bool)
    unfolding commit_mine
    process_transaction_commit p n = if ltb (size p) 72 then some (n, false) else do
      me ← data_at 0 20 p
      hub ← data_at 20 20 p
      id ← uint256_at 40 p
      rev ← text_at 72 p
      elim (lookup id n.my_transactions) [
        | none ↦ some (n, false)
        | some ptr ↦ do d ← lookup ptr n.heap; some (commit_mine hub me id rev ptr d n)
      ]

    -- One turn of requestUnconfirmedTx, for the trade `id` of the snapshot.
    unfoldable pub request_one : ℕ → ℕ → Node → Option Node
    request_one id ptr n = do
      d ← lookup ptr n.heap
      let confirmed =
          answer now XBridgeCommand.xbc_transaction_confirmed d.hub_address d.my_address id
      some (
          if rpc.is_known d.pay_tx_id
          then send_packet d.hub_address confirmed
              (record n { my_unconfirmed = erase id n.my_unconfirmed })
          else n)

    unfoldable pub request_each : List (ℕ × ℕ) → Node → Option Node
    unfolding request_one
    request_each [] n = some n
    request_each ((id, ptr) ∷ m) n = do n' ← request_one id ptr n; request_each m n'

    unfoldable pub request_unconfirmed_tx : Node → Option Node
    unfolding request_each
    request_unconfirmed_tx n = request_each n.my_unconfirmed n
