-- ===== src/Session/Wallet/Sound.antt =====
-- The handlers that a client runs with its wallet leave the exchange alone.
use xhubv.Prelude.{
  ℕ, ◌+◌, ◌≡◌, refl, ◌∙◌, List, [], ◌∷◌, false, not, ◌||◌, Option, none, some, Bytes, length,
  lookup, ℕ-key, ltb, ◌==◌, ◌>>=◌,
}
use xhubv.Packet.{Packet, size, data_at, text_at}
use xhubv.Session.{Node, Descr, DescrState, uint256_at, send_packet, send_packet_broadcast}
use xhubv.Session.Upkeep.{send_cancel_transaction}
use xhubv.Session.Upkeep.Cancel.{exchange-set_descr_state}
use xhubv.Session.Updates.{Ensures, Ensures-bind, Ensures-bind_of, either}
use xhubv.Session.Client.Sound.{Spares, by_lookup}
use xhubv.Session.Wallet.{
  Rpc, locktime_threshold, hand_over, find_mine, revert_found, revert_xbridge_transaction,
  rollback_mine, process_transaction_rollback, sign_mine, process_transaction_sign, commit_mine,
  process_transaction_commit, request_one, request_each, request_unconfirmed_tx,
}

module _ (rpc : Rpc) where
  revert_found-Spares : (o : Option Descr) (n : Node) → Spares n (revert_found rpc o n)
  unfolding revert_found hand_over
  revert_found-Spares none n = refl
  revert_found-Spares (some d) n = refl

  rollback_mine-Spares : (o : Option ℕ) (n : Node) → Ensures (Spares n) (rollback_mine rpc o n)
  unfolding rollback_mine revert_xbridge_transaction
  rollback_mine-Spares none n = refl
  rollback_mine-Spares (some ptr) n = Ensures-bind (Spares n) (lookup ptr n.heap) _ λ d.
      exchange-set_descr_state ptr DescrState.tr_rollback _
      ∙ revert_found-Spares (find_mine d.id n.my_transactions n.heap) n

  pub process_transaction_rollback-Spares :
      (p : Packet) (n : Node) → Ensures (Spares n) (process_transaction_rollback rpc p n)
  unfolding process_transaction_rollback
  process_transaction_rollback-Spares p n =
      either (Ensures (Spares n)) (not (size p == 52)) _ _ refl (
        Ensures-bind (Spares n) (uint256_at 20 p) _
          λ id. rollback_mine-Spares (lookup id n.my_transactions) n)

  module _ (now : ℕ) where
    sign_mine-Spares :
        (hub me : Bytes) (id : ℕ) (pay rev : Bytes) (ptr : ℕ) (n : Node)
        → Spares n (sign_mine rpc now hub me id pay rev ptr n)
    unfolding sign_mine send_cancel_transaction send_packet_broadcast send_packet
    sign_mine-Spares hub me id pay rev ptr n =
        either (Spares n)
          (ltb (rpc.lock_time pay) locktime_threshold || ltb (rpc.lock_time rev) locktime_threshold)
          _ _ refl
          (by_lookup (Spares n) (rpc.sign_raw rev) _ _ refl
            λ signed. exchange-set_descr_state ptr DescrState.tr_signed n)

    pub process_transaction_sign-Spares :
        (p : Packet) (n : Node) → Ensures (Spares n) (process_transaction_sign rpc now p n)
    unfolding process_transaction_sign
    process_transaction_sign-Spares p n = either (Ensures (Spares n)) (ltb (size p) 72) _ _ refl (
        Ensures-bind (Spares n) (data_at 0 20 p) _ λ me.
          Ensures-bind (Spares n) (data_at 20 20 p) _ λ hub.
            Ensures-bind (Spares n) (uint256_at 40 p) _ λ id.
              Ensures-bind (Spares n) (text_at 72 p) _ λ pay.
                Ensures-bind (Spares n) (text_at (72 + length pay + 1) p) _ λ rev.
                  by_lookup (Spares n) (lookup id n.my_transactions) (n, false)
                    (λ ptr. sign_mine rpc now hub me id pay rev ptr n) refl
                    λ ptr. sign_mine-Spares hub me id pay rev ptr n)

    commit_mine-Spares :
        (hub me : Bytes) (id : ℕ) (rev : Bytes) (ptr : ℕ) (d : Descr) (n : Node)
        → Spares n (commit_mine rpc now hub me id rev ptr d n)
    unfolding commit_mine hand_over send_packet_broadcast send_packet
    commit_mine-Spares hub me id rev ptr d n =
        either (Spares n) (not (rpc.send_raw d.pay_tx)) _ _ refl
          (exchange-set_descr_state ptr DescrState.tr_commited _)

    commit_found-Spares :
        (hub me : Bytes) (id : ℕ) (rev : Bytes) (ptr : ℕ) (n : Node)
        → Ensures
            (Spares n)
            (do d ← lookup ptr n.heap; some (commit_mine rpc now hub me id rev ptr d n))
    commit_found-Spares hub me id rev ptr n =
        Ensures-bind (Spares n) (lookup ptr n.heap) _ λ d. commit_mine-Spares hub me id rev ptr d n

    pub process_transaction_commit-Spares :
        (p : Packet) (n : Node) → Ensures (Spares n) (process_transaction_commit rpc now p n)
    unfolding process_transaction_commit
    process_transaction_commit-Spares p n = either (Ensures (Spares n)) (ltb (size p) 72) _ _ refl (
        Ensures-bind (Spares n) (data_at 0 20 p) _ λ me.
          Ensures-bind (Spares n) (data_at 20 20 p) _ λ hub.
            Ensures-bind (Spares n) (uint256_at 40 p) _ λ id.
              Ensures-bind (Spares n) (text_at 72 p) _ λ rev.
                by_lookup (Ensures (Spares n)) (lookup id n.my_transactions) (some (n, false))
                  (λ ptr. do
                    d ← lookup ptr n.heap
                    some (commit_mine rpc now hub me id rev ptr d n))
                  refl λ ptr. commit_found-Spares hub me id rev ptr n)

    request_one-Spares :
        (id ptr : ℕ) (n : Node)
        → Ensures (λ m. m.exchange ≡ n.exchange) (request_one rpc now id ptr n)
    unfolding request_one send_packet
    request_one-Spares id ptr n =
        Ensures-bind (λ m. m.exchange ≡ n.exchange) (lookup ptr n.heap) _
          λ d.
            either (λ (m : Node). m.exchange ≡ n.exchange) (rpc.is_known d.pay_tx_id) _ _ refl refl

    request_each-Spares :
        (l : List (ℕ × ℕ)) (k n : Node)
        → n.exchange ≡ k.exchange
        → Ensures (λ m. m.exchange ≡ k.exchange) (request_each rpc now l n)
    unfolding request_each
    request_each-Spares [] k n e = e
    request_each-Spares ((id, ptr) ∷ l) k n e =
        Ensures-bind_of (λ m. m.exchange ≡ n.exchange) (λ m. m.exchange ≡ k.exchange)
          (request_one rpc now id ptr n) _ (request_one-Spares id ptr n)
          (λ m q. request_each-Spares l k m (q ∙ e))

    pub request_unconfirmed_tx-Spares :
        (n : Node) → Ensures (λ m. m.exchange ≡ n.exchange) (request_unconfirmed_tx rpc now n)
    unfolding request_unconfirmed_tx
    request_unconfirmed_tx-Spares n = request_each-Spares n.my_unconfirmed n n refl
