-- ===== src/Session/Upkeep/Sound.antt =====
-- The turns of the timer and a cancellation keep the exchange sound.
use xhubv.Prelude.{
  ℕ, not, List, [], ◌∷◌, Option, none, some, Bytes, ◌==◌, leb, lookup, ℕ-key, Option-cases, inl,
  inr, Each,
}
use xhubv.Packet.{Packet, size}
use xhubv.Transaction.{
  State, Transaction, ◌=s◌, state_code, is_valid, is_expired, finish, drop, hash1,
}
use xhubv.Transaction.Trades.{IsTrade, finish-IsTrade, drop-IsTrade}
use xhubv.Exchange.{Exchange, is_enabled, delete_transaction, list_transactions}
use xhubv.Exchange.Over.{select_over-Each}
use xhubv.Exchange.Invariant.{IsSound, delete_pending-IsSound, delete_transaction-IsSound}
use xhubv.Session.{Node, DescrState, uint256_at, send_packet, send_packet_broadcast}
use xhubv.Session.Updates.{Ensures, Ensures-bind, either, SoundNode, SoundResult, write_back-Sound}
use xhubv.Session.Upkeep.{
  process_transaction_cancel, cancel_mine, set_descr_state, check_finished, check_each,
  check_finished_transactions, finish_transaction, rollback_transaction, send_cancel_transaction,
  send_rollbacks, erase_expired, erase_expired_pending_transactions, send_exchange_orders,
  send_each, pending_packet,
}

module _ (sha256 : Bytes → Bytes) where
  set_descr_state-Sound :
      (ptr : ℕ) (n : Node) (d : _) → SoundNode sha256 n → SoundNode sha256 (set_descr_state ptr d n)
  unfolding set_descr_state
  set_descr_state-Sound ptr n d s = elim (Option-cases (lookup ptr n.heap)) [
    | inl absent ↦ rw (absent, set_descr_state) s
    | inr (x, found) ↦ rw (found, set_descr_state) s
  ]

  cancel_mine-Sound :
      (p : Packet) (o : Option ℕ) (n : Node)
      → SoundNode sha256 n
      → SoundResult sha256 (cancel_mine p o n)
  unfolding cancel_mine send_packet_broadcast
  cancel_mine-Sound p none n s = s
  cancel_mine-Sound p (some ptr) n s = set_descr_state-Sound ptr n DescrState.tr_cancelled s

  pub process_transaction_cancel-Sound :
      (p : Packet) (n : Node)
      → SoundNode sha256 n
      → Ensures (SoundResult sha256) (process_transaction_cancel p n)
  unfolding process_transaction_cancel
  process_transaction_cancel-Sound p n s =
      either (Ensures (SoundResult sha256)) (not (size p == 32)) _ _ s (
        Ensures-bind (SoundResult sha256) (uint256_at 0 p) _ λ id. cancel_mine-Sound p _ _ (
          either (SoundNode sha256) (is_enabled n.exchange) _ _ (delete_pending-IsSound sha256 id s)
            s))

  send_rollbacks-Sound :
      (now : ℕ) (t : Transaction) (n : Node)
      → SoundNode sha256 n
      → SoundNode sha256 (send_rollbacks now t n)
  unfolding send_rollbacks send_packet
  send_rollbacks-Sound now t n s =
      either (SoundNode sha256) (leb (state_code State.tr_signed) (state_code t.state)) _ _ s s

  module _ (now k : ℕ) (t : Transaction) (n : Node) (trade : IsTrade k t)
      (s : SoundNode sha256 n) where
    finish_transaction-Sound : SoundNode sha256 (finish_transaction now k t n)
    unfolding finish_transaction send_packet_broadcast
    finish_transaction-Sound =
        either (SoundNode sha256) (not (t.state =s State.tr_confirmed)) _ _ s
          (write_back-Sound sha256 k (finish t) _ s (λ _. finish-IsTrade trade))

    rollback_transaction-Sound : SoundNode sha256 (rollback_transaction now k t n)
    unfolding rollback_transaction send_cancel_transaction send_packet_broadcast
    rollback_transaction-Sound =
        write_back-Sound sha256 k (finish t) _ (send_rollbacks-Sound now t n s)
          (λ _. finish-IsTrade trade)

    check_finished-Sound : SoundNode sha256 (check_finished now k t n)
    unfolding check_finished
    check_finished-Sound =
        let gone : SoundNode sha256 (record n { exchange = delete_transaction t.id n.exchange }) =
          delete_transaction-IsSound sha256 t.id s in
        either (SoundNode sha256) (t.state =s State.tr_confirmed) _ _ finish_transaction-Sound (
          either (SoundNode sha256) (t.state =s State.tr_cancelled) _ _
            (write_back-Sound sha256 k (drop t) n s (λ _. drop-IsTrade trade))
            (either (SoundNode sha256) (t.state =s State.tr_finished) _ _ gone (
              either (SoundNode sha256) (t.state =s State.tr_dropped) _ _ gone (
                either (SoundNode sha256) (not (is_valid t)) _ _ gone rollback_transaction-Sound))))

  check_each-Sound :
      (now : ℕ) (l : List (ℕ × Transaction)) (n : Node)
      → Each IsTrade l
      → SoundNode sha256 n
      → SoundNode sha256 (check_each now l n)
  unfolding check_each
  check_each-Sound now [] n trades s = s
  check_each-Sound now ((k, t) ∷ l) n trades s =
      check_each-Sound now l (check_finished now k t n) trades.1
        (check_finished-Sound now k t n trades.0 s)

  pub check_finished_transactions-Sound :
      (now : ℕ) (n : Node)
      → SoundNode sha256 n
      → SoundNode sha256 (check_finished_transactions now n)
  unfolding check_finished_transactions list_transactions
  check_finished_transactions-Sound now n s =
      either (SoundNode sha256) (not (is_enabled n.exchange)) _ _ s
        (check_each-Sound now _ n (select_over-Each IsTrade now n.exchange.transactions s.trades) s)

  erase_expired-Sound :
      (now : ℕ) (l : List (ℕ × Transaction)) (e : Exchange)
      → IsSound sha256 e
      → IsSound sha256 (erase_expired sha256 now l e)
  unfolding erase_expired
  erase_expired-Sound now [] e s = s
  erase_expired-Sound now ((k, t) ∷ l) e s = erase_expired-Sound now l _ (
      either (IsSound sha256) (is_expired now t) _ _
        (delete_pending-IsSound sha256 (hash1 sha256 t) s) s)

  pub erase_expired_pending_transactions-Sound :
      (now : ℕ) (n : Node)
      → SoundNode sha256 n
      → SoundNode sha256 (erase_expired_pending_transactions sha256 now n)
  unfolding erase_expired_pending_transactions
  erase_expired_pending_transactions-Sound now n s =
      either (SoundNode sha256) (not (is_enabled n.exchange)) _ _ s
        (erase_expired-Sound now n.exchange.pending n.exchange s)

  send_each-Sound :
      (now : ℕ) (l : List (ℕ × Transaction)) (n : Node)
      → SoundNode sha256 n
      → Ensures (SoundNode sha256) (send_each now l n)
  unfolding send_each send_packet
  send_each-Sound now [] n s = s
  send_each-Sound now ((k, t) ∷ l) n s =
      Ensures-bind (SoundNode sha256) (pending_packet now t) _ λ p. send_each-Sound now l _ s

  pub send_exchange_orders-Sound :
      (now : ℕ) (n : Node)
      → SoundNode sha256 n
      → Ensures (SoundNode sha256) (send_exchange_orders now n)
  unfolding send_exchange_orders
  send_exchange_orders-Sound now n s =
      either (Ensures (SoundNode sha256)) (not (is_enabled n.exchange)) _ _ s
        (send_each-Sound now n.exchange.pending n s)
