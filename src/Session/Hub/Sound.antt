-- ===== src/Session/Hub/Sound.antt =====
-- The handlers of Session/Hub keep the exchange sound.
use xhubv.Prelude.{ℕ, not, ◌&&◌, Bytes, ◌==◌}
use xhubv.Packet.{Packet, data_at, size}
use xhubv.Transaction.{State, Transaction, ◌=s◌, update_timestamp}
use xhubv.Transaction.Trades.{update_timestamp-IsTrade}
use xhubv.Exchange.{
  Order, transaction, is_enabled, have_connected_wallet, update_when_hold_apply_received,
  update_when_initialized_received,
}
use xhubv.Exchange.Invariant.{create_transaction-IsSound}
use xhubv.Session.{Node, uint256_at, currency_field, send_packet, send_packet_broadcast, write_back}
use xhubv.Session.Updates.{
  Ensures, Ensures-bind, Ensures-bind_of, either, SoundNode, SoundResult, for_exchange-Sound,
  write_back-Sound, hold_apply-IsTrade, initialized-IsTrade,
}
use xhubv.Session.Hub.{
  process_transaction, process_transaction_hold_apply, process_transaction_initialized, read_order,
  place_order, send_holds, send_inits, hold_applied, send_creates, initialized,
}

module _ (sha256 : Bytes → Bytes) (my_id : Bytes) (now : ℕ) where
  place_order-Sound :
      (o : Order) (n : Node)
      → SoundNode sha256 n
      → SoundNode sha256 (place_order my_id now sha256 o n)
  unfolding place_order send_holds send_packet
  place_order-Sound o n s =
      let c = create_transaction-IsSound sha256 now o s in either (SoundNode sha256) _ _ _ c c

  pub process_transaction-Sound :
      (p : Packet) (n : Node)
      → SoundNode sha256 n
      → Ensures (SoundResult sha256) (process_transaction my_id now sha256 p n)
  unfolding process_transaction send_packet_broadcast
  process_transaction-Sound p n s =
      either (Ensures (SoundResult sha256)) (not (size p == 104)) _ _ s (
        Ensures-bind (SoundResult sha256) (read_order p) _ λ o.
          either (SoundNode sha256)
            (is_enabled n.exchange
              && (have_connected_wallet o.source_currency n.exchange
                  && have_connected_wallet o.dest_currency n.exchange))
            _ _ (place_order-Sound o n s) s)

  send_inits-Sound :
      (t : Transaction) (id : ℕ) (n : Node)
      → SoundNode sha256 n
      → Ensures (SoundNode sha256) (send_inits my_id now t id n)
  unfolding send_inits send_packet
  send_inits-Sound t id n s =
      Ensures-bind (SoundNode sha256) (currency_field t.source_currency) _
        λ fc. Ensures-bind (SoundNode sha256) (currency_field t.dest_currency) _ λ sc. s

  hold_applied-Sound :
      (p : Packet) (n : Node)
      → SoundNode sha256 n
      → Ensures (SoundResult sha256) (hold_applied my_id now p n)
  unfolding hold_applied
  hold_applied-Sound p n s = Ensures-bind (SoundResult sha256) (data_at 20 20 p) _ λ from.
      Ensures-bind (SoundResult sha256) (uint256_at 40 p) _ λ id.
        let t = update_timestamp now (transaction id n.exchange) in
        let u = update_when_hold_apply_received from t in
        let kept =
          write_back-Sound sha256 id u.0 n s
            (λ h. hold_apply-IsTrade (update_timestamp-IsTrade h now) from) in
        Ensures-bind_of (SoundNode sha256) (SoundResult sha256) _ _
          (either (Ensures (SoundNode sha256)) (u.1 && (u.0.state =s State.tr_hold)) _ _
            (send_inits-Sound u.0 id (write_back id u.0 n) kept) kept)
          (λ m q. q)

  pub process_transaction_hold_apply-Sound :
      (p : Packet) (n : Node)
      → SoundNode sha256 n
      → Ensures (SoundResult sha256) (process_transaction_hold_apply my_id now p n)
  unfolding process_transaction_hold_apply
  process_transaction_hold_apply-Sound p n s =
      either (Ensures (SoundResult sha256)) (not (size p == 72)) _ _ s
        (for_exchange-Sound sha256 my_id p (hold_applied my_id now p) n (hold_applied-Sound p) s)

  initialized-Sound :
      (p : Packet) (n : Node)
      → SoundNode sha256 n
      → Ensures (SoundResult sha256) (initialized my_id now p n)
  unfolding initialized send_creates send_packet
  initialized-Sound p n s = Ensures-bind (SoundResult sha256) (data_at 20 20 p) _ λ from.
      Ensures-bind (SoundResult sha256) (uint256_at 40 p) _ λ id.
        let t = update_timestamp now (transaction id n.exchange) in
        let u = update_when_initialized_received from t in
        let kept =
          write_back-Sound sha256 id u.0 n s
            (λ h. initialized-IsTrade (update_timestamp-IsTrade h now) from) in
        either (SoundNode sha256) (u.1 && (u.0.state =s State.tr_initialized)) _ _ kept kept

  pub process_transaction_initialized-Sound :
      (p : Packet) (n : Node)
      → SoundNode sha256 n
      → Ensures (SoundResult sha256) (process_transaction_initialized my_id now p n)
  unfolding process_transaction_initialized
  process_transaction_initialized-Sound p n s =
      either (Ensures (SoundResult sha256)) (not (size p == 72)) _ _ s
        (for_exchange-Sound sha256 my_id p (initialized my_id now p) n (initialized-Sound p) s)
