-- ===== src/Session/Settle/Sound.antt =====
-- The handlers of Session/Settle keep the exchange sound.
use xhubv.Prelude.{ℕ, subst, ◌+◌, not, ◌&&◌, Bytes, ◌==◌, ltb, length}
use xhubv.Packet.{Packet, data_at, text_at, size}
use xhubv.Transaction.{State, ◌=s◌, update_timestamp}
use xhubv.Transaction.Trades.{IsTrade, update_timestamp-IsTrade}
use xhubv.Exchange.{
  transaction, is_enabled, update_when_created_received, update_when_signed_received,
  update_when_commited_received, update_when_confirmed_received,
}
use xhubv.Exchange.Invariant.{update_transaction-IsSound}
use xhubv.Session.{Node, uint256_at, send_packet, send_packet_broadcast, relay_packet}
use xhubv.Session.Updates.{
  update_when_commited-Sound, transaction-update_when_commited, Ensures, Ensures-bind,
  Ensures-bind_of, either, SoundNode, SoundResult, for_exchange-Sound, write_back-Sound,
  relay_packet-Sound, created-IsTrade, signed-IsTrade, commited-IsTrade, confirmed-IsTrade,
}
use xhubv.Session.Settle.{
  process_transaction_created, process_transaction_signed, process_transaction_commited,
  process_transaction_confirmed, process_bitcoin_transaction_hash, created, signed, commited,
  confirmed, send_signs, send_commits, send_confirms,
}

module _ (sha256 : Bytes → Bytes) (my_id : Bytes) (now : ℕ) where
  created-Sound :
      (p : Packet) (n : Node)
      → SoundNode sha256 n
      → Ensures (SoundResult sha256) (created my_id now p n)
  unfolding created send_signs send_packet
  created-Sound p n s = Ensures-bind (SoundResult sha256) (data_at 20 20 p) _ λ from.
      Ensures-bind (SoundResult sha256) (uint256_at 40 p) _ λ id.
        Ensures-bind (SoundResult sha256) (text_at 72 p) _ λ pay.
          Ensures-bind (SoundResult sha256) (text_at (72 + length pay + 1) p) _ λ rev.
            let t = update_timestamp now (transaction id n.exchange) in
            let u = update_when_created_received from pay rev t in
            let kept =
              write_back-Sound sha256 id u.0 n s
                (λ h. created-IsTrade (update_timestamp-IsTrade h now) from pay rev) in
            either (SoundNode sha256) (u.1 && (u.0.state =s State.tr_created)) _ _ kept kept

  pub process_transaction_created-Sound :
      (p : Packet) (n : Node)
      → SoundNode sha256 n
      → Ensures (SoundResult sha256) (process_transaction_created my_id now p n)
  unfolding process_transaction_created
  process_transaction_created-Sound p n s =
      either (Ensures (SoundResult sha256)) (ltb (size p) 72) _ _ s
        (for_exchange-Sound sha256 my_id p (created my_id now p) n (created-Sound p) s)

  signed-Sound :
      (p : Packet) (n : Node)
      → SoundNode sha256 n
      → Ensures (SoundResult sha256) (signed my_id now p n)
  unfolding signed send_commits send_packet
  signed-Sound p n s = Ensures-bind (SoundResult sha256) (data_at 20 20 p) _ λ from.
      Ensures-bind (SoundResult sha256) (uint256_at 40 p) _ λ id.
        Ensures-bind (SoundResult sha256) (text_at 72 p) _ λ rev.
          let t = update_timestamp now (transaction id n.exchange) in
          let u = update_when_signed_received from rev t in
          let kept =
            write_back-Sound sha256 id u.0 n s
              (λ h. signed-IsTrade (update_timestamp-IsTrade h now) from rev) in
          either (SoundNode sha256) (u.1 && (u.0.state =s State.tr_signed)) _ _ kept kept

  pub process_transaction_signed-Sound :
      (p : Packet) (n : Node)
      → SoundNode sha256 n
      → Ensures (SoundResult sha256) (process_transaction_signed my_id now p n)
  unfolding process_transaction_signed
  process_transaction_signed-Sound p n s =
      either (Ensures (SoundResult sha256)) (ltb (size p) 72) _ _ s
        (for_exchange-Sound sha256 my_id p (signed my_id now p) n (signed-Sound p) s)

  commited-Sound :
      (p : Packet) (n : Node)
      → SoundNode sha256 n
      → Ensures (SoundResult sha256) (commited my_id now p n)
  unfolding commited send_confirms send_packet
  commited-Sound p n s = Ensures-bind (SoundResult sha256) (data_at 20 20 p) _ λ from.
      Ensures-bind (SoundResult sha256) (uint256_at 40 p) _ λ id.
        Ensures-bind (SoundResult sha256) (uint256_at 72 p) _ λ h.
          let t = update_timestamp now (transaction id n.exchange) in
          let u = update_when_commited_received from h t n.exchange in
          let kept =
            write_back-Sound sha256 id u.1 (record n { exchange = u.0 })
              (update_when_commited-Sound from h t n.exchange sha256 s)
              (λ trade.
                commited-IsTrade
                  (update_timestamp-IsTrade
                    (subst (IsTrade id) (transaction-update_when_commited from h t n.exchange id)
                      trade)
                    now)
                  from h n.exchange) in
          either (SoundNode sha256) (u.2 && (u.1.state =s State.tr_commited)) _ _ kept kept

  pub process_transaction_commited-Sound :
      (p : Packet) (n : Node)
      → SoundNode sha256 n
      → Ensures (SoundResult sha256) (process_transaction_commited my_id now p n)
  unfolding process_transaction_commited
  process_transaction_commited-Sound p n s =
      either (Ensures (SoundResult sha256)) (not (size p == 104)) _ _ s
        (for_exchange-Sound sha256 my_id p (commited my_id now p) n (commited-Sound p) s)

  confirmed-Sound :
      (p : Packet) (n : Node)
      → SoundNode sha256 n
      → Ensures (SoundResult sha256) (confirmed my_id now p n)
  unfolding confirmed send_packet_broadcast
  confirmed-Sound p n s = Ensures-bind (SoundResult sha256) (data_at 20 20 p) _ λ from.
      Ensures-bind (SoundResult sha256) (uint256_at 40 p) _ λ id.
        let t = update_timestamp now (transaction id n.exchange) in
        let u = update_when_confirmed_received from t in
        let kept =
          write_back-Sound sha256 id u.0 n s
            (λ h. confirmed-IsTrade (update_timestamp-IsTrade h now) from) in
        either (SoundNode sha256) (u.1 && (u.0.state =s State.tr_finished)) _ _ kept kept

  pub process_transaction_confirmed-Sound :
      (p : Packet) (n : Node)
      → SoundNode sha256 n
      → Ensures (SoundResult sha256) (process_transaction_confirmed my_id now p n)
  unfolding process_transaction_confirmed
  process_transaction_confirmed-Sound p n s =
      either (Ensures (SoundResult sha256)) (not (size p == 72)) _ _ s (
        Ensures-bind_of (SoundResult sha256) (SoundResult sha256) (relay_packet my_id p n) _
          (relay_packet-Sound sha256 my_id p n s)
          λ r q. either (Ensures (SoundResult sha256)) r.1 _ _ q (confirmed-Sound p r.0 q))

pub process_bitcoin_transaction_hash-Sound :
    (sha256 : Bytes → Bytes) (p : Packet) (n : Node)
    → SoundNode sha256 n
    → Ensures (SoundResult sha256) (process_bitcoin_transaction_hash p n)
unfolding process_bitcoin_transaction_hash
process_bitcoin_transaction_hash-Sound sha256 p n s =
    either (Ensures (SoundResult sha256)) (not (size p == 32)) _ _ s (
      either (Ensures (SoundResult sha256)) (not (is_enabled n.exchange)) _ _ s (
        Ensures-bind (SoundResult sha256) (uint256_at 0 p) _
          λ h. update_transaction-IsSound sha256 h s))
