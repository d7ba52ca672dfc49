-- ===== src/Session/Payment/Sound.antt =====
-- The handlers that build payments leave the exchange alone.
use xhubv.Prelude.{ℕ, refl, List, not, Option, none, some, Bytes, lookup, ltb, ◌==◌, ℕ-key}
use xhubv.Packet.{Packet, size, data_at}
use xhubv.Session.{Node, Descr, uint256_at, uint32_at, send_packet, send_packet_broadcast}
use xhubv.Session.Upkeep.{send_cancel_transaction}
use xhubv.Session.Updates.{Ensures, Ensures-bind, either}
use xhubv.Session.Client.Sound.{Spares, by_lookup}
use xhubv.Session.Wallet.{Rpc}
use xhubv.Session.Payment.{
  Doubles, Bitcoin, Codec, Unspent, Wallet, Request, TxOut, out_amount, choose, change, payment,
  cancelled, refund_signed, sign_payment, pay_from, create_mine, create_found, create_with,
}

module _ (f : Doubles) (b : Bitcoin) (c : Codec b.Script) (w : Wallet f.Double) (rpc : Rpc)
    (now : ℕ) where
  module _ (r : Request) (ptr : ℕ) (d : Descr) (n : Node) where
    refund_signed-Spares :
        (out : ℕ) (unsigned1 signed1 : Bytes)
        → Spares n (refund_signed f b c w rpc now r ptr d n out unsigned1 signed1)
    unfolding refund_signed cancelled send_cancel_transaction send_packet_broadcast send_packet
    refund_signed-Spares out unsigned1 signed1 =
        by_lookup (Spares n) w.refund_address _ _ refl (λ addr. refl)

    sign_payment-Spares :
        (used : List (Unspent f.Double)) (out : ℕ) (rest : List (TxOut b.Script))
        → Spares n (sign_payment f b c w rpc now r ptr d n used out rest)
    unfolding sign_payment cancelled send_cancel_transaction send_packet_broadcast send_packet
    sign_payment-Spares used out rest =
        by_lookup (Spares n) (rpc.sign_raw (c.to_text (payment f b now w r used out rest))) _ _ refl
          (λ signed1. refund_signed-Spares out _ signed1)

    create_mine-Spares : Spares n (create_mine f b c w rpc now r ptr d n)
    unfolding create_mine pay_from cancelled send_cancel_transaction send_packet_broadcast
        send_packet
    create_mine-Spares = by_lookup (Spares n) w.unspent _ _ refl λ entries.
        let out = out_amount f w.coin d.from_amount in
        either (Spares n) (ltb (choose f w.coin out 0 entries).1 out) _ _ refl (
          by_lookup (Spares n) (change f b w (choose f w.coin out 0 entries).1 out) _ _ refl
            λ rest. sign_payment-Spares (choose f w.coin out 0 entries).0 out rest)

  create_found-Spares :
      (r : Request) (o : Option ℕ) (n : Node)
      → Ensures (Spares n) (create_found f b c w rpc now r o n)
  unfolding create_found
  create_found-Spares r none n = refl
  create_found-Spares r (some ptr) n =
      Ensures-bind (Spares n) (lookup ptr n.heap) _ λ d. create_mine-Spares r ptr d n

  pub create_with-Spares :
      (p : Packet) (n : Node) → Ensures (Spares n) (create_with f b c w rpc now p n)
  unfolding create_with
  create_with-Spares p n = either (Ensures (Spares n)) (not (size p == 100)) _ _ refl (
      Ensures-bind (Spares n) (data_at 0 20 p) _ λ me.
        Ensures-bind (Spares n) (data_at 20 20 p) _ λ hub.
          Ensures-bind (Spares n) (uint256_at 40 p) _ λ id.
            Ensures-bind (Spares n) (data_at 72 20 p) _ λ dest.
              Ensures-bind (Spares n) (uint32_at 92 p) _ λ lock1.
                Ensures-bind (Spares n) (uint32_at 96 p) _
                  λ lock2. create_found-Spares _ (lookup id n.my_transactions) n)
