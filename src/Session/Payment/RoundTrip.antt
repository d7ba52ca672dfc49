-- ===== src/Session/Payment/RoundTrip.antt =====
-- From the hub's create packet to the payment that the hub stores for the client that answers it.
use xhubv.Prelude.{
  ℕ, ◌+◌, ◌^◌, ◌≤◌, ◌<◌, ◌≡◌, refl, ap, ◌∙◌, List, [], ◌∷◌, ◌++◌, arith, true, false, some, Bytes,
  length, IsText, lookup, assign, ℕ-key, lookup-assign, when_some, when_false, ltb,
}
use xhubv.Packet.{Packet, XBridgeCommand, append_string}
use xhubv.Transaction.{Transaction, update_timestamp}
use xhubv.Exchange.{is_enabled, update_when_created_received}
use xhubv.Session.{Node, Descr, DescrState, send_packet, send_packet_broadcast}
use xhubv.Session.Hub.{create_packet}
use xhubv.Session.Settle.{process_transaction_created}
use xhubv.Session.Updates.{Yields}
use xhubv.Session.Wallet.{Rpc}
use xhubv.Session.Client.{answer}
use xhubv.Session.Client.Answers.{IsAnswer}
use xhubv.Session.Client.Payments.{Stored, created-Stored}
use xhubv.Session.Payment.Asked.{create_with-asked}
use xhubv.Session.Payment.{
  Doubles, Bitcoin, Codec, Unspent, Wallet, Request, TxOut, out_amount, choose, change, payment,
  refund, refund_signed, sign_payment, pay_from, create_mine, create_found, create_with,
}

-- The wallet's answers when it can pay: the coins suffice, and the payment is signed to `signed`.
pub record CanPay (f : Doubles) (b : Bitcoin) (c : Codec b.Script) (w : Wallet f.Double) (rpc : Rpc)
    (now : ℕ) (r : Request) (out : ℕ) : Type 0 where
  pub entries : List (Unspent f.Double)
  pub rest : List (TxOut b.Script)
  pub signed : Bytes
  pub refund_to : Bytes
  pub listed : w.unspent ≡ some entries
  pub enough : out ≤ (choose f w.coin out 0 entries).1
  pub changed : change f b w (choose f w.coin out 0 entries).1 out ≡ some rest
  pub signs :
      rpc.sign_raw (c.to_text (payment f b now w r (choose f w.coin out 0 entries).0 out rest))
      ≡ some signed
  pub given : w.refund_address ≡ some refund_to

module _ (f : Doubles) (b : Bitcoin) (c : Codec b.Script) (w : Wallet f.Double) (rpc : Rpc)
    (now : ℕ) (r : Request) (d : Descr)
    (can : CanPay f b c w rpc now r (out_amount f w.coin d.from_amount)) where
  abbrev out : ℕ
  out = out_amount f w.coin d.from_amount

  abbrev pub pay_text : Bytes
  pay_text = c.to_text (payment f b now w r (choose f w.coin out 0 can.entries).0 out can.rest)

  abbrev pub pay_hash : ℕ
  pay_hash = c.hash_of now can.signed

  abbrev pub refund_text : Bytes
  refund_text = c.to_text (refund f b now w r pay_hash out can.refund_to)

  abbrev pub paid_descr : Descr
  paid_descr = record d {
    pay_tx_id = pay_hash;
    pay_tx = can.signed;
    rev_tx = refund_text;
    state = DescrState.tr_created;
  }

  abbrev pub create_answer : Packet
  create_answer =
      append_string refund_text
        (append_string pay_text (answer now XBridgeCommand.xbc_transaction_created r.hub r.me r.id))

  create_mine-pays :
      (ptr : ℕ) (n : Node)
      → create_mine f b c w rpc now r ptr d n ≡ (
        send_packet_broadcast create_answer (record n { heap = assign ptr paid_descr n.heap }),
        true,
      )
  unfolding create_mine pay_from sign_payment refund_signed
  create_mine-pays ptr n =
      let fair : ltb (choose f w.coin out 0 can.entries).1 out ≡ false =
        ground (arith, can.enough) in
      when_some w.unspent _ _ can.entries can.listed
      ∙ when_false (ltb (choose f w.coin out 0 can.entries).1 out) _ _ fair
      ∙ when_some (change f b w (choose f w.coin out 0 can.entries).1 out) _ _ can.rest can.changed
      ∙ when_some (rpc.sign_raw pay_text) _ _ can.signed can.signs
      ∙ when_some w.refund_address _ _ can.refund_to can.given

  module _ (sent : ℕ) (a : IsAnswer r.hub r.me r.id) (dest : length r.dest ≡ 20)
      (lock1 : r.lock_time1 < 2 ^ 32) (lock2 : r.lock_time2 < 2 ^ 32) where
    -- A client that receives the hub's create packet for a trade of its own, and whose wallet
    -- lists enough coins, signs the payment and gives the addresses, keeps the signed payment
    -- with its hash and the refund, is in the state created, and queues one broadcast behind its
    -- messages; the hub that receives this packet stores for that client the texts of the
    -- unsigned payment and of the refund, as its update of a created trade does, with the time
    -- renewed, and keeps its wallets. Addresses have 20 bytes, the id fits 32 and the lock times
    -- 4; the two texts have no NUL and together less than 2 ^ 31 bytes; the hub's exchange is
    -- enabled and has the trade.
    pub create_answer-heard :
        (ptr : ℕ) (n h : Node) (t : Transaction) (later : ℕ)
        → lookup r.id n.my_transactions ≡ some ptr
        → lookup ptr n.heap ≡ some d
        → lookup r.id h.exchange.transactions ≡ some t
        → is_enabled h.exchange ≡ true
        → IsText pay_text
        → IsText refund_text
        → length pay_text + length refund_text < 2 ^ 31
        → (m : Node) × (create_with f b c w rpc now
              (create_packet r.hub sent r.me r.id r.dest r.lock_time1 r.lock_time2)
              n
            ≡ some (m, true))
          × (lookup ptr m.heap ≡ some paid_descr)
          × (m.messages
              ≡ n.messages ++ record { to = []; body = create_answer.body; searched = false } ∷ [])
          × Yields
              (Stored r.id
                (update_when_created_received r.me pay_text refund_text
                  (update_timestamp later t)).0
                h)
              (process_transaction_created r.hub later create_answer h)
    unfolding create_found send_packet_broadcast send_packet
    create_answer-heard ptr n h t later mine own found on text1 text2 short = (
      record n {
        heap = assign ptr paid_descr n.heap;
        messages =
            n.messages ++ record { to = []; body = create_answer.body; searched = false } ∷ [];
        signal_send = true;
      },
      create_with-asked r sent a dest lock1 lock2 f b c w rpc now n
          ∙ ap (λ o. create_found f b c w rpc now r o n) mine
          ∙ rw own (ap some (create_mine-pays ptr n)),
      ground (arith, lookup-assign ptr ptr paid_descr n.heap),
      refl,
      created-Stored r.hub r.me now later r.id t h a found on pay_text refund_text text1 text2
          short,
    )
