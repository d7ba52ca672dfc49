-- ===== src/Session/Client/Bounds.antt =====
-- The sizes that processTransactionConfirm, Created and Signed ask for, and the bytes that they read.
use xhubv.Prelude.{
  true, c_string_end, ℕ, ◌+◌, ◌≤◌, ◌<◌, ◌≡◌, refl, arith, false, none, Bytes, length, slice, ltb,
}
use xhubv.Packet.{Packet, XBridgeCommand, size, payload, text_at}
use xhubv.Packet.Append.{IsFramed}
use xhubv.Session.{Node, uint256_at}
use xhubv.Session.Client.{process_transaction_confirm, answer}
use xhubv.Exchange.{is_enabled}
use xhubv.Session.Settle.{process_transaction_created, created, process_transaction_signed, signed}
use xhubv.Session.Client.Answers.{
  IsAnswer, length-payload-answer, for_exchange-answer, size-answer, client_of-answer,
  trade_of-answer,
}
use xhubv.Session.Total.{data_inside, uint256_inside}

slice_outside : (off n : ℕ) (xs : Bytes) → length xs < off + n → slice off n xs ≡ none
unfolding slice
slice_outside off n xs h = ground arith

uint256_outside : (off : ℕ) (p : Packet) → IsFramed p → size p < off + 32 → uint256_at off p ≡ none
unfolding uint256_at
uint256_outside off p framed h =
    rw (slice_outside off 32 (payload p) (omega (arith, framed.sized))) refl

-- On a packet whose size field counts its data and is at least 72 but below 104,
-- processTransactionConfirm passes its check of the size and then reads outside the packet, for
-- every node.
pub confirm_reads_past :
    (p : Packet) (n : Node)
    → IsFramed p
    → 72 ≤ size p
    → size p < 104
    → process_transaction_confirm p n ≡ none
unfolding process_transaction_confirm
confirm_reads_past p n framed enough short =
    let large : ltb (size p) 72 ≡ false = ground arith in
    rw
      (
        large,
        (data_inside p framed 0 20 (omega arith)).1,
        (data_inside p framed 20 20 (omega arith)).1,
        (uint256_inside p framed 40 (omega arith)).1,
        uint256_outside 72 p framed (omega arith),
      )
      refl

module _ (my_id me : Bytes) (sent now id : ℕ) (c : XBridgeCommand) (n : Node)
    (a : IsAnswer my_id me id) (on : is_enabled n.exchange ≡ true) where
  abbrev p : Packet
  p = answer sent c my_id me id

  no_text : text_at 72 p ≡ none
  no_text = c_string_end 72 (payload p) (omega (arith, length-payload-answer sent c my_id me id a))

  -- On an answer addressed to this hub that ends behind the trade's id, of 72 bytes,
  -- processTransactionCreated and processTransactionSigned of an enabled exchange pass their
  -- check of the size and then read a text outside the packet.
  pub bare_answer_reads_past :
      (process_transaction_created my_id now (answer sent c my_id me id) n ≡ none)
      × (process_transaction_signed my_id now (answer sent c my_id me id) n ≡ none)
  unfolding process_transaction_created created process_transaction_signed signed
  bare_answer_reads_past = (
    rw (size-answer sent c my_id me id a) (
        rw (for_exchange-answer sent c my_id me id a n (created my_id now p) on) (
          rw (client_of-answer sent c my_id me id a, trade_of-answer sent c my_id me id a, no_text)
            refl)),
    rw (size-answer sent c my_id me id a) (
        rw (for_exchange-answer sent c my_id me id a n (signed my_id now p) on) (
          rw (client_of-answer sent c my_id me id a, trade_of-answer sent c my_id me id a, no_text)
            refl)),
  )
