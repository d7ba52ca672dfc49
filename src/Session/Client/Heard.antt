-- ===== src/Session/Client/Heard.antt =====
-- The hub's handler of a client's answer against increaseStateCounter: the trade's object takes the
-- step that the counter takes for the client's address.
use xhubv.Prelude.{
  ℕ, ◌≤◌, ◌≡◌, refl, ap, ◌∙◌, arith, Bool, true, false, ◌&&◌, Option, some, Bytes, length, lookup,
  ℕ-key, lookup-assign, le→leb, if◌then◌else◌, ◌>>=◌,
}
use xhubv.Packet.{Packet, XBridgeCommand}
use xhubv.Transaction.{State, Transaction, ◌=s◌, increase_state_counter, update_timestamp}
use xhubv.Transaction.Currencies.{FitsFields, increase-FitsFields}
use xhubv.Exchange.{
  Exchange, is_enabled, transaction, store, update_when_initialized_received,
  update_when_confirmed_received, update_when_hold_apply_received,
}
use xhubv.Session.{Node, write_back, send_packet, send_packet_broadcast, currency_field}
use xhubv.Session.Hub.{
  process_transaction_initialized, initialized, send_creates, process_transaction_hold_apply,
  hold_applied, send_inits,
}
use xhubv.Session.Settle.{process_transaction_confirmed, confirmed}
use xhubv.Session.Updates.{Yields}
use xhubv.Session.Client.{answer}
use xhubv.Session.Client.Answers.{
  IsAnswer, size-answer, relay_packet-answer, for_exchange-answer, client_of-answer,
  trade_of-answer,
}

-- The trade under `id`, and the wallets, after a message of the phase `s` from `me`.
abbrev pub Heard : State → ℕ → Bytes → ℕ → Transaction → Node → Node × Bool → Type 0
Heard s now me id t n r =
    (lookup id r.0.exchange.transactions
      ≡ some (increase_state_counter s me (update_timestamp now t)).0)
    × (r.0.exchange.wallets ≡ n.exchange.wallets)

pub lookup-write_back :
    (id : ℕ) (t u : Transaction) (n : Node)
    → lookup id n.exchange.transactions ≡ some t
    → lookup id (write_back id u n).exchange.transactions ≡ some u
unfolding write_back store
lookup-write_back id t u n found = ground (arith, lookup-assign id id u n.exchange.transactions)

pub wallets-write_back :
    (id : ℕ) (u : Transaction) (n : Node)
    → (write_back id u n).exchange.wallets ≡ n.exchange.wallets
unfolding write_back store
wallets-write_back id u n = refl

pub found_transaction :
    (id : ℕ) (t : Transaction) (e : Exchange)
    → lookup id e.transactions ≡ some t
    → transaction id e ≡ t
unfolding transaction
found_transaction id t e found = rw (found, transaction)

currency_field-short : (c : Bytes) → length c ≤ 8 → (b : Bytes) × (currency_field c ≡ some b)
unfolding currency_field
currency_field-short c h = rw (le→leb (length c) 8 h) (_, refl)

send_inits-FitsFields :
    (my_id : Bytes) (now id : ℕ) (t : Transaction) (n : Node)
    → FitsFields t
    → (m : Node) × (send_inits my_id now t id n ≡ some m) × (m.exchange ≡ n.exchange)
unfolding send_inits send_packet
send_inits-FitsFields my_id now id t n f =
    rw
      (
        (currency_field-short t.source_currency f.source).1,
        (currency_field-short t.dest_currency f.dest).1,
      )
      (_, refl, refl)

send_or_keep :
    (b : Bool) (r : Option Node) (n' : Node)
    → (m : Node) × (r ≡ some m) × (m.exchange ≡ n'.exchange)
    → (m : Node) × ((if b then r else some n') ≡ some m) × (m.exchange ≡ n'.exchange)
send_or_keep true r n' h = h
send_or_keep false r n' h = (n', refl, refl)

module _ (my_id me : Bytes) (sent now id : ℕ) (c : XBridgeCommand) (t : Transaction) (n : Node)
    (a : IsAnswer my_id me id) (found : lookup id n.exchange.transactions ≡ some t) where
  abbrev p : Packet
  p = answer sent c my_id me id

  -- The object that the handler stores is the one that stands there afterwards, whether it sends or not.
  stored :
      (u : Transaction) (b : Bool) (m : Node)
      → m.exchange ≡ (write_back id u n).exchange
      → (lookup id (if b then m else write_back id u n).exchange.transactions ≡ some u)
        × ((if b then m else write_back id u n).exchange.wallets ≡ n.exchange.wallets)
  stored u true m e = (
    ap (λ x. lookup id x.transactions) e ∙ lookup-write_back id t u n found,
    ap (λ x. x.wallets) e ∙ wallets-write_back id u n,
  )
  stored u false m e = (lookup-write_back id t u n found, wallets-write_back id u n)

  abbrev stamped : Transaction
  stamped = update_timestamp now t

  initialized-Heard :
      is_enabled n.exchange ≡ true
      → Yields (Heard State.tr_hold now me id t n) (process_transaction_initialized my_id now p n)
  unfolding process_transaction_initialized initialized update_when_initialized_received
      send_creates send_packet
  initialized-Heard on = rw (size-answer sent c my_id me id a) (
      rw (for_exchange-answer sent c my_id me id a n (initialized my_id now p) on) (
        rw
          (
            client_of-answer sent c my_id me id a,
            trade_of-answer sent c my_id me id a,
            found_transaction id t n.exchange found,
          )
          (_, refl, stored (increase_state_counter State.tr_hold me stamped).0 _ _ refl)))

  confirmed-Heard :
      Yields (Heard State.tr_commited now me id t n) (process_transaction_confirmed my_id now p n)
  unfolding process_transaction_confirmed confirmed update_when_confirmed_received
      send_packet_broadcast send_packet
  confirmed-Heard = rw (size-answer sent c my_id me id a) (
      rw (relay_packet-answer sent c my_id me id a n) (
        rw
          (
            client_of-answer sent c my_id me id a,
            trade_of-answer sent c my_id me id a,
            found_transaction id t n.exchange found,
          )
          (_, refl, stored (increase_state_counter State.tr_commited me stamped).0 _ _ refl)))

  hold_apply-Heard :
      FitsFields t
      → is_enabled n.exchange ≡ true
      → Yields (Heard State.tr_joined now me id t n) (process_transaction_hold_apply my_id now p n)
  unfolding process_transaction_hold_apply hold_applied update_when_hold_apply_received
      update_timestamp
  hold_apply-Heard fits on =
      let (u, r) = increase_state_counter State.tr_joined me stamped in
      let kept : FitsFields u =
        increase-FitsFields State.tr_joined me stamped
          (record { source = fits.source; dest = fits.dest }) in
      let done = r =s State.tr_hold && u.state =s State.tr_hold in
      let sent' =
        send_or_keep done (send_inits my_id now u id (write_back id u n)) (write_back id u n)
          (send_inits-FitsFields my_id now id u (write_back id u n) kept) in
      rw (size-answer sent c my_id me id a) (
        rw (for_exchange-answer sent c my_id me id a n (hold_applied my_id now p) on) (
          rw
            (
              client_of-answer sent c my_id me id a,
              trade_of-answer sent c my_id me id a,
              found_transaction id t n.exchange found,
            )
            (
              (sent'.0, true),
              ap (λ o. o >>= λ m. some (m, true)) sent'.1,
              (
                ap (λ e. lookup id e.transactions) sent'.2 ∙ lookup-write_back id t u n found,
                ap (λ e. e.wallets) sent'.2 ∙ wallets-write_back id u n,
              ),
            )))

  -- On a client's answer that is addressed to this hub, for a trade of an enabled exchange whose
  -- currencies have at most eight bytes, the handlers of the answers hold apply, initialized and
  -- confirmed return, and the trade that stands under the id afterwards is the one that
  -- increaseStateCounter makes of the old trade, with its time renewed, for the sender that the
  -- answer names; the wallets stay.
  pub handlers_hear :
      FitsFields t
      → is_enabled n.exchange ≡ true
      → Yields (Heard State.tr_joined now me id t n) (process_transaction_hold_apply my_id now p n)
        × Yields (Heard State.tr_hold now me id t n) (process_transaction_initialized my_id now p n)
        × Yields
            (Heard State.tr_commited now me id t n)
            (process_transaction_confirmed my_id now p n)
  handlers_hear fits on = (hold_apply-Heard fits on, initialized-Heard on, confirmed-Heard)
