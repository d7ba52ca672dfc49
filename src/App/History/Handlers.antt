-- ===== src/App/History/Handlers.antt =====
-- What a handler does to the program's state is what it does to the node, but for announcements and the
-- address book; and no handler leaves the exchange unsound.
use xhubv.Prelude.{
  ℕ, ◌+◌, ◌≡◌, refl, Bool, true, false, not, Option, none, some, Bytes, bytes_eq, length, leb, ◌==◌,
  subst, sym,
}
use xhubv.Packet.{Packet, XBridgeCommand, size, data_at, text_at}
use xhubv.Session.{Node, send_packet}
use xhubv.Session.Updates.{Ensures, Ensures-bind, Ensures-bind_of, SoundNode, either}
use xhubv.Session.History.{Event, handle, handle-Sound, ran, spared}
use xhubv.Session.Payment.{process_transaction_create, process_transaction_create_btc}
use xhubv.Session.Payment.Sound.{create_with-Spares}
use xhubv.App.Sessions.{
  XBridgeApp, Program, World, currency_of, storage_store, has_address, store_address_book_entry,
}
use xhubv.App.Dispatch.{
  on_node, process_announce_addresses, process_x_chat_message, process_address_book_entry,
  btc_currency, handler,
}

module _ (sha256 : Bytes → Bytes) where
  abbrev pub SoundApp : XBridgeApp → Type 0
  SoundApp a = SoundNode sha256 a.node

  abbrev SoundStep : XBridgeApp × Bool → Type 0
  SoundStep x = SoundApp x.0

  on_node-Sound :
      (r : Option (Node × Bool)) (a : XBridgeApp)
      → Ensures (SoundNode sha256) (ran r)
      → Ensures SoundStep (on_node r a)
  unfolding on_node
  on_node-Sound none a h = tt
  on_node-Sound (some x) a h = h

  pub storage_store-Sound :
      (locked : Bool) (ptr : ℕ) (id : Bytes) (a : XBridgeApp)
      → SoundApp a
      → Ensures SoundApp (storage_store locked ptr id a)
  unfolding storage_store
  storage_store-Sound true ptr id a h = tt
  storage_store-Sound false ptr id a h = h

  announce-Sound :
      (locked : Bool) (ptr : ℕ) (p : Packet) (a : XBridgeApp)
      → SoundApp a
      → Ensures SoundStep (process_announce_addresses locked ptr p a)
  unfolding process_announce_addresses
  announce-Sound locked ptr p a h = either (Ensures SoundStep) (not (size p == 20)) _ _ h (
      Ensures-bind SoundStep (data_at 0 20 p) _ λ id.
        Ensures-bind_of SoundApp SoundStep (storage_store locked ptr id a) _
          (storage_store-Sound locked ptr id a h) (λ b q. q))

  chat-Sound :
      (p : Packet) (a : XBridgeApp) → SoundApp a → Ensures SoundStep (process_x_chat_message p a)
  unfolding process_x_chat_message send_packet
  chat-Sound p a h =
      either (Ensures SoundStep) (leb (size p) 20) _ _ h
        (Ensures-bind SoundStep (data_at 0 20 p) _ λ to. h)

  entry-Sound :
      (p : Packet) (a : XBridgeApp)
      → SoundApp a
      → Ensures SoundStep (process_address_book_entry p a)
  unfolding process_address_book_entry store_address_book_entry
  entry-Sound p a h = Ensures-bind SoundStep (text_at 0 p) _ λ currency.
      Ensures-bind SoundStep (text_at (length currency + 1) p) _ λ name.
        Ensures-bind SoundStep (text_at (length currency + length name + 2) p) _
          λ address. either SoundApp (has_address address a.addresses) _ _ h h

module _ (g : Program) (w : World g.doubles.Double) (locked : Bool) (ptr : ℕ) (p : Packet) where
  abbrev Sound : XBridgeApp → Type 0
  Sound = SoundApp g.sha256

  by_event :
      (e : Event) (r : Option (Node × Bool)) (a : XBridgeApp)
      → ran r ≡ handle g.sha256 (w.rpc ptr) g.my_id w.now e a.node
      → Sound a
      → Ensures (λ x. Sound x.0) (on_node r a)
  by_event e r a same h = on_node-Sound g.sha256 r a (
      subst (Ensures (SoundNode g.sha256)) (sym same)
        (handle-Sound g.sha256 (w.rpc ptr) g.my_id w.now e a.node h))

  pub handler-Sound :
      (c : XBridgeCommand) (a : XBridgeApp)
      → Sound a
      → Ensures (λ x. Sound x.0) (handler g w locked ptr p a c)
  unfolding handler handle process_transaction_create process_transaction_create_btc
  handler-Sound XBridgeCommand.xbc_invalid a h = h
  handler-Sound XBridgeCommand.xbc_announce_addresses a h = announce-Sound g.sha256 locked ptr p a h
  handler-Sound XBridgeCommand.xbc_x_chat_message a h = chat-Sound g.sha256 p a h
  handler-Sound XBridgeCommand.xbc_transaction a h = by_event (Event.transaction p) _ a refl h
  handler-Sound XBridgeCommand.xbc_transaction_hold a h = by_event (Event.hold p) _ a refl h
  handler-Sound XBridgeCommand.xbc_transaction_hold_apply a h =
      by_event (Event.hold_apply p) _ a refl h
  handler-Sound XBridgeCommand.xbc_transaction_init a h = by_event (Event.init p) _ a refl h
  handler-Sound XBridgeCommand.xbc_transaction_initialized a h =
      by_event (Event.initialized p) _ a refl h
  handler-Sound XBridgeCommand.xbc_transaction_create a h =
      either (Ensures (λ x. Sound x.0)) (bytes_eq (currency_of ptr a) btc_currency) _ _
        (on_node-Sound g.sha256 _ a (
          spared g.sha256 (w.rpc ptr) g.my_id _ a.node
            (create_with-Spares g.doubles g.bitcoin g.bitcoin.btc (w.wallet ptr) (w.rpc ptr) w.now p
              a.node)
            h))
        (on_node-Sound g.sha256 _ a (
          spared g.sha256 (w.rpc ptr) g.my_id _ a.node
            (create_with-Spares g.doubles g.bitcoin g.bitcoin.plain (w.wallet ptr) (w.rpc ptr) w.now
              p a.node)
            h))
  handler-Sound XBridgeCommand.xbc_transaction_created a h = by_event (Event.created p) _ a refl h
  handler-Sound XBridgeCommand.xbc_transaction_sign a h = by_event (Event.sign p) _ a refl h
  handler-Sound XBridgeCommand.xbc_transaction_signed a h = by_event (Event.signed p) _ a refl h
  handler-Sound XBridgeCommand.xbc_transaction_commit a h = by_event (Event.commit p) _ a refl h
  handler-Sound XBridgeCommand.xbc_transaction_commited a h = by_event (Event.commited p) _ a refl h
  handler-Sound XBridgeCommand.xbc_transaction_confirm a h = by_event (Event.confirm p) _ a refl h
  handler-Sound XBridgeCommand.xbc_transaction_confirmed a h =
      by_event (Event.confirmed p) _ a refl h
  handler-Sound XBridgeCommand.xbc_transaction_cancel a h = by_event (Event.cancel p) _ a refl h
  handler-Sound XBridgeCommand.xbc_transaction_rollback a h = by_event (Event.rollback p) _ a refl h
  handler-Sound XBridgeCommand.xbc_transaction_finished a h = by_event (Event.finished p) _ a refl h
  handler-Sound XBridgeCommand.xbc_transaction_dropped a h = by_event (Event.dropped p) _ a refl h
  handler-Sound XBridgeCommand.xbc_exchange_wallets a h = h
  handler-Sound XBridgeCommand.xbc_received_transaction a h =
      by_event (Event.received_hash p) _ a refl h
  handler-Sound XBridgeCommand.xbc_pending_transaction a h = by_event (Event.pending p) _ a refl h
  handler-Sound XBridgeCommand.xbc_address_book_entry a h = entry-Sound g.sha256 p a h
