-- ===== src/App/History/Sound.antt =====
-- Whatever happens to the program, the exchange stays sound.
use xhubv.Prelude.{
  ℕ, ◌≡◌, refl, subst, sym, List, [], ◌∷◌, Bool, true, false, Option, none, some, Bytes, bytes_eq,
  slice, lookup, ℕ-key, Bytes-key, map_option, length, ltb, ◌||◌,
}
use xhubv.Packet.{Packet, XBridgeCommand}
use xhubv.Exchange.Invariant.{IsSound}
use xhubv.Session.{Node, Message, DescrState, send_packet}
use xhubv.Session.Wallet.{request_unconfirmed_tx}
use xhubv.Session.Wallet.Sound.{request_unconfirmed_tx-Spares}
use xhubv.Session.Upkeep.Cancel.{exchange-set_descr_state}
use xhubv.Session.Upkeep.Sound.{
  check_finished_transactions-Sound, erase_expired_pending_transactions-Sound,
}
use xhubv.Session.Updates.{Ensures, Ensures-bind, Ensures-bind_of, SoundNode, either}
use xhubv.Session.History.{spared_node}
use xhubv.Session.Client.Sound.{by_lookup}
use xhubv.App.{send_xbridge_transaction, cancel_xbridge_transaction}
use xhubv.App.Sound.{send_pending_transaction-Sound, send_list_of_transactions-Sound}
use xhubv.App.Sessions.{
  XBridgeApp, Program, World, SendResult, new_session, storage_clean, is_known_message,
  store_addresses, store_entries, request_address_book, get_address_book,
}
use xhubv.App.Dispatch.{handler, send_xbridge_message}
use xhubv.App.Loop.{
  sent_to_network, send_to_clients, requeue, send_out, send_to_address, send_broadcast, send_one,
  send_messages, periodic_search_done, lower_signal, send_turn, search_turn, loop_turn,
}
use xhubv.App.History.{AppEvent, Wish, with_node, check_unconfirmed_tx, place_wish, happen, live}
use xhubv.App.History.Dispatched.{
  on_read_body-keeps, send_xbridge_message-keeps, on_broadcast_received-keeps,
  on_message_received-keeps,
}
use xhubv.App.History.Searches.{search_turn-keeps}
use xhubv.App.History.Handlers.{SoundApp, storage_store-Sound, handler-Sound}

module _ (g : Program) where
  abbrev P : XBridgeApp → Type 0
  P = SoundApp g.sha256

  abbrev N : Node → Type 0
  N = SoundNode g.sha256

  with_node-Sound : (a : XBridgeApp) (r : Option Node) → Ensures N r → Ensures P (with_node a r)
  unfolding with_node
  with_node-Sound a none h = tt
  with_node-Sound a (some n) h = h

  fresh : (a : XBridgeApp) → P a → P (new_session a).0
  unfolding new_session
  fresh a h = h

  module _ (w : World g.doubles.Double) where
    kept :
        (locked : Bool) (ptr : ℕ) (p : Packet) (c : XBridgeCommand) (a : XBridgeApp)
        → P a
        → Ensures (λ x. P x.0) (handler g w locked ptr p a c)
    kept locked ptr p c a h = handler-Sound g w locked ptr p c a h

    send_xbridge_message-Sound :
        (ptr : ℕ) (m : Bytes) (a : XBridgeApp)
        → P a
        → Ensures P (send_xbridge_message g w true ptr m a)
    send_xbridge_message-Sound ptr m a h = send_xbridge_message-keeps g P w kept true ptr m a h

    send_to_clients-Sound :
        (ss : List (Bytes × ℕ)) (m : Bytes) (a : XBridgeApp)
        → P a
        → Ensures P (send_to_clients g w ss m a)
    unfolding send_to_clients
    send_to_clients-Sound [] m a h = h
    send_to_clients-Sound ((c, ptr) ∷ ss) m a h =
        Ensures-bind_of P P (send_xbridge_message g w true ptr m a) _
          (send_xbridge_message-Sound ptr m a h) (λ b q. send_to_clients-Sound ss m b q)

    send_out-Sound : (r : SendResult) (m : Message) (a : XBridgeApp) → P a → P (send_out g w r m a)
    unfolding send_out sent_to_network requeue
    send_out-Sound SendResult.sent m a h = h
    send_out-Sound SendResult.overflow m a h = h
    send_out-Sound SendResult.failed m a h = either P m.searched _ _ h h

    send_one-Sound : (m : Message) (a : XBridgeApp) → P a → Ensures P (send_one g w m a)
    unfolding send_one send_broadcast send_to_address sent_to_network
    send_one-Sound m a h = either (Ensures P) (is_known_message g.sha256 m.body a) _ _ h (
        either (Ensures P) (bytes_eq m.to []) _ _
          (Ensures-bind_of P P (send_to_clients g w a.session_ids m.body a) _
            (send_to_clients-Sound a.session_ids m.body a h) (λ b q. q))
          (by_lookup (Ensures P) (lookup m.to a.session_addrs) _ _
            (send_out-Sound (w.send_message m.to m.body) m a h)
            (λ ptr. send_xbridge_message-Sound ptr m.body a h)))

    send_messages-Sound :
        (ms : List Message) (a : XBridgeApp) → P a → Ensures P (send_messages g w ms a)
    unfolding send_messages
    send_messages-Sound [] a h = h
    send_messages-Sound (m ∷ ms) a h =
        Ensures-bind_of P P (send_one g w m a) _ (send_one-Sound m a h)
          (λ b q. send_messages-Sound ms b q)

    lowered : (r : Option XBridgeApp) → Ensures P r → Ensures P (map_option (lower_signal g w) r)
    unfolding lower_signal
    lowered none h = tt
    lowered (some a) h = h

    loop_turn-Sound : (a : XBridgeApp) → P a → Ensures P (loop_turn g w a)
    unfolding loop_turn send_turn
    loop_turn-Sound a h =
        let s : P (search_turn g w a) =
          search_turn-keeps P (record { raised = λ b q. q; moved = λ b ids strings signal q. q }) g
            w a h in
        let b = search_turn g w a in
        either (Ensures P) b.node.signal_send _ _
          (lowered _ (send_messages-Sound b.node.messages _ s)) s

    store_addresses-Sound :
        (ptr : ℕ) (ss : List Bytes) (a : XBridgeApp) → P a → Ensures P (store_addresses g ptr ss a)
    unfolding store_addresses
    store_addresses-Sound ptr [] a h = h
    store_addresses-Sound ptr (s ∷ ss) a h =
        Ensures-bind_of P P _ _
          (by_lookup (Ensures P) (g.decode_base58_check s) _ _ h λ v.
            Ensures-bind P (slice 1 20 v) _ λ id. storage_store-Sound g.sha256 false ptr id a h)
          (λ b q. store_addresses-Sound ptr ss b q)

    store_entries-Sound :
        (ptr : ℕ) (es : List (Bytes × List Bytes)) (a : XBridgeApp)
        → P a
        → Ensures P (store_entries g ptr es a)
    unfolding store_entries
    store_entries-Sound ptr [] a h = h
    store_entries-Sound ptr ((name, addrs) ∷ es) a h =
        Ensures-bind_of P P (store_addresses g ptr addrs a) _ (store_addresses-Sound ptr addrs a h)
          (λ b q. store_entries-Sound ptr es b q)

    get_address_book-Sound :
        (ss : List (Bytes × ℕ)) (a : XBridgeApp) → P a → Ensures P (get_address_book g w ss a)
    unfolding get_address_book request_address_book
    get_address_book-Sound [] a h = h
    get_address_book-Sound ((c, ptr) ∷ ss) a h =
        Ensures-bind_of P P (request_address_book g w ptr a) _
          (by_lookup (Ensures P) (w.address_book ptr) _ _ h λ es. store_entries-Sound ptr es a h)
          (λ b q. get_address_book-Sound ss b q)

    check_unconfirmed_tx-Sound :
        (ss : List (Bytes × ℕ)) (n : Node) → N n → Ensures N (check_unconfirmed_tx g w ss n)
    unfolding check_unconfirmed_tx
    check_unconfirmed_tx-Sound [] n h = h
    check_unconfirmed_tx-Sound ((c, ptr) ∷ ss) n h =
        Ensures-bind_of N N (request_unconfirmed_tx (w.rpc ptr) w.now n) _
          (spared_node g.sha256 (w.rpc ptr) g.my_id _ n
            (request_unconfirmed_tx-Spares (w.rpc ptr) w.now n) h)
          (λ m q. check_unconfirmed_tx-Sound ss m q)

    place_wish-Sound : (q : Wish) (n : Node) → N n → Ensures N (place_wish g w q n)
    unfolding place_wish send_xbridge_transaction
    place_wish-Sound q n h =
        Ensures-bind_of (λ x. N x.0) N _ _
          (either (Ensures (λ x. N x.0))
            (ltb 8 (length q.from_currency) || ltb 8 (length q.to_currency)) _ _ h
            (Ensures-bind_of N (λ x. N x.0) _ _
              (send_pending_transaction-Sound g.sha256 w.now n.next _ h) (λ m k. k)))
          (λ x k. k)

    cancel-Sound : (id : ℕ) (n : Node) → N n → N (cancel_xbridge_transaction w.now id n).0
    unfolding cancel_xbridge_transaction send_packet
    cancel-Sound id n h =
        subst (IsSound g.sha256)
          (sym (
            by_lookup (λ (m : Node). m.exchange ≡ n.exchange) (lookup id n.my_transactions) _ _ refl
              λ ptr. exchange-set_descr_state ptr DescrState.tr_cancelled _))
          h

    happen-Sound : (e : AppEvent) (a : XBridgeApp) → P a → Ensures P (happen g w e a)
    unfolding happen periodic_search_done storage_clean
    happen-Sound (AppEvent.message id m) a h = on_message_received-keeps g P w kept fresh id m a h
    happen-Sound (AppEvent.broadcast m) a h = on_broadcast_received-keeps g P w kept fresh m a h
    happen-Sound (AppEvent.read_body ptr p) a h = on_read_body-keeps g P w kept ptr p a h
    happen-Sound (AppEvent.disconnect ptr) a h = h
    happen-Sound AppEvent.search_ended a h = tt
    happen-Sound AppEvent.turn a h = loop_turn-Sound a h
    happen-Sound AppEvent.check_finished a h =
        check_finished_transactions-Sound g.sha256 w.now a.node h
    happen-Sound AppEvent.send_list a h =
        with_node-Sound a _ (send_list_of_transactions-Sound g.sha256 w.now a.node h)
    happen-Sound AppEvent.erase_expired a h =
        erase_expired_pending_transactions-Sound g.sha256 w.now a.node h
    happen-Sound AppEvent.check_unconfirmed a h =
        with_node-Sound a _ (check_unconfirmed_tx-Sound a.session_ids a.node h)
    happen-Sound AppEvent.ask_addresses a h = get_address_book-Sound a.session_ids a h
    happen-Sound (AppEvent.place q) a h = with_node-Sound a _ (place_wish-Sound q a.node h)
    happen-Sound (AppEvent.cancel id) a h = cancel-Sound id a.node h

  -- Any sequence of what can happen to the program - bytes from the network addressed to anybody
  -- or broadcast, packets from sockets for any session, disconnections, turns of the message
  -- loop, the timer's calls, and orders and cancellations of the user - that starts from a sound
  -- exchange ends in a sound exchange, whatever the wallets and the network answer at each
  -- event, unless a handler reads or writes outside a buffer, a search ends in dht_periodic,
  -- whose callback reads through a null pointer, or a thread waits for a lock of its own, on the
  -- way. Sound is as for the packets of a node: every order under its hash1, every trade under
  -- its id, in a state of its kind, no key twice.
  pub live-Sound :
      (es : List (World g.doubles.Double × AppEvent)) (a : XBridgeApp)
      → SoundApp g.sha256 a
      → Ensures (SoundApp g.sha256) (live g es a)
  unfolding live
  live-Sound [] a h = h
  live-Sound ((w, e) ∷ es) a h =
      Ensures-bind_of P P (happen g w e a) _ (happen-Sound w e a h) (λ b q. live-Sound es b q)
