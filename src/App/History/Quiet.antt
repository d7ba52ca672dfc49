-- ===== src/App/History/Quiet.antt =====
-- What leaves the known messages and the network alone: the handlers, the sessions and the address book.
use xhubv.Prelude.{
  ℕ, ◌+◌, ◌≡◌, refl, List, [], ◌∷◌, Bool, true, false, not, Option, none, some, Bytes, bytes_eq,
  slice, Bytes-key, length, leb, ◌==◌,
}
use xhubv.Packet.{Packet, XBridgeCommand, size, data_at, text_at}
use xhubv.Session.{Node}
use xhubv.Session.Updates.{Ensures, Ensures-bind, Ensures-bind_of, either}
use xhubv.Session.Client.Sound.{by_lookup}
use xhubv.App.Sessions.{
  XBridgeApp, Program, World, new_session, currency_of, storage_store, storage_clean, has_address,
  store_address_book_entry, store_addresses, store_entries, request_address_book, get_address_book,
}
use xhubv.App.Dispatch.{
  on_node, process_announce_addresses, process_x_chat_message, process_address_book_entry,
  btc_currency, handler, send_xbridge_message,
}
use xhubv.App.Loop.{periodic_search_done, send_to_clients}
use xhubv.App.History.{AppEvent, with_node, happen}
use xhubv.App.History.Dispatched.{
  on_read_body-keeps, send_xbridge_message-keeps, on_broadcast_received-keeps,
  on_message_received-keeps,
}

-- What the network has been given, and what is known, are those of `a`.
pub record IsQuiet (a b : XBridgeApp) : Type 0 where
  pub known : b.known ≡ a.known
  pub network : b.network ≡ a.network

abbrev QuietStep : XBridgeApp → XBridgeApp × Bool → Type 0
QuietStep a x = IsQuiet a x.0

module _ (a b : XBridgeApp) (q : IsQuiet a b) where
  on_node-IsQuiet : (r : Option (Node × Bool)) → Ensures (QuietStep a) (on_node r b)
  unfolding on_node
  on_node-IsQuiet none = tt
  on_node-IsQuiet (some x) = record { known = q.known; network = q.network }

  storage_store-IsQuiet :
      (locked : Bool) (ptr : ℕ) (id : Bytes) → Ensures (IsQuiet a) (storage_store locked ptr id b)
  unfolding storage_store
  storage_store-IsQuiet true ptr id = tt
  storage_store-IsQuiet false ptr id = record { known = q.known; network = q.network }

  announce-IsQuiet :
      (locked : Bool) (ptr : ℕ) (p : Packet)
      → Ensures (QuietStep a) (process_announce_addresses locked ptr p b)
  unfolding process_announce_addresses
  announce-IsQuiet locked ptr p = either (Ensures (QuietStep a)) (not (size p == 20)) _ _ q (
      Ensures-bind (QuietStep a) (data_at 0 20 p) _ λ id.
        Ensures-bind_of (IsQuiet a) (QuietStep a) (storage_store locked ptr id b) _
          (storage_store-IsQuiet locked ptr id) (λ c k. k))

  chat-IsQuiet : (p : Packet) → Ensures (QuietStep a) (process_x_chat_message p b)
  unfolding process_x_chat_message
  chat-IsQuiet p = either (Ensures (QuietStep a)) (leb (size p) 20) _ _ q (
      Ensures-bind (QuietStep a) (data_at 0 20 p) _
        λ to. record { known = q.known; network = q.network })

  entry-IsQuiet : (p : Packet) → Ensures (QuietStep a) (process_address_book_entry p b)
  unfolding process_address_book_entry store_address_book_entry
  entry-IsQuiet p = Ensures-bind (QuietStep a) (text_at 0 p) _ λ currency.
      Ensures-bind (QuietStep a) (text_at (length currency + 1) p) _ λ name.
        Ensures-bind (QuietStep a) (text_at (length currency + length name + 2) p) _ λ address.
          either (IsQuiet a) (has_address address b.addresses) _ _ q
            (record { known = q.known; network = q.network })

module _ (g : Program) (w : World g.doubles.Double) (a : XBridgeApp) where
  pub handler-IsQuiet :
      (locked : Bool) (ptr : ℕ) (p : Packet) (c : XBridgeCommand) (b : XBridgeApp)
      → IsQuiet a b
      → Ensures (QuietStep a) (handler g w locked ptr p b c)
  unfolding handler
  handler-IsQuiet locked ptr p XBridgeCommand.xbc_invalid b q = q
  handler-IsQuiet locked ptr p XBridgeCommand.xbc_announce_addresses b q =
      announce-IsQuiet a b q locked ptr p
  handler-IsQuiet locked ptr p XBridgeCommand.xbc_x_chat_message b q = chat-IsQuiet a b q p
  handler-IsQuiet locked ptr p XBridgeCommand.xbc_exchange_wallets b q = q
  handler-IsQuiet locked ptr p XBridgeCommand.xbc_address_book_entry b q = entry-IsQuiet a b q p
  handler-IsQuiet locked ptr p XBridgeCommand.xbc_transaction_create b q =
      either (Ensures (QuietStep a)) (bytes_eq (currency_of ptr b) btc_currency) _ _
        (on_node-IsQuiet a b q _) (on_node-IsQuiet a b q _)
  handler-IsQuiet locked ptr p _ b q = on_node-IsQuiet a b q _

  fresh : (b : XBridgeApp) → IsQuiet a b → IsQuiet a (new_session b).0
  unfolding new_session
  fresh b q = record { known = q.known; network = q.network }

  store_addresses-IsQuiet :
      (ptr : ℕ) (ss : List Bytes) (b : XBridgeApp)
      → IsQuiet a b
      → Ensures (IsQuiet a) (store_addresses g ptr ss b)
  unfolding store_addresses
  store_addresses-IsQuiet ptr [] b q = q
  store_addresses-IsQuiet ptr (s ∷ ss) b q =
      Ensures-bind_of (IsQuiet a) (IsQuiet a) _ _
        (by_lookup (Ensures (IsQuiet a)) (g.decode_base58_check s) _ _ q λ v.
          Ensures-bind (IsQuiet a) (slice 1 20 v) _ λ id. storage_store-IsQuiet a b q false ptr id)
        (λ c k. store_addresses-IsQuiet ptr ss c k)

  store_entries-IsQuiet :
      (ptr : ℕ) (es : List (Bytes × List Bytes)) (b : XBridgeApp)
      → IsQuiet a b
      → Ensures (IsQuiet a) (store_entries g ptr es b)
  unfolding store_entries
  store_entries-IsQuiet ptr [] b q = q
  store_entries-IsQuiet ptr ((name, addrs) ∷ es) b q =
      Ensures-bind_of (IsQuiet a) (IsQuiet a) (store_addresses g ptr addrs b) _
        (store_addresses-IsQuiet ptr addrs b q) (λ c k. store_entries-IsQuiet ptr es c k)

  get_address_book-IsQuiet :
      (ss : List (Bytes × ℕ)) (b : XBridgeApp)
      → IsQuiet a b
      → Ensures (IsQuiet a) (get_address_book g w ss b)
  unfolding get_address_book request_address_book
  get_address_book-IsQuiet [] b q = q
  get_address_book-IsQuiet ((c, ptr) ∷ ss) b q =
      Ensures-bind_of (IsQuiet a) (IsQuiet a) (request_address_book g w ptr b) _
        (by_lookup (Ensures (IsQuiet a)) (w.address_book ptr) _ _ q
          λ es. store_entries-IsQuiet ptr es b q)
        (λ d k. get_address_book-IsQuiet ss d k)

  with_node-IsQuiet :
      (b : XBridgeApp) (r : Option Node) → IsQuiet a b → Ensures (IsQuiet a) (with_node b r)
  unfolding with_node
  with_node-IsQuiet b none q = tt
  with_node-IsQuiet b (some n) q = record { known = q.known; network = q.network }

  send_xbridge_message-IsQuiet :
      (ptr : ℕ) (m : Bytes) (b : XBridgeApp)
      → IsQuiet a b
      → Ensures (IsQuiet a) (send_xbridge_message g w true ptr m b)
  send_xbridge_message-IsQuiet ptr m b q =
      send_xbridge_message-keeps g (IsQuiet a) w handler-IsQuiet true ptr m b q

  pub send_to_clients-IsQuiet :
      (ss : List (Bytes × ℕ)) (m : Bytes) (b : XBridgeApp)
      → IsQuiet a b
      → Ensures (IsQuiet a) (send_to_clients g w ss m b)
  unfolding send_to_clients
  send_to_clients-IsQuiet [] m b q = q
  send_to_clients-IsQuiet ((c, ptr) ∷ ss) m b q =
      Ensures-bind_of (IsQuiet a) (IsQuiet a) (send_xbridge_message g w true ptr m b) _
        (send_xbridge_message-IsQuiet ptr m b q) (λ d k. send_to_clients-IsQuiet ss m d k)

-- All but a turn of the loop.
abbrev pub is_turn : AppEvent → Bool
is_turn AppEvent.turn = true
is_turn _ = false

module _ (g : Program) (w : World g.doubles.Double) (a : XBridgeApp) where
  self : IsQuiet a a
  self = record { known = refl; network = refl }

  pub deliver-IsQuiet :
      (ptr : ℕ) (m : Bytes) → Ensures (IsQuiet a) (send_xbridge_message g w true ptr m a)
  deliver-IsQuiet ptr m = send_xbridge_message-IsQuiet g w a ptr m a self

  pub happen-IsQuiet : (e : AppEvent) → is_turn e ≡ false → Ensures (IsQuiet a) (happen g w e a)
  unfolding happen periodic_search_done storage_clean
  happen-IsQuiet (AppEvent.message id m) e =
      on_message_received-keeps g (IsQuiet a) w (handler-IsQuiet g w a) (fresh g w a) id m a self
  happen-IsQuiet (AppEvent.broadcast m) e =
      on_broadcast_received-keeps g (IsQuiet a) w (handler-IsQuiet g w a) (fresh g w a) m a self
  happen-IsQuiet (AppEvent.read_body ptr p) e =
      on_read_body-keeps g (IsQuiet a) w (handler-IsQuiet g w a) ptr p a self
  happen-IsQuiet (AppEvent.disconnect ptr) e = record { known = refl; network = refl }
  happen-IsQuiet AppEvent.search_ended e = tt
  happen-IsQuiet AppEvent.turn e = cc
  happen-IsQuiet AppEvent.check_finished e = record { known = refl; network = refl }
  happen-IsQuiet AppEvent.send_list e = with_node-IsQuiet g w a a _ self
  happen-IsQuiet AppEvent.erase_expired e = record { known = refl; network = refl }
  happen-IsQuiet AppEvent.check_unconfirmed e = with_node-IsQuiet g w a a _ self
  happen-IsQuiet AppEvent.ask_addresses e = get_address_book-IsQuiet g w a a.session_ids a self
  happen-IsQuiet (AppEvent.place q) e = with_node-IsQuiet g w a a _ self
  happen-IsQuiet (AppEvent.cancel id) e = record { known = refl; network = refl }
