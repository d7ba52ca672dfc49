-- ===== src/App/Dispatch.antt =====
-- XBridgeSession::processPacket with the table of handlers that init() fills, the handlers of announcements,
-- chat messages and address book entries (src/xbridgesession.cpp), and the ways by which a packet comes to
-- a session: the network's messages and broadcasts (src/xbridgeapp.cpp) and a socket.
use xhubv.Prelude.{
  ℕ, ◌+◌, List, [], ◌∷◌, Bool, true, false, not, Option, none, some, Bytes, bytes_eq, length,
  lookup, ℕ-key, Bytes-key, ltb, leb, ◌==◌, if◌then◌else◌, ◌>>=◌,
}
use xhubv.Packet.{Packet, XBridgeCommand, command_code, command, size, data_at, text_at, copy_from}
use xhubv.Session.{Node, send_packet, check_packet_version}
use xhubv.Session.Hub.{
  process_transaction, process_transaction_hold_apply, process_transaction_initialized,
}
use xhubv.Session.Settle.{
  process_transaction_created, process_transaction_signed, process_transaction_commited,
  process_transaction_confirmed, process_bitcoin_transaction_hash,
}
use xhubv.Session.Upkeep.{process_transaction_cancel}
use xhubv.Session.Client.{
  process_transaction_hold, process_transaction_init, process_transaction_confirm,
  process_transaction_finished, process_transaction_dropped, process_pending_transaction,
}
use xhubv.Session.Wallet.{
  process_transaction_sign, process_transaction_commit, process_transaction_rollback,
}
use xhubv.Session.Payment.{process_transaction_create, process_transaction_create_btc}
use xhubv.App.Sessions.{
  XBridgeApp, Program, World, new_session, currency_of, storage_store, store_address_book_entry,
}

-- A handler that works on the node alone.
unfoldable pub on_node : Option (Node × Bool) → XBridgeApp → Option (XBridgeApp × Bool)
on_node none a = none
on_node (some (n, done)) a = some (record a { node = n }, done)

unfoldable pub process_invalid : Packet → XBridgeApp → Option (XBridgeApp × Bool)
process_invalid p a = some (a, true)

-- `locked`: the caller holds m_sessionsLock.
unfoldable pub process_announce_addresses :
    Bool → ℕ → Packet → XBridgeApp → Option (XBridgeApp × Bool)
process_announce_addresses locked ptr p a =
    if not (size p == 20)
    then some (a, false)
    else do id ← data_at 0 20 p; a' ← storage_store locked ptr id a; some (a', true)

unfoldable pub process_x_chat_message : Packet → XBridgeApp → Option (XBridgeApp × Bool)
process_x_chat_message p a =
    if leb (size p) 20
    then some (a, false)
    else do to ← data_at 0 20 p; some (record a { node = send_packet to p a.node }, true)

unfoldable pub process_address_book_entry : Packet → XBridgeApp → Option (XBridgeApp × Bool)
process_address_book_entry p a = do
  currency ← text_at 0 p
  name ← text_at (length currency + 1) p
  address ← text_at (length currency + length name + 2) p
  some (
    store_address_book_entry (record { currency = currency; name = name; address = address }) a,
    true,
  )

-- The commands for which init() binds a handler.
unfoldable pub processors : List XBridgeCommand
processors =
    XBridgeCommand.xbc_invalid ∷ XBridgeCommand.xbc_announce_addresses
    ∷ XBridgeCommand.xbc_transaction ∷ XBridgeCommand.xbc_pending_transaction
    ∷ XBridgeCommand.xbc_transaction_hold ∷ XBridgeCommand.xbc_transaction_hold_apply
    ∷ XBridgeCommand.xbc_transaction_init ∷ XBridgeCommand.xbc_transaction_initialized
    ∷ XBridgeCommand.xbc_transaction_create ∷ XBridgeCommand.xbc_transaction_created
    ∷ XBridgeCommand.xbc_transaction_sign ∷ XBridgeCommand.xbc_transaction_signed
    ∷ XBridgeCommand.xbc_transaction_commit ∷ XBridgeCommand.xbc_transaction_commited
    ∷ XBridgeCommand.xbc_transaction_confirm ∷ XBridgeCommand.xbc_transaction_cancel
    ∷ XBridgeCommand.xbc_transaction_rollback ∷ XBridgeCommand.xbc_transaction_finished
    ∷ XBridgeCommand.xbc_transaction_dropped ∷ XBridgeCommand.xbc_transaction_confirmed
    ∷ XBridgeCommand.xbc_received_transaction ∷ XBridgeCommand.xbc_address_book_entry
    ∷ XBridgeCommand.xbc_x_chat_message ∷ []

-- The bound command with the code `c`: m_processors.count(c).
unfoldable pub find_processor : ℕ → List XBridgeCommand → Option XBridgeCommand
find_processor c [] = none
find_processor c (x ∷ xs) = if command_code x == c then some x else find_processor c xs

-- "BTC"
abbrev pub btc_currency : Bytes
btc_currency = 66 ∷ 84 ∷ 67 ∷ []

module _ (g : Program) (w : World g.doubles.Double) (locked : Bool) (ptr : ℕ) (p : Packet)
    (a : XBridgeApp) where
  abbrev n : Node
  n = a.node

  -- The handler that init() binds to a command; xbcExchangeWallets has none.
  unfoldable pub handler : XBridgeCommand → Option (XBridgeApp × Bool)
  unfolding process_invalid process_announce_addresses process_x_chat_message
      process_address_book_entry on_node
  handler XBridgeCommand.xbc_invalid = process_invalid p a
  handler XBridgeCommand.xbc_announce_addresses = process_announce_addresses locked ptr p a
  handler XBridgeCommand.xbc_x_chat_message = process_x_chat_message p a
  handler XBridgeCommand.xbc_transaction =
      on_node (process_transaction g.my_id w.now g.sha256 p n) a
  handler XBridgeCommand.xbc_transaction_hold = on_node (process_transaction_hold w.now p n) a
  handler XBridgeCommand.xbc_transaction_hold_apply =
      on_node (process_transaction_hold_apply g.my_id w.now p n) a
  handler XBridgeCommand.xbc_transaction_init = on_node (process_transaction_init w.now p n) a
  handler XBridgeCommand.xbc_transaction_initialized =
      on_node (process_transaction_initialized g.my_id w.now p n) a
  handler XBridgeCommand.xbc_transaction_create =
      if bytes_eq (currency_of ptr a) btc_currency
      then on_node
          (process_transaction_create_btc g.doubles g.bitcoin (w.wallet ptr) (w.rpc ptr) w.now p n)
          a
      else on_node
          (process_transaction_create g.doubles g.bitcoin (w.wallet ptr) (w.rpc ptr) w.now p n) a
  handler XBridgeCommand.xbc_transaction_created =
      on_node (process_transaction_created g.my_id w.now p n) a
  handler XBridgeCommand.xbc_transaction_sign =
      on_node (process_transaction_sign (w.rpc ptr) w.now p n) a
  handler XBridgeCommand.xbc_transaction_signed =
      on_node (process_transaction_signed g.my_id w.now p n) a
  handler XBridgeCommand.xbc_transaction_commit =
      on_node (process_transaction_commit (w.rpc ptr) w.now p n) a
  handler XBridgeCommand.xbc_transaction_commited =
      on_node (process_transaction_commited g.my_id w.now p n) a
  handler XBridgeCommand.xbc_transaction_confirm = on_node (process_transaction_confirm p n) a
  handler XBridgeCommand.xbc_transaction_confirmed =
      on_node (process_transaction_confirmed g.my_id w.now p n) a
  handler XBridgeCommand.xbc_transaction_cancel = on_node (process_transaction_cancel p n) a
  handler XBridgeCommand.xbc_transaction_rollback =
      on_node (process_transaction_rollback (w.rpc ptr) p n) a
  handler XBridgeCommand.xbc_transaction_finished = on_node (process_transaction_finished p n) a
  handler XBridgeCommand.xbc_transaction_dropped = on_node (process_transaction_dropped p n) a
  handler XBridgeCommand.xbc_exchange_wallets = process_invalid p a
  handler XBridgeCommand.xbc_received_transaction = on_node (process_bitcoin_transaction_hash p n) a
  handler XBridgeCommand.xbc_pending_transaction = on_node (process_pending_transaction p n) a
  handler XBridgeCommand.xbc_address_book_entry = process_address_book_entry p a

  unfoldable pub process_packet : Option (XBridgeApp × Bool)
  unfolding handler find_processor processors
  process_packet = elim (find_processor (command p) processors) [
    | none ↦ some (a, false)
    | some c ↦ handler c
  ]

module _ (g : Program) (w : World g.doubles.Double) where
  -- XBridgeSession::sendXBridgeMessage(message), for the session `ptr`; the result is not used.
  unfoldable pub send_xbridge_message : Bool → ℕ → Bytes → XBridgeApp → Option XBridgeApp
  unfolding process_packet
  send_xbridge_message locked ptr message a = do
    p ← copy_from message
    (a', done) ← process_packet g w locked ptr p a
    some a'

  -- onReadBody, behind the check of onReadHeader; a session with another version is disconnected.
  unfoldable pub on_read_body : ℕ → Packet → XBridgeApp → Option XBridgeApp
  unfolding process_packet
  on_read_body ptr p a = do (a', done) ← process_packet g w false ptr p a; some a'

  -- m_sessionsLock is held to the end of the function. The log reads 20 bytes of the id.
  unfoldable pub on_message_received : Bytes → Bytes → XBridgeApp → Option XBridgeApp
  unfolding process_packet new_session
  on_message_received id message a = if ltb (length id) 20 then none else do
    p ← copy_from message
    let (b, fresh) = new_session a
    let mine = do (a', done) ← process_packet g w true fresh p b; some a'
    if not (check_packet_version p) then some a else elim (lookup id a.session_addrs) [
      | some ptr ↦ do (a', done) ← process_packet g w true ptr p a; some a'
      | none ↦ if bytes_eq id g.my_id then mine else some a
    ]

  unfoldable pub on_broadcast_received : Bytes → XBridgeApp → Option XBridgeApp
  unfolding process_packet new_session
  on_broadcast_received message a = do
    p ← copy_from message
    let (b, fresh) = new_session a
    (a', done) ← process_packet g w false fresh p b
    some a'
