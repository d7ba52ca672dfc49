-- ===== src/App/History.antt =====
-- A history of the whole program: bytes from the network and from sockets, turns of the loop of dhtThreadProc,
-- the timer's calls (src/xbridge.cpp), and what the user does.
pub mod Dispatched
pub mod Handlers
pub mod Sound
pub mod Searches
pub mod Quiet
pub mod Once
pub mod Retry
pub mod Announce
use xhubv.Prelude.{ℕ, List, [], ◌∷◌, Bool, false, Option, none, some, Bytes, ◌>>=◌, map_option}
use xhubv.Packet.{Packet}
use xhubv.Session.{Node}
use xhubv.Session.Wallet.{request_unconfirmed_tx}
use xhubv.Session.Upkeep.{check_finished_transactions, erase_expired_pending_transactions}
use xhubv.App.{send_list_of_transactions, send_xbridge_transaction, cancel_xbridge_transaction}
use xhubv.App.Sessions.{XBridgeApp, Program, World, storage_clean, get_address_book}
use xhubv.App.Dispatch.{on_read_body, on_message_received, on_broadcast_received}
use xhubv.App.Loop.{periodic_search_done, loop_turn}

-- What the user asks for when placing an order.
pub record Wish : Type 0 where
  pub from : Bytes
  pub from_currency : Bytes
  pub from_amount : ℕ
  pub to : Bytes
  pub to_currency : Bytes
  pub to_amount : ℕ

pub data AppEvent : Type 0 where
  message : Bytes → Bytes → AppEvent
  broadcast : Bytes → AppEvent
  read_body : ℕ → Packet → AppEvent
  disconnect : ℕ → AppEvent
  search_ended turn check_finished send_list erase_expired check_unconfirmed ask_addresses :
      AppEvent
  place : Wish → AppEvent
  cancel : ℕ → AppEvent

unfoldable pub with_node : XBridgeApp → Option Node → Option XBridgeApp
with_node a r = map_option (λ n. record a { node = n }) r

module _ (g : Program) (w : World g.doubles.Double) where
  -- XBridgeApp::checkUnconfirmedTx: every session asks its own wallet.
  unfoldable pub check_unconfirmed_tx : List (Bytes × ℕ) → Node → Option Node
  check_unconfirmed_tx [] n = some n
  check_unconfirmed_tx ((c, ptr) ∷ ss) n = do
    n' ← request_unconfirmed_tx (w.rpc ptr) w.now n
    check_unconfirmed_tx ss n'

  unfoldable pub place_wish : Wish → Node → Option Node
  place_wish q n = do
    (n', id) ←
        send_xbridge_transaction w.now g.sha256 q.from q.from_currency q.from_amount q.to
          q.to_currency q.to_amount n
    some n'

  unfoldable pub happen : AppEvent → XBridgeApp → Option XBridgeApp
  unfolding with_node place_wish check_unconfirmed_tx
  happen (message id m) a = on_message_received g w id m a
  happen (broadcast m) a = on_broadcast_received g w m a
  happen (read_body ptr p) a = on_read_body g w ptr p a
  happen (disconnect ptr) a = some (storage_clean ptr a)
  happen search_ended a = periodic_search_done a
  happen turn a = loop_turn g w a
  happen check_finished a = some (record a { node = check_finished_transactions w.now a.node })
  happen send_list a = with_node a (send_list_of_transactions w.now a.node)
  happen erase_expired a =
      some (record a { node = erase_expired_pending_transactions g.sha256 w.now a.node })
  happen check_unconfirmed a = with_node a (check_unconfirmed_tx a.session_ids a.node)
  happen ask_addresses a = get_address_book g w a.session_ids a
  happen (place q) a = with_node a (place_wish q a.node)
  happen (cancel id) a = some (record a { node = (cancel_xbridge_transaction w.now id a.node).0 })

module _ (g : Program) where
  unfoldable pub live : List (World g.doubles.Double × AppEvent) → XBridgeApp → Option XBridgeApp
  unfolding happen
  live [] a = some a
  live ((w, e) ∷ es) a = do a' ← happen g w e a; live es a'
