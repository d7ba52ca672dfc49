-- ===== src/App/Loop.antt =====
-- The turns of XBridgeApp::dhtThreadProc (src/xbridgeapp.cpp) as far as they are about messages: the searches
-- and the queue of messages. The DHT and its sockets are left out but for what they are handed, and so is m_signalGenerate,
-- which puts the searches off by a turn: it is taken as not set.
use xhubv.Prelude.{
  ℕ, List, [], ◌∷◌, ◌++◌, true, false, Option, none, some, Bytes, bytes_eq, lookup, Bytes-key,
  if◌then◌else◌, ◌>>=◌, map_option,
}
use xhubv.Hash.{hash}
use xhubv.Session.{Message}
use xhubv.App.Sessions.{XBridgeApp, Program, World, SendResult, is_known_message}
use xhubv.App.Dispatch.{send_xbridge_message}

-- callback, at DHT_EVENT_SEARCH_DONE and DHT_EVENT_SEARCH_DONE6, with the closure `this` that dht_search is handed. The
-- other events are logged.
unfoldable pub search_done : XBridgeApp → XBridgeApp
search_done a = elim a.node.messages [
  | [] ↦ a
  | m ∷ ms ↦ record a { node = record a.node { signal_send = true } }
]

-- callback at these events with the closure that dhtThreadProc hands to dht_periodic, which is the null pointer.
unfoldable pub periodic_search_done : XBridgeApp → Option XBridgeApp
periodic_search_done a = none

-- m_processedMessages.insert of a message that has gone to the network.
unfoldable pub sent_to_network : (Bytes → Bytes) → Message → XBridgeApp → XBridgeApp
sent_to_network sha256 m a = record a {
  known = hash sha256 m.body ∷ a.known;
  network = a.network ++ m ∷ [];
}

module _ (g : Program) (w : World g.doubles.Double) where
  -- To every local client, under m_sessionsLock.
  unfoldable pub send_to_clients : List (Bytes × ℕ) → Bytes → XBridgeApp → Option XBridgeApp
  send_to_clients [] message a = some a
  send_to_clients ((c, ptr) ∷ ss) message a = do
    a' ← send_xbridge_message g w true ptr message a
    send_to_clients ss message a'

  -- The message back into the queue, to be sent when its address has been searched for.
  unfoldable pub requeue : Message → XBridgeApp → XBridgeApp
  requeue m a = record a {
    node = record a.node { messages = a.node.messages ++ record m { searched = true } ∷ [] };
    search_strings = a.search_strings ++ g.base64_encode m.to ∷ [];
    signal_search = true;
  }

  unfoldable pub send_out : SendResult → Message → XBridgeApp → XBridgeApp
  unfolding sent_to_network requeue
  send_out SendResult.sent m a = sent_to_network g.sha256 m a
  send_out SendResult.overflow m a = a
  send_out SendResult.failed m a = if m.searched then a else requeue m a

  unfoldable pub send_to_address : Message → XBridgeApp → Option XBridgeApp
  unfolding send_out
  send_to_address m a = elim (lookup m.to a.session_addrs) [
    | some ptr ↦ send_xbridge_message g w true ptr m.body a
    | none ↦ some (send_out (w.send_message m.to m.body) m a)
  ]

  unfoldable pub send_broadcast : Message → XBridgeApp → Option XBridgeApp
  unfolding send_to_clients sent_to_network
  send_broadcast m a = do
    a' ← send_to_clients a.session_ids m.body a
    some (sent_to_network g.sha256 m a')

  unfoldable pub send_one : Message → XBridgeApp → Option XBridgeApp
  unfolding send_broadcast send_to_address
  send_one m a =
      if is_known_message g.sha256 m.body a
      then some a
      else if bytes_eq m.to []
      then send_broadcast m a
      else send_to_address m a

  unfoldable pub send_messages : List Message → XBridgeApp → Option XBridgeApp
  unfolding send_one
  send_messages [] a = some a
  send_messages (m ∷ ms) a = do a' ← send_one m a; send_messages ms a'

  unfoldable pub lower_signal : XBridgeApp → XBridgeApp
  lower_signal a = record a { node = record a.node { signal_send = false } }

  -- The branch on m_signalSend. What is queued meanwhile waits, and the signal is lowered at the end.
  unfoldable pub send_turn : XBridgeApp → Option XBridgeApp
  unfolding send_messages lower_signal
  send_turn a =
      let taken = record a { node = record a.node { messages = [] } } in
      if a.node.signal_send
      then map_option lower_signal (send_messages a.node.messages taken)
      else some a

  -- dht_search of one address, over both families of addresses. If it finds one of the two searches done, it calls
  -- callback before it returns.
  unfoldable pub run_search : Bytes → XBridgeApp → XBridgeApp
  unfolding search_done
  run_search id a =
      let b = record a { searches = a.searches ++ id ∷ [] } in
      if w.search_ends id then search_done b else b

  -- The loop over m_searchStrings, which skips a text that decodes to nothing.
  unfoldable pub run_searches : List Bytes → XBridgeApp → XBridgeApp
  unfolding run_search
  run_searches [] a = a
  run_searches (s ∷ ss) a =
      let id = g.base64_decode s in run_searches ss (if bytes_eq id [] then a else run_search id a)

  -- The branch on m_signalSearch.
  unfoldable pub search_turn : XBridgeApp → XBridgeApp
  unfolding run_searches
  search_turn a =
      let b = run_searches a.search_strings a in
      if a.signal_search then record b { search_strings = []; signal_search = false } else a

  unfoldable pub loop_turn : XBridgeApp → Option XBridgeApp
  unfolding send_turn search_turn
  loop_turn a = send_turn (search_turn a)
