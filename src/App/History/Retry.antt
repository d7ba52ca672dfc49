-- ===== src/App/History/Retry.antt =====
-- What becomes of a message whose address is not found: dhtThreadProc puts it back and searches.
use xhubv.Prelude.{
  ◌≡◌, refl, ap, sym, ◌∙◌, List, [], ◌∷◌, ◌++◌, true, false, none, some, Bytes, bytes_eq, lookup,
  Bytes-key, ◌>>=◌, map_option, when_false, when_true, when_none,
}
use mathlib.Core.List.{append-nil}
use xhubv.Session.{Message}
use xhubv.Session.Updates.{either}
use xhubv.App.Sessions.{XBridgeApp, Program, World, SendResult, is_known_message}
use xhubv.App.Loop.{
  search_done, run_search, run_searches, requeue, sent_to_network, send_out, send_to_address,
  send_one, send_messages, lower_signal, send_turn, search_turn, loop_turn,
}
use xhubv.App.History.{AppEvent, happen, live}
use xhubv.App.History.Searches.{IsApart, run_search-keeps, search_turn-keeps}

-- What the network takes of a message by its answer.
unfoldable pub given : SendResult → Message → List Message
given SendResult.sent m = m ∷ []
given _ m = []

module _ (g : Program) where
  -- The message `m` is the whole queue, has not been searched for, and its address is not found.
  pub record IsLost (w : World g.doubles.Double) (m : Message) (a : XBridgeApp) : Type 0 where
    pub queued : a.node.messages ≡ m ∷ []
    pub raised : a.node.signal_send ≡ true
    pub first : m.searched ≡ false
    pub new : is_known_message g.sha256 m.body a ≡ false
    pub addressed : bytes_eq m.to [] ≡ false
    pub remote : lookup m.to a.session_addrs ≡ none
    pub not_found : w.send_message m.to m.body ≡ SendResult.failed

  -- What the turn leaves of a lost message: it is queued once more, and its address is to be searched for.
  record IsWaiting (m : Message) (a b : XBridgeApp) : Type 0 where
    queue : b.node.messages ≡ record m { searched = true } ∷ []
    known : b.known ≡ a.known
    addresses : b.session_addrs ≡ a.session_addrs
    network : b.network ≡ a.network
    strings : (ss : List Bytes) × (b.search_strings ≡ ss ++ g.base64_encode m.to ∷ [])
    searching : b.signal_search ≡ true

  module _ (w : World g.doubles.Double) (m : Message) where
    IsLost-IsApart : IsApart (IsLost w m)
    unfolding is_known_message
    IsLost-IsApart = record {
      raised = λ b l. record {
        queued = l.queued;
        raised = refl;
        first = l.first;
        new = l.new;
        addressed = l.addressed;
        remote = l.remote;
        not_found = l.not_found;
      };
      moved = λ b ids strings signal l. record {
        queued = l.queued;
        raised = l.raised;
        first = l.first;
        new = l.new;
        addressed = l.addressed;
        remote = l.remote;
        not_found = l.not_found;
      };
    }

    -- What the queue's messages are sent from.
    abbrev taken : XBridgeApp → XBridgeApp
    taken a = record a { node = record a.node { messages = [] } }

    send_one-requeues :
        (a : XBridgeApp) → IsLost w m a → send_one g w m (taken a) ≡ some (requeue g w m (taken a))
    unfolding send_one send_to_address send_out is_known_message
    send_one-requeues a l =
        when_false (is_known_message g.sha256 m.body a) _ _ l.new
        ∙ when_false (bytes_eq m.to []) _ _ l.addressed
        ∙ when_none (lookup m.to a.session_addrs) _ _ l.remote
        ∙ ap some (
            ap (λ r. send_out g w r m (taken a)) l.not_found
            ∙ when_false m.searched (taken a) (requeue g w m (taken a)) l.first)

    send_turn-IsLost :
        (a : XBridgeApp)
        → IsLost w m a
        → (b : XBridgeApp) × (send_turn g w a ≡ some b) × IsWaiting m a b
    unfolding send_turn send_messages requeue lower_signal
    send_turn-IsLost a l = (
      lower_signal g w (requeue g w m (taken a)),
      when_true a.node.signal_send _ _ l.raised
          ∙ ap (map_option (lower_signal g w)) (
              ap (λ ms. send_messages g w ms (taken a)) l.queued
              ∙ ap (λ o. o >>= send_messages g w []) (send_one-requeues a l)),
      record {
        queue = refl;
        known = refl;
        addresses = refl;
        network = refl;
        strings = (a.search_strings, refl);
        searching = refl;
      },
    )

  -- A message that has been searched for waits alone, and so does what decides on it.
  record IsHeld (m : Message) (a b : XBridgeApp) : Type 0 where
    queue : b.node.messages ≡ record m { searched = true } ∷ []
    known : b.known ≡ a.known
    addresses : b.session_addrs ≡ a.session_addrs
    network : b.network ≡ a.network

  module _ (m : Message) (a : XBridgeApp) where
    IsHeld-IsApart : IsApart (IsHeld m a)
    IsHeld-IsApart = record {
      raised = λ b h. record {
        queue = h.queue;
        known = h.known;
        addresses = h.addresses;
        network = h.network;
      };
      moved = λ b ids strings signal h. record {
        queue = h.queue;
        known = h.known;
        addresses = h.addresses;
        network = h.network;
      };
    }

    search_done-raises : (b : XBridgeApp) → IsHeld m a b → (search_done b).node.signal_send ≡ true
    unfolding search_done
    search_done-raises b h = rw h.queue refl

    module _ (v : World g.doubles.Double) (decoded : g.base64_decode (g.base64_encode m.to) ≡ m.to)
        (ends : v.search_ends m.to ≡ true) (addressed : bytes_eq m.to [] ≡ false) where
      run_searches-raises :
          (ss : List Bytes) (b : XBridgeApp)
          → IsHeld m a b
          → (run_searches g v (ss ++ g.base64_encode m.to ∷ []) b).node.signal_send ≡ true
      unfolding run_searches run_search
      run_searches-raises [] b h =
          rw (decoded, addressed, ends) (search_done-raises _ (IsHeld-IsApart.moved b _ _ _ h))
      run_searches-raises (s ∷ ss) b h = run_searches-raises ss _ (
          either (IsHeld m a) (bytes_eq (g.base64_decode s) []) _ _ h
            (run_search-keeps (IsHeld m a) IsHeld-IsApart g v (g.base64_decode s) b h))

      search_turn-raises :
          (b : XBridgeApp)
          → IsWaiting m a b
          → ((search_turn g v b).node.signal_send ≡ true) × IsHeld m a (search_turn g v b)
      unfolding search_turn
      search_turn-raises b i =
          let h : IsHeld m a b = record {
            queue = i.queue;
            known = i.known;
            addresses = i.addresses;
            network = i.network;
          } in
          (
            ap (λ x. x.node.signal_send) (when_true b.signal_search _ b i.searching)
                ∙ ap (λ ss. (run_searches g v ss b).node.signal_send) i.strings.1
                ∙ run_searches-raises i.strings.0 b h,
            search_turn-keeps (IsHeld m a) IsHeld-IsApart g v b h,
          )

      -- It is sent for the last time: whatever the network answers, it does not come back.
      send_out-held :
          (r : SendResult) (b : XBridgeApp)
          → let c = send_out g v r (record m { searched = true }) b in
            (c.node.messages ≡ b.node.messages)
            × (c.network ≡ b.network ++ given r (record m { searched = true }))
      unfolding send_out sent_to_network given
      send_out-held SendResult.sent b = (refl, refl)
      send_out-held SendResult.overflow b = (refl, sym (append-nil b.network))
      send_out-held SendResult.failed b = (refl, sym (append-nil b.network))

      send_turn-held :
          (b : XBridgeApp)
          → is_known_message g.sha256 m.body a ≡ false
          → lookup m.to a.session_addrs ≡ none
          → b.node.signal_send ≡ true
          → IsHeld m a b
          → (c : XBridgeApp) × (send_turn g v b ≡ some c)
            × (c.node.messages ≡ [])
            × (c.network
                ≡ a.network ++ given (v.send_message m.to m.body) (record m { searched = true }))
      unfolding send_turn send_messages send_one send_to_address is_known_message lower_signal
      send_turn-held b new remote raised h =
          let again : Message = record m { searched = true } in
          let r = v.send_message m.to m.body in
          let x = send_out g v r again (taken v m b) in
          let goes : send_one g v again (taken v m b) ≡ some x =
            when_false (is_known_message g.sha256 m.body (taken v m b)) _ _
              (ap (λ k. is_known_message g.sha256 m.body (record a { known = k })) h.known ∙ new)
            ∙ when_false (bytes_eq m.to []) _ _ addressed
            ∙ when_none (lookup m.to b.session_addrs) _ _ (ap (lookup m.to) h.addresses ∙ remote) in
          (
            lower_signal g v x,
            when_true b.node.signal_send _ _ raised
                ∙ ap (map_option (lower_signal g v)) (
                    ap (λ ms. send_messages g v ms (taken v m b)) h.queue
                    ∙ ap (λ o. o >>= send_messages g v []) goes),
            (send_out-held r (taken v m b)).0,
            (send_out-held r (taken v m b)).1 ∙ ap (λ ms. ms ++ given r again) h.network,
          )

  search-network :
      (w : World g.doubles.Double) (a : XBridgeApp) → (search_turn g w a).network ≡ a.network
  search-network w a =
      search_turn-keeps (λ b. b.network ≡ a.network)
        (record { raised = λ b h. h; moved = λ b ids strings signal h. h }) g w a refl

  module _ (w v : World g.doubles.Double) (m : Message) (a : XBridgeApp) where
    -- A message that is alone in the queue with the signal to send, has not been searched for,
    -- is not known, and whose address is not empty, is neither local nor found by the network,
    -- and comes back from base64, is sent again in the next turn of the loop, if dht_search
    -- finds the search for its address done there: both turns return, the queue is empty then,
    -- and the network has been given the message if it takes it the second time, and nothing
    -- else; if it does not, the message is dropped.
    pub retry_resends :
        IsLost w m a
        → g.base64_decode (g.base64_encode m.to) ≡ m.to
        → v.search_ends m.to ≡ true
        → (c : XBridgeApp) × (live g ((w, AppEvent.turn) ∷ (v, AppEvent.turn) ∷ []) a ≡ some c)
          × (c.node.messages ≡ [])
          × (c.network
              ≡ a.network ++ given (v.send_message m.to m.body) (record m { searched = true }))
    unfolding live happen loop_turn is_known_message
    retry_resends l decoded ends =
        let start = search_turn g w a in
        let lost = search_turn-keeps (IsLost w m) (IsLost-IsApart w m) g w a l in
        let first = send_turn-IsLost w m start lost in
        let found = search_turn-raises m start v decoded ends l.addressed first.0 first.2 in
        let last =
          send_turn-held m start v decoded ends l.addressed (search_turn g v first.0) lost.new
            lost.remote found.0 found.1 in
        (
          last.0,
          ap (λ o. o >>= live g ((v, AppEvent.turn) ∷ [])) first.1
              ∙ ap (λ o. o >>= live g []) last.1,
          last.2,
          last.3
              ∙ ap (λ ms. ms ++ given (v.send_message m.to m.body) (record m { searched = true }))
                  (search-network w a),
        )
