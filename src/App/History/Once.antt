-- ===== src/App/History/Once.antt =====
-- No message goes to the network twice: m_processedMessages over all that can happen to the program.
use xhubv.Prelude.{
  ℕ, ◌≡◌, ◌≢◌, refl, ap, subst, sym, ◌∙◌, List, [], ◌∷◌, ◌++◌, true, false, All, Option, none, some,
  Bytes, bytes_eq, lookup, Bytes-key, ==_iff, arith, Bool-cases, inl, inr, map_option,
}
use xhubv.Hash.{hash}
use xhubv.Session.{Message}
use xhubv.Session.Updates.{Ensures, Ensures-bind_of, either}
use xhubv.Session.Client.Sound.{by_lookup}
use xhubv.App.Sessions.{XBridgeApp, Program, World, SendResult, known_hash, is_known_message}
use xhubv.App.Loop.{
  sent_to_network, send_to_clients, requeue, send_out, send_to_address, send_broadcast, send_one,
  send_messages, lower_signal, send_turn, search_turn, loop_turn,
}
use xhubv.App.History.{AppEvent, happen, live}
use xhubv.App.History.Searches.{search_turn-keeps}
use xhubv.App.History.Quiet.{
  IsQuiet, is_turn, send_to_clients-IsQuiet, deliver-IsQuiet, happen-IsQuiet,
}

module _ (sha256 : Bytes → Bytes) where
  -- The messages have hashes that differ from each other.
  abbrev pub Apart : List Message → Type 0
  Apart [] = Unit {0}
  Apart (m ∷ ms) = All (λ k. hash sha256 m.body ≢ hash sha256 k.body) ms × Apart ms

  abbrev Known : List ℕ → Message → Type 0
  Known ks m = known_hash (hash sha256 m.body) ks ≡ true

  -- What the network has been given is known, and no message among it is there twice.
  pub record IsOnce (a : XBridgeApp) : Type 0 where
    pub sent_known : All (Known a.known) a.network
    pub apart : Apart a.network

  more-Known :
      (k : ℕ) (ks : List ℕ) (ms : List Message) → All (Known ks) ms → All (Known (k ∷ ks)) ms
  unfolding known_hash
  more-Known k ks [] h = tt
  more-Known k ks (m ∷ ms) h = (ground (arith, h.0), more-Known k ks ms h.1)

  All-snoc :
      (P : Message → Type 0) (ms : List Message) (m : Message)
      → All P ms
      → P m
      → All P (ms ++ m ∷ [])
  All-snoc P [] m h p = (p, tt)
  All-snoc P (k ∷ ms) m h p = (h.0, All-snoc P ms m h.1 p)

  Apart-snoc :
      (ms : List Message) (m : Message) (ks : List ℕ)
      → All (Known ks) ms
      → known_hash (hash sha256 m.body) ks ≡ false
      → Apart ms
      → Apart (ms ++ m ∷ [])
  Apart-snoc [] m ks h new apart = (tt, tt)
  Apart-snoc (k ∷ ms) m ks h new apart = (
    All-snoc (λ x. hash sha256 k.body ≢ hash sha256 x.body) ms m apart.0
        (λ same. cc (ap (λ x. known_hash x ks) same)),
    Apart-snoc ms m ks h.1 new apart.1,
  )

  sent_to_network-IsOnce :
      (m : Message) (a : XBridgeApp)
      → is_known_message sha256 m.body a ≡ false
      → IsOnce a
      → IsOnce (sent_to_network sha256 m a)
  unfolding sent_to_network is_known_message known_hash
  sent_to_network-IsOnce m a new o = record {
    sent_known =
        All-snoc (Known (hash sha256 m.body ∷ a.known)) a.network m
          (more-Known (hash sha256 m.body) a.known a.network o.sent_known)
          (ground (arith, ==_iff (hash sha256 m.body) (hash sha256 m.body)));
    apart = Apart-snoc a.network m a.known o.sent_known new o.apart;
  }

  IsQuiet-IsOnce : (a b : XBridgeApp) → IsQuiet a b → IsOnce a → IsOnce b
  IsQuiet-IsOnce a b q o = record {
    sent_known =
        subst (λ ks. All (Known ks) b.network) (sym q.known)
          (subst (All (Known a.known)) (sym q.network) o.sent_known);
    apart = subst Apart (sym q.network) o.apart;
  }

module _ (g : Program) (w : World g.doubles.Double) where
  abbrev P : XBridgeApp → Type 0
  P = IsOnce g.sha256

  quiet : (a : XBridgeApp) (r : Option XBridgeApp) → P a → Ensures (IsQuiet a) r → Ensures P r
  quiet a none o q = tt
  quiet a (some b) o q = IsQuiet-IsOnce g.sha256 a b q o

  send_out-IsOnce :
      (r : SendResult) (m : Message) (a : XBridgeApp)
      → is_known_message g.sha256 m.body a ≡ false
      → P a
      → P (send_out g w r m a)
  unfolding send_out requeue
  send_out-IsOnce SendResult.sent m a new o = sent_to_network-IsOnce g.sha256 m a new o
  send_out-IsOnce SendResult.overflow m a new o = o
  send_out-IsOnce SendResult.failed m a new o =
      either P m.searched _ _ o (record { sent_known = o.sent_known; apart = o.apart })

  send_broadcast-IsOnce :
      (m : Message) (a : XBridgeApp)
      → is_known_message g.sha256 m.body a ≡ false
      → P a
      → Ensures P (send_broadcast g w m a)
  unfolding send_broadcast is_known_message
  send_broadcast-IsOnce m a new o =
      Ensures-bind_of (IsQuiet a) P (send_to_clients g w a.session_ids m.body a) _
        (send_to_clients-IsQuiet g w a a.session_ids m.body a
          (record { known = refl; network = refl }))
        (λ b q.
          sent_to_network-IsOnce g.sha256 m b (ap (known_hash (hash g.sha256 m.body)) q.known ∙ new)
            (IsQuiet-IsOnce g.sha256 a b q o))

  send_to_address-IsOnce :
      (m : Message) (a : XBridgeApp)
      → is_known_message g.sha256 m.body a ≡ false
      → P a
      → Ensures P (send_to_address g w m a)
  unfolding send_to_address
  send_to_address-IsOnce m a new o =
      by_lookup (Ensures P) (lookup m.to a.session_addrs) _ _
        (send_out-IsOnce (w.send_message m.to m.body) m a new o)
        (λ ptr. quiet a _ o (deliver-IsQuiet g w a ptr m.body))

  send_one-IsOnce : (m : Message) (a : XBridgeApp) → P a → Ensures P (send_one g w m a)
  unfolding send_one
  send_one-IsOnce m a o = elim (Bool-cases (is_known_message g.sha256 m.body a)) [
    | inl old ↦ rw old o
    | inr new ↦ rw new (
        either (Ensures P) (bytes_eq m.to []) _ _ (send_broadcast-IsOnce m a new o)
          (send_to_address-IsOnce m a new o))
  ]

  send_messages-IsOnce :
      (ms : List Message) (a : XBridgeApp) → P a → Ensures P (send_messages g w ms a)
  unfolding send_messages
  send_messages-IsOnce [] a o = o
  send_messages-IsOnce (m ∷ ms) a o =
      Ensures-bind_of P P (send_one g w m a) _ (send_one-IsOnce m a o)
        (λ b q. send_messages-IsOnce ms b q)

  lowered : (r : Option XBridgeApp) → Ensures P r → Ensures P (map_option (lower_signal g w) r)
  unfolding lower_signal
  lowered none h = tt
  lowered (some a) h = record { sent_known = h.sent_known; apart = h.apart }

  loop_turn-IsOnce : (a : XBridgeApp) → P a → Ensures P (loop_turn g w a)
  unfolding loop_turn send_turn
  loop_turn-IsOnce a h =
      let same : P (search_turn g w a) =
        search_turn-keeps P
          (record {
            raised = λ b o. record { sent_known = o.sent_known; apart = o.apart };
            moved = λ b ids strings signal o. record { sent_known = o.sent_known; apart = o.apart };
          })
          g w a h in
      let b = search_turn g w a in
      either (Ensures P) b.node.signal_send _ _
        (lowered _ (
          send_messages-IsOnce b.node.messages _
            (record { sent_known = same.sent_known; apart = same.apart })))
        same

  turn-IsOnce :
      (e : AppEvent) → is_turn e ≡ true → (a : XBridgeApp) → P a → Ensures P (happen g w e a)
  unfolding happen
  turn-IsOnce AppEvent.turn t a o = loop_turn-IsOnce a o
  turn-IsOnce _ t a o = cc

  happen-IsOnce : (e : AppEvent) (a : XBridgeApp) → P a → Ensures P (happen g w e a)
  happen-IsOnce e a o = elim (Bool-cases (is_turn e)) [
    | inl turning ↦ turn-IsOnce e turning a o
    | inr other ↦ quiet a _ o (happen-IsQuiet g w a e other)
  ]

module _ (g : Program) where
  -- Over any sequence of what can happen to the program, no message goes to the network twice:
  -- from a state in which everything that the network was given is known and the hashes of it
  -- differ, every state that is reached has the same property.
  pub live-IsOnce :
      (es : List (World g.doubles.Double × AppEvent)) (a : XBridgeApp)
      → IsOnce g.sha256 a
      → Ensures (IsOnce g.sha256) (live g es a)
  unfolding live
  live-IsOnce [] a h = h
  live-IsOnce ((w, e) ∷ es) a h =
      Ensures-bind_of (IsOnce g.sha256) (IsOnce g.sha256) (happen g w e a) _
        (happen-IsOnce g w e a h) (λ b q. live-IsOnce es b q)
