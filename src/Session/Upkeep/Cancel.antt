-- ===== src/Session/Upkeep/Cancel.antt =====
-- processTransactionCancel and the keys of the orders.
use xhubv.Prelude.{
  ℕ, ◌≡◌, ◌≢◌, refl, ap, ◌∙◌, arith, true, false, Option, none, some, Bytes, length, ltb, lookup,
  ℕ-key, lookup-erase, ◌==◌, ==_iff, Option-cases, inl, inr, if◌then◌else◌, when_false, when_true,
}
use xhubv.Packet.{Packet, size}
use xhubv.Transaction.{Transaction, hash1, hash2, is_expired, try_join}
use xhubv.Exchange.{
  Exchange, Order, is_enabled, delete_pending_transactions, order_transaction, add_pending,
  meet_pending, create_transaction,
}
use xhubv.Exchange.Invariant.{create_alone, create_meet}
use xhubv.Exchange.Matching.{IsPartner, create_transaction-waits}
use xhubv.Session.{Node, DescrState, uint256_at, send_packet, send_packet_broadcast}
use xhubv.Session.Upkeep.{process_transaction_cancel, cancel_mine, set_descr_state}
use xhubv.Session.Updates.{Yields, either}

pub exchange-set_descr_state :
    (ptr : ℕ) (s : DescrState) (n : Node) → (set_descr_state ptr s n).exchange ≡ n.exchange
unfolding set_descr_state
exchange-set_descr_state ptr s n = elim (Option-cases (lookup ptr n.heap)) [
  | inl absent ↦ rw (set_descr_state, absent) refl
  | inr (d, found) ↦ rw (set_descr_state, found) refl
]

-- The client's half leaves the exchange alone.
exchange-cancel_mine :
    (p : Packet) (mine : Option ℕ) (n : Node) → (cancel_mine p mine n).0.exchange ≡ n.exchange
unfolding cancel_mine send_packet_broadcast send_packet
exchange-cancel_mine p none n = refl
exchange-cancel_mine p (some ptr) n = exchange-set_descr_state ptr DescrState.tr_cancelled n

not_same : (a b : ℕ) → a ≢ b → (a == b) ≡ false
not_same a b h = ground (arith, ==_iff a b)

-- A packet from which processTransactionCancel reads `id`.
pub record IsCancel (id : ℕ) (p : Packet) : Type 0 where
  pub sized : size p ≡ 32
  pub read : uint256_at 0 p ≡ some id

lookup-process_transaction_cancel :
    (p : Packet) (n : Node) (id k : ℕ)
    → is_enabled n.exchange ≡ true
    → IsCancel id p
    → Yields
        (λ r.
          lookup k r.0.exchange.pending ≡ (if id == k then none else lookup k n.exchange.pending))
        (process_transaction_cancel p n)
unfolding process_transaction_cancel delete_pending_transactions
lookup-process_transaction_cancel p n id k on c =
    rw (c.sized, c.read, on)
      (
        _,
        refl,
        ap (λ e. lookup k e.pending) (exchange-cancel_mine p _ _)
            ∙ lookup-erase id k n.exchange.pending,
      )

module _ (sha256 : Bytes → Bytes) (now : ℕ) (o : Order) where
  abbrev tr : Transaction
  tr = order_transaction now o

  meet_pending-wallets :
      (old : Transaction) (e : Exchange) → (meet_pending sha256 now tr old e).0.wallets ≡ e.wallets
  unfolding meet_pending add_pending
  meet_pending-wallets old e =
      let same : Exchange × ℕ → Type 0 = λ r. r.0.wallets ≡ e.wallets in
      either same (is_expired now old) _ _ refl
        (either same (try_join sha256 old tr).1 _ _ refl refl)

  create_transaction-wallets :
      (e : Exchange) → (create_transaction sha256 now o e).0.wallets ≡ e.wallets
  unfolding add_pending
  create_transaction-wallets e = elim (Option-cases (lookup (hash2 sha256 tr) e.pending)) [
    | inl nobody ↦ rw (create_alone sha256 now o e nobody) refl
    | inr (old, found) ↦ rw (create_meet sha256 now o old e found) (meet_pending-wallets old e)
  ]

  -- After an order has been placed by createTransaction in an enabled exchange in which no order
  -- is its partner, a cancel packet with the id that the client gave the order leaves it
  -- pending, if this id is not the hash1 of the order; a cancel packet with the hash1 takes it
  -- out. Both runs return.
  pub cancel_needs_hash :
      (n : Node) (p q : Packet)
      → is_enabled n.exchange ≡ true
      → ((h : ℕ) (old : Transaction) → ¬ IsPartner now o h old n.exchange)
      → IsCancel o.id p
      → IsCancel (hash1 sha256 tr) q
      → o.id ≢ hash1 sha256 tr
      → let placed = record n { exchange = (create_transaction sha256 now o n.exchange).0 } in
        Yields
          (λ r. lookup (hash1 sha256 tr) r.0.exchange.pending ≡ some tr)
          (process_transaction_cancel p placed)
        × Yields
            (λ r. lookup (hash1 sha256 tr) r.0.exchange.pending ≡ none)
            (process_transaction_cancel q placed)
  unfolding is_enabled
  cancel_needs_hash n p q on alone by_id by_hash other =
      let h = hash1 sha256 tr in
      let placed : Node = record n { exchange = (create_transaction sha256 now o n.exchange).0 } in
      let still : is_enabled placed.exchange ≡ true =
        ap (λ l. ltb 0 (length l)) (create_transaction-wallets n.exchange) ∙ on in
      let kept = lookup-process_transaction_cancel p placed o.id h still by_id in
      let gone = lookup-process_transaction_cancel q placed h h still by_hash in
      (
        (
          kept.0,
          kept.1,
          kept.2
              ∙ when_false (o.id == h) _ _ (not_same o.id h other)
              ∙ (create_transaction-waits sha256 now o n.exchange alone).3,
        ),
        (gone.0, gone.1, gone.2 ∙ when_true (h == h) _ _ ((==_iff h h).1 refl)),
      )
