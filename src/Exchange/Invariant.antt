-- ===== src/Exchange/Invariant.antt =====
-- What holds of the exchange between two calls: orders stand under their own hash and are new, trades
-- stand under their own id, and no key stands twice.
use xhubv.Prelude.{
  ℕ, ◌≡◌, refl, sym, subst, Bool, true, false, List, [], ◌∷◌, none, some, Bytes, lookup, erase,
  insert, ℕ-key, IsMap, Each, erase-IsMap, insert-IsMap, assign-IsMap, erase-Each, insert-Each,
  assign-Each, lookup-Each, assign_absent, Option-cases, Bool-cases, inl, inr,
}
use xhubv.Transaction.{
  State, Transaction, hash1, hash2, try_join, is_expired, new_transaction, is_valid, confirm,
}
use xhubv.Transaction.Join.{try_join_done}
use xhubv.Transaction.Trades.{IsTrade, confirm-IsTrade}
use xhubv.Exchange.{
  Exchange, Order, order_transaction, new_exchange, init, add_pending, meet_pending,
  create_transaction, delete_pending_transactions, delete_transaction, transaction, store,
  update_transaction, confirm_seen, member,
}

transaction_found :
    (id : ℕ) (t : Transaction) (e : Exchange)
    → lookup id e.transactions ≡ some t
    → transaction id e ≡ t
unfolding transaction
transaction_found id t e found = rw (found, transaction)

is_valid-order : (now : ℕ) (o : Order) → is_valid (order_transaction now o) ≡ true
unfolding new_transaction is_valid
is_valid-order now o = refl

-- The two cases of createTransaction: nobody under hash2, or an order that is met there.
module _ (sha256 : Bytes → Bytes) (now : ℕ) (o : Order) where
  pub create_alone :
      (e : Exchange)
      → lookup (hash2 sha256 (order_transaction now o)) e.pending ≡ none
      → create_transaction sha256 now o e
        ≡ (add_pending sha256 (order_transaction now o) e, 0, true)
  unfolding create_transaction
  create_alone e nobody = rw (is_valid-order now o) (rw (nobody, create_transaction) refl)

  pub create_meet :
      (old : Transaction) (e : Exchange)
      → lookup (hash2 sha256 (order_transaction now o)) e.pending ≡ some old
      → create_transaction sha256 now o e
        ≡ (let (e', id) = meet_pending sha256 now (order_transaction now o) old e in (e', id, true))
  unfolding create_transaction
  create_meet old e found = rw (is_valid-order now o) (rw (found, create_transaction) refl)

module _ (sha256 : Bytes → Bytes) where
  -- An order that waits for its counterpart.
  pub record IsOrder (h : ℕ) (t : Transaction) : Type 0 where
    pub hashed : hash1 sha256 t ≡ h
    pub waiting : t.state ≡ State.tr_new
    pub first_flag : t.first_changed ≡ false
    pub second_flag : t.second_changed ≡ false

  pub record IsSound (e : Exchange) : Type 0 where
    pub orders : Each IsOrder e.pending
    pub trades : Each IsTrade e.transactions
    pub orders_map : IsMap e.pending
    pub trades_map : IsMap e.transactions

  -- The unconfirmed hashes are no part of it.
  pub with_unconfirmed :
      {e : Exchange} {u : List (ℕ × ℕ)} → IsSound e → IsSound (record e { unconfirmed = u })
  with_unconfirmed s = record {
    orders = s.orders;
    trades = s.trades;
    orders_map = s.orders_map;
    trades_map = s.trades_map;
  }

  pub new_exchange-IsSound : IsSound new_exchange
  unfolding new_exchange
  new_exchange-IsSound = record { orders = tt; trades = tt; orders_map = tt; trades_map = tt }

  pub init-IsSound :
      (enabled : Bool) (ws : _) {e : Exchange} → IsSound e → IsSound (init enabled ws e)
  unfolding init
  init-IsSound true ws s = record {
    orders = s.orders;
    trades = s.trades;
    orders_map = s.orders_map;
    trades_map = s.trades_map;
  }
  init-IsSound false ws s = s

  order_transaction-IsOrder :
      (now : ℕ) (o : Order)
      → IsOrder (hash1 sha256 (order_transaction now o)) (order_transaction now o)
  unfolding new_transaction
  order_transaction-IsOrder now o = record {
    hashed = refl;
    waiting = refl;
    first_flag = refl;
    second_flag = refl;
  }

  add_pending-IsSound :
      {e : Exchange} (t : Transaction)
      → IsOrder (hash1 sha256 t) t
      → IsSound e
      → IsSound (add_pending sha256 t e)
  unfolding add_pending
  add_pending-IsSound {e} t o s = record {
    orders = insert-Each IsOrder (hash1 sha256 t) t e.pending o s.orders;
    trades = s.trades;
    orders_map = insert-IsMap (hash1 sha256 t) t e.pending s.orders_map;
    trades_map = s.trades_map;
  }

  pub delete_pending-IsSound :
      (id : ℕ) {e : Exchange} → IsSound e → IsSound (delete_pending_transactions id e)
  unfolding delete_pending_transactions
  delete_pending-IsSound id {e} s = record {
    orders = erase-Each IsOrder id e.pending s.orders;
    trades = s.trades;
    orders_map = erase-IsMap id e.pending s.orders_map;
    trades_map = s.trades_map;
  }

  pub delete_transaction-IsSound :
      (id : ℕ) {e : Exchange} → IsSound e → IsSound (delete_transaction id e)
  unfolding delete_transaction
  delete_transaction-IsSound id {e} s = record {
    orders = s.orders;
    trades = erase-Each IsTrade id e.transactions s.trades;
    orders_map = s.orders_map;
    trades_map = erase-IsMap id e.transactions s.trades_map;
  }

  -- The object of a trade changes to one that is still that trade; a new object is dropped.
  pub store-IsSound :
      (id : ℕ) (t' : Transaction) {e : Exchange}
      → IsSound e
      → (IsTrade id (transaction id e) → IsTrade id t')
      → IsSound (store id t' e)
  unfolding store
  store-IsSound id t' {e} s keep = elim (Option-cases (lookup id e.transactions)) [
    | inl absent ↦ rw (assign_absent id t' e.transactions absent) s
    | inr (t, found) ↦ record {
      orders = s.orders;
      trades =
          assign-Each IsTrade id t' e.transactions
            (keep (
              rw (transaction_found id t e found)
                (lookup-Each IsTrade id e.transactions t s.trades found)))
            s.trades;
      orders_map = s.orders_map;
      trades_map = assign-IsMap id t' e.transactions s.trades_map;
    }
  ]

  joined-IsTrade :
      {h : ℕ} {old : Transaction} (tr : Transaction)
      → IsOrder h old
      → (try_join sha256 old tr).1 ≡ true
      → IsTrade (try_join sha256 old tr).0.id (try_join sha256 old tr).0
  joined-IsTrade {h} {old} tr o done =
      subst (λ u. IsTrade u.id u) (sym (try_join_done sha256 old tr done))
        (record { keyed = refl; started = refl; apart = rw o.first_flag refl })

  insert_trade-IsSound :
      (t : Transaction) (id : ℕ) {e : Exchange}
      → IsTrade t.id t
      → IsSound e
      → IsSound
          (record e { transactions = insert t.id t e.transactions; pending = erase id e.pending })
  insert_trade-IsSound t id {e} trade s = record {
    orders = erase-Each IsOrder id e.pending s.orders;
    trades = insert-Each IsTrade t.id t e.transactions trade s.trades;
    orders_map = erase-IsMap id e.pending s.orders_map;
    trades_map = insert-IsMap t.id t e.transactions s.trades_map;
  }

  meet_pending-IsSound :
      (now : ℕ) (tr old : Transaction) {e : Exchange}
      → IsOrder (hash1 sha256 tr) tr
      → lookup (hash2 sha256 tr) e.pending ≡ some old
      → IsSound e
      → IsSound (meet_pending sha256 now tr old e).0
  unfolding meet_pending
  meet_pending-IsSound now tr old {e} o found s = elim (Bool-cases (is_expired now old)) [
    | inl late ↦ rw late (
        add_pending-IsSound tr o
          (unfold delete_pending_transactions in delete_pending-IsSound (hash2 sha256 tr) s))
    | inr fresh ↦ elim (Bool-cases (try_join sha256 old tr).1) [
      | inl done ↦
          rw (fresh, done)
            (insert_trade-IsSound (try_join sha256 old tr).0 (hash2 sha256 tr)
              (joined-IsTrade tr
                (lookup-Each IsOrder (hash2 sha256 tr) e.pending old s.orders found) done)
              s)
      | inr refused ↦ rw (fresh, refused) (add_pending-IsSound tr o s)
    ]
  ]

  -- createTransaction keeps the exchange sound, on each of its branches.
  pub create_transaction-IsSound :
      (now : ℕ) (o : Order) {e : Exchange}
      → IsSound e
      → IsSound (create_transaction sha256 now o e).0
  create_transaction-IsSound now o {e} s =
      let tr = order_transaction now o in
      let order = order_transaction-IsOrder now o in
      elim (Option-cases (lookup (hash2 sha256 tr) e.pending)) [
        | inl nobody ↦ rw (create_alone sha256 now o e nobody) (add_pending-IsSound tr order s)
        | inr (old, found) ↦
            rw (create_meet sha256 now o old e found)
              (meet_pending-IsSound now tr old order found s)
      ]

  confirm_seen-IsSound : (l : List (ℕ × ℕ)) {e : Exchange} → IsSound e → IsSound (confirm_seen l e)
  unfolding confirm_seen
  confirm_seen-IsSound [] s = s
  confirm_seen-IsSound ((h, id) ∷ l) {e} s = elim (Bool-cases (member h e.wallet_transactions)) [
    | inl seen ↦ rw seen (
        confirm_seen-IsSound l (
          with_unconfirmed
            (store-IsSound id (confirm h (transaction id e)).0 s (λ t. confirm-IsTrade t h))))
    | inr unseen ↦ rw unseen (confirm_seen-IsSound l s)
  ]

  pub update_transaction-IsSound :
      (h : ℕ) {e : Exchange} → IsSound e → IsSound (update_transaction h e)
  unfolding update_transaction
  update_transaction-IsSound h {e} s = confirm_seen-IsSound e.unconfirmed (record {
    orders = s.orders;
    trades = s.trades;
    orders_map = s.orders_map;
    trades_map = s.trades_map;
  })
